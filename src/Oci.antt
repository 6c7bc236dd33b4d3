-- ===== src/Oci.antt =====
-- The container runtime that stands in for runc, cmd/asterkube-init/ociruntime_linux.go.
pub mod Paths
pub mod Spec
pub mod Signals
pub mod Cgroup
pub mod Containers
pub mod Create
pub mod Controls
pub mod Programs
pub mod Rootfs
pub mod Init
pub mod Exec
pub mod Commands
mod Samples
