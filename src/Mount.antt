-- ===== src/Mount.antt =====
-- Mounting: the table at boot (cmd/asterkube-init/mount_linux.go), /etc/fstab (fstab_linux.go) and
-- the mount and umount commands (mount_applet_linux.go).
pub mod Options
pub mod Applet
pub mod Fstab
pub mod Boot
mod Samples
