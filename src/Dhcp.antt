-- ===== src/Dhcp.antt =====
-- The DHCP client of cmd/asterkube-init/dhcp_linux.go.
pub mod Packet
pub mod Options
pub mod Receive
pub mod Client
pub mod Loop
pub mod Configure
mod Samples
mod BootSamples
