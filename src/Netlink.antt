-- ===== src/Netlink.antt =====
-- The RTNETLINK client of cmd/asterkube-init/netlink_linux.go.
pub mod Attr
pub mod Message
pub mod Socket
pub mod Requests
pub mod Dump
mod Samples
