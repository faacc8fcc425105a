-- ===== src/Netlink.antt =====
-- Package internal/netlink: the bridges and veths of the host, and the devices in a router's network
-- namespace (internal/netlink/netlink.go).
pub mod Kernel
pub mod Links
pub mod Host
pub mod Guest
pub mod Manager
pub mod Stable
pub mod Handles
pub mod Order
pub mod Configured
pub mod Bond
pub mod Bridges
pub mod Accepted
