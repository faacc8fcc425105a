-- ===== src/Tests.antt =====
-- Runs of the theorems on concrete data.
mod Data
mod Config
mod Runtime
mod Netlink
mod Multipass
mod Files
mod Docker
