-- ===== src/Runtime.antt =====
-- Package runtime (internal/runtime/runtime.go): the life cycle of a lab.
pub mod Names
pub mod Host
pub mod Ping
pub mod Env
pub mod Cleanup
pub mod Console
pub mod Links
pub mod Dataplane
pub mod Commands
pub mod Up
