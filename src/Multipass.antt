-- ===== src/Multipass.antt =====
-- Package internal/multipass: the guest instance, its image, and the commands run in it.
pub mod Shell
pub mod Client
pub mod Request
pub mod Manager
pub mod Image
pub mod Archive
