-- ===== src/Client.antt =====
-- src/client.rs and the extensions of it in src/extensions.
pub mod Exec
pub mod Quote
pub mod Connection
pub mod Session
pub mod Mailboxes
pub mod Messages
pub mod Login
pub mod Idle
pub mod Steps
pub mod Faults
