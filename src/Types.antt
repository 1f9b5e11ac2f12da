-- ===== src/Types.antt =====
-- src/types: the values that the client hands to its user, one module for each file.
pub mod Wire
pub mod Flag
pub mod Mailbox
pub mod Capabilities
pub mod Quota
pub mod IdGenerator
pub mod Fetch
