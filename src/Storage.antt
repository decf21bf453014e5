-- ===== src/Storage.antt =====
-- The mailboxes on disk: storage/mail_store.cpp, and the retroactive actions of
-- retro/retro_manager.cpp.
pub mod Files
pub mod MailStore
pub mod Names
pub mod Paths
pub mod Writes
pub mod Mailboxes
pub mod Collisions
mod Tests
