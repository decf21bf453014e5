-- ===== src/Imap.antt =====
-- The flags of messages under imap/.
pub mod FlagsIndex
pub mod FlagsFile
pub mod FlagsLaws
pub mod Session
pub mod Login
pub mod Commands
pub mod Server
pub mod Run
mod Tests
mod SessionTests
