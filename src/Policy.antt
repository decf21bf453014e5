-- ===== src/Policy.antt =====
-- The policies for messages under policy/.
pub mod Attachments
pub mod Verdicts
mod Tests
