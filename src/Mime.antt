-- ===== src/Mime.antt =====
-- MIME messages under mime/.
pub mod Decoder
pub mod Base64
pub mod QuotedPrintable
pub mod Parser
pub mod ParserLaws
mod Tests
