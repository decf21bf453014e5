-- ===== src/Delivery.antt =====
-- The delivery of queued messages to other servers, under delivery/.
pub mod SmtpClient
pub mod Transcript
pub mod Queue
mod Tests
