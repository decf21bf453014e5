-- ===== src/Smtp.antt =====
-- The SMTP session of smtp/smtp_session.h and smtp/smtp_session.cpp.
pub mod Link
pub mod Session
pub mod Handlers
pub mod Message
pub mod Dispatch
pub mod Run
pub mod Lines
pub mod Transfer
pub mod Sizes
pub mod Data
pub mod Delivery
pub mod Trace
pub mod Policy
pub mod Lifetime
pub mod Samples
pub mod Server
pub mod Slots
mod ServerTests
mod Tests
