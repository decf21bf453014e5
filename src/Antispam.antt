-- ===== src/Antispam.antt =====
-- Sender authentication under antispam/: SPF records and their evaluation, DMARC, and the results
-- that go into the Authentication-Results header.
pub mod Results
pub mod SpfParser
pub mod SpfEvaluator
pub mod SpfBounds
pub mod SpfResults
mod Tests
pub mod SpfRoundTrip
pub mod SpfPrefix
pub mod Dmarc
pub mod DmarcLaws
