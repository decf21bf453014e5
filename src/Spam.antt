-- ===== src/Spam.antt =====
-- The score of a message under spam/, and the reputations under threat_intel/ that add to it.
mod Reputation
mod Rules
mod Engine
mod Sums
mod Scores
mod Tests
