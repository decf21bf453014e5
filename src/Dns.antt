-- ===== src/Dns.antt =====
-- The resolver under dns/: the query that it sends, and the answer that it reads.
mod Packet
mod Resolver
mod Names
mod Endless
mod Answers
mod Tests
