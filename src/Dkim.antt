-- ===== src/Dkim.antt =====
-- DKIM signatures under antispam/: the canonical forms of a body and of headers, the header that
-- the signer writes, and the verifier. OpenSSL and the resolver are parameters.
mod Canon
mod Signer
mod Verifier
mod Lines
mod BodyLaws
mod Marks
mod Tags
mod Verdicts
mod Tests
