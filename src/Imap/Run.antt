-- ===== src/Imap/Run.antt =====
-- How a client of imap/imap_server.cpp is served.
use email_server_backend.Base.{ℕ, suc, ◌≡◌, ◌≤◌, List, [], ◌∷◌, length, if◌then◌else◌}
use email_server_backend.Imap.Session.{Env, Event, Session}
use email_server_backend.Imap.Login.{IsGenuine, Throws}
use email_server_backend.Imap.Server.{Outcome}

abbrev pub closes_of : List Event → ℕ
closes_of [] = 0
closes_of (Event.closes ∷ es) = suc (closes_of es)
closes_of (Event.sent tls line ∷ es) = closes_of es

-- A socket that is closed was closed once.
abbrev pub IsTidy : ℕ → Session → Type 0
IsTidy n s = (closes_of s.trace ≡ (if s.sock_open then 0 else 1)) × (length s.input ≤ n)

-- The final states: the socket was closed once, if it is closed, and a login is genuine.
abbrev pub IsFinal : Env → Session → Type 0
IsFinal env s = (closes_of s.trace ≡ (if s.sock_open then 0 else 1)) × IsGenuine env s

abbrev pub Ends : Env → (Session → Type 0) → Outcome → Type 0
Ends env P (Outcome.ended s) = P s
Ends env P Outcome.terminated = Throws env
Ends env P Outcome.out_of_fuel = ⊥
