-- ===== src/Smtp/Slots.antt =====
-- The places that smtp/smtp_server.cpp takes in the connection manager.
use email_server_backend.Base.{
  ℕ, zero, suc, ◌≡◌, ◌∙◌, refl, ap, Bool, true, false, ◌&&◌, List, [], ◌∷◌, arith, Bytes,
  if◌then◌else◌,
}
use email_server_backend.Integers.{ℤ, pos, negsuc}
use email_server_backend.Core.ConnectionManager.{
  Manager, increment, decrement, acquire_ip, try_acquire, release,
}
use email_server_backend.Smtp.Server.{
  Server, admit, SessionEnd, limit_session, end_thread, Client, serve_one, serve_clients,
}

decrement-increment : (z : ℤ) → decrement (increment z) ≡ z
decrement-increment (pos n) = refl
decrement-increment (negsuc zero) = refl
decrement-increment (negsuc (suc n)) = refl

release-active :
    (ip : Bytes) (m : Manager) → (release ip m).active_connections ≡ decrement m.active_connections
unfolding release
release-active ip m = ground arith

acquire_ip-active :
    (now : ℕ) (ip : Bytes) (m : Manager)
    → (acquire_ip now ip m).1.active_connections ≡ m.active_connections
unfolding acquire_ip
acquire_ip-active now ip m = ground arith

try_acquire-active :
    (now : ℕ) (ip : Bytes) (m : Manager)
    → (try_acquire now ip m).1.active_connections
      ≡ (if (try_acquire now ip m).0 then increment m.active_connections else m.active_connections)
unfolding try_acquire
try_acquire-active now ip m = ground (arith, acquire_ip-active now ip m)

abbrev active : Server → ℤ
active s = s.manager.active_connections

admit-active :
    (now client : ℕ) (ip : Bytes) (s : Server)
    → active (admit now client ip s).1
      ≡ (if (admit now client ip s).0 then increment (active s) else active s)
unfolding admit
admit-active now client ip s = ground (
  arith,
  try_acquire-active now ip s.manager,
  release-active ip (try_acquire now ip s.manager).1,
  decrement-increment (active s),
)

abbrev pub is_handshake_failure : SessionEnd → Bool
is_handshake_failure SessionEnd.handshake_failed = true
is_handshake_failure SessionEnd.returned = false
is_handshake_failure SessionEnd.threw = false

end_thread-active :
    (now client : ℕ) (ip : Bytes) (end : SessionEnd) (s : Server)
    → active (end_thread now client ip end s)
      ≡ (if is_handshake_failure end then active s else decrement (active s))
unfolding end_thread
end_thread-active now client ip SessionEnd.handshake_failed s = refl
end_thread-active now client ip SessionEnd.returned s = release-active ip s.manager
end_thread-active now client ip SessionEnd.threw s = release-active ip s.manager

limit_session-manager :
    (now : ℕ) (ip : Bytes) (end : SessionEnd) (s : Server)
    → (limit_session now ip end s).manager ≡ s.manager
unfolding limit_session
limit_session-manager now ip SessionEnd.handshake_failed s = refl
limit_session-manager now ip SessionEnd.returned s = refl
limit_session-manager now ip SessionEnd.threw s = refl

-- An admitted client whose handshake fails.
abbrev pub is_lost : Client → Server → Bool
is_lost c s = (admit c.accepted c.socket c.ip s).0 && is_handshake_failure c.outcome

abbrev pub lost : List Client → Server → ℕ
lost [] s = 0
lost (c ∷ cs) s = let rest = lost cs (serve_one c s) in if is_lost c s then suc rest else rest

abbrev pub add_slots : ℕ → ℤ → ℤ
add_slots zero z = z
add_slots (suc n) z = add_slots n (increment z)

serve_one-active :
    (c : Client) (s : Server)
    → active (serve_one c s) ≡ (if is_lost c s then increment (active s) else active s)
unfolding serve_one
serve_one-active c s = ground (
  arith,
  admit-active c.accepted c.socket c.ip s,
  limit_session-manager c.begun c.ip c.outcome (admit c.accepted c.socket c.ip s).1,
  end_thread-active c.ended c.socket c.ip c.outcome
      (limit_session c.begun c.ip c.outcome (admit c.accepted c.socket c.ip s).1),
  decrement-increment (active s),
)

add_slots-if :
    (n : ℕ) (b : Bool) (z : ℤ)
    → add_slots n (if b then increment z else z) ≡ add_slots (if b then suc n else n) z
add_slots-if n true z = refl
add_slots-if n false z = refl

-- A client that is served to its end, or turned away, gives back its place among the active
-- connections, with one exception: after any sequence of clients, served one after the other, the
-- count is higher by exactly the number of clients that were admitted and then failed in the
-- handshake of SMTPS.
pub serve_clients-active :
    (cs : List Client) (s : Server)
    → (serve_clients cs s).manager.active_connections
      ≡ add_slots (lost cs s) s.manager.active_connections
unfolding serve_clients
serve_clients-active [] s = refl
serve_clients-active (c ∷ cs) s =
    serve_clients-active cs (serve_one c s)
    ∙ (ap (add_slots (lost cs (serve_one c s))) (serve_one-active c s)
        ∙ add_slots-if (lost cs (serve_one c s)) (is_lost c s) (active s))
