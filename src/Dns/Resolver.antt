-- ===== src/Dns/Resolver.antt =====
-- dns/dns_resolver.cpp. `exchange` is the socket: what was sent gives the 512 bytes of the buffer
-- and
-- how many were received, where a failure is the largest number, as the cast of -1 makes it.
use email_server_backend.Base.{ℕ, ◌/◌, ◌%◌, List, [], ◌∷◌, ◌++◌, Bytes, ◌==◌, if◌then◌else◌}
use email_server_backend.Dns.Packet.{
  Read, got, ◌>>=◌, DnsAnswer, type_a, type_txt, parse_dns_response,
}

-- The loop over the characters of the name.
unfoldable pub name_bytes : Bytes → Bytes
name_bytes [] = []
name_bytes (c ∷ cs) = (if c == b'.' then 0 else c) ∷ name_bytes cs

-- The identifier is what the calls of `rand` give.
unfoldable pub build_query : ℕ → ℕ → Bytes → ℕ → Bytes
unfolding name_bytes
build_query r0 r1 name type =
    r0 % 256
    ∷ r1 % 256
    ∷ 1
    ∷ 0
    ∷ 0
    ∷ 1
    ∷ 0
    ∷ 0
    ∷ 0
    ∷ 0
    ∷ 0
    ∷ 0
    ∷ (name_bytes name ++ 0 ∷ type / 256 ∷ type % 256 ∷ 0 ∷ 1 ∷ [])

-- The data of the answers of this type.
unfoldable pub of_type : ℕ → List DnsAnswer → List Bytes
of_type type [] = []
of_type type (a ∷ as') =
    let rest = of_type type as' in if a.type == type then a.content ∷ rest else rest

module _ (exchange : Bytes → Bytes × ℕ) (fuel r0 r1 : ℕ) where
  unfoldable pub query : Bytes → ℕ → Read (List Bytes)
  unfolding build_query of_type
  query name type =
      let received = exchange (build_query r0 r1 name type) in
      parse_dns_response fuel received.0 received.1 >>= λ pkt. got (of_type type pkt.answers)

  unfoldable pub lookup_a : Bytes → Read (List Bytes)
  unfolding query
  lookup_a name = query name type_a

  unfoldable pub lookup_txt : Bytes → Read (List Bytes)
  unfolding query
  lookup_txt name = query name type_txt
