-- ===== src/Dns/Tests.antt =====
-- Runs of the resolver under dns/.
use email_server_backend.Base.{
  ℕ, zero, suc, ◌≡◌, refl, [], ◌∷◌, List, Bytes, text, map, arith, drop,
}
use email_server_backend.Dns.Packet.{got, unfinished}
use email_server_backend.Dns.Resolver.{query, lookup_a, build_query}
use email_server_backend.Dns.Endless.{query-endless}
use email_server_backend.Dns.Answers.{Address, text_of, response, lookup_a-response}

abbrev zeros : ℕ → Bytes
zeros zero = []
zeros (suc n) = 0 ∷ zeros n

-- A response of 512 bytes whose question points to itself.
abbrev looping : Bytes → Bytes × ℕ
looping sent = (7 ∷ 7 ∷ 0x81 ∷ 0x80 ∷ 0 ∷ 1 ∷ 0 ∷ 0 ∷ 0 ∷ 0 ∷ 0 ∷ 0 ∷ 192 ∷ 12 ∷ zeros 498, 512)

query-endless_example : query looping 1000 7 7 (text "a.b") 1 ≡ unfinished
query-endless_example =
    query-endless looping 1000 7 7 (text "a.b") 1 7 7 0x81 0x80 0 1 0 0 0 0 0 0 (zeros 498) 512 refl
      (omega arith) (omega arith)

abbrev labels : List Bytes
unfolding text
labels = text "mx" ∷ text "example" ∷ text "org" ∷ []

abbrev addresses : List Address
addresses =
    record { a = 192; b = 0; c = 2; d = 1; t0 = 0; t1 = 0; t2 = 1; t3 = 44 }
    ∷ record { a = 192; b = 0; c = 2; d = 2; t0 = 0; t1 = 0; t2 = 1; t3 = 44 }
    ∷ []

abbrev server : Bytes → Bytes × ℕ
server sent = (response 7 7 0x81 0x80 0 1 0 1 labels addresses (zeros 444), 512)

lookup_a-response_example :
    lookup_a server 6 7 7 (text "mx.example.org") ≡ got (map text_of addresses)
unfolding labels text
lookup_a-response_example =
    lookup_a-response server 6 7 7 (text "mx.example.org") 7 7 0x81 0x80 0 1 0 1 labels addresses
      (zeros 444) 512 refl (ground arith) (omega arith) (omega arith) (omega arith)

-- In a query the labels have no lengths: it says "a", a zero and "b", and not 1, "a", 1 and "b".
no_lengths : drop 12 (build_query 7 7 (text "a.b") 1) ≡ b'a' ∷ 0 ∷ b'b' ∷ 0 ∷ 0 ∷ 1 ∷ 0 ∷ 1 ∷ []
unfolding build_query text
no_lengths = refl
