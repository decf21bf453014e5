-- ===== src/Dns/Endless.antt =====
-- A compression pointer that dns/dns_packet.cpp follows for ever.
use email_server_backend.Base.{
  ℕ, zero, suc, ◌+◌, ◌*◌, ◌%◌, ◌≤◌, ◌<◌, ◌≡◌, refl, ◌∙◌, ap, true, false, [], ◌∷◌, Bytes, ltb, leb,
  ◌==◌, arith,
}
use email_server_backend.Dns.Packet.{
  Read, got, unfinished, byte_at, read_part, read_name, skip_questions, parse_dns_response,
}
use email_server_backend.Dns.Resolver.{query, build_query}

-- The bytes at a position are a pointer to this position.
pub record PointsToItself (buf : Bytes) (p : ℕ) : Type 0 where
  pub high : ℕ
  pub low : ℕ
  pub first : byte_at buf p ≡ got high
  pub second : byte_at buf (p + 1) ≡ got low
  pub mark : 192 ≤ high
  pub target : (high % 64) * 256 + low ≡ p

read_part-pointer :
    (again : ℕ → Bytes → Read (Bytes × ℕ)) (buf : Bytes) (off : ℕ) (name : Bytes) (len low : ℕ)
    → 192 ≤ len
    → byte_at buf (off + 1) ≡ got low
    → again ((len % 64) * 256 + low) [] ≡ unfinished
    → read_part again buf off name len ≡ unfinished
unfolding read_part
read_part-pointer again buf off name len low h e r =
    let long : (len == 0) ≡ false = ground arith in
    let pointer : leb 192 len ≡ true = ground arith in rw (long, pointer, e) (rw r refl)

read_name-endless :
    (fuel : ℕ) (buf : Bytes) (max p : ℕ) (name : Bytes)
    → p < max
    → PointsToItself buf p
    → read_name fuel buf max p name ≡ unfinished
unfolding read_name
read_name-endless zero buf max p name h q = refl
read_name-endless (suc fuel) buf max p name h q =
    let inside : ltb p max ≡ true = ground arith in
    rw (inside, q.first)
      (read_part-pointer (read_name fuel buf max) buf p name q.high q.low q.mark q.second (
        ap (λ (k : ℕ). read_name fuel buf max k []) q.target
        ∙ read_name-endless fuel buf max p [] h q))

skip_questions-endless :
    (fuel n : ℕ) (buf : Bytes) (max p : ℕ)
    → 0 < n
    → p < max
    → PointsToItself buf p
    → skip_questions fuel n buf max p ≡ unfinished
unfolding skip_questions
skip_questions-endless fuel zero buf max p z h q = absurd (omega arith)
skip_questions-endless fuel (suc n) buf max p z h q =
    rw (read_name-endless fuel buf max p [] h q) refl

-- Where the answer to a query has a first question whose name, within the length received, is a
-- pointer to itself, the query does not end: no number of steps is enough, as each call of readName
-- makes another one.
pub query-endless :
    (exchange : Bytes → Bytes × ℕ) (fuel r0 r1 : ℕ) (name : Bytes) (type : ℕ)
    (h0 h1 h2 h3 h4 h5 h6 h7 h8 h9 h10 h11 : ℕ) (rest : Bytes) (max : ℕ)
    → exchange (build_query r0 r1 name type)
      ≡ (h0 ∷ h1 ∷ h2 ∷ h3 ∷ h4 ∷ h5 ∷ h6 ∷ h7 ∷ h8 ∷ h9 ∷ h10 ∷ h11 ∷ 192 ∷ 12 ∷ rest, max)
    → 0 < h4 * 256 + h5
    → 12 < max
    → query exchange fuel r0 r1 name type ≡ unfinished
unfolding query parse_dns_response
query-endless exchange fuel r0 r1 name type h0 h1 h2 h3 h4 h5 h6 h7 h8 h9 h10 h11 rest max e q m =
    let buf = h0 ∷ h1 ∷ h2 ∷ h3 ∷ h4 ∷ h5 ∷ h6 ∷ h7 ∷ h8 ∷ h9 ∷ h10 ∷ h11 ∷ 192 ∷ 12 ∷ rest in
    let itself : PointsToItself buf 12 =
      unfold byte_at in
      record {
        high = 192;
        low = 12;
        first = refl;
        second = refl;
        mark = omega arith;
        target = refl;
      } in
    let skips = skip_questions-endless fuel (h4 * 256 + h5) buf max 12 q m itself in
    rw (e, parse_dns_response, skips) refl
