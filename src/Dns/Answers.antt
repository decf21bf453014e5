-- ===== src/Dns/Answers.antt =====
-- The addresses that the resolver under dns/ reads from a well-formed response.
use email_server_backend.Base.{
  ℕ, zero, suc, ◌+◌, ◌*◌, ◌/◌, ◌%◌, ◌≤◌, ◌<◌, ◌≡◌, refl, ap, true, List, [], ◌∷◌, ◌++◌, Bytes, map,
  length, ltb, arith, All,
}
use email_server_backend.Dns.Packet.{
  got, follow, read_part, read_name, DnsAnswer, dotted, read_address, read_data, read_answers,
  parse_dns_response, type_a,
}
use email_server_backend.Dns.Resolver.{query, lookup_a, of_type, build_query}
use email_server_backend.Dns.Names.{
  At, At-skip, byte_at-At, read16-At, read32-At, four_bytes, encode, IsLabel, join,
  read_name-encode,
}

-- An address with its time to live.
pub record Address : Type 0 where
  pub a : ℕ
  pub b : ℕ
  pub c : ℕ
  pub d : ℕ
  pub t0 : ℕ
  pub t1 : ℕ
  pub t2 : ℕ
  pub t3 : ℕ

-- An answer of type A, whose name is a pointer to the name of the question.
abbrev pub encode_address : Address → Bytes → Bytes
encode_address x rest =
    192 ∷ 12 ∷ 0 ∷ 1 ∷ 0 ∷ 1 ∷ x.t0 ∷ x.t1 ∷ x.t2 ∷ x.t3 ∷ 0 ∷ 4 ∷ x.a ∷ x.b ∷ x.c ∷ x.d ∷ rest

abbrev pub encode_addresses : List Address → Bytes → Bytes
encode_addresses [] rest = rest
encode_addresses (x ∷ xs) rest = encode_address x (encode_addresses xs rest)

abbrev pub text_of : Address → Bytes
text_of x = dotted x.a x.b x.c x.d

abbrev answer_of : Bytes → Address → DnsAnswer
answer_of name x = record {
  name = name;
  type = 1;
  ttl = ((x.t0 * 256 + x.t1) * 256 + x.t2) * 256 + x.t3;
  content = text_of x;
}

module _ (buf : Bytes) (max : ℕ) (ls : List Bytes) (q : Bytes) (labels : All IsLabel ls)
    (question : At buf 12 (encode ls ++ q)) (room : 12 + length (encode ls) ≤ max) where
  read_name-pointer :
      (fuel off : ℕ) (t : Bytes)
      → length ls + 1 < fuel
      → off < max
      → At buf off (192 ∷ 12 ∷ t)
      → read_name fuel buf max off [] ≡ got (join [] ls, off + 2)
  unfolding read_name read_part follow
  read_name-pointer zero off t f m h = absurd (omega arith)
  read_name-pointer (suc fuel) off t f m h =
      let inside : ltb off max ≡ true = ground arith in
      let first = byte_at-At buf off 192 (12 ∷ t) h in
      let second = byte_at-At buf (off + 1) 12 t (At-skip buf off (192 ∷ []) (12 ∷ t) h) in
      rw (inside, first)
        (rw second
          (rw (read_name-encode fuel buf max 12 [] ls q (omega arith) labels question room) refl))

  read_data-address :
      (off : ℕ) (x : Address) (t : Bytes)
      → At buf off (x.a ∷ x.b ∷ x.c ∷ x.d ∷ t)
      → read_data buf off 1 4 ≡ got (text_of x)
  unfolding read_data read_address
  read_data-address off x t h =
      let bs = four_bytes buf off x.a x.b x.c x.d t h in
      rw bs.0 (rw bs.1.0 (rw bs.1.1.0 (rw bs.1.1.1 refl)))

  read_answers-addresses :
      (fuel off : ℕ) (xs : List Address) (t : Bytes)
      → length ls + 1 < fuel
      → off + 16 * length xs ≤ max
      → At buf off (encode_addresses xs t)
      → read_answers fuel (length xs) buf max off ≡ got (map (answer_of (join [] ls)) xs)
  unfolding read_answers
  read_answers-addresses fuel off [] t f m h = refl
  read_answers-addresses fuel off (x ∷ xs) t f m h =
      let rest = encode_addresses xs t in
      let content = x.a ∷ x.b ∷ x.c ∷ x.d ∷ rest in
      let len = 0 ∷ 4 ∷ content in
      let ttl = x.t0 ∷ x.t1 ∷ x.t2 ∷ x.t3 ∷ len in
      let type = 0 ∷ 1 ∷ 0 ∷ 1 ∷ ttl in
      let at_type : At buf (off + 2) type = At-skip buf off (192 ∷ 12 ∷ []) type h in
      let at_class = At-skip buf (off + 2) (0 ∷ 1 ∷ []) (0 ∷ 1 ∷ ttl) at_type in
      let at_ttl = At-skip buf (off + 2 + 2) (0 ∷ 1 ∷ []) ttl at_class in
      let at_len = At-skip buf (off + 2 + 2 + 2) (x.t0 ∷ x.t1 ∷ x.t2 ∷ x.t3 ∷ []) len at_ttl in
      let at_content = At-skip buf (off + 2 + 2 + 2 + 4) (0 ∷ 4 ∷ []) content at_len in
      let at_rest =
        At-skip buf (off + 2 + 2 + 2 + 4 + 2) (x.a ∷ x.b ∷ x.c ∷ x.d ∷ []) rest at_content in
      let later =
        read_answers-addresses fuel (off + 2 + 2 + 2 + 4 + 2 + 4) xs t f (omega (arith, m))
          at_rest in
      rw (read_name-pointer fuel off type f (omega (arith, m)) h) (
        rw (read16-At buf (off + 2) 0 1 (0 ∷ 1 ∷ ttl) at_type) (
          rw (read32-At buf (off + 2 + 2 + 2) x.t0 x.t1 x.t2 x.t3 len at_ttl) (
            rw (read16-At buf (off + 2 + 2 + 2 + 4) 0 4 content at_len) (
              rw (read_data-address (off + 2 + 2 + 2 + 4 + 2) x rest at_content) (rw later refl)))))

of_type-addresses :
    (name : Bytes) (xs : List Address) → of_type 1 (map (answer_of name) xs) ≡ map text_of xs
unfolding of_type
of_type-addresses name [] = refl
of_type-addresses name (x ∷ xs) = rw (of_type-addresses name xs) refl

-- A response with one question, under the labels, and these addresses, in front of the rest of the
-- buffer.
abbrev pub response : ℕ → ℕ → ℕ → ℕ → ℕ → ℕ → ℕ → ℕ → List Bytes → List Address → Bytes → Bytes
response i0 i1 f0 f1 q0 q1 q2 q3 ls xs rest =
    i0
    ∷ i1
    ∷ f0
    ∷ f1
    ∷ 0
    ∷ 1
    ∷ length xs / 256
    ∷ length xs % 256
    ∷ 0
    ∷ 0
    ∷ 0
    ∷ 0
    ∷ (encode ls ++ q0 ∷ q1 ∷ q2 ∷ q3 ∷ encode_addresses xs rest)

-- Where the answer to a query for addresses is a response with one question, under labels of 1 to
-- 63 bytes, and up to 65,535 addresses whose names are pointers to the one of the question, all
-- within the length received, the query ends, with two rounds more than there are labels, and gives
-- exactly these addresses in their order, whatever is behind them in the buffer.
pub lookup_a-response :
    (exchange : Bytes → Bytes × ℕ) (fuel r0 r1 : ℕ) (name : Bytes) (i0 i1 f0 f1 q0 q1 q2 q3 : ℕ)
    (ls : List Bytes) (xs : List Address) (rest : Bytes) (max : ℕ)
    → exchange (build_query r0 r1 name type_a) ≡ (response i0 i1 f0 f1 q0 q1 q2 q3 ls xs rest, max)
    → All IsLabel ls
    → length xs < 65536
    → 12 + length (encode ls) + 4 + 16 * length xs ≤ max
    → length ls + 1 < fuel
    → lookup_a exchange fuel r0 r1 name ≡ got (map text_of xs)
unfolding lookup_a query parse_dns_response
lookup_a-response exchange fuel r0 r1 name i0 i1 f0 f1 q0 q1 q2 q3 ls xs rest max e labels few room
      f =
    let buf = response i0 i1 f0 f1 q0 q1 q2 q3 ls xs rest in
    let question = q0 ∷ q1 ∷ q2 ∷ q3 ∷ encode_addresses xs rest in
    let start = 12 + length (encode ls) in
    let behind : At buf (start + 4) (encode_addresses xs rest) =
      At-skip buf start (q0 ∷ q1 ∷ q2 ∷ q3 ∷ []) (encode_addresses xs rest)
        (At-skip buf 12 (encode ls) question refl) in
    let count : length xs / 256 * 256 + length xs % 256 ≡ length xs = omega arith in
    let asked =
      read_name-encode fuel buf max 12 [] ls question (omega arith) labels refl (omega arith) in
    let answers =
      read_answers-addresses buf max ls question labels refl (omega arith) fuel (start + 4) xs rest
        f room behind in
    rw (e, parse_dns_response)
      (rw asked (rw count (rw answers (ap got (of_type-addresses (join [] ls) xs)))))
