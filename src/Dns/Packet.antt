-- ===== src/Dns/Packet.antt =====
-- dns/dns_packet.cpp over the 512 bytes of the buffer. A read behind the buffer is a fault, and a
-- name that is not read with the fuel given is unfinished.
use email_server_backend.Base.{
  ℕ, zero, suc, ◌+◌, ◌*◌, ◌%◌, ◌&&◌, List, [], ◌∷◌, ◌++◌, Bytes, is_empty, take, drop, length, ltb,
  leb, ◌==◌, if◌then◌else◌, to_string,
}

pub data Read {ℓ} (A : Type ℓ) : Type ℓ where
  got : A → Read A
  fault unfinished : Read A

infixl 5 ◌>>=◌
abbrev pub ◌>>=◌ {ℓ κ} : {A : Type ℓ} {B : Type κ} → Read A → (A → Read B) → Read B
got a >>= f = f a
fault >>= f = fault
unfinished >>= f = unfinished

-- `buf[off]`, and `n` bytes from there on.
unfoldable pub byte_at : Bytes → ℕ → Read ℕ
byte_at buf off = elim (drop off buf) [ [] ↦ fault | b ∷ _ ↦ got b ]

unfoldable pub bytes_at : Bytes → ℕ → ℕ → Read Bytes
bytes_at buf off n = if ltb (length buf) (off + n) then fault else got (take n (drop off buf))

-- The value, and the offset behind it.
unfoldable pub read16 : Bytes → ℕ → Read (ℕ × ℕ)
unfolding byte_at
read16 buf off = do a ← byte_at buf off; b ← byte_at buf (off + 1); got (a * 256 + b, off + 2)

unfoldable pub read32 : Bytes → ℕ → Read (ℕ × ℕ)
unfolding byte_at
read32 buf off = do
  a ← byte_at buf off
  b ← byte_at buf (off + 1)
  c ← byte_at buf (off + 2)
  d ← byte_at buf (off + 3)
  got (((a * 256 + b) * 256 + c) * 256 + d, off + 4)

-- Where the label that is read goes to the name so far.
unfoldable pub add_label : Bytes → Bytes → Bytes
unfolding is_empty
add_label name label = if is_empty name then label else name ++ b'.' ∷ label

-- The name behind a pointer, and the offset behind the pointer.
unfoldable pub follow : (ℕ → Bytes → Read (Bytes × ℕ)) → ℕ → Bytes → ℕ → ℕ → Read (Bytes × ℕ)
follow again off name len low = do
  rest ← again ((len % 64) * 256 + low) []
  got (name ++ rest.0, off + 2)

-- One round of the loop of `readName` after it has read a length, with the rounds to come.
unfoldable pub read_part : (ℕ → Bytes → Read (Bytes × ℕ)) → Bytes → ℕ → Bytes → ℕ → Read (Bytes × ℕ)
unfolding byte_at bytes_at add_label follow
read_part again buf off name len =
    if len == 0
    then got (name, off + 1)
    else if leb 192 len
    then byte_at buf (off + 1) >>= follow again off name len
    else bytes_at buf (off + 1) len >>= λ label. again (off + 1 + len) (add_label name label)

-- The loop of `readName`, with the name so far; a pointer is a call of its own.
unfoldable pub read_name : ℕ → Bytes → ℕ → ℕ → Bytes → Read (Bytes × ℕ)
unfolding byte_at read_part
read_name zero buf max off name = unfinished
read_name (suc fuel) buf max off name =
    if ltb off max
    then byte_at buf off >>= read_part (read_name fuel buf max) buf off name
    else got (name, off)

pub record DnsAnswer : Type 0 where
  pub name : Bytes
  pub type : ℕ
  pub ttl : ℕ
  pub content : Bytes

pub record DnsPacket : Type 0 where
  pub id : ℕ
  pub rcode : ℕ
  pub answers : List DnsAnswer

abbrev pub type_a : ℕ
type_a = 1

abbrev pub type_txt : ℕ
type_txt = 16

-- "%u.%u.%u.%u".
unfoldable pub dotted : ℕ → ℕ → ℕ → ℕ → Bytes
unfolding to_string
dotted a b c d =
    to_string a ++ (b'.' ∷ (to_string b ++ (b'.' ∷ (to_string c ++ b'.' ∷ to_string d))))

unfoldable pub read_address : Bytes → ℕ → Read Bytes
unfolding byte_at dotted
read_address buf off = do
  a ← byte_at buf off
  b ← byte_at buf (off + 1)
  c ← byte_at buf (off + 2)
  d ← byte_at buf (off + 3)
  got (dotted a b c d)

unfoldable pub read_text : Bytes → ℕ → Read Bytes
unfolding byte_at bytes_at
read_text buf off = do n ← byte_at buf off; bytes_at buf (off + 1) n

-- The data of an answer.
unfoldable pub read_data : Bytes → ℕ → ℕ → ℕ → Read Bytes
unfolding read_address read_text
read_data buf off type len =
    if type == type_a && len == 4
    then read_address buf off
    else if type == type_txt
    then read_text buf off
    else got []

unfoldable pub skip_questions : ℕ → ℕ → Bytes → ℕ → ℕ → Read ℕ
unfolding read_name
skip_questions fuel zero buf max off = got off
skip_questions fuel (suc n) buf max off = do
  r ← read_name fuel buf max off []
  skip_questions fuel n buf max (r.1 + 4)

unfoldable pub read_answers : ℕ → ℕ → Bytes → ℕ → ℕ → Read (List DnsAnswer)
unfolding read_name read16 read32 read_data
read_answers fuel zero buf max off = got []
read_answers fuel (suc n) buf max off = do
  name ← read_name fuel buf max off []
  type ← read16 buf name.1
  ttl ← read32 buf (type.1 + 2)
  len ← read16 buf ttl.1
  content ← read_data buf len.1 type.0 len.0
  rest ← read_answers fuel n buf max (len.1 + len.0)
  got (record { name = name.0; type = type.0; ttl = ttl.0; content = content } ∷ rest)

unfoldable pub parse_dns_response : ℕ → Bytes → ℕ → Read DnsPacket
unfolding read16 skip_questions read_answers
parse_dns_response fuel buf max = do
  id ← read16 buf 0
  flags ← read16 buf 2
  qd ← read16 buf 4
  an ← read16 buf 6
  ns ← read16 buf 8
  ar ← read16 buf 10
  off ← skip_questions fuel qd.0 buf max 12
  answers ← read_answers fuel an.0 buf max off
  got (record { id = id.0; rcode = flags.0 % 16; answers = answers })
