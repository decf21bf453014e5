-- ===== src/Dns/Names.antt =====
-- What dns/dns_packet.cpp reads at a position whose bytes are known.
use email_server_backend.Base.{
  ℕ, zero, suc, ◌+◌, ◌*◌, ◌≤◌, ◌<◌, ◌≡◌, refl, ◌∙◌, ap, true, false, List, [], ◌∷◌, ◌++◌,
  append_assoc, Bytes, drop, length, length-append, take-append, ltb, leb, ◌==◌, arith, All,
}
use email_server_backend.Dns.Packet.{
  Read, got, byte_at, bytes_at, read16, read32, add_label, read_part, read_name,
}

-- The bytes from a position on.
abbrev pub At : Bytes → ℕ → Bytes → Type 0
At buf off t = drop off buf ≡ t

pub At-next : (buf : Bytes) (off : ℕ) (b : ℕ) (t : Bytes) → At buf off (b ∷ t) → At buf (off + 1) t
At-next [] zero b t h = cc
At-next [] (suc off) b t h = cc
At-next (c ∷ buf) zero b t h = ground (arith, h)
At-next (c ∷ buf) (suc off) b t h =
    let e : suc off + 1 ≡ suc (off + 1) = omega arith in rw e (At-next buf off b t h)

pub At-skip :
    (buf : Bytes) (off : ℕ) (x t : Bytes) → At buf off (x ++ t) → At buf (off + length x) t
At-skip buf off [] t h = ap (λ (k : ℕ). drop k buf) (let e : off + 0 ≡ off = omega arith in e) ∙ h
At-skip buf off (b ∷ x) t h =
    let e : off + suc (length x) ≡ (off + 1) + length x = omega arith in
    rw e (At-skip buf (off + 1) x t (At-next buf off b (x ++ t) h))

pub byte_at-At :
    (buf : Bytes) (off b : ℕ) (t : Bytes) → At buf off (b ∷ t) → byte_at buf off ≡ got b
unfolding byte_at
byte_at-At buf off b t h = rw (h, byte_at) refl

-- The next three bytes.
At-next2 : (buf : Bytes) (off a b : ℕ) (t : Bytes) → At buf off (a ∷ b ∷ t) → At buf (off + 2) t
At-next2 buf off a b t h = At-skip buf off (a ∷ b ∷ []) t h

At-next3 :
    (buf : Bytes) (off a b c : ℕ) (t : Bytes) → At buf off (a ∷ b ∷ c ∷ t) → At buf (off + 3) t
At-next3 buf off a b c t h = At-skip buf off (a ∷ b ∷ c ∷ []) t h

pub read16-At :
    (buf : Bytes) (off a b : ℕ) (t : Bytes)
    → At buf off (a ∷ b ∷ t)
    → read16 buf off ≡ got (a * 256 + b, off + 2)
unfolding read16
read16-At buf off a b t h =
    rw (byte_at-At buf off a (b ∷ t) h)
      (rw (byte_at-At buf (off + 1) b t (At-next buf off a (b ∷ t) h)) refl)

pub four_bytes :
    (buf : Bytes) (off a b c d : ℕ) (t : Bytes)
    → At buf off (a ∷ b ∷ c ∷ d ∷ t)
    → (byte_at buf off ≡ got a)
      × ((byte_at buf (off + 1) ≡ got b)
          × ((byte_at buf (off + 2) ≡ got c) × (byte_at buf (off + 3) ≡ got d)))
four_bytes buf off a b c d t h = (
  byte_at-At buf off a (b ∷ c ∷ d ∷ t) h,
  (
    byte_at-At buf (off + 1) b (c ∷ d ∷ t) (At-next buf off a (b ∷ c ∷ d ∷ t) h),
    (
      byte_at-At buf (off + 2) c (d ∷ t) (At-next2 buf off a b (c ∷ d ∷ t) h),
      byte_at-At buf (off + 3) d t (At-next3 buf off a b c (d ∷ t) h),
    ),
  ),
)

pub read32-At :
    (buf : Bytes) (off a b c d : ℕ) (t : Bytes)
    → At buf off (a ∷ b ∷ c ∷ d ∷ t)
    → read32 buf off ≡ got (((a * 256 + b) * 256 + c) * 256 + d, off + 4)
unfolding read32
read32-At buf off a b c d t h =
    let bs = four_bytes buf off a b c d t h in rw bs.0 (rw bs.1.0 (rw bs.1.1.0 (rw bs.1.1.1 refl)))

length-At :
    (buf : Bytes) (off : ℕ) (x t : Bytes)
    → 0 < length x
    → At buf off (x ++ t)
    → off + length x ≤ length buf
length-At [] zero [] t p h = omega arith
length-At [] zero (c ∷ x) t p h = cc
length-At [] (suc off) [] t p h = omega arith
length-At [] (suc off) (c ∷ x) t p h = cc
length-At (c ∷ buf) zero x t p h = omega (arith, ap length h, length-append x t)
length-At (c ∷ buf) (suc off) x t p h = omega (arith, length-At buf off x t p h)

bytes_at-At :
    (buf : Bytes) (off : ℕ) (x t : Bytes)
    → 0 < length x
    → At buf off (x ++ t)
    → bytes_at buf off (length x) ≡ got x
unfolding bytes_at
bytes_at-At buf off x t p h =
    let inside : ltb (length buf) (off + length x) ≡ false =
      ground (arith, length-At buf off x t p h) in
    rw (inside, h, take-append x t) refl

-- The labels of a name as RFC 1035 writes them: each with its length, and a zero behind them.
abbrev pub encode : List Bytes → Bytes
encode [] = 0 ∷ []
encode (l ∷ ls) = length l ∷ (l ++ encode ls)

-- A label has one byte to 63.
abbrev pub IsLabel : Bytes → Type 0
IsLabel l = (0 < length l) × (length l < 64)

-- The name that the loop makes of labels, with the name so far.
abbrev pub join : Bytes → List Bytes → Bytes
join name [] = name
join name (l ∷ ls) = join (add_label name l) ls

read_part-label :
    (again : ℕ → Bytes → Read (Bytes × ℕ)) (buf : Bytes) (off : ℕ) (name l t : Bytes)
    → IsLabel l
    → At buf (off + 1) (l ++ t)
    → read_part again buf off name (length l) ≡ again (off + 1 + length l) (add_label name l)
unfolding read_part
read_part-label again buf off name l t h e =
    let long : (length l == 0) ≡ false = ground (arith, h.0) in
    let plain : leb 192 (length l) ≡ false = ground (arith, h.1) in
    rw (long, plain, bytes_at-At buf (off + 1) l t h.0 e) refl

pub read_name-encode :
    (fuel : ℕ) (buf : Bytes) (max off : ℕ) (name : Bytes) (ls : List Bytes) (t : Bytes)
    → length ls < fuel
    → All IsLabel ls
    → At buf off (encode ls ++ t)
    → off + length (encode ls) ≤ max
    → read_name fuel buf max off name ≡ got (join name ls, off + length (encode ls))
unfolding read_name
read_name-encode zero buf max off name ls t f h e m = absurd (omega arith)
read_name-encode (suc fuel) buf max off name [] t f h e m =
    let inside : ltb off max ≡ true = ground arith in
    rw (inside, byte_at-At buf off 0 t e) (unfold read_part in refl)
read_name-encode (suc fuel) buf max off name (l ∷ ls) t f (hl, hs) e m =
    let inside : ltb off max ≡ true = ground (arith, length-append l (encode ls)) in
    let next : At buf (off + 1) (l ++ (encode ls ++ t)) =
      At-next buf off (length l) ((l ++ encode ls) ++ t) e ∙ append_assoc l (encode ls) t in
    let sum : off + 1 + length l + length (encode ls) ≡ off + suc (length (l ++ encode ls)) =
      omega (arith, length-append l (encode ls)) in
    rw (inside, byte_at-At buf off (length l) ((l ++ encode ls) ++ t) e)
      (read_part-label (read_name fuel buf max) buf off name l (encode ls ++ t) hl next
        ∙ (read_name-encode fuel buf max (off + 1 + length l) (add_label name l) ls t (omega arith)
              hs (At-skip buf (off + 1) l (encode ls ++ t) next) (omega (arith, sum))
            ∙ ap (λ (k : ℕ). got (join (add_label name l) ls, k)) sum))
