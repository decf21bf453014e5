-- ===== src/Smtp/Transfer.antt =====
-- The message transfer of `handleData` in smtp/smtp_session.cpp: what it may end with, and that it
-- reads back every message that a client sends with dot-stuffing.
use email_server_backend.Base.{
  ℕ, zero, suc, ◌+◌, ◌*◌, ◌≤◌, ◌<◌, ◌≡◌, refl, ap, ◌∙◌, inl, inr, false, List, [], ◌∷◌, ◌++◌, arith,
  Bytes, text, length, length-append, All, Bool-cases, ltb, ◌==◌, if◌then◌else◌, bytes_eq,
  bytes_eq_refl, map, append_assoc, append-nil,
}
use email_server_backend.Smtp.Link.{Link, Recv, byte, Received, got, ended, read_line, max_line}
use email_server_backend.Smtp.Lines.{
  Plain, Continues, ReceivedInv, read_line-ReceivedInv, crlf, read_line-crlf,
}
use email_server_backend.Smtp.Message.{
  Transfer, complete, oversized, too_complex, out_of_fuel, unstuff, collect_line, collect,
}

-- How a transfer that began on link `l` with the limit `max` may end.
abbrev pub TransferInv : ℕ → Link → Transfer → Type 0
TransferInv max l (complete message l') = (length message ≤ max) × Continues l l'
TransferInv max l (oversized l') = Continues l l'
TransferInv max l (too_complex l') = ⊥
TransferInv max l out_of_fuel = ⊥

length-unstuff : (line : Bytes) → length (unstuff line) ≤ length line
unfolding unstuff
length-unstuff [] = omega arith
length-unstuff (c ∷ cs) = ground arith

Continues-later :
    (l l' l'' : Link)
    → l' ≡ record l { input = l'.input }
    → length l'.input < length l.input
    → Continues l' l''
    → Continues l l''
Continues-later l l' l'' e h c = record {
  same_tls = c.same_tls ∙ ap (λ (k : Link). k.tls_active) e;
  same_open = c.same_open ∙ ap (λ (k : Link). k.is_open) e;
  read = omega (arith, c.read);
  told = ground (arith, c.told, e);
}

TransferInv-later :
    (max : ℕ) (l l' : Link) (t : Transfer)
    → l' ≡ record l { input = l'.input }
    → length l'.input < length l.input
    → TransferInv max l' t
    → TransferInv max l t
TransferInv-later max l l' (complete m k) e h i = (i.0, Continues-later l l' k e h i.1)
TransferInv-later max l l' (oversized k) e h i = Continues-later l l' k e h i
TransferInv-later max l l' (too_complex k) e h i = i
TransferInv-later max l l' out_of_fuel e h i = i

Continues-got :
    (l l' : Link)
    → l' ≡ record l { input = l'.input }
    → length l'.input < length l.input
    → Continues l l'
Continues-got l l' e h = record {
  same_tls = ap (λ (k : Link). k.tls_active) e;
  same_open = ap (λ (k : Link). k.is_open) e;
  read = omega arith;
  told = inl (ap (λ (k : Link). k.trace) e);
}

-- The text grows by less than the size that is counted.
step_fits :
    (size : ℕ) (message content : Bytes)
    → length message ≤ size
    → length (message ++ (content ++ b'\n' ∷ [])) ≤ size + (length content + 2)
step_fits size message content h =
    omega (arith, length-append message (content ++ b'\n' ∷ []), length-append content (b'\n' ∷ []))

module _ (max size : ℕ) (message : Bytes) (next : ℕ → Bytes → Link → Transfer) (l : Link)
    (fits : length message ≤ size) (below : size ≤ max)
    (later : (size' : ℕ) (message' : Bytes) (l' : Link)
      → length l'.input < length l.input
      → length message' ≤ size'
      → size' ≤ max
      → TransferInv max l' (next size' message' l')) where
  collect_line-TransferInv :
      (r : Received) → ReceivedInv l r → TransferInv max l (collect_line max size message next r)
  unfolding collect_line
  collect_line-TransferInv (ended l') h = (omega arith, h)
  collect_line-TransferInv (got line l') h = elim (Bool-cases (bytes_eq line (text "."))) [
    | inl e ↦ rw e (omega arith, Continues-got l l' h.2 h.3)
    | inr e ↦ rw e (
        let content = unstuff line in
        let size' = size + (length content + 2) in
        elim (Bool-cases (ltb max size')) [
          | inl g ↦ rw g (Continues-got l l' h.2 h.3)
          | inr g ↦ rw g (elim (Bool-cases (ltb (max * 2) (length message))) [
            | inl k ↦ absurd (ground arith)
            | inr k ↦ rw k (
                TransferInv-later max l l' _ h.2 h.3 (
                  later size' (message ++ (content ++ b'\n' ∷ [])) l' h.3
                    (step_fits size message content fits) (ground arith)))
          ])
        ])
  ]

-- A transfer with more fuel than input ends by its own tests, never by the memory check, and a
-- complete message is within the limit.
pub collect-TransferInv :
    (fuel max size : ℕ) (message : Bytes) (l : Link)
    → length l.input < fuel
    → length message ≤ size
    → size ≤ max
    → TransferInv max l (collect fuel max size message l)
unfolding collect
collect-TransferInv zero max size message l f m s = elim f [ ]
collect-TransferInv (suc fuel) max size message l f m s =
    collect_line-TransferInv max size message (collect fuel max) l m s
      (λ size' message' l' h m' s'.
        collect-TransferInv fuel max size' message' l' (omega arith) m' s')
      (read_line l) (read_line-ReceivedInv l)

-- What a client sends for a line: one more dot before a leading dot.
abbrev pub stuff : Bytes → Bytes
stuff [] = []
stuff (c ∷ cs) = if c == b'.' then b'.' ∷ c ∷ cs else c ∷ cs

unstuff-stuff : (line : Bytes) → unstuff (stuff line) ≡ line
unfolding unstuff
unstuff-stuff [] = refl
unstuff-stuff (c ∷ cs) = ground arith

stuff-ne-dot : (line : Bytes) → bytes_eq (stuff line) (text ".") ≡ false
unfolding bytes_eq text
stuff-ne-dot [] = refl
stuff-ne-dot (c ∷ cs) = ground arith

-- The lines of a message as a client sends them, and then `tail`.
abbrev pub lines_then : List Bytes → List Recv → List Recv
lines_then [] tail = tail
lines_then (l ∷ ls) tail = map byte (stuff l) ++ crlf (lines_then ls tail)

-- A whole message: its lines and the final dot, and then `rest`.
abbrev pub wire : List Bytes → List Recv → List Recv
wire lines rest = lines_then lines (byte b'.' ∷ crlf rest)

-- The message that the lines stand for, and its size as the limit counts it.
abbrev pub joined : List Bytes → Bytes
joined [] = []
joined (l ∷ ls) = l ++ b'\n' ∷ joined ls

abbrev pub counted_size : List Bytes → ℕ
counted_size [] = 0
counted_size (l ∷ ls) = length l + 2 + counted_size ls

-- A line that fits in a line of the protocol.
abbrev pub Sendable : Bytes → Type 0
Sendable l = All Plain (stuff l) × (length (stuff l) ≤ max_line)

read_line-dot :
    (l : Link) (rest : List Recv)
    → read_line (record l { input = byte b'.' ∷ crlf rest })
      ≡ got (text ".") (record l { input = rest })
unfolding text
read_line-dot l rest =
    read_line-crlf l (b'.' ∷ []) rest ((omega arith, omega arith), tt) (omega arith)

-- One round of the loop on a line that a client sends.
collect_line-stuff :
    (max size : ℕ) (message line : Bytes) (next : ℕ → Bytes → Link → Transfer) (l : Link)
    → length message ≤ size
    → size + (length line + 2) ≤ max
    → collect_line max size message next (got (stuff line) l)
      ≡ next (size + (length line + 2)) (message ++ (line ++ b'\n' ∷ [])) l
unfolding collect_line
collect_line-stuff max size message line next l fits below =
    rw (stuff-ne-dot line, unstuff-stuff line) (ground arith)

-- Where the loop ends at `tail`, it reads back the lines before it.
module _ (max : ℕ) (l l' : Link) (tail : List Recv)
    (stop : (size : ℕ) (message : Bytes) (next : ℕ → Bytes → Link → Transfer)
      → collect_line max size message next (read_line (record l { input = tail }))
        ≡ complete message l') where
  pub collect-lines_then :
      (lines : List Bytes) (fuel size : ℕ) (message : Bytes)
      → length lines < fuel
      → All Sendable lines
      → length message ≤ size
      → size + counted_size lines ≤ max
      → collect fuel max size message (record l { input = lines_then lines tail })
        ≡ complete (message ++ joined lines) l'
  unfolding collect
  collect-lines_then lines zero size message f h m s = elim f [ ]
  collect-lines_then [] (suc fuel) size message f h m s =
      stop size message (collect fuel max) ∙ rw append-nil
  collect-lines_then (x ∷ xs) (suc fuel) size message f h m s =
      rw (read_line-crlf l (stuff x) (lines_then xs tail) h.0.0 h.0.1) (
        collect_line-stuff max size message x (collect fuel max) _ m (omega arith)
        ∙ collect-lines_then xs fuel (size + (length x + 2)) (message ++ (x ++ b'\n' ∷ []))
            (omega arith) h.1 (step_fits size message x m) (omega arith)
        ∙ simp append_assoc)

collect_line-dot :
    (max : ℕ) (l : Link) (rest : List Recv)
    → (size : ℕ) (message : Bytes) (next : ℕ → Bytes → Link → Transfer)
    → collect_line max size message next (read_line (record l { input = byte b'.' ∷ crlf rest }))
      ≡ complete message (record l { input = rest })
unfolding collect_line
collect_line-dot max l rest size message next =
    rw (read_line-dot l rest, collect_line, bytes_eq_refl (text "."))

collect_line-cut :
    (max : ℕ) (l : Link)
    → (size : ℕ) (message : Bytes) (next : ℕ → Bytes → Link → Transfer)
    → collect_line max size message next (read_line (record l { input = [] }))
      ≡ complete message (record l { input = [] })
unfolding collect_line read_line
collect_line-cut max l size message next = refl

length-lines_then :
    (lines : List Bytes) (tail : List Recv) → length lines ≤ length (lines_then lines tail)
length-lines_then [] tail = omega arith
length-lines_then (x ∷ xs) tail = omega (
  arith,
  length-lines_then xs tail,
  length-append (map byte (stuff x)) (crlf (lines_then xs tail)),
)

-- A message within the limit is read back, and the loop stops behind the final dot.
pub collect-wire :
    (lines : List Bytes) (max : ℕ) (l : Link) (rest : List Recv)
    → All Sendable lines
    → counted_size lines ≤ max
    → collect (suc (length (wire lines rest))) max 0 [] (record l { input = wire lines rest })
      ≡ complete (joined lines) (record l { input = rest })
collect-wire lines max l rest h b =
    collect-lines_then max l (record l { input = rest }) (byte b'.' ∷ crlf rest)
      (collect_line-dot max l rest) lines _ 0 []
      (omega (arith, length-lines_then lines (byte b'.' ∷ crlf rest))) h (omega arith) (omega arith)

-- The same where the connection ends before the final dot.
pub collect-cut :
    (lines : List Bytes) (max : ℕ) (l : Link)
    → All Sendable lines
    → counted_size lines ≤ max
    → collect
        (suc (length (lines_then lines [])))
        max
        0
        []
        (record l { input = lines_then lines [] })
      ≡ complete (joined lines) (record l { input = [] })
collect-cut lines max l h b =
    collect-lines_then max l (record l { input = [] }) [] (collect_line-cut max l) lines _ 0 []
      (omega (arith, length-lines_then lines [])) h (omega arith) (omega arith)
