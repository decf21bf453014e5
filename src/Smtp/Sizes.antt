-- ===== src/Smtp/Sizes.antt =====
-- The limit on the size of a message in `handleData` of smtp/smtp_session.cpp: which lines a
-- transfer read when it ends, and what they count.
use email_server_backend.Base.{
  ℕ, zero, suc, ◌+◌, ◌*◌, ◌≤◌, ◌<◌, ◌≡◌, refl, sym, ap, ◌∙◌, inl, inr, false, ◌⊎◌, List, [], ◌∷◌,
  ◌++◌, arith, Bytes, text, length, Bool-cases, ltb, bytes_eq, bytes_eq_iff, map, append_assoc,
  append-nil,
}
use email_server_backend.Smtp.Link.{Link, Received, got, ended, read_line}
use email_server_backend.Smtp.Message.{
  Transfer, complete, oversized, too_complex, out_of_fuel, unstuff, collect_line, collect,
}
use email_server_backend.Smtp.Transfer.{joined, counted_size}

-- `readLine` gives these lines one after the other, none of them a single dot, and leaves the
-- second link.
pub data Reads : Link → List Bytes → Link → Type 0 where
  no_line : (l : Link) → Reads l [] l
  one_more :
      (x : Bytes) (xs : List Bytes) (l k m : Link)
      → read_line l ≡ got x k
      → bytes_eq x (text ".") ≡ false
      → Reads k xs m
      → Reads l (x ∷ xs) m

-- What lines count, without the dots that stuff them.
abbrev pub content_size : List Bytes → ℕ
content_size lines = counted_size (map unstuff lines)

-- The transfer ends behind the final dot, or where `readLine` fails.
abbrev pub Stops : Link → Link → Type 0
Stops k l = (read_line k ≡ got (text ".") l) ⊎ (read_line k ≡ ended l)

-- Behind a message `message` of size `size`, lines within the limit were read to their end.
pub record IsWhole (max size : ℕ) (message : Bytes) (l l' : Link) (m : Bytes) : Type 0 where
  pub lines : List Bytes
  pub last_link : Link
  pub reads : Reads l lines last_link
  pub stops : Stops last_link l'
  pub text_of : m ≡ message ++ joined (map unstuff lines)
  pub within : size + content_size lines ≤ max

-- Behind a message of size `size`, lines were read until the last one passed the limit.
pub record IsOver (max size : ℕ) (l l' : Link) : Type 0 where
  pub lines : List Bytes
  pub last : Bytes
  pub reads : Reads l (lines ++ last ∷ []) l'
  pub within : size + content_size lines ≤ max
  pub over : max < size + content_size (lines ++ last ∷ [])

abbrev pub IsMeasured : ℕ → ℕ → Bytes → Link → Transfer → Type 0
IsMeasured max size message l (complete m l') = IsWhole max size message l l' m
IsMeasured max size message l (oversized l') = IsOver max size l l'
IsMeasured max size message l (too_complex l') = Unit
IsMeasured max size message l out_of_fuel = Unit

module _ (max size : ℕ) (message x : Bytes) (l k : Link) (e : read_line l ≡ got x k)
    (n : bytes_eq x (text ".") ≡ false) where
  IsMeasured-later :
      (t : Transfer)
      → IsMeasured max (size + (length (unstuff x) + 2)) (message ++ (unstuff x ++ b'\n' ∷ [])) k t
      → IsMeasured max size message l t
  IsMeasured-later (complete m l') h = record {
    lines = x ∷ h.lines;
    last_link = h.last_link;
    reads = one_more x h.lines l k h.last_link e n h.reads;
    stops = h.stops;
    text_of = h.text_of ∙ simp append_assoc;
    within = omega (arith, h.within);
  }
  IsMeasured-later (oversized l') h = record {
    lines = x ∷ h.lines;
    last = h.last;
    reads = one_more x (h.lines ++ h.last ∷ []) l k l' e n h.reads;
    within = omega (arith, h.within);
    over = omega (arith, h.over);
  }
  IsMeasured-later (too_complex l') h = h
  IsMeasured-later out_of_fuel h = h

module _ (max size : ℕ) (message : Bytes) (next : ℕ → Bytes → Link → Transfer) (l : Link)
    (below : size ≤ max)
    (later : (size' : ℕ) (message' : Bytes) (l' : Link)
      → size' ≤ max
      → IsMeasured max size' message' l' (next size' message' l')) where
  collect_line-IsMeasured :
      (r : Received)
      → read_line l ≡ r
      → IsMeasured max size message l (collect_line max size message next r)
  unfolding collect_line
  collect_line-IsMeasured (ended l') e = record {
    lines = [];
    last_link = l;
    reads = no_line l;
    stops = inr e;
    text_of = sym (append-nil message);
    within = omega arith;
  }
  collect_line-IsMeasured (got x k) e = elim (Bool-cases (bytes_eq x (text "."))) [
    | inl d ↦ rw d (record {
      lines = [];
      last_link = l;
      reads = no_line l;
      stops = inl (e ∙ ap (λ y. got y k) ((bytes_eq_iff x (text ".")).0 d));
      text_of = sym (append-nil message);
      within = omega arith;
    })
    | inr d ↦ rw d (
        let size' = size + (length (unstuff x) + 2) in
        elim (Bool-cases (ltb max size')) [
          | inl g ↦ rw g (record {
            lines = [];
            last = x;
            reads = one_more x [] l k k e d (no_line k);
            within = omega arith;
            over = ground (arith, g);
          })
          | inr g ↦ rw g (elim (Bool-cases (ltb (max * 2) (length message))) [
            | inl c ↦ rw c tt
            | inr c ↦ rw c (
                IsMeasured-later max size message x l k e d _
                  (later size' (message ++ (unstuff x ++ b'\n' ∷ [])) k (ground (arith, g))))
          ])
        ])
  ]

-- Whatever was received, a complete message is the lines up to the end, within the limit, and a
-- message is refused behind the first line that passes the limit.
pub collect-IsMeasured :
    (fuel max size : ℕ) (message : Bytes) (l : Link)
    → size ≤ max
    → IsMeasured max size message l (collect fuel max size message l)
unfolding collect
collect-IsMeasured zero max size message l b = tt
collect-IsMeasured (suc fuel) max size message l b =
    collect_line-IsMeasured max size message (collect fuel max) l b
      (λ size' message' l' b'. collect-IsMeasured fuel max size' message' l' b') (read_line l) refl
