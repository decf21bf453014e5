-- ===== src/Queue/RoundTrip.antt =====
-- The addresses that `enqueue` writes are the ones that `fetchReady` finds (queue/mail_queue.cpp).
use mathlib.Core.Option
use email_server_backend.Base.{
  ℕ, suc, ◌+◌, ◌-◌, ◌≡◌, ◌≢◌, refl, ap, ◌∙◌, [], ◌∷◌, ◌++◌, arith, Bytes, text, length,
  length-append, take-append, drop-append, append_assoc, All, All-append, find, find_from,
  find-here, starts_with, substr, Option-cases, none, some,
}
use email_server_backend.Queue.Envelope.{queued_text, trim_end, line_after, parse_message}

-- No newline.
abbrev pub OneLine : Bytes → Type 0
OneLine = All (λ c. c ≢ b'\n')

-- A pattern without newline does not reach over a newline.
starts_with-newline : (p a b : Bytes) → OneLine p → starts_with p (a ++ b'\n' ∷ b) ≡ starts_with p a
unfolding starts_with
starts_with-newline [] a b h = refl
starts_with-newline (c ∷ p) [] b h = ground arith
starts_with-newline (c ∷ p) (x ∷ a) b h = ground (arith, starts_with-newline p a b h.1)

find-newline : (a b : Bytes) → OneLine a → find (b'\n' ∷ []) (a ++ b'\n' ∷ b) ≡ some (length a)
unfolding find starts_with
find-newline [] b h = refl
find-newline (c ∷ a) b h = ground (arith, find-newline a b h.1)

find_past_line :
    (c : ℕ) (p a b : Bytes)
    → OneLine (c ∷ p)
    → find (c ∷ p) a ≡ none
    → find (c ∷ p) (a ++ b'\n' ∷ b) ≡ Option.map (λ i. length a + suc i) (find (c ∷ p) b)
unfolding find
find_past_line c p [] b h n = ground (arith, Option-cases (find (c ∷ p) b))
find_past_line c p (x ∷ a) b h n = ground (
  arith,
  Option-cases (find (c ∷ p) b),
  starts_with-newline p a b h.1,
  find_past_line c p a b h,
  Option-cases (find (c ∷ p) a),
)

-- The line behind the first `key` is found whole.
line_after_lem :
    (key pre line rest : Bytes)
    → OneLine key
    → OneLine line
    → find key (pre ++ (key ++ (line ++ b'\n' ∷ rest))) ≡ some (length pre)
    → line_after key (pre ++ (key ++ (line ++ b'\n' ∷ rest))) ≡ trim_end line
unfolding line_after
line_after_lem key pre line rest hk hl found =
    rw (found, line_after) (rw (newline_found, line_after) (rw cut))
  where
    newline_found :
        find_from (text "\n") (pre ++ (key ++ (line ++ b'\n' ∷ rest))) (length pre)
        ≡ some (length pre + (length key + length line))
    newline_found =
        unfold find_from text in
        rw (
          drop-append pre (key ++ (line ++ b'\n' ∷ rest)),
          ← append_assoc key line (b'\n' ∷ rest),
          find-newline (key ++ line) rest (All-append (λ c. c ≢ b'\n') key line hk hl),
          length-append key line,
        )

    cut :
        substr
          (pre ++ (key ++ (line ++ b'\n' ∷ rest)))
          (length pre + length key)
          (length pre + (length key + length line) - length pre - length key)
        ≡ line
    cut =
        let size : length pre + (length key + length line) - length pre - length key ≡ length line =
          omega arith in
        unfold substr in
        rw
          (
            size,
            ← length-append pre key,
            ← append_assoc pre key (line ++ b'\n' ∷ rest),
            drop-append (pre ++ key) (line ++ b'\n' ∷ rest),
          )
          (take-append line (b'\n' ∷ rest))

abbrev from_line : Bytes → Bytes
from_line from = text "FROM: " ++ (from ++ b'\n' ∷ [])

-- No "TO: " begins in the FROM line.
find-from_line :
    (from rest : Bytes)
    → find (text "TO: ") from ≡ none
    → find (text "TO: ") (from_line from ++ (text "TO: " ++ rest)) ≡ some (length (from_line from))
unfolding text
find-from_line from rest h =
    let key : Bytes = text "TO: " in
    let pre : Bytes = text "FROM: " ++ from in
    let regroup : from_line from ++ (key ++ rest) ≡ pre ++ b'\n' ∷ (key ++ rest) =
      simp append_assoc in
    ap (find key) regroup
    ∙ find_past_line b'T' (b'O' ∷ b':' ∷ b' ' ∷ []) pre (key ++ rest) (omega arith)
        (unfold find in rw h)
    ∙ ap (Option.map (λ i. length pre + suc i)) (find-here key rest)
    ∙ ap some (omega (arith, length-append from (b'\n' ∷ [])))

-- A queued message is fetched with the sender and the recipient that it was queued with, if these
-- are single lines without a trailing blank or CR and the sender does not contain "TO: ".
pub parse_message-queued_text :
    (id from to raw : Bytes)
    → OneLine from
    → OneLine to
    → trim_end from ≡ from
    → trim_end to ≡ to
    → find (text "TO: ") from ≡ none
    → let m = parse_message id (queued_text from to raw) in (m.from ≡ from) × (m.to ≡ to)
unfolding parse_message queued_text text
parse_message-queued_text id from to raw hf ht tf tt' no_to = (
  line_after_lem (text "FROM: ") [] from _ (omega arith) hf (find-here (text "FROM: ") _) ∙ tf,
  ap (line_after (text "TO: ")) (regroup (text "TO: " ++ (to ++ b'\n' ∷ tail)))
      ∙ line_after_lem (text "TO: ") (from_line from) to tail (omega arith) ht
          (find-from_line from (to ++ b'\n' ∷ tail) no_to)
      ∙ tt',
)
  where
    tail : Bytes
    tail = text "---RAW---\n" ++ raw

    regroup : (x : Bytes) → text "FROM: " ++ (from ++ b'\n' ∷ x) ≡ from_line from ++ x
    regroup x = simp append_assoc
