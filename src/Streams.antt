-- ===== src/Streams.antt =====
-- What the program reads from string streams: the words between white space (`iss >> term`) and the
-- fields between delimiters (`std::getline`).
use email_server_backend.Base.{
  ℕ, ◌≡◌, ◌≢◌, refl, append-nil, arith, false, List, [], ◌∷◌, ◌++◌, Bytes, is_empty, is_space, All,
  ◌==◌, if◌then◌else◌,
}

-- The word that the string begins with, which may be empty, and the words behind it.
unfoldable pub first_word : Bytes → Bytes × List Bytes
first_word [] = ([], [])
first_word (c ∷ cs) =
    let r = first_word cs in
    if is_space c then ([], (if is_empty r.0 then r.1 else r.0 ∷ r.1)) else (c ∷ r.0, r.1)

unfoldable pub words : Bytes → List Bytes
words s = let r = first_word s in if is_empty r.0 then r.1 else r.0 ∷ r.1

-- The fields that std::getline reads: none behind a last delimiter.
unfoldable pub split : ℕ → Bytes → List Bytes
split d [] = []
split d (c ∷ cs) =
    let rest = split d cs in
    if c == d then [] ∷ rest else elim rest [ [] ↦ (c ∷ []) ∷ [] | w ∷ ws ↦ (c ∷ w) ∷ ws ]

pub split-append : (d : ℕ) (w s : Bytes) → All (λ c. c ≢ d) w → split d (w ++ d ∷ s) ≡ w ∷ split d s
unfolding split
split-append d [] s h = ground arith
split-append d (c ∷ w) s (n, h) = ground (arith, split-append d w s h)

-- Words joined by blanks.
abbrev pub join_words : List Bytes → Bytes
join_words [] = []
join_words (w ∷ ws) = b' ' ∷ (w ++ join_words ws)

abbrev pub IsWord : Bytes → Type 0
IsWord w = (is_empty w ≡ false) × All (λ c. is_space c ≡ false) w

first_word-append :
    (w s : Bytes)
    → All (λ c. is_space c ≡ false) w
    → first_word (w ++ s) ≡ (w ++ (first_word s).0, (first_word s).1)
unfolding first_word
first_word-append [] s h = refl
first_word-append (c ∷ w) s (h, hs) = rw (h, first_word-append w s hs)

first_word-join_words : (ws : List Bytes) → All IsWord ws → first_word (join_words ws) ≡ ([], ws)
unfolding first_word is_space
first_word-join_words [] h = refl
first_word-join_words (w ∷ ws) ((n, hw), hs) =
    rw (first_word-append w (join_words ws) hw, first_word-join_words ws hs, append-nil w, n) refl

pub words-join_words :
    (w : Bytes) (ws : List Bytes) → IsWord w → All IsWord ws → words (w ++ join_words ws) ≡ w ∷ ws
unfolding words
words-join_words w ws (n, hw) hs =
    rw (first_word-append w (join_words ws) hw, first_word-join_words ws hs, append-nil w, n) refl
