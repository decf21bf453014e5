-- ===== src/Smtp/Lines.antt =====
-- What `readLine` of smtp/smtp_session.cpp returns.
use email_server_backend.Base.{
  ℕ, suc, ◌+◌, ◌≤◌, ◌<◌, ◌≡◌, refl, ◌≢◌, ◌⊎◌, inl, inr, List, [], ◌∷◌, ◌++◌, arith, Bytes, length,
  length-append, All, All-append, Bool-cases, ltb, ◌==◌, map, append_assoc, append-nil, text,
}
use email_server_backend.Smtp.Link.{
  Link, Recv, byte, failed, closed, raised, ReadLine, line, lost, too_long, scan_line, max_line,
  Received, got, ended, receive, read_line, sent,
}

-- Neither CR nor LF.
abbrev pub Plain : ℕ → Type 0
Plain c = (c ≢ b'\r') × (c ≢ b'\n')

-- What a returned line satisfies, and how much of the input is left.
abbrev pub LineInv : ℕ → ReadLine → Type 0
LineInv n (line out rest) = All Plain out × (length out ≤ max_line) × (length rest < n)
LineInv n (lost rest) = length rest ≤ n
LineInv n (too_long rest) = length rest < n

LineInv-mono : (n : ℕ) (r : ReadLine) → LineInv n r → LineInv (suc n) r
LineInv-mono n (line out rest) h = (h.0, h.1, omega arith)
LineInv-mono n (lost rest) h = omega arith
LineInv-mono n (too_long rest) h = omega arith

pub scan_line-LineInv :
    (errors : ℕ) (out : Bytes) (input : List Recv)
    → All Plain out
    → length out ≤ max_line
    → LineInv (length input) (scan_line errors out input)
unfolding scan_line
scan_line-LineInv errors out [] p b = omega arith
scan_line-LineInv errors out (closed ∷ rest) p b = omega arith
scan_line-LineInv errors out (raised ∷ rest) p b = omega arith
scan_line-LineInv errors out (failed ∷ rest) p b = elim (Bool-cases (ltb 3 (suc errors))) [
  | inl e ↦ rw e (omega arith)
  | inr e ↦ rw e (LineInv-mono _ _ (scan_line-LineInv (suc errors) out rest p b))
]
scan_line-LineInv errors out (byte c ∷ rest) p b = elim (Bool-cases (c == b'\r')) [
  | inl e ↦ rw e (LineInv-mono _ _ (scan_line-LineInv 0 out rest p b))
  | inr e ↦ rw e (elim (Bool-cases (c == b'\n')) [
    | inl f ↦ rw f (p, b, omega arith)
    | inr f ↦ rw f (elim (Bool-cases (ltb max_line (length (out ++ c ∷ [])))) [
      | inl g ↦ rw g (omega arith)
      | inr g ↦ rw g (
          LineInv-mono _ _ (
            scan_line-LineInv 0 (out ++ c ∷ []) rest
              (All-append Plain out (c ∷ []) p ((ground arith, ground arith), tt)) (ground arith)))
    ])
  ])
]

-- The link after a call that only reads, and may complain of the line: TLS and the socket are as
-- they were, and nothing has been stored.
pub record Continues (l l' : Link) : Type 0 where
  pub same_tls : l'.tls_active ≡ l.tls_active
  pub same_open : l'.is_open ≡ l.is_open
  pub read : length l'.input ≤ length l.input
  pub told :
      (l'.trace ≡ l.trace) ⊎ (l'.trace ≡ sent l.tls_active (text "500 Line too long") ∷ l.trace)

abbrev pub ReceivedInv : Link → Received → Type 0
ReceivedInv l (got out l') =
    All Plain out
    × (length out ≤ max_line)
    × (l' ≡ record l { input = l'.input })
    × (length l'.input < length l.input)
ReceivedInv l (ended l') = Continues l l'

receive-ReceivedInv :
    (l : Link) (r : ReadLine) → LineInv (length l.input) r → ReceivedInv l (receive r l)
unfolding receive
receive-ReceivedInv l (line out rest) h = (h.0, h.1, refl, h.2)
receive-ReceivedInv l (lost rest) h = record {
  same_tls = refl;
  same_open = refl;
  read = h;
  told = inl refl;
}
receive-ReceivedInv l (too_long rest) h = record {
  same_tls = refl;
  same_open = refl;
  read = omega arith;
  told = inr refl;
}

-- `readLine` returns a line of at most 1024 bytes with no CR or LF, after reading at least one
-- entry of the input; a call that returns false says at most that the line is too long.
pub read_line-ReceivedInv : (l : Link) → ReceivedInv l (read_line l)
unfolding read_line
read_line-ReceivedInv l =
    receive-ReceivedInv l (scan_line 0 [] l.input) (scan_line-LineInv 0 [] l.input tt (omega arith))

abbrev pub crlf : List Recv → List Recv
crlf rest = byte b'\r' ∷ byte b'\n' ∷ rest

pub scan_line-crlf :
    (out text' : Bytes) (rest : List Recv)
    → All Plain text'
    → length out + length text' ≤ max_line
    → scan_line 0 out (map byte text' ++ crlf rest) ≡ line (out ++ text') rest
unfolding scan_line
scan_line-crlf out [] rest p b = rw append-nil
scan_line-crlf out (c ∷ cs) rest p b = ground (
  arith,
  scan_line-crlf (out ++ c ∷ []) cs rest p.1,
  length-append out (c ∷ []),
  append_assoc out (c ∷ []) cs,
)

-- A line that the peer ends by CR LF is read back whole.
pub read_line-crlf :
    (l : Link) (line' : Bytes) (rest : List Recv)
    → All Plain line'
    → length line' ≤ max_line
    → read_line (record l { input = map byte line' ++ crlf rest })
      ≡ got line' (record l { input = rest })
unfolding read_line receive
read_line-crlf l line' rest p b = rw (scan_line-crlf [] line' rest p (omega arith), receive)
