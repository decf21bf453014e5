-- ===== src/Queue/Moves.antt =====
-- What the renames of queue/mail_queue.cpp do to the messages: which files they leave alone, and
-- that they lose no message.
use email_server_backend.Base.{
  ◌≡◌, refl, sym, subst, ◌∙◌, inl, inr, Bool, true, false, ◌&&◌, ◌||◌, [], ◌∷◌, arith, Bytes,
  is_empty, Bool-cases, Option-cases, if◌then◌else◌, none, some,
}
use email_server_backend.Queue.Disk.{
  Dir, active, inflight, failure, permanent_fail, dir_eq, FilePath, File, Disk, read, exists, move,
  path_eq, read-move,
}
use email_server_backend.Queue.Ops.{
  Machine, message_path, is_message_in, rename, try_rename, reclaim_one, reclaim, is_lease_expired,
  open_leased, lease_one, lease, fetch_ready,
}

-- A rename changes nothing at other paths.
pub read-try_rename :
    (m : Machine) (p q r : FilePath) (d : Disk)
    → path_eq p r ≡ false
    → path_eq q r ≡ false
    → read r (try_rename m p q d) ≡ read r d
unfolding try_rename
read-try_rename m p q r d h k = elim (Option-cases (rename m p q d)) [
  | inl e ↦ rw (e, try_rename)
  | inr (d', e) ↦
      rw (e, try_rename) (read-move p q r d d' (unfold rename in ground arith) ∙ rw (h, k))
]

-- The four places where a message can be.
unfoldable pub present : Bytes → Disk → Bool
present id d =
    exists (message_path active id) d
    || (exists (message_path inflight id) d
        || (exists (message_path failure id) d || exists (message_path permanent_fail id) d))

pub exists-move :
    (p q r : FilePath) (d d' : Disk)
    → move p q d ≡ some d'
    → exists r d' ≡ (if path_eq q r then true else if path_eq p r then false else exists r d)
unfolding exists move
exists-move p q r d d' e = ground (arith, read-move p q r d d' (unfold move in e))

-- A rename of a message from one directory to another keeps every message.
present-move :
    (from to : Dir) (s id : Bytes) (d d' : Disk)
    → move (message_path from s) (message_path to s) d ≡ some d'
    → present id d ≡ true
    → present id d' ≡ true
unfolding present path_eq
present-move from to s id d d' e h =
    let p = message_path from s in
    let q = message_path to s in
    ground (
      arith,
      exists-move p q (message_path active id) d d' e,
      exists-move p q (message_path inflight id) d d' e,
      exists-move p q (message_path failure id) d d' e,
      exists-move p q (message_path permanent_fail id) d d' e,
    )

pub present-rename :
    (m : Machine) (from to : Dir) (s id : Bytes) (d d' : Disk)
    → rename m (message_path from s) (message_path to s) d ≡ some d'
    → present id d ≡ true
    → present id d' ≡ true
unfolding rename
present-rename m from to s id d d' e h = present-move from to s id d d' (ground arith) h

pub present-try_rename :
    (m : Machine) (from to : Dir) (s id : Bytes) (d : Disk)
    → present id d ≡ true
    → present id (try_rename m (message_path from s) (message_path to s) d) ≡ true
unfolding try_rename
present-try_rename m from to s id d h =
    elim (Option-cases (rename m (message_path from s) (message_path to s) d)) [
      | inl e ↦ rw (e, try_rename) h
      | inr (d', e) ↦ rw (e, try_rename) (present-rename m from to s id d d' e h)
    ]

-- A file that the loops take for a message of a directory.
is_message_in-eq :
    (dir : Dir) (p : FilePath) → is_message_in dir p ≡ true → p ≡ message_path dir p.stem
is_message_in-eq dir p h = ground arith

-- A property of disks that the renames of `fetchReady` keep holds after it.
module _ (P : Disk → Type 0) (m : Machine)
    (reclaims : (s : Bytes) (d : Disk)
      → P d
      → P (try_rename m (message_path inflight s) (message_path active s) d))
    (quarantines : (s : Bytes) (d : Disk)
      → P d
      → P (try_rename m (message_path inflight s) (message_path permanent_fail s) d))
    (leases : (s : Bytes) (d d' : Disk)
      → rename m (message_path active s) (message_path inflight s) d ≡ some d'
      → P d
      → P d') where
  reclaim_one-keeps : (p : FilePath) (f : File) (d : Disk) → P d → P (reclaim_one m p f d)
  unfolding reclaim_one
  reclaim_one-keeps p f d h = elim (Bool-cases (is_message_in inflight p && is_lease_expired m f)) [
    | inr e ↦ rw e h
    | inl e ↦ rw e (
        subst (λ k. P (try_rename m k (message_path active p.stem) d))
          (sym (is_message_in-eq inflight p (ground arith))) (reclaims p.stem d h))
  ]

  pub reclaim-keeps : (found d : Disk) → P d → P (reclaim m found d)
  unfolding reclaim
  reclaim-keeps [] d h = h
  reclaim-keeps ((p, f) ∷ found) d h =
      reclaim-keeps found (reclaim_one m p f d) (reclaim_one-keeps p f d h)

  open_leased-keeps : (s : Bytes) (d : Disk) → P d → P (open_leased m s d).disk
  unfolding open_leased
  open_leased-keeps s d h = elim (Option-cases (read (message_path inflight s) d)) [
    | inl e ↦ rw (e, open_leased) h
    | inr (f, e) ↦
        rw (e, open_leased)
          (elim (Bool-cases (m.open_ok (message_path inflight s))) [
            | inr k ↦ rw k (reclaims s d h)
            | inl k ↦ rw k (elim (Bool-cases (is_empty f.content)) [
              | inl n ↦ rw n (quarantines s d h)
              | inr n ↦ rw n h
            ])
          ])
  ]

  lease_one-keeps : (s : Bytes) (d : Disk) → P d → P (lease_one m s d).disk
  unfolding lease_one
  lease_one-keeps s d h = elim (Bool-cases (exists (message_path inflight s) d)) [
    | inl e ↦ rw e h
    | inr e ↦
        rw e (elim (Option-cases (rename m (message_path active s) (message_path inflight s) d)) [
          | inl r ↦ rw (r, lease_one) h
          | inr (d', r) ↦ rw (r, lease_one) (open_leased-keeps s d' (leases s d d' r h))
        ])
  ]

  lease-keeps : (found d : Disk) → P d → P (lease m found d).disk
  unfolding lease
  lease-keeps [] d h = h
  lease-keeps ((p, f) ∷ found) d h = elim (Bool-cases (is_message_in active p)) [
    | inr e ↦ rw e (lease-keeps found d h)
    | inl e ↦ rw e (
        let one = lease_one m p.stem d in
        let kept = lease_one-keeps p.stem d h in
        elim (Option-cases one.message) [
          | inl n ↦ rw (n, lease) (lease-keeps found one.disk kept)
          | inr (message, n) ↦ rw (n, lease) kept
        ])
  ]

  pub fetch_ready-keeps : (d : Disk) → P d → P (fetch_ready m d).disk
  unfolding fetch_ready
  fetch_ready-keeps d h = let d' = reclaim m d d in lease-keeps d' d' (reclaim-keeps d d h)

pub message_path-ne :
    (a b : Dir) (s t : Bytes)
    → dir_eq a b ≡ false
    → path_eq (message_path a s) (message_path b t) ≡ false
unfolding path_eq
message_path-ne a b s t h = ground arith

pub read-rename :
    (m : Machine) (p q r : FilePath) (d d' : Disk)
    → rename m p q d ≡ some d'
    → read r d' ≡ (if path_eq q r then read p d else if path_eq p r then none else read r d)
unfolding rename
read-rename m p q r d d' e = read-move p q r d d' (ground arith)

-- `fetchReady` never touches queue/failure: a message that failed for a time stays there.
pub fetch_ready-failure :
    (m : Machine) (id : Bytes) (d : Disk)
    → read (message_path failure id) (fetch_ready m d).disk ≡ read (message_path failure id) d
fetch_ready-failure m id d =
    fetch_ready-keeps (λ x. read (message_path failure id) x ≡ read (message_path failure id) d) m
      (λ s x h.
        read-try_rename m (message_path inflight s) (message_path active s)
          (message_path failure id) x (message_path-ne inflight failure s id refl)
          (message_path-ne active failure s id refl)
        ∙ h)
      (λ s x h.
        read-try_rename m (message_path inflight s) (message_path permanent_fail s)
          (message_path failure id) x (message_path-ne inflight failure s id refl)
          (message_path-ne permanent_fail failure s id refl)
        ∙ h)
      (λ s x x' e h.
        read-rename m (message_path active s) (message_path inflight s) (message_path failure id) x
          x' e
        ∙ rw (message_path-ne inflight failure s id refl, message_path-ne active failure s id refl)
            h)
      d refl

-- `fetchReady` loses no message, whatever fails.
pub fetch_ready-present :
    (m : Machine) (id : Bytes) (d : Disk)
    → present id d ≡ true
    → present id (fetch_ready m d).disk ≡ true
fetch_ready-present m id =
    fetch_ready-keeps (λ x. present id x ≡ true) m
      (λ s d. present-try_rename m inflight active s id d)
      (λ s d. present-try_rename m inflight permanent_fail s id d)
      (λ s d d'. present-rename m active inflight s id d d')
