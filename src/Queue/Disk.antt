-- ===== src/Queue/Disk.antt =====
-- The directory tree under queue/ as queue/mail_queue.cpp uses it: four directories of files, each
-- with a stem, an extension, its bytes and the time of its last write. A rename keeps that time,
-- as the file system does.
use email_server_backend.Base.{
  ℕ, ◌≡◌, ◌↔◌, inl, inr, Option-cases, Bool, true, false, ◌&&◌, List, [], ◌∷◌, arith, Bytes,
  bytes_eq, bytes_eq_iff, if◌then◌else◌, Option, none, some,
}

pub data Dir : Type 0 where
  active inflight failure permanent_fail : Dir

-- ".msg", the ".tmp" of a file being written, or any other extension.
pub data Ext : Type 0 where
  msg tmp other_ext : Ext

pub record FilePath : Type 0 where
  pub dir : Dir
  pub stem : Bytes
  pub ext : Ext

pub record File : Type 0 where
  pub content : Bytes
  pub written : ℕ

abbrev pub Disk : Type 0
Disk = List (FilePath × File)

abbrev pub dir_eq : Dir → Dir → Bool
dir_eq active active = true
dir_eq inflight inflight = true
dir_eq failure failure = true
dir_eq permanent_fail permanent_fail = true
dir_eq _ _ = false

abbrev pub ext_eq : Ext → Ext → Bool
ext_eq msg msg = true
ext_eq tmp tmp = true
ext_eq other_ext other_ext = true
ext_eq _ _ = false

unfoldable pub path_eq : FilePath → FilePath → Bool
path_eq p q = dir_eq p.dir q.dir && (ext_eq p.ext q.ext && bytes_eq p.stem q.stem)

pub path_eq_iff : (p q : FilePath) → (path_eq p q ≡ true) ↔ (p ≡ q)
unfolding path_eq
path_eq_iff p q = ground (arith, bytes_eq_iff p.stem q.stem)

unfoldable pub read : FilePath → Disk → Option File
read p [] = none
read p ((q, f) ∷ d) = if path_eq q p then some f else read p d

unfoldable pub remove : FilePath → Disk → Disk
remove p [] = []
remove p ((q, f) ∷ d) = let rest = remove p d in if path_eq q p then rest else (q, f) ∷ rest

unfoldable pub write : FilePath → File → Disk → Disk
write p f d = (p, f) ∷ remove p d

unfoldable pub exists : FilePath → Disk → Bool
exists p d = elim (read p d) [ none ↦ false | some f ↦ true ]

-- fs::rename: `none` is an exception, here because there is no such file.
unfoldable pub move : FilePath → FilePath → Disk → Option Disk
move p q d = elim (read p d) [ none ↦ none | some f ↦ some (write q f (remove p d)) ]

pub read-remove :
    (p q : FilePath) (d : Disk) → read q (remove p d) ≡ (if path_eq p q then none else read q d)
unfolding read remove
read-remove p q [] = ground arith
read-remove p q ((r, f) ∷ d) =
    ground (arith, path_eq_iff p q, path_eq_iff r p, path_eq_iff r q, read-remove p q d)

pub read-write :
    (p q : FilePath) (f : File) (d : Disk)
    → read q (write p f d) ≡ (if path_eq p q then some f else read q d)
unfolding read write
read-write p q f d = ground (arith, read-remove p q d)

-- What a rename that succeeds leaves at every path.
pub read-move :
    (p q r : FilePath) (d d' : Disk)
    → move p q d ≡ some d'
    → read r d' ≡ (if path_eq q r then read p d else if path_eq p r then none else read r d)
unfolding move
read-move p q r d d' e = elim (Option-cases (read p d)) [
  | inl gone ↦ absurd (ground arith)
  | inr (f, found) ↦ ground (arith, read-write q r f (remove p d), read-remove p r d)
]
