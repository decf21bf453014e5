-- ===== src/Policy/Attachments.antt =====
-- `AttachmentPolicy` of policy/attachment_policy.cpp.
use email_server_backend.Base.{
  ℕ, suc, ◌+◌, ◌-◌, Bool, false, not, ◌&&◌, ◌||◌, List, [], ◌∷◌, reverse, Bytes, text, bytes_eq,
  lower, length, take, drop, substr, starts_with, ltb, ◌==◌, if◌then◌else◌, Option, none, some,
}

-- enum class PolicyVerdict, struct PolicyResult and struct AttachmentMeta
pub data PolicyVerdict : Type 0 where
  allow quarantine reject : PolicyVerdict

pub record PolicyResult : Type 0 where
  pub verdict : PolicyVerdict
  pub reason : Bytes

pub record AttachmentMeta : Type 0 where
  pub filename : Bytes
  pub mime_type : Bytes
  pub is_archive : Bool
  pub is_encrypted : Bool

-- `std::equal` from the ends of the strings.
unfoldable pub ends_in : Bytes → Bytes → Bool
ends_in suffix s =
    if ltb (length s) (length suffix) then false else starts_with (reverse suffix) (reverse s)

unfoldable pub is_executable : Bytes → Bool
unfolding ends_in
is_executable name =
    let f = lower name in
    ends_in (text ".exe") f
    || (ends_in (text ".js") f
        || (ends_in (text ".vbs") f
            || (ends_in (text ".bat") f || (ends_in (text ".cmd") f || ends_in (text ".scr") f))))

-- The last position of a byte.
unfoldable pub find_last : ℕ → Bytes → Option ℕ
find_last c [] = none
find_last c (x ∷ s) = elim (find_last c s) [
  | none ↦ if x == c then some 0 else none
  | some i ↦ some (suc i)
]

-- `find_last_of('.', last - 1)`, where `last - 1` is the greatest position if `last` is 0; the
-- length of `inner` is then the greatest one, too.
unfoldable pub has_double_extension : Bytes → Bool
unfolding find_last
has_double_extension name =
    let f = lower name in
    elim (find_last b'.' f) [
      | none ↦ false
      | some last ↦ elim (find_last b'.' (if last == 0 then f else take last f)) [
        | none ↦ false
        | some prev ↦
            let inner =
              if prev == last then drop (prev + 1) f else substr f (prev + 1) (last - prev - 1) in
            bytes_eq inner (text "pdf")
            || (bytes_eq inner (text "doc") || bytes_eq inner (text "jpg"))
      ]
    ]

unfoldable pub allowed_mime : Bytes → Bool
allowed_mime t =
    starts_with (text "image/") t
    || (bytes_eq t (text "application/pdf") || bytes_eq t (text "text/plain"))

unfoldable pub evaluate_attachments : List AttachmentMeta → PolicyResult
evaluate_attachments [] = record { verdict = allow; reason = [] }
evaluate_attachments (a ∷ as') =
    let rest = evaluate_attachments as' in
    if is_executable a.filename
    then record { verdict = reject; reason = text "Executable attachment blocked" }
    else if has_double_extension a.filename
    then record { verdict = reject; reason = text "Double-extension attachment blocked" }
    else if a.is_archive && a.is_encrypted
    then record { verdict = quarantine; reason = text "Password-protected archive" }
    else if not (allowed_mime a.mime_type)
    then record { verdict = quarantine; reason = text "Disallowed MIME type" }
    else rest
