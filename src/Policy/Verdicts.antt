-- ===== src/Policy/Verdicts.antt =====
-- Which attachments policy/attachment_policy.cpp lets through.
use email_server_backend.Base.{
  ◌≡◌, ◌↔◌, Bool, true, false, not, ◌&&◌, ◌||◌, List, [], ◌∷◌, ◌++◌, arith, All, if◌then◌else◌,
}
use email_server_backend.Policy.Attachments.{
  PolicyVerdict, AttachmentMeta, is_executable, has_double_extension, allowed_mime,
  evaluate_attachments,
}

-- An attachment that raises no objection.
abbrev pub is_clean : AttachmentMeta → Bool
is_clean a =
    not (is_executable a.filename)
    && (not (has_double_extension a.filename)
        && (not (a.is_archive && a.is_encrypted) && allowed_mime a.mime_type))

-- Names alone decide that an attachment is rejected.
abbrev pub has_bad_name : AttachmentMeta → Bool
has_bad_name a = is_executable a.filename || has_double_extension a.filename

evaluate_clean :
    (as' : List AttachmentMeta)
    → ((evaluate_attachments as').verdict ≡ PolicyVerdict.allow) ↔ All (λ a. is_clean a ≡ true) as'
unfolding evaluate_attachments
evaluate_clean [] = ground arith
evaluate_clean (a ∷ as') = ground (arith, evaluate_clean as')

evaluate_first :
    (before : List AttachmentMeta) (a : AttachmentMeta) (after : List AttachmentMeta)
    → All (λ b. is_clean b ≡ true) before
    → is_clean a ≡ false
    → (evaluate_attachments (before ++ a ∷ after)).verdict
      ≡ (if has_bad_name a then PolicyVerdict.reject else PolicyVerdict.quarantine)
unfolding evaluate_attachments
evaluate_first [] a after h k = ground (arith, k)
evaluate_first (b ∷ before) a after (h, hs) k =
    ground (arith, h, evaluate_first before a after hs k)

-- A message is allowed exactly if none of its attachments is executable or has a double
-- extension by its name, is an encrypted archive, or has a type that is not allowed. Otherwise the
-- first attachment to which this applies decides, whatever follows it: the message is rejected if
-- its name is bad, and goes to quarantine if not.
pub evaluate_attachments_lem :
    (before : List AttachmentMeta) (a : AttachmentMeta) (after : List AttachmentMeta)
    → (((evaluate_attachments before).verdict ≡ PolicyVerdict.allow)
        ↔ All (λ b. is_clean b ≡ true) before)
      × (All (λ b. is_clean b ≡ true) before
          → is_clean a ≡ false
          → (evaluate_attachments (before ++ a ∷ after)).verdict
            ≡ (if has_bad_name a then PolicyVerdict.reject else PolicyVerdict.quarantine))
evaluate_attachments_lem before a after = (evaluate_clean before, evaluate_first before a after)
