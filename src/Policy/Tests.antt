-- ===== src/Policy/Tests.antt =====
-- Attachments that policy/attachment_policy.cpp allows, and one that it does not.
use email_server_backend.Base.{
  ◌≡◌, refl, true, false, [], ◌∷◌, text, bytes_eq, lower, to_lower, starts_with,
}
use email_server_backend.Policy.Attachments.{
  PolicyVerdict, AttachmentMeta, ends_in, is_executable, find_last, has_double_extension,
  allowed_mime, evaluate_attachments,
}

abbrev picture : AttachmentMeta
picture = record {
  filename = text "cat.jpg";
  mime_type = text "image/jpeg";
  is_archive = false;
  is_encrypted = false;
}

abbrev archive : AttachmentMeta
archive = record {
  filename = text "a.zip";
  mime_type = text "application/zip";
  is_archive = true;
  is_encrypted = true;
}

abbrev program : AttachmentMeta
program = record {
  filename = text "Run.EXE";
  mime_type = text "image/png";
  is_archive = false;
  is_encrypted = false;
}

-- A program behind an encrypted archive is not rejected.
archive_first :
    (evaluate_attachments (picture ∷ archive ∷ program ∷ [])).verdict ≡ PolicyVerdict.quarantine
unfolding evaluate_attachments is_executable ends_in has_double_extension find_last allowed_mime
    text bytes_eq lower to_lower starts_with
archive_first = refl
