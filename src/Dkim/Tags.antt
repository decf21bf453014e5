-- ===== src/Dkim/Tags.antt =====
-- The tags that `getTag` of antispam/dkim_verifier.cpp reads from the header that
-- antispam/dkim_signer.cpp writes.
use email_server_backend.Base.{
  ℕ, ◌≡◌, ◌≢◌, ◌∙◌, refl, sym, ap, subst, [], ◌∷◌, ◌++◌, append_assoc, arith, Bytes, text, find,
  starts_with, All,
}
use email_server_backend.Dkim.Signer.{DkimSignConfig, header_bare}
use email_server_backend.Dkim.Verifier.{get_tag}
use email_server_backend.Dkim.Marks.{
  mark, First, First-here, First-past, First-other, field_from-byte, field_from-end, get_tag-First,
  IsValue, sep, start, First-tag, First-start,
}

-- A body hash as BASE64 pads it, whose last digit before the '=' is no 'b'.
pub record IsPadded (bh : Bytes) : Type 0 where
  pub digits : Bytes
  pub last : ℕ
  pub padded : bh ≡ digits ++ last ∷ b'=' ∷ []
  pub digits_plain : All (λ c. c ≢ b'=') digits
  pub last_plain : (last ≢ b'=') × (last ≢ b'b')

-- What stands behind each tag.
after_h : Bytes → Bytes → Bytes
after_h bh tail = sep ++ (b'b' ∷ mark b'h' ++ (bh ++ (sep ++ tail)))

after_s : DkimSignConfig → Bytes → Bytes → Bytes
after_s cfg bh tail = sep ++ (mark b'h' ++ (cfg.headers_to_sign ++ after_h bh tail))

after_d : DkimSignConfig → Bytes → Bytes → Bytes
after_d cfg bh tail = sep ++ (mark b's' ++ (cfg.selector ++ after_s cfg bh tail))

header_lem :
    (cfg : DkimSignConfig) (bh signature : Bytes)
    → header_bare cfg bh ++ signature
      ≡ start ++ (mark b'd' ++ (cfg.domain ++ after_d cfg bh (mark b'b' ++ signature)))
unfolding header_bare after_d after_s after_h start text
header_lem cfg bh signature = simp append_assoc

module _ (cfg : DkimSignConfig) (bh signature : Bytes) (domain : IsValue cfg.domain)
    (selector : IsValue cfg.selector) (headers : IsValue cfg.headers_to_sign) where
  tail : Bytes
  tail = mark b'b' ++ signature

  get_tag-d : get_tag (header_bare cfg bh ++ signature) (b'd' ∷ []) ≡ cfg.domain
  unfolding start text tail after_d
  get_tag-d =
      let rest = cfg.domain ++ after_d cfg bh tail in
      let first =
        First-start b'd' [] (mark b'd' ++ rest) b'd' (b'=' ∷ rest) refl (ground arith)
          (ground arith) (ground arith) (ground arith) (ground arith) (First-here b'd' rest) in
      ap (λ (h : Bytes). get_tag h (b'd' ∷ [])) (header_lem cfg bh signature)
      ∙ (get_tag-First b'd' start rest first ∙ field_from-byte b';' cfg.domain _ domain.1)

  get_tag-s : get_tag (header_bare cfg bh ++ signature) (b's' ∷ []) ≡ cfg.selector
  unfolding start text tail after_d after_s
  get_tag-s =
      let rest = cfg.selector ++ after_s cfg bh tail in
      let pre = mark b'd' ++ (cfg.domain ++ (sep ++ [])) in
      let first =
        First-start b's' pre (mark b's' ++ rest) b'd'
          (b'=' ∷ ((cfg.domain ++ sep) ++ (mark b's' ++ rest))) refl (ground arith) (ground arith)
          (ground arith) (ground arith) (ground arith)
          (First-tag b's' b'd' cfg.domain [] (mark b's' ++ rest) b's' (b'=' ∷ rest) refl
            (ground arith) (ground arith) (ground arith) domain (First-here b's' rest)) in
      ap (λ (h : Bytes). get_tag h (b's' ∷ [])) (header_lem cfg bh signature ∙ simp append_assoc)
      ∙ (get_tag-First b's' (start ++ pre) rest first
          ∙ field_from-byte b';' cfg.selector _ selector.1)

  get_tag-h : get_tag (header_bare cfg bh ++ signature) (b'h' ∷ []) ≡ cfg.headers_to_sign
  unfolding start text tail after_d after_s after_h
  get_tag-h =
      let rest = cfg.headers_to_sign ++ after_h bh tail in
      let t = mark b'h' ++ rest in
      let second = mark b's' ++ (cfg.selector ++ (sep ++ [])) in
      let pre = mark b'd' ++ (cfg.domain ++ (sep ++ second)) in
      let first =
        First-start b'h' pre t b'd' (b'=' ∷ ((cfg.domain ++ (sep ++ second)) ++ t)) refl
          (ground arith) (ground arith) (ground arith) (ground arith) (ground arith)
          (First-tag b'h' b'd' cfg.domain second t b's' (b'=' ∷ ((cfg.selector ++ sep) ++ t)) refl
            (ground arith) (ground arith) (ground arith) domain
            (First-tag b'h' b's' cfg.selector [] t b'h' (b'=' ∷ rest) refl (ground arith)
              (ground arith) (ground arith) selector (First-here b'h' rest))) in
      ap (λ (h : Bytes). get_tag h (b'h' ∷ [])) (header_lem cfg bh signature ∙ simp append_assoc)
      ∙ (get_tag-First b'h' (start ++ pre) rest first
          ∙ field_from-byte b';' cfg.headers_to_sign _ headers.1)

  -- The mark of the body hash and the hash hide no mark of the signature.
  First-bh : IsPadded bh → First b'b' (b'b' ∷ mark b'h' ++ (bh ++ sep)) (mark b'b' ++ signature)
  unfolding find starts_with
  First-bh padded =
      let t = mark b'b' ++ signature in
      let end = First-other b'b' padded.last sep t padded.last_plain.1 (ground arith) (
        First-past b'b' sep [] t b'b' (b'=' ∷ signature) refl (ground arith) (ground arith)
          (First-here b'b' signature)) in
      let hash =
        First-past b'b' padded.digits (padded.last ∷ b'=' ∷ sep) t padded.last (b'=' ∷ (sep ++ t))
          refl padded.last_plain.0 padded.digits_plain end in
      let whole : First b'b' (bh ++ sep) t =
        subst (λ (s : Bytes). First b'b' s t)
          (sym (
            ap (λ (s : Bytes). s ++ sep) padded.padded
            ∙ append_assoc padded.digits (padded.last ∷ b'=' ∷ []) sep))
          hash in
      ground (arith, whole)

  get_tag-b :
      IsPadded bh
      → All (λ c. c ≢ b';') signature
      → get_tag (header_bare cfg bh ++ signature) (b'b' ∷ []) ≡ signature
  unfolding start text tail after_d after_s after_h
  get_tag-b padded plain =
      let t = mark b'b' ++ signature in
      let hash = b'b' ∷ mark b'h' ++ (bh ++ sep) in
      let third = mark b'h' ++ (cfg.headers_to_sign ++ (sep ++ hash)) in
      let second = mark b's' ++ (cfg.selector ++ (sep ++ third)) in
      let pre = mark b'd' ++ (cfg.domain ++ (sep ++ second)) in
      let first =
        First-start b'b' pre t b'd' (b'=' ∷ ((cfg.domain ++ (sep ++ second)) ++ t)) refl
          (ground arith) (ground arith) (ground arith) (ground arith) (ground arith)
          (First-tag b'b' b'd' cfg.domain second t b's'
            (b'=' ∷ ((cfg.selector ++ (sep ++ third)) ++ t)) refl (ground arith) (ground arith)
            (ground arith) domain
            (First-tag b'b' b's' cfg.selector third t b'h'
              (b'=' ∷ ((cfg.headers_to_sign ++ (sep ++ hash)) ++ t)) refl (ground arith)
              (ground arith) (ground arith) selector
              (First-tag b'b' b'h' cfg.headers_to_sign hash t b'b' (mark b'h' ++ ((bh ++ sep) ++ t))
                refl (ground arith) (ground arith) (ground arith) headers (First-bh padded)))) in
      ap (λ (h : Bytes). get_tag h (b'b' ∷ [])) (header_lem cfg bh signature ∙ simp append_assoc)
      ∙ (get_tag-First b'b' (start ++ pre) signature first ∙ field_from-end b';' signature plain)

-- From the header that the signer writes, for a domain, a selector and a list of headers with no
-- '=' and no ';', a body hash in BASE64 with one '=' and no 'b' before it, and a signature with no
-- ';', the verifier reads exactly this domain, selector, list and signature.
pub get_tag-header_bare :
    (cfg : DkimSignConfig) (bh signature : Bytes)
    → IsValue cfg.domain
    → IsValue cfg.selector
    → IsValue cfg.headers_to_sign
    → IsPadded bh
    → All (λ c. c ≢ b';') signature
    → let header = header_bare cfg bh ++ signature in
      (get_tag header (b'd' ∷ []) ≡ cfg.domain)
      × ((get_tag header (b's' ∷ []) ≡ cfg.selector)
          × ((get_tag header (b'h' ∷ []) ≡ cfg.headers_to_sign)
              × (get_tag header (b'b' ∷ []) ≡ signature)))
get_tag-header_bare cfg bh signature d s h p plain = (
  get_tag-d cfg bh signature d s h,
  (
    get_tag-s cfg bh signature d s h,
    (get_tag-h cfg bh signature d s h, get_tag-b cfg bh signature d s h p plain),
  ),
)
