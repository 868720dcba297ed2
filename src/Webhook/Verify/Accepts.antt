-- ===== src/Webhook/Verify/Accepts.antt =====
-- Exactly which signatures are accepted, and that a signature that was computed is accepted.
use Prim.Native.String.{◌++◌ as concat}
use aws_serverless_patterns.Prelude.{
  String, true, false, Option, none, some, ◌==◌, ◌≡◌, refl, sym, ◌∙◌, ◌↔◌, ◌≢◌, inl, inr, eq_refl,
  Bool-cases, eq_iff, arith,
}
use aws_serverless_patterns.Py.Exec.{ok, err, type_error}
use aws_serverless_patterns.Py.Text.{strip, remove_prefix, is_ascii, remove_prefix-append}
use aws_serverless_patterns.Webhook.Verify.{
  Bytes, Hmac, is_supported, compare_digest, compute_signature, compare_candidate, verify,
}

digest-eq : (a b : String) → compare_digest a b ≡ ok true → a ≡ b
unfolding compare_digest
digest-eq a b e = ground (arith, eq_iff a b)

digest_same : (a b : String) → is_ascii b ≡ true → a ≡ b → compare_digest a b ≡ ok true
unfolding compare_digest
digest_same a b plain e = rw (e, plain, eq_refl) refl

digest_other :
    (a b : String) → is_ascii a ≡ true → is_ascii b ≡ true → a ≢ b → compare_digest a b ≡ ok false
unfolding compare_digest
digest_other a b p q e = ground (arith, eq_iff a b)

digest_refused : (a b : String) → is_ascii a ≡ false → compare_digest a b ≡ err type_error
unfolding compare_digest
digest_refused a b e = rw e refl

module _ (h : Hmac) (secret body : Bytes) (algorithm : String) where
  -- The candidate is, but for its case, the digest of the body.
  abbrev pub Matches : Option String → Type 0
  Matches candidate =
      (c : String) × (candidate ≡ some c) × (h.lower c ≡ h.hexdigest algorithm secret body)

  compare_known :
      (c : String)
      → is_supported algorithm ≡ true
      → compare_candidate h secret body algorithm (some c)
        ≡ compare_digest (h.lower c) (h.hexdigest algorithm secret body)
  unfolding compute_signature
  compare_known c known = rw (known, h.hexdigest_lower) refl

  compare_sound :
      (candidate : Option String)
      → compare_candidate h secret body algorithm candidate ≡ ok true
      → (is_supported algorithm ≡ true) × Matches candidate
  unfolding compute_signature
  compare_sound none e = cc
  compare_sound (some c) e = elim (Bool-cases (is_supported algorithm)) [
    | inl known ↦ (known, (c, refl, digest-eq _ _ (sym (compare_known c known) ∙ e)))
    | inr unknown ↦ let raised = rw unknown at e in cc
  ]

  compare_complete :
      (candidate : Option String)
      → is_supported algorithm ≡ true
      → Matches candidate
      → compare_candidate h secret body algorithm candidate ≡ ok true
  compare_complete candidate known (c, given, same) =
      rw given
        (compare_known c known ∙ digest_same _ _ (h.hexdigest_ascii algorithm secret body) same)

  module _ (provided prefix : String) where
    abbrev pub candidate_of : Option String
    candidate_of = remove_prefix prefix (strip provided)

    -- Verify accepts exactly the signatures that are not empty and, without blanks around them and
    -- without the prefix, are the digest of the body by a supported algorithm, in any letter case.
    pub verify-accepts_iff :
        (verify h secret body provided algorithm prefix ≡ ok true)
        ↔ ((provided == "") ≡ false) × (is_supported algorithm ≡ true) × Matches candidate_of
    unfolding verify
    verify-accepts_iff = (
      λ e. elim (Bool-cases (provided == "")) [
        | inl blank ↦ let raised = rw blank at e in cc
        | inr given ↦
            let (known, found) = compare_sound candidate_of (rw given at e) in (given, known, found)
      ],
      λ (given, known, found). rw given (compare_complete candidate_of known found),
    )

    -- A signature whose lowercase candidate is not ASCII raises TypeError, and not SignatureError.
    pub verify_refuses :
        (c : String)
        → (provided == "") ≡ false
        → is_supported algorithm ≡ true
        → candidate_of ≡ some c
        → is_ascii (h.lower c) ≡ false
        → verify h secret body provided algorithm prefix ≡ err type_error
    unfolding verify
    verify_refuses c given known found foreign =
        rw (given, found) (compare_known c known ∙ digest_refused _ _ foreign)

module _ (h : Hmac) (secret body : Bytes) (algorithm prefix signature provided : String) where
  sent_is :
      (other : Bytes)
      → compute_signature h secret body algorithm ≡ ok signature
      → (provided == "") ≡ false
      → strip provided ≡ concat prefix signature
      → verify h secret other provided algorithm prefix
        ≡ compare_digest (h.hexdigest algorithm secret body) (h.hexdigest algorithm secret other)
  unfolding verify compute_signature
  sent_is other made given sent = elim (Bool-cases (is_supported algorithm)) [
    | inl known ↦
        let computed = rw known at made in
        let digest : signature ≡ h.hexdigest algorithm secret body = cc in
        rw (given, sent, remove_prefix-append, digest)
          (compare_known h secret other algorithm _ known ∙ rw h.hexdigest_lower refl)
    | inr unknown ↦ let raised = rw unknown at made in cc
  ]

  -- What compute_signature gives for a body, sent after the prefix, is accepted for that body, and
  -- is refused for every body with another digest; blanks around it do not matter.
  pub verify-compute_signature :
      compute_signature h secret body algorithm ≡ ok signature
      → (provided == "") ≡ false
      → strip provided ≡ concat prefix signature
      → (verify h secret body provided algorithm prefix ≡ ok true)
        × ((other : Bytes)
            → h.hexdigest algorithm secret body ≢ h.hexdigest algorithm secret other
            → verify h secret other provided algorithm prefix ≡ ok false)
  verify-compute_signature made given sent = (
    sent_is body made given sent ∙ digest_same _ _ (h.hexdigest_ascii algorithm secret body) refl,
    λ other differs.
        sent_is other made given sent
        ∙ digest_other _ _ (h.hexdigest_ascii _ _ _) (h.hexdigest_ascii _ _ _) differs,
  )
