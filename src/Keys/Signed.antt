-- ===== src/Keys/Signed.antt =====
-- `verify_commit` of crates/git-attest/src/verify.rs with the shipped verifiers: when a commit is
-- verified with a key.
use git_anchor.Base.{
  ℕ, ◌≡◌, ◌≢◌, ◌↔◌, inl, inr, refl, sym, ap, ◌∙◌, Bool, true, false, Option, none, some, arith,
}
use git_anchor.Base.Text.{Bytes, same_iff}
use git_anchor.Base.Result.{ok, map_err, ok_or, bind-eq-ok, map_err-eq-ok}
use git_anchor.Claims.{ClaimStore, store, object, exhausted}
use git_anchor.SignedBytes.{signed_bytes}
use git_anchor.Verdict.{
  AttestKey, verified, unknown_key_format, Verifier, SshKey, verify_ssh, verifier_for, ssh_ed25519,
}
use git_anchor.Verdict.Ssh.{IsGood, verify_ssh_iff, verifier_for_cases}
use git_anchor.Keys.{
  KeyStore, commit_data, raw_commit, check_signature, check_commit, verify_commit,
}

module _ (claims : ClaimStore) (keys : KeyStore claims) where
  -- What a commit has when a verifier accepts it: it is in the store and carries a signature, and the
  -- verifier accepts the signature over the commit's bytes without it.
  pub record IsAccepted (s : claims.State) (commit : ℕ) (key : AttestKey) (verifier : Verifier)
      : Type 0 where
    pub signature : Bytes
    pub raw : Bytes
    pub signed : Bytes
    pub signature_is : keys.signature s commit ≡ ok (some signature)
    pub raw_is : keys.try_find s commit ≡ ok (some (true, raw))
    pub signed_is : signed_bytes raw ≡ some signed
    pub accepts : verifier signed signature key ≡ verified

  commit_data-eq-ok :
      (id : ℕ) (found : Option (Bool × Bytes)) (raw : Bytes)
      → commit_data claims keys id found ≡ ok raw
      → found ≡ some (true, raw)
  unfolding commit_data
  commit_data-eq-ok id none raw e = absurd (cc)
  commit_data-eq-ok id (some (false, bytes)) raw e = absurd (cc)
  commit_data-eq-ok id (some (true, bytes)) raw e =
      let bytes_are : bytes ≡ raw = ground arith in rw bytes_are refl

  raw_commit-eq-ok :
      (s : claims.State) (id : ℕ) (raw : Bytes)
      → raw_commit claims keys s id ≡ ok raw
      → keys.try_find s id ≡ ok (some (true, raw))
  unfolding raw_commit
  raw_commit-eq-ok s id raw e =
      let (found, e1, e2) = bind-eq-ok (map_err (object id) (keys.try_find s id)) _ e in
      map_err-eq-ok (object id) (keys.try_find s id) e1 ∙ ap ok (commit_data-eq-ok id found raw e2)

  ok_or-eq-ok : (o : Option Bytes) (b : Bytes) → ok_or o exhausted ≡ ok b → o ≡ some b
  ok_or-eq-ok none b e = absurd (cc)
  ok_or-eq-ok (some a) b e = let a_is : a ≡ b = ground arith in ap some a_is

  signature_checked :
      (s : claims.State) (commit : ℕ) (key : AttestKey) (verifier : Verifier) (found : Option Bytes)
      → keys.signature s commit ≡ ok found
      → check_signature claims keys s commit key verifier found ≡ ok verified
      → IsAccepted s commit key verifier
  unfolding check_signature
  signature_checked s commit key verifier none f e = absurd (ground arith)
  signature_checked s commit key verifier (some signature) f e =
      let (raw, e1, e2) = bind-eq-ok (raw_commit claims keys s commit) _ e in
      let (signed, e3, e4) = bind-eq-ok (ok_or (signed_bytes raw) exhausted) _ e2 in
      record {
        signature = signature;
        raw = raw;
        signed = signed;
        signature_is = f;
        raw_is = raw_commit-eq-ok s commit raw e1;
        signed_is = ok_or-eq-ok (signed_bytes raw) signed e3;
        accepts = ground arith;
      }

  pub check_commit_iff :
      (s : claims.State) (commit : ℕ) (key : AttestKey) (verifier : Verifier)
      → (check_commit claims keys s commit key (some verifier) ≡ ok verified)
        ↔ IsAccepted s commit key verifier
  unfolding check_commit check_signature raw_commit commit_data
  check_commit_iff s commit key verifier = (
    λ e.
        let (found, e1, e2) = bind-eq-ok (map_err store (keys.signature s commit)) _ e in
        signature_checked s commit key verifier found
          (map_err-eq-ok store (keys.signature s commit) e1) e2,
    λ h. rw (h.signature_is, h.raw_is, h.signed_is, h.accepts) refl,
  )

  module _ (ssh : SshKey) where
    -- A signature of the commit that is good for the key.
    abbrev pub SignedBy : claims.State → ℕ → AttestKey → Type 0
    SignedBy s commit key =
        (signature raw signed : Bytes) × (keys.signature s commit ≡ ok (some signature))
        × (keys.try_find s commit ≡ ok (some (true, raw)))
        × (signed_bytes raw ≡ some signed)
        × IsGood ssh signed signature key

    IsAccepted-SignedBy :
        (s : claims.State) (commit : ℕ) (key : AttestKey)
        → IsAccepted s commit key (verify_ssh ssh) ↔ SignedBy s commit key
    IsAccepted-SignedBy s commit key = (
      λ h. (
        h.signature,
        h.raw,
        h.signed,
        h.signature_is,
        h.raw_is,
        h.signed_is,
        (verify_ssh_iff ssh h.signed h.signature key).0 h.accepts,
      ),
      λ (signature, raw, signed, signature_is, raw_is, signed_is, good). record {
        signature = signature;
        raw = raw;
        signed = signed;
        signature_is = signature_is;
        raw_is = raw_is;
        signed_is = signed_is;
        accepts = (verify_ssh_iff ssh signed signature key).1 good;
      },
    )

    unshipped :
        (s : claims.State) (commit : ℕ) (key : AttestKey)
        → verifier_for ssh key.format ≡ none
        → verify_commit claims keys ssh s commit key none ≡ ok unknown_key_format
    unfolding verify_commit check_commit
    unshipped s commit key e = rw e refl

    shipped :
        (s : claims.State) (commit : ℕ) (key : AttestKey)
        → verifier_for ssh key.format ≡ some (verify_ssh ssh)
        → verify_commit claims keys ssh s commit key none
          ≡ check_commit claims keys s commit key (some (verify_ssh ssh))
    unfolding verify_commit
    shipped s commit key e = rw e refl

    -- With no verifier supplied, a commit is verified with a key exactly when it carries a signature
    -- that is good, in the sense of ssh-ed25519 over git's namespace, for the key and the commit's bytes
    -- without the signature; a key of any other format is answered with `unknown_key_format`.
    pub verify_commit_iff :
        (s : claims.State) (commit : ℕ) (key : AttestKey)
        → ((verify_commit claims keys ssh s commit key none ≡ ok verified) ↔ SignedBy s commit key)
          × (key.format ≢ ssh_ed25519
              → verify_commit claims keys ssh s commit key none ≡ ok unknown_key_format)
    verify_commit_iff s commit key = elim (verifier_for_cases ssh key.format) [
      | inl (format_is, found) ↦ (
        (
          λ e. (IsAccepted-SignedBy s commit key).0 (
              (check_commit_iff s commit key (verify_ssh ssh)).0
                (sym (shipped s commit key found) ∙ e)),
          λ h.
              shipped s commit key found
              ∙ (check_commit_iff s commit key (verify_ssh ssh)).1
                  ((IsAccepted-SignedBy s commit key).1 h),
        ),
        λ other. absurd (other format_is),
      )
      | inr (other, not_found) ↦ (
        (
          λ e. absurd (cc (unshipped s commit key not_found)),
          λ (signature, raw, signed, _, _, _, good).
              absurd (cc ((same_iff key.format ssh_ed25519).1 good.format_is)),
        ),
        λ _. unshipped s commit key not_found,
      )
    ]
