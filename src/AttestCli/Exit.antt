-- ===== src/AttestCli/Exit.antt =====
-- `cmd_verify` of crates/git-attest/src/main.rs: what its exit code says.
use git_anchor.Base.{
  ℕ, ◌≡◌, ◌↔◌, refl, ap, ◌∙◌, subst, Bool, true, false, none, List, [], ◌∷◌, ◌++◌, arith,
}
use git_anchor.Base.Text.{Bytes, codes}
use git_anchor.Base.Result.{Result, ok, map_err, map_err-eq-ok}
use git_anchor.Base.Action.{after-eq-ok}
use git_anchor.Binding.{NormalForms}
use git_anchor.Claims.{Envelope, Claim, ClaimStore, envelope_at}
use git_anchor.Verdict.{AttestKey, Verdict, verified, bad_signature, unknown_key_format, SshKey}
use git_anchor.Keys.{Link, KeyStore, verify}
use git_anchor.Keys.Chain.{IsKeyChain}
use git_anchor.Keys.Walk.{Trusted, rotation_check, verify_dispatched_iff}
use git_anchor.Keys.Signed.{SignedBy, verify_commit_iff}
use git_anchor.Documents.{Documents}
use git_anchor.AttestArgs.{
  CliError, of_claims, of_documents, is_not_a_claim, Revisions, object_named,
}
use git_anchor.AttestCli.{VerifyArgs, cmd_verify}
use git_anchor.AttestOutput.{report, verdict_line}

report_code : (verdict : Verdict) → (report verdict).2 ≡ 0 → verdict ≡ verified
unfolding report
report_code verified e = refl
report_code bad_signature e = absurd (ground arith)
report_code unknown_key_format e = absurd (ground arith)

verified_code : (report verified).2 ≡ 0
unfolding report
verified_code = refl

module _ (forms : NormalForms) (claims : ClaimStore) (keys : KeyStore claims) (ssh : SshKey)
    (revisions : Revisions) (docs : Documents) where
  -- What stands behind a claim: the claim is read, the key that it names has a chain whose every
  -- rotation is signed by the key before it, and the claim's commit has a signature that is good for
  -- the last key of the chain.
  pub record IsSound (s : claims.State) (id : ℕ) : Type 0 where
    pub envelope : Envelope
    pub links : List Link
    pub key : AttestKey
    pub envelope_is : envelope_at forms claims s id ≡ ok envelope
    pub chained : IsKeyChain forms claims keys s envelope.key links
    pub trusted : Trusted (rotation_check forms claims keys ssh s none) links key
    pub signed : SignedBy claims keys ssh s id key

  abbrev claim_of : ℕ → Envelope → Claim
  claim_of id envelope = record { id = id; envelope = envelope; revoked_by = none }

  verify-IsSound :
      (s : claims.State) (id : ℕ) (envelope : Envelope)
      → envelope_at forms claims s id ≡ ok envelope
      → verify forms claims keys ssh s (claim_of id envelope) ≡ ok verified
      → IsSound s id
  unfolding verify
  verify-IsSound s id envelope read v =
      let (links, key, chained, trusted, own) =
        (verify_dispatched_iff forms claims keys ssh s (claim_of id envelope) none).0 v in
      record {
        envelope = envelope;
        links = links;
        key = key;
        envelope_is = read;
        chained = chained;
        trusted = trusted;
        signed = (verify_commit_iff claims keys ssh s id key).0.0 own;
      }

  IsSound-verify :
      (s : claims.State) (id : ℕ) (h : IsSound s id)
      → verify forms claims keys ssh s (claim_of id h.envelope) ≡ ok verified
  unfolding verify
  IsSound-verify s id h =
      (verify_dispatched_iff forms claims keys ssh s (claim_of id h.envelope) none).1 (
        h.links,
        h.key,
        h.chained,
        h.trusted,
        (verify_commit_iff claims keys ssh s id h.key).0.1 h.signed,
      )

  -- A successful run: the id, the envelope and the verdict that it found.
  exit_parts :
      (s : claims.State) (args : VerifyArgs) (out out' : List Bytes) (code : ℕ)
      → cmd_verify forms claims keys ssh revisions docs s args out ≡ (ok code, out')
      → (id : ℕ) × (envelope : Envelope) × (verdict : Verdict) × (object_named revisions args.claim
          ≡ ok id)
        × (envelope_at forms claims s id ≡ ok envelope)
        × (verify forms claims keys ssh s (claim_of id envelope) ≡ ok verdict)
        × ((report verdict).2 ≡ code)
        × ((line : Bytes) × (verdict_line docs claims.hex id args.json (report verdict) ≡ ok line))
  unfolding cmd_verify
  exit_parts s args out out' code e =
      let (id, o1, e1, e2) = after-eq-ok (object_named revisions args.claim, out) _ e in
      let (envelope, o2, e3, e4) =
        after-eq-ok (map_err (is_not_a_claim id) (envelope_at forms claims s id), o1) _ e2 in
      let (verdict, o3, e5, e6) =
        after-eq-ok (map_err of_claims (verify forms claims keys ssh s (claim_of id envelope)), o2)
          _ e4 in
      let (line, o4, e7, e8) =
        after-eq-ok (verdict_line docs claims.hex id args.json (report verdict), o3) _ e6 in
      let named = ap (λ (r : Result CliError ℕ × List Bytes). r.0) e1 in
      let read = ap (λ (r : Result CliError Envelope × List Bytes). r.0) e3 in
      let checked = ap (λ (r : Result CliError Verdict × List Bytes). r.0) e5 in
      (
        id,
        envelope,
        verdict,
        named,
        map_err-eq-ok (is_not_a_claim id) (envelope_at forms claims s id) read,
        map_err-eq-ok of_claims (verify forms claims keys ssh s (claim_of id envelope)) checked,
        ground arith,
        (line, ap (λ (r : Result CliError Bytes × List Bytes). r.0) e7),
      )

  -- What is printed of a sound claim can be printed: always as text, and with `--json` where its JSON
  -- document is written.
  abbrev pub IsPrinted : Bool → ℕ → Type 0
  IsPrinted false id = Unit
  IsPrinted true id =
      (text : Bytes) × (docs.to_json (
          docs.object_value (
            (codes "claim", docs.string_value (claims.hex id))
            ∷ (codes "verdict", docs.string_value (codes "Verified"))
            ∷ (codes "cryptographic_only", docs.bool_value true)
            ∷ []))
        ≡ ok text)

  IsPrinted-verdict_line :
      (json : Bool) (id : ℕ)
      → IsPrinted json id
      → (line : Bytes) × (verdict_line docs claims.hex id json (report verified) ≡ ok line)
  unfolding verdict_line report
  IsPrinted-verdict_line false id h =
      ((report verified).0 ++ (codes ": " ++ (report verified).1), refl)
  IsPrinted-verdict_line true id (text, e) = (text, rw e refl)

  verdict_line-IsPrinted :
      (json : Bool) (id : ℕ) (line : Bytes)
      → verdict_line docs claims.hex id json (report verified) ≡ ok line
      → IsPrinted json id
  unfolding verdict_line report
  verdict_line-IsPrinted false id line e = tt
  verdict_line-IsPrinted true id line e = (line, map_err-eq-ok of_documents _ e)

  -- `verify` of a claim, with `--json` or without, exits with 0 exactly when the argument names an object
  -- that is a sound claim, and what is printed of it can be printed: its key's chain is signed link by
  -- link up to the key that the claim names, and the claim's commit has a good signature by that key.
  pub cmd_verify-IsSound :
      (s : claims.State) (args : VerifyArgs) (out : List Bytes)
      → ((out' : List Bytes) × (cmd_verify forms claims keys ssh revisions docs s args out
            ≡ (ok 0, out')))
        ↔ ((id : ℕ) × (object_named revisions args.claim ≡ ok id)
            × IsSound s id
            × IsPrinted args.json id)
  unfolding cmd_verify
  cmd_verify-IsSound s args out = (
    λ (out', e).
        let (id, envelope, verdict, named, read, checked, code, (line, written)) =
          exit_parts s args out out' 0 e in
        let good = report_code verdict code in
        (
          id,
          named,
          verify-IsSound s id envelope read (checked ∙ ap ok good),
          verdict_line-IsPrinted args.json id line (
              subst (λ v. verdict_line docs claims.hex id args.json (report v) ≡ ok line) good
                written),
        ),
    λ (id, named, h, printed).
        let (line, written) = IsPrinted-verdict_line args.json id printed in
        (
          out ++ (line ∷ []),
          rw (named, h.envelope_is, IsSound-verify s id h, written, verified_code) refl,
        ),
  )
