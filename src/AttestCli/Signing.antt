-- ===== src/AttestCli/Signing.antt =====
-- `cmd_sign` and `cmd_revoke` of crates/git-attest/src/main.rs: what they append.
use git_anchor.Base.{ℕ, ◌≡◌, Bool, Option, List, arith}
use git_anchor.Base.Text.{Bytes}
use git_anchor.Base.Result.{Result, ok}
use git_anchor.Base.Action.{Done, after-eq-ok, fails_as-eq-ok}
use git_anchor.Binding.{NormalForms}
use git_anchor.Claims.{Target, Envelope, ClaimStore, entity_name, envelope_at, sign, revoke}
use git_anchor.Claims.Revocation.{revocation_of, revoke-Appended}
use git_anchor.Claims.Append.{IsChained, Appended, append-Appended}
use git_anchor.Verdict.{SshKey}
use git_anchor.Keys.{KeyStore}
use git_anchor.Documents.{Documents}
use git_anchor.AttestArgs.{of_claims, Revisions, object_named, target_of}
use git_anchor.AttestCli.{
  SignArgs, RevokeArgs, PayloadStore, ensure_schemas, payload_of, key_claim, cmd_sign, cmd_revoke,
}

module _ (forms : NormalForms) (claims : ClaimStore) (keys : KeyStore claims) (ssh : SshKey)
    (revisions : Revisions) (public : Bytes) (others : ℕ → ℕ → claims.State → claims.State)
    (fuel : ℕ) where
  -- A command that appends has its schemas ready and has chosen a key claim first.
  pub record HasKey (s s2 : claims.State) (given : Option Bytes) (machine : Bool) (key : ℕ)
      : Type 0 where
    pub s1 : claims.State
    pub ready : (d : Done) × (ensure_schemas claims keys s ≡ (ok d, s1))
    pub chosen :
        key_claim forms claims keys ssh revisions public (others 0) fuel given machine s1
        ≡ (ok key, s2)

  -- A revocation that `git attest revoke` reports was made of the object that the argument names, is
  -- signed with the key claim that was chosen, and is the newest claim on the chain of the revoked
  -- claim's own target.
  pub cmd_revoke-Appended :
      (s s' : claims.State) (args : RevokeArgs) (id : ℕ)
      → IsChained claims
      → cmd_revoke forms claims keys ssh revisions public others fuel args s ≡ (ok id, s')
      → (s2 : claims.State) × (key claim : ℕ) × (revoked : Envelope) × (name : Bytes) × HasKey s s2
          args.key args.machine key
        × (object_named revisions args.claim ≡ ok claim)
        × (envelope_at forms claims s2 claim ≡ ok revoked)
        × (entity_name forms claims revoked.target ≡ ok name)
        × Appended forms claims s' name (revocation_of claim key) id
  unfolding cmd_revoke
  cmd_revoke-Appended s s' args id chained e =
      let (d, s1, ready, e1) = after-eq-ok (ensure_schemas claims keys s) _ e in
      let (key, s2, chosen, e2) =
        after-eq-ok
          (key_claim forms claims keys ssh revisions public (others 0) fuel args.key args.machine
            s1)
          _ e1 in
      let (claim, s3, named, e3) = after-eq-ok (object_named revisions args.claim, s2) _ e2 in
      let (named_is, s3_is) : (object_named revisions args.claim ≡ ok claim) × (s2 ≡ s3) =
        ground arith in
      let appended = revoke-Appended forms claims (others 1) fuel s2 s' claim key id chained (
        rw s3_is
          (fails_as-eq-ok of_claims (revoke forms claims (others 1) fuel s3 claim key) id s' e3)) in
      (
        s2,
        key,
        claim,
        appended.0,
        appended.1,
        record { s1 = s1; ready = (d, ready); chosen = chosen },
        named_is,
        appended.2,
        appended.3,
        appended.4,
      )

  module _ (docs : Documents) (payloads : PayloadStore docs claims.State) where
    -- A claim that `git attest sign` reports is the newest claim on the chain of the target that the
    -- argument names; its envelope holds that target, the payload that was named or built, the kind that
    -- was given, and the key claim that was chosen.
    pub cmd_sign-Appended :
        (s s' : claims.State) (lines : List (Result Bytes Bytes)) (args : SignArgs) (id : ℕ)
        → IsChained claims
        → cmd_sign forms claims keys ssh revisions public docs payloads others fuel lines args s
          ≡ (ok id, s')
        → (s2 s3 : claims.State) × (key payload : ℕ) × (on : Target) × (name : Bytes) × HasKey s s2
            args.key args.machine key
          × (payload_of claims keys docs payloads revisions lines args.kind args.payload_tree
                args.json args.interactive s2
              ≡ (ok payload, s3))
          × (target_of revisions args.target ≡ ok on)
          × (entity_name forms claims on ≡ ok name)
          × Appended forms claims s' name
              (record { target = on; payload = payload; payload_kind = args.kind; key = key })
              id
    unfolding cmd_sign sign
    cmd_sign-Appended s s' lines args id chained e =
        let (d, s1, ready, e1) = after-eq-ok (ensure_schemas claims keys s) _ e in
        let (key, s2, chosen, e2) =
          after-eq-ok
            (key_claim forms claims keys ssh revisions public (others 0) fuel args.key args.machine
              s1)
            _ e1 in
        let (payload, s3, built, e3) =
          after-eq-ok
            (payload_of claims keys docs payloads revisions lines args.kind args.payload_tree
              args.json args.interactive s2)
            _ e2 in
        let (on, s4, named, e4) = after-eq-ok (target_of revisions args.target, s3) _ e3 in
        let (named_is, s4_is) : (target_of revisions args.target ≡ ok on) × (s3 ≡ s4) =
          ground arith in
        let envelope : Envelope = record {
          target = on;
          payload = payload;
          payload_kind = args.kind;
          key = key;
        } in
        let (name, name_is, appended) =
          append-Appended forms claims chained (others 1) fuel s4 s' on envelope id
            (fails_as-eq-ok of_claims (sign forms claims (others 1) fuel s4 envelope) id s' e4) in
        (
          s2,
          s3,
          key,
          payload,
          on,
          name,
          record { s1 = s1; ready = (d, ready); chosen = chosen },
          built,
          named_is,
          name_is,
          appended,
        )
