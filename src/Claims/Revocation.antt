-- ===== src/Claims/Revocation.antt =====
-- `revoke` of crates/git-attest/src/chain.rs: what it adds to which chain.
use git_anchor.Base.{ℕ, ◌≡◌, arith, inl, inr}
use git_anchor.Base.Text.{Bytes}
use git_anchor.Base.Result.{ok, Result-cases}
use git_anchor.Binding.{NormalForms}
use git_anchor.Claims.{
  Envelope, ClaimStore, claim_target_kind, revocation_kind, empty_tree_id, entity_name, envelope_at,
  revoke_read, revoke,
}
use git_anchor.Claims.Append.{IsChained, Appended, append-Appended}

-- The envelope of a revocation.
abbrev pub revocation_of : ℕ → ℕ → Envelope
revocation_of claim key = record {
  target = record { kind = claim_target_kind; id = claim };
  payload = empty_tree_id;
  payload_kind = revocation_kind;
  key = key;
}

module _ (forms : NormalForms) (claims : ClaimStore) where
  -- A revocation that `revoke` reports, whatever other writers do, is the newest claim on the chain of
  -- the target of the claim it revokes.
  pub revoke-Appended :
      (others : ℕ → claims.State → claims.State) (fuel : ℕ) (s s' : claims.State) (claim key id : ℕ)
      → IsChained claims
      → revoke forms claims others fuel s claim key ≡ (ok id, s')
      → (revoked : Envelope) × (name : Bytes) × (envelope_at forms claims s claim ≡ ok revoked)
        × (entity_name forms claims revoked.target ≡ ok name)
        × Appended forms claims s' name (revocation_of claim key) id
  unfolding revoke revoke_read
  revoke-Appended others fuel s s' claim key id chained e =
      elim (Result-cases (envelope_at forms claims s claim)) [
        | inr (x, bad) ↦ absurd (ground arith)
        | inl (revoked, read) ↦
            let (name, named, appended) =
              append-Appended forms claims chained others fuel s s' revoked.target
                (revocation_of claim key) id (rw read at e) in
            (revoked, name, read, named, appended)
      ]
