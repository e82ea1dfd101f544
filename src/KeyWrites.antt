-- ===== src/KeyWrites.antt =====
-- crates/git-attest/src/key.rs: what writes keys, `write_key`, `add_key` and `rotate_key`; the
-- registration of crates/git-attest/src/schema.rs.
pub mod Published
use git_anchor.Base.{ℕ, List, [], ◌∷◌}
use git_anchor.Base.Text.{Bytes, codes}
use git_anchor.Base.Result.{Result, ok, err, map_err}
use git_anchor.Base.Action.{Action, Done, pure, reads, returns, fails_as, ◌>>=◌}
use git_anchor.Binding.{NormalForms}
use git_anchor.Claims.{
  Target, Envelope, ClaimStore, ClaimError, StoreError, store, ref_name, schema,
  schema_registration, append,
}
use git_anchor.Verdict.{AttestKey}
use git_anchor.Keys.{claim_kind, key_kind, key_target_kind, KeyStore, key_envelope}

-- `ObjectId::null`
abbrev pub null_id : ℕ
null_id = 0

module _ (claims : ClaimStore) (keys : KeyStore claims) where
  open claims use {State}

  unfoldable pub write_key : AttestKey → Action State ClaimError ℕ
  write_key key = do
    tree ← fails_as store (λ s. keys.compile_key s key)
    name ← returns (map_err ref_name (claims.ref_segment (claims.hex tree)))
    commit ← fails_as store (λ s. keys.put_key s name key)
    pure tree

  unfoldable pub register_claim_schema : Action State ClaimError ℕ
  register_claim_schema = do
    derived ← returns (map_err schema keys.claim_schema)
    fails_as (schema_registration claim_kind) (λ s. keys.put_schema s claim_kind derived)

  unfoldable pub register_key_schema : Action State ClaimError ℕ
  register_key_schema = do
    derived ← returns (map_err schema keys.key_schema)
    fails_as (schema_registration key_kind) (λ s. keys.put_schema s key_kind derived)

  unfoldable pub register_schemas : Action State ClaimError Done
  register_schemas = do first ← register_claim_schema; second ← register_key_schema; pure tt

abbrev pub key_target : ℕ → Target
key_target payload = record { kind = key_target_kind; id = payload }

-- The envelope of a claim that publishes a key.
abbrev pub key_claim_envelope : Target → ℕ → ℕ → Envelope
key_claim_envelope on payload signed_with = record {
  target = on;
  payload = payload;
  payload_kind = key_kind;
  key = signed_with;
}

module _ (forms : NormalForms) (claims : ClaimStore) (keys : KeyStore claims) where
  open claims use {State}

  unfoldable pub add_key : (ℕ → State → State) → ℕ → AttestKey → Action State ClaimError ℕ
  add_key others fuel key = do
    payload ← write_key claims keys key
    λ s.
        append forms claims others fuel s (key_target payload)
          (key_claim_envelope (key_target payload) payload null_id)

  unfoldable pub rotate_key : (ℕ → State → State) → ℕ → ℕ → AttestKey → Action State ClaimError ℕ
  rotate_key others fuel previous key = do
    envelope ← reads (λ s. key_envelope forms claims keys s previous)
    payload ← write_key claims keys key
    λ s.
        append forms claims others fuel s envelope.target
          (key_claim_envelope envelope.target payload previous)
