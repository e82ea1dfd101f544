-- ===== src/Claims.antt =====
-- crates/git-attest/src: envelope.rs, the errors of error.rs, the stored envelope of schema.rs, and the
-- chain of claims of chain.rs over a store of git-store, a parameter. `append` takes fuel for its retry
-- loop, and says when it runs out; `others` is what other writers do to the store in an attempt, after
-- its reads and before its publication.
pub mod Resolve
pub mod Append
pub mod Numbered
pub mod Returns
pub mod Keeps
pub mod Revocation
pub mod Revoked
use git_anchor.Base.{
  ℕ, ◌+◌, zero, suc, ◌≡◌, Bool, true, false, ◌&&◌, Option, none, some, List, [], ◌∷◌, ◌++◌, length,
  ◌==◌, if◌then◌else◌,
}
use git_anchor.Base.Text.{Bytes, codes, same}
use git_anchor.Base.Result.{Result, ok, err, map_err, ok_or, ◌>>=◌}
use git_anchor.Binding.{NormalForms}

pub record Target : Type 0 where
  pub kind : Bytes
  pub id : ℕ

pub record Envelope : Type 0 where
  pub target : Target
  pub payload : ℕ
  pub payload_kind : Bytes
  pub key : ℕ

pub record StoredEnvelope : Type 0 where
  pub target : Target
  pub payload : ℕ
  pub payload_kind : Bytes
  pub key : ℕ
  pub sequence : ℕ

-- `StoredEnvelope::new`
unfoldable pub stored_envelope : Envelope → ℕ → StoredEnvelope
stored_envelope envelope sequence = record {
  target = envelope.target;
  payload = envelope.payload;
  payload_kind = envelope.payload_kind;
  key = envelope.key;
  sequence = sequence;
}

unfoldable pub into_envelope : StoredEnvelope → Envelope
into_envelope stored = record {
  target = stored.target;
  payload = stored.payload;
  payload_kind = stored.payload_kind;
  key = stored.key;
}

pub record Claim : Type 0 where
  pub id : ℕ
  pub envelope : Envelope
  pub revoked_by : Option ℕ

abbrev pub claim_target_kind : Bytes
claim_target_kind = codes "claim"

abbrev pub revocation_kind : Bytes
revocation_kind = codes "revocation"

abbrev pub empty_tree_id : ℕ
empty_tree_id = 0x4b825dc642cb6eb9a060e54bf8d69288fbee4904

-- `git_store::Error`: `Backend`, and every other variant by its text.
pub data StoreError : Type 0 where
  backend other : Bytes → StoreError

-- The errors of the crate, and fuel that ran out.
pub data ClaimError : Type 0 where
  store : StoreError → ClaimError
  normal_form : Bytes → ClaimError
  ref_name : Bytes → ClaimError
  -- the kind of the schema
  schema_registration : Bytes → StoreError → ClaimError
  schema : Bytes → ClaimError
  key_material : Bytes → ClaimError
  object : ℕ → Bytes → ClaimError
  missing_claim not_a_claim : ℕ → ClaimError
  not_a_key_claim : ℕ → Bytes → ClaimError
  claim_off_chain : ℕ → ClaimError
  -- `expect` on a value that is not there
  panicked : ClaimError
  exhausted : ClaimError

-- What the chain asks of git-store.
pub record ClaimStore : Type 1 where
  pub State : Type 0
  -- a compiled document, bound to its schema
  pub Document : Type 0
  pub hex : ℕ → Bytes
  -- `RefSegment::new`
  pub ref_segment : Bytes → Result Bytes Bytes
  -- `kind.read(&name)?.present()`, the commit of the entry
  pub read_ref : State → Bytes → Result StoreError (Option ℕ)
  pub history : State → Bytes → Result StoreError (List ℕ)
  -- `kind.read(id)?.present()`, the value of the entry
  pub read_claim : State → ℕ → Result StoreError (Option StoredEnvelope)
  -- `kind.compile` and `inspect_document`
  pub prepare : State → StoredEnvelope → Result StoreError Document × State
  -- `kind.publish_prepared`, with the alias, the expected tip, which is also the parent, and the summary
  pub publish : State → Bytes → Option ℕ → Bytes → Document → Result StoreError ℕ × State

-- `is_revocation`
unfoldable pub is_revocation : Envelope → Bool
is_revocation envelope =
    same envelope.target.kind claim_target_kind && same envelope.payload_kind revocation_kind

-- The pairs that `resolve` collects: the claim revoked, and the revocation.
unfoldable pub revocations : List Claim → List (ℕ × ℕ)
revocations [] = []
revocations (c ∷ claims) =
    let rest = revocations claims in
    if is_revocation c.envelope then (c.envelope.target.id, c.id) ∷ rest else rest

-- `claim.revoked_by.get_or_insert(revocation)`
abbrev pub get_or_insert : Option ℕ → ℕ → Option ℕ
get_or_insert none revocation = some revocation
get_or_insert (some r) revocation = some r

-- The inner loop of `resolve`.
unfoldable pub mark : ℕ → ℕ → List Claim → List Claim
mark revoked revocation [] = []
mark revoked revocation (c ∷ claims) =
    (if c.id == revoked
      then record {
        id = c.id;
        envelope = c.envelope;
        revoked_by = get_or_insert c.revoked_by revocation;
      }
      else c)
    ∷ mark revoked revocation claims

-- The outer loop of `resolve`.
unfoldable pub mark_all : List (ℕ × ℕ) → List Claim → List Claim
mark_all [] claims = claims
mark_all ((revoked, revocation) ∷ rest) claims = mark_all rest (mark revoked revocation claims)

module _ (forms : NormalForms) where
  open forms use {struct_form, hash_form, str_form, hash}

  -- The normal form is a `BTreeMap`, by ascending key.
  unfoldable pub target_key : Target → Result ClaimError ℕ
  target_key target = map_err normal_form (
      hash (
        struct_form
          ((codes "id", hash_form target.id) ∷ (codes "kind", str_form target.kind) ∷ [])))

module _ (forms : NormalForms) (claims : ClaimStore) where
  open claims use {
    State, Document, hex, ref_segment, read_ref, history, read_claim, prepare, publish,
  }

  unfoldable pub entity_name : Target → Result ClaimError Bytes
  entity_name target = do key ← target_key forms target; map_err ref_name (ref_segment (hex key))

  unfoldable pub envelope_at : State → ℕ → Result ClaimError Envelope
  envelope_at s claim = do
    entry ← map_err store (read_claim s claim)
    found ← ok_or entry (missing_claim claim)
    ok (into_envelope found)

  -- The loop of `log`.
  unfoldable pub read_claims : State → List ℕ → Result ClaimError (List Claim)
  read_claims s [] = ok []
  read_claims s (id ∷ ids) =
      let rest = read_claims s ids in
      do
        envelope ← envelope_at s id
        later ← rest
        ok (record { id = id; envelope = envelope; revoked_by = none } ∷ later)

  unfoldable pub log : State → Target → Result ClaimError (List Claim)
  log s target = do
    name ← entity_name target
    ids ← map_err store (history s name)
    read_claims s ids

  unfoldable pub resolve : State → Target → Result ClaimError (List Claim)
  resolve s target = do logged ← log s target; ok (mark_all (revocations logged) logged)

  abbrev pub Out : Type 0
  Out = Result ClaimError ℕ × State

  -- What follows a publication: a result, another attempt, or an error.
  unfoldable pub after_publish : (State → Out) → Result StoreError ℕ × State → Out
  after_publish again (ok commit, s) = (ok commit, s)
  after_publish again (err (backend message), s) = again s
  after_publish again (err (other message), s) = (err (store (other message)), s)

  -- `current`, and the number of claims on the chain when there is one.
  unfoldable pub sequence_at : State → Bytes → Option ℕ → Result ClaimError ℕ
  sequence_at s name none = ok 0
  sequence_at s name (some tip) = do ids ← map_err store (history s name); ok (length ids)

  -- `kind.read`, and then `kind.history` of the store that other writers have made of it meanwhile.
  unfoldable pub read_tip : (State → State) → State → Bytes → Result ClaimError (Option ℕ × ℕ)
  read_tip between s name = do
    current ← map_err store (read_ref s name)
    sequence ← sequence_at (between s) name current
    ok (current, sequence)

  unfoldable pub publish_prepared :
      (State → State)
      → (State → Out)
      → Bytes
      → Bytes
      → Option ℕ
      → Result StoreError Document × State
      → Out
  publish_prepared others again name summary current (err e, s) = (err (store e), s)
  publish_prepared others again name summary current (ok document, s) =
      after_publish again (publish (others s) name current summary document)

  -- One attempt, from the tip that was read on.
  unfoldable pub attempt :
      (State → State)
      → (State → Out)
      → State
      → Bytes
      → Envelope
      → Result ClaimError (Option ℕ × ℕ)
      → Out
  attempt others again s name envelope (err e) = (err e, s)
  attempt others again s name envelope (ok (current, sequence)) =
      publish_prepared others again name (codes "claim " ++ envelope.payload_kind) current
        (prepare s (stored_envelope envelope sequence))

  -- Other writers act at two moments of an attempt, which are numbered down: between the two reads, and
  -- before the publication.
  unfoldable pub append_loop : (ℕ → State → State) → ℕ → State → Bytes → Envelope → Out
  append_loop others zero s name envelope = (err exhausted, s)
  append_loop others (suc fuel) s name envelope =
      attempt (others (fuel + fuel)) (λ s'. append_loop others fuel s' name envelope)
        (others (suc (fuel + fuel)) s) name envelope (read_tip (others (suc (fuel + fuel))) s name)

  unfoldable pub append_named :
      (ℕ → State → State) → ℕ → State → Envelope → Result ClaimError Bytes → Out
  append_named others fuel s envelope (err e) = (err e, s)
  append_named others fuel s envelope (ok name) = append_loop others fuel s name envelope

  unfoldable pub append : (ℕ → State → State) → ℕ → State → Target → Envelope → Out
  unfolding append_named
  append others fuel s on envelope = append_named others fuel s envelope (entity_name on)

  unfoldable pub sign : (ℕ → State → State) → ℕ → State → Envelope → Out
  sign others fuel s envelope = append others fuel s envelope.target envelope

  revoke_read : (ℕ → State → State) → ℕ → State → ℕ → ℕ → Result ClaimError Envelope → Out
  revoke_read others fuel s claim key (err e) = (err e, s)
  revoke_read others fuel s claim key (ok revoked) = append others fuel s revoked.target (record {
    target = record { kind = claim_target_kind; id = claim };
    payload = empty_tree_id;
    payload_kind = revocation_kind;
    key = key;
  })

  unfoldable pub revoke : (ℕ → State → State) → ℕ → State → ℕ → ℕ → Out
  unfolding revoke_read
  revoke others fuel s claim key = revoke_read others fuel s claim key (envelope_at s claim)
