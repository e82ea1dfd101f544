-- ===== src/Keys.antt =====
-- crates/git-attest/src/key.rs, the verification of crates/git-attest/src/verify.rs, and the names of
-- kinds of schema.rs. What the code asks of git-store beyond the chain of claims is a parameter, as is
-- ssh-key. Writes are in KeyWrites.
pub mod Chain
pub mod Walk
pub mod Signed
use git_anchor.Base.{
  ℕ, ◌≡◌, Bool, true, false, not, ◌&&◌, ◌||◌, Option, none, some, List, [], ◌∷◌, ◌==◌,
  if◌then◌else◌,
}
use mathlib.Core.List.{reverse}
use git_anchor.Base.Text.{Bytes, codes, same}
use git_anchor.Base.Result.{Result, ok, err, map_err, ok_or, ◌>>=◌}
use git_anchor.Binding.{NormalForms}
use git_anchor.Claims.{
  Envelope, Claim, ClaimStore, ClaimError, StoreError, store, object, missing_claim, not_a_claim,
  not_a_key_claim, claim_off_chain, panicked, exhausted, envelope_at, log,
}
use git_anchor.SignedBytes.{signed_bytes}
use git_anchor.Verdict.{
  AttestKey, Verdict, verified, bad_signature, unknown_key_format, Verifier, SshKey, verifier_for,
}

abbrev pub claim_kind : Bytes
claim_kind = codes "claims"

abbrev pub key_kind : Bytes
key_kind = codes "keys"

-- `KEY_TARGET_KIND`
abbrev pub key_target_kind : Bytes
key_target_kind = codes "key"

pub record Link : Type 0 where
  pub claim : ℕ
  pub key : AttestKey

pub data Resolved : Type 0 where
  key_found : AttestKey → Resolved
  rejected : Verdict → Resolved

-- What keys and verification ask of git-store.
pub record KeyStore (claims : ClaimStore) : Type 1 where
  -- a derived schema
  pub Schema : Type 0
  -- `kind::<AttestKey>(key_segment())`: `decode`, `compile` and `put`
  pub decode_key : claims.State → ℕ → Result StoreError AttestKey
  pub compile_key : claims.State → AttestKey → Result StoreError ℕ × claims.State
  pub put_key : claims.State → Bytes → AttestKey → Result StoreError ℕ × claims.State
  pub signature : claims.State → ℕ → Result StoreError (Option Bytes)
  -- `objects().try_find`: whether the object is a commit, and its data
  pub try_find : claims.State → ℕ → Result Bytes (Option (Bool × Bytes))
  -- `schema_of::<StoredEnvelope>()`, `schema_of::<AttestKey>()`, and `schema().put`
  pub claim_schema : Result Bytes Schema
  pub key_schema : Result Bytes Schema
  pub put_schema : claims.State → Bytes → Schema → Result StoreError ℕ × claims.State
  pub kinds : claims.State → Result StoreError (List Bytes)

module _ (claims : ClaimStore) (keys : KeyStore claims) where
  open claims use {State}
  open keys use {decode_key, signature, try_find}

  -- `key_document`
  unfoldable pub key_document : State → ℕ → Envelope → Result ClaimError AttestKey
  key_document s claim envelope =
      if not (same envelope.payload_kind key_kind)
        || not (same envelope.target.kind key_target_kind)
      then err (not_a_key_claim claim envelope.payload_kind)
      else map_err store (decode_key s envelope.payload)

  -- What was found at the id of a claim.
  unfoldable pub commit_data : ℕ → Option (Bool × Bytes) → Result ClaimError Bytes
  commit_data id none = err (missing_claim id)
  commit_data id (some (false, bytes)) = err (not_a_claim id)
  commit_data id (some (true, bytes)) = ok bytes

  unfoldable pub raw_commit : State → ℕ → Result ClaimError Bytes
  raw_commit s id = do found ← map_err (object id) (try_find s id); commit_data id found

  unfoldable pub signed_payload : State → ℕ → Result ClaimError Bytes
  signed_payload s commit = do raw ← raw_commit s commit; ok_or (signed_bytes raw) exhausted

  -- From the signature on.
  unfoldable pub check_signature :
      State → ℕ → AttestKey → Verifier → Option Bytes → Result ClaimError Verdict
  check_signature s commit key verifier none = ok bad_signature
  check_signature s commit key verifier (some signature) = do
    raw ← raw_commit s commit
    signed ← ok_or (signed_bytes raw) exhausted
    ok (verifier signed signature key)

  -- From the choice of a verifier on.
  unfoldable pub check_commit : State → ℕ → AttestKey → Option Verifier → Result ClaimError Verdict
  check_commit s commit key none = ok unknown_key_format
  check_commit s commit key (some verifier) = do
    found ← map_err store (signature s commit)
    check_signature s commit key verifier found

  -- `Option::or_else`
  abbrev pub or_shipped : Option Verifier → Option Verifier → Option Verifier
  or_shipped (some verifier) shipped = some verifier
  or_shipped none shipped = shipped

  unfoldable pub verify_commit :
      SshKey → State → ℕ → AttestKey → Option Verifier → Result ClaimError Verdict
  verify_commit ssh s commit key verifier =
      check_commit s commit key (or_shipped verifier (verifier_for ssh key.format))

  -- The loop of `key_chain`: `seen` at its end, and the links it pushes.
  unfoldable pub key_links : State → ℕ → Bool → List Claim → Result ClaimError (Bool × List Link)
  key_links s claim seen [] = ok (seen, [])
  key_links s claim seen (c ∷ chain) =
      let now = seen || c.id == claim in
      let rest = key_links s claim now chain in
      if now
      then (do
        key ← key_document s c.id c.envelope
        later ← rest
        ok (later.0, record { claim = c.id; key = key } ∷ later.1))
      else rest

  -- What `key_chain` returns once the loop has ended.
  unfoldable pub seen_links : ℕ → Bool × List Link → Result ClaimError (List Link)
  seen_links claim (false, links) = err (claim_off_chain claim)
  seen_links claim (true, links) = ok (reverse links)

  -- The loop of `resolve_key_with` over `windows(2)`: the verdict it stops at.
  unfoldable pub check_rotations :
      (ℕ → AttestKey → Result ClaimError Verdict) → List Link → Result ClaimError (Option Verdict)
  check_rotations check [] = ok none
  check_rotations check (previous ∷ []) = ok none
  check_rotations check (previous ∷ rotation ∷ links) =
      let rest = check_rotations check (rotation ∷ links) in
      do
        verdict ← check rotation.claim previous.key
        elim verdict [ verified ↦ rest | other ↦ ok (some other) ]

  -- `next_back`
  abbrev pub next_back : List Link → Option Link
  next_back [] = none
  next_back (l ∷ []) = some l
  next_back (l ∷ k ∷ links) = next_back (k ∷ links)

  -- What follows the loop of `resolve_key_with`.
  unfoldable pub resolved_key : List Link → Option Verdict → Result ClaimError Resolved
  resolved_key links (some verdict) = ok (rejected verdict)
  resolved_key links none = do last ← ok_or (next_back links) panicked; ok (key_found last.key)

module _ (forms : NormalForms) (claims : ClaimStore) (keys : KeyStore claims) where
  open claims use {State}

  unfoldable pub key_envelope : State → ℕ → Result ClaimError Envelope
  key_envelope s claim = do
    envelope ← envelope_at forms claims s claim
    key ← key_document claims keys s claim envelope
    ok envelope

  unfoldable pub key_chain : State → ℕ → Result ClaimError (List Link)
  key_chain s claim = do
    envelope ← key_envelope s claim
    chain ← log forms claims s envelope.target
    found ← key_links claims keys s claim false chain
    seen_links claims keys claim found

module _ (forms : NormalForms) (claims : ClaimStore) (keys : KeyStore claims) (ssh : SshKey) where
  open claims use {State}

  unfoldable pub resolve_key_with : State → ℕ → Option Verifier → Result ClaimError Resolved
  resolve_key_with s claim verifier = do
    links ← key_chain forms claims keys s claim
    stopped ←
        check_rotations claims keys
          (λ commit key. verify_commit claims keys ssh s commit key verifier) links
    resolved_key claims keys links stopped

  unfoldable pub resolve_key : State → ℕ → Result ClaimError Resolved
  resolve_key s claim = resolve_key_with s claim none

  -- `Claims::key`
  unfoldable pub key_at : State → ℕ → Result ClaimError (Option AttestKey)
  key_at s claim = do
    resolved ← resolve_key s claim
    elim resolved [ key_found k ↦ ok (some k) | rejected verdict ↦ ok none ]

  unfoldable pub verify_dispatched : State → Claim → Option Verifier → Result ClaimError Verdict
  verify_dispatched s claim verifier = do
    resolved ← resolve_key_with s claim.envelope.key verifier
    elim resolved [
      | rejected verdict ↦ ok verdict
      | key_found k ↦ verify_commit claims keys ssh s claim.id k verifier
    ]

  -- `Claims::verify`
  unfoldable pub verify : State → Claim → Result ClaimError Verdict
  verify s claim = verify_dispatched s claim none

  unfoldable pub verify_with : State → Claim → Verifier → Result ClaimError Verdict
  verify_with s claim verifier = verify_dispatched s claim (some verifier)
