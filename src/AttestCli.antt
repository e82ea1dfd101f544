-- ===== src/AttestCli.antt =====
-- crates/git-attest/src/main.rs: the subcommands, over the store of claims and keys. What a command
-- prints is a list of lines. Every append takes the same fuel, and what other writers do to the store
-- is given for each of the two appends that a command may make.
pub mod KeyClaim
pub mod Exit
pub mod Signing
pub mod Signed
pub mod Together
use git_anchor.Base.{
  ℕ, ◌≡◌, Bool, true, false, not, ◌&&◌, ◌||◌, Option, none, some, List, [], ◌∷◌, ◌++◌, any, ◌==◌,
  if◌then◌else◌,
}
use git_anchor.Base.Text.{Bytes, codes, same}
use git_anchor.Base.Result.{Result, ok, err, map_err}
use git_anchor.Base.Action.{
  Action, Done, pure, fails, reads, returns, fails_as, on_store, on_output, ◌>>=◌,
}
use git_anchor.Binding.{NormalForms}
use git_anchor.Claims.{
  Target, Envelope, Claim, ClaimStore, ClaimError, StoreError, panicked, envelope_at, log, resolve,
  sign, revoke,
}
use git_anchor.Verdict.{
  AttestKey, Verdict, verified, bad_signature, unknown_key_format, SshKey, from_openssh,
}
use git_anchor.Keys.{claim_kind, key_kind, KeyStore, key_at, verify}
use git_anchor.KeyWrites.{register_schemas, key_target, add_key}
use git_anchor.Documents.{Documents}
use git_anchor.AttestArgs.{
  CliError, of_claims, of_store, of_documents, not_a_key_claim_arg, is_not_a_claim, no_payload,
  not_compiled, TargetArg, Revisions, object_named, target_of, parse_json, prompt_document,
}
use git_anchor.AttestOutput.{
  report, dash, verdict_line, revoked_value, revoked_lines, one_line, claim_lines, print_claims,
}

-- `SignArgs`
pub record SignArgs : Type 0 where
  pub target : TargetArg
  pub payload_tree : Option Bytes
  pub kind : Bytes
  pub json : Option Bytes
  pub interactive : Bool
  pub key : Option Bytes
  pub machine : Bool

pub record RevokeArgs : Type 0 where
  pub claim : Bytes
  pub key : Option Bytes
  pub machine : Bool

pub record VerifyArgs : Type 0 where
  pub claim : Bytes
  pub json : Bool

pub record TargetArgs : Type 0 where
  pub target : TargetArg
  pub json : Bool

-- What the commands ask of git-store beyond claims and keys: documents of any kind.
pub record PayloadStore (docs : Documents) (State : Type 0) : Type 0 where
  -- `dynamic(kind).schema().get()`
  pub get_schema : State → Bytes → Result StoreError (Option docs.Schema)
  pub compile_value : State → Bytes → docs.Value → Result StoreError ℕ × State
  pub put_value : State → Bytes → Bytes → docs.Value → Result StoreError ℕ × State

-- The claims of a chain that carry a payload, and the last of them.
unfoldable pub last_with : ℕ → List Claim → Option Claim
last_with payload [] = none
last_with payload (c ∷ chain) = elim (last_with payload chain) [
  | some found ↦ some found
  | none ↦ if c.envelope.payload == payload then some c else none
]

module _ (claims : ClaimStore) (keys : KeyStore claims) where
  open claims use {State}

  has_kind : List Bytes → Bytes → Bool
  has_kind kinds kind = any (λ name. same name kind) kinds

  unfoldable pub ensure_schemas : Action State CliError Done
  unfolding has_kind
  ensure_schemas = do
    kinds ← fails_as of_store (reads keys.kinds)
    (if not (has_kind kinds claim_kind) || not (has_kind kinds key_kind)
        then fails_as of_claims (register_schemas claims keys)
        else pure tt)

  module _ (docs : Documents) (payloads : PayloadStore docs State) where
    unfoldable pub write_payload : Bytes → docs.Value → Action State CliError ℕ
    write_payload kind value = do
      tree ← fails_as (not_compiled kind) (λ s. payloads.compile_value s kind value)
      name ← returns (map_err (λ e. of_claims (panicked)) (claims.ref_segment (claims.hex tree)))
      commit ← fails_as of_store (λ s. payloads.put_value s kind name value)
      pure tree

    -- The payload that `sign` claims, with the lines of the input.
    unfoldable pub payload_of :
        Revisions
        → List (Result Bytes Bytes)
        → Bytes
        → Option Bytes
        → Option Bytes
        → Bool
        → Action State CliError ℕ
    payload_of revisions lines kind (some tree) json interactive =
        returns (object_named revisions tree)
    payload_of revisions lines kind none (some raw) interactive = do
      value ← returns (parse_json docs raw)
      write_payload kind value
    payload_of revisions lines kind none none true = do
      found ← fails_as of_store (reads (λ s. payloads.get_schema s kind))
      value ← returns (prompt_document docs kind found lines)
      write_payload kind value
    payload_of revisions lines kind none none false = fails no_payload

module _ (forms : NormalForms) (claims : ClaimStore) (keys : KeyStore claims) (ssh : SshKey)
    (revisions : Revisions) (public : Bytes) where
  open claims use {State}

  -- The key claim of a claim on the chain, or of a key that is added.
  unfoldable pub found_or_added :
      (ℕ → State → State) → ℕ → AttestKey → Option Claim → Action State CliError ℕ
  found_or_added others fuel key (some c) = pure c.id
  found_or_added others fuel key none =
      fails_as of_claims (add_key forms claims keys others fuel key)

  -- `key_claim`, with the public key of the signing key.
  unfoldable pub key_claim : (ℕ → State → State) → ℕ → Option Bytes → Bool → Action State CliError ℕ
  key_claim others fuel (some given) machine = do
    claim ← returns (object_named revisions given)
    key ← fails_as (not_a_key_claim_arg given) (reads (λ s. key_at forms claims keys ssh s claim))
    pure claim
  key_claim others fuel none machine = do
    key ← fails_as of_claims (returns (from_openssh ssh public machine))
    payload ← fails_as of_store (λ s. keys.compile_key s key)
    chain ← fails_as of_claims (reads (λ s. log forms claims s (key_target payload)))
    found_or_added others fuel key (last_with payload chain)

  unfoldable pub cmd_revoke : (ℕ → ℕ → State → State) → ℕ → RevokeArgs → Action State CliError ℕ
  cmd_revoke others fuel args = do
    ready ← ensure_schemas claims keys
    key ← key_claim (others 0) fuel args.key args.machine
    claim ← returns (object_named revisions args.claim)
    fails_as of_claims (λ s. revoke forms claims (others 1) fuel s claim key)

  module _ (docs : Documents) (payloads : PayloadStore docs State) where
    unfoldable pub cmd_sign :
        (ℕ → ℕ → State → State) → ℕ → List (Result Bytes Bytes) → SignArgs → Action State CliError ℕ
    cmd_sign others fuel lines args = do
      ready ← ensure_schemas claims keys
      key ← key_claim (others 0) fuel args.key args.machine
      payload ←
          payload_of claims keys docs payloads revisions lines args.kind args.payload_tree args.json
            args.interactive
      on ← returns (target_of revisions args.target)
      fails_as of_claims (λ s.
          sign forms claims (others 1) fuel s
            (record { target = on; payload = payload; payload_kind = args.kind; key = key }))

module _ (forms : NormalForms) (claims : ClaimStore) (keys : KeyStore claims) (ssh : SshKey)
    (revisions : Revisions) (docs : Documents) where
  open claims use {State}

  -- A read of the store that prints.
  abbrev pub Printing : Type 0 → Type 0
  Printing A = Action (List Bytes) CliError A

  abbrev pub print_line : Bytes → Printing Done
  print_line line out = (ok tt, out ++ (line ∷ []))

  -- `verify`: the exit code.
  unfoldable pub cmd_verify : State → VerifyArgs → Printing ℕ
  cmd_verify s args = do
    id ← returns (object_named revisions args.claim)
    envelope ← returns (map_err (is_not_a_claim id) (envelope_at forms claims s id))
    verdict ← returns (
        map_err of_claims (
          verify forms claims keys ssh s
            (record { id = id; envelope = envelope; revoked_by = none })))
    line ← returns (verdict_line docs claims.hex id args.json (report verdict))
    printed ← print_line line
    pure (report verdict).2

  -- The arms `Log` and `Resolve` of `main`.
  unfoldable pub cmd_log : State → TargetArgs → Printing Done
  cmd_log s args = do
    on ← returns (target_of revisions args.target)
    chain ← returns (map_err of_claims (log forms claims s on))
    print_claims docs claims.hex chain args.json

  unfoldable pub cmd_resolve : State → TargetArgs → Printing Done
  cmd_resolve s args = do
    on ← returns (target_of revisions args.target)
    chain ← returns (map_err of_claims (resolve forms claims s on))
    print_claims docs claims.hex chain args.json

-- `Command`
pub data Command : Type 0 where
  sign_claim : SignArgs → Command
  revoke_claim : RevokeArgs → Command
  verify_claim : VerifyArgs → Command
  log_target resolve_target : TargetArgs → Command

module _ (forms : NormalForms) (claims : ClaimStore) (keys : KeyStore claims) (ssh : SshKey)
    (revisions : Revisions) (docs : Documents) (payloads : PayloadStore docs claims.State) where
  open claims use {State, hex}

  -- `main` once the repository is open, with what `SigningKey::resolve` gives; the exit code.
  unfoldable pub run :
      (ℕ → ℕ → State → State)
      → ℕ
      → Result CliError Bytes
      → List (Result Bytes Bytes)
      → Command
      → Action (State × List Bytes) CliError ℕ
  run others fuel signing_key lines (sign_claim args) = do
    public ← returns signing_key
    id ←
        on_store
          (cmd_sign forms claims keys ssh revisions public docs payloads others fuel lines args)
    printed ← on_output (λ s. print_line forms claims keys ssh revisions docs (hex id))
    pure 0
  run others fuel signing_key lines (revoke_claim args) = do
    public ← returns signing_key
    id ← on_store (cmd_revoke forms claims keys ssh revisions public others fuel args)
    printed ← on_output (λ s. print_line forms claims keys ssh revisions docs (hex id))
    pure 0
  run others fuel signing_key lines (verify_claim args) =
      on_output (λ s. cmd_verify forms claims keys ssh revisions docs s args)
  run others fuel signing_key lines (log_target args) = do
    printed ← on_output (λ s. cmd_log forms claims keys ssh revisions docs s args)
    pure 0
  run others fuel signing_key lines (resolve_target args) = do
    printed ← on_output (λ s. cmd_resolve forms claims keys ssh revisions docs s args)
    pure 0
