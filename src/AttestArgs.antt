-- ===== src/AttestArgs.antt =====
-- crates/git-attest/src/main.rs: what reads arguments and answers, `TargetArg`, `object`, `target`,
-- `parse_json` and `prompt_document`. A message of the code is carried as its parts.
pub mod Targets
use git_anchor.Base.{
  ℕ, ◌≡◌, Bool, true, false, not, ◌&&◌, ◌||◌, Option, none, some, List, [], ◌∷◌, ◌==◌,
  if◌then◌else◌,
}
use git_anchor.Base.Text.{Bytes}
use git_anchor.Base.Strings.{is_empty, trim, rsplit_once}
use git_anchor.Base.Result.{Result, ok, err, map_err, ok_or, ◌>>=◌}
use git_anchor.Claims.{Target, ClaimError, StoreError}
use git_anchor.Documents.{Documents, NodeCase, optional, string, bytes, resolve_node}

pub data CliError : Type 0 where
  of_claims : ClaimError → CliError
  of_store : StoreError → CliError
  of_documents : Bytes → CliError
  -- expected <kind>:<hex>
  target_expected : Bytes → CliError
  not_an_object_id : Bytes → Bytes → CliError
  not_a_key_claim_arg : Bytes → ClaimError → CliError
  is_not_a_claim : ℕ → ClaimError → CliError
  no_payload : CliError
  json_unread : Bytes → CliError
  json_not_an_object : CliError
  not_compiled : Bytes → StoreError → CliError
  no_schema : Bytes → CliError
  stdin_unread : Bytes → CliError
  input_ended : Bytes → CliError
  answer_unread : Bytes → Bytes → Bytes → CliError
  incomplete : Bytes → Bytes → CliError

pub record TargetArg : Type 0 where
  pub kind : Bytes
  pub id : Bytes

split_target : Bytes → Option (Bytes × Bytes) → Result CliError TargetArg
split_target raw none = err (target_expected raw)
split_target raw (some (kind, id)) =
    if is_empty kind || is_empty id
    then err (target_expected raw)
    else ok (record { kind = kind; id = id })

-- `TargetArg::from_str`
unfoldable pub from_str : Bytes → Result CliError TargetArg
unfolding split_target
from_str raw = split_target raw (rsplit_once b':' raw)

-- What the arguments ask of gix: `ObjectId::from_hex` and `rev_parse_single`.
pub record Revisions : Type 0 where
  pub from_hex : Bytes → Option ℕ
  pub rev_parse_single : Bytes → Result Bytes ℕ

module _ (revisions : Revisions) where
  unfoldable pub object_named : Bytes → Result CliError ℕ
  object_named hex = elim (revisions.from_hex hex) [
    | some id ↦ ok id
    | none ↦ map_err (not_an_object_id hex) (revisions.rev_parse_single hex)
  ]

  -- `target`
  unfoldable pub target_of : TargetArg → Result CliError Target
  target_of arg = do id ← object_named arg.id; ok (record { kind = arg.kind; id = id })

module _ (docs : Documents) where
  open docs use {Value, Schema, Node, Builder}

  unfoldable pub parse_json : Bytes → Result CliError Value
  parse_json raw = do
    value ← map_err json_unread (docs.from_json raw)
    pairs ← ok_or (docs.as_object value) json_not_an_object
    ok value

  -- `trim_end_matches(['\n', '\r'])`: the text ends before the line breaks it ends with.
  unfoldable pub trim_breaks : Bytes → Bytes
  trim_breaks [] = []
  trim_breaks (b ∷ bs) =
      let rest = trim_breaks bs in if is_empty rest && (b == 10 || b == 13) then [] else b ∷ rest

  -- The cases of a field's node: text-like, optional.
  unfoldable pub node_kind : Option Node → Bool × Bool
  node_kind none = (false, false)
  node_kind (some node) = elim (docs.cases node) [
    | string ↦ (true, false)
    | bytes ↦ (true, false)
    | optional inner ↦ (false, true)
    | _ ↦ (false, false)
  ]

  -- The value that an answer gives to a field.
  unfoldable pub answer_value : Bytes → Bool → Bytes → Result CliError Value
  answer_value name string_like raw =
      if string_like
      then ok (docs.string_value raw)
      else map_err (answer_unread name raw) (docs.from_json (trim raw))

  -- One answer: the builder after it.
  unfoldable pub answer : Builder → Bytes → Bool × Bool → Bool → Bytes → Result CliError Builder
  answer builder name (string_like, is_optional) has_default line =
      let raw = trim_breaks line in
      let blank = is_empty (trim raw) in
      if blank && is_optional
      then map_err of_documents (docs.set builder name docs.null)
      else if blank && has_default
      then ok builder
      else (do
        value ← answer_value name string_like raw
        map_err of_documents (docs.set builder name value))

  -- The loop of `prompt_document`, over the fields and the lines of the input.
  unfoldable pub prompt_fields :
      Schema
      → Builder
      → List (Bytes × Node × Bool)
      → List (Result Bytes Bytes)
      → Result CliError Builder
  prompt_fields schema builder [] lines = ok builder
  prompt_fields schema builder ((name, node, has_default) ∷ rest) [] =
      if has_default || (node_kind (resolve_node docs schema node)).1
      then ok builder
      else err (input_ended name)
  prompt_fields schema builder ((name, node, has_default) ∷ rest) (err e ∷ lines) =
      err (stdin_unread e)
  prompt_fields schema builder ((name, node, has_default) ∷ rest) (ok line ∷ lines) =
      answer builder name (node_kind (resolve_node docs schema node)) has_default line
      >>= λ answered. prompt_fields schema answered rest lines

  unfoldable pub prompt_document :
      Bytes → Option Schema → List (Result Bytes Bytes) → Result CliError Value
  prompt_document kind found lines = do
    schema ← ok_or found (no_schema kind)
    builder ← map_err of_documents (docs.for_schema schema)
    filled ← prompt_fields schema builder (docs.fields builder) lines
    map_err (incomplete kind) (docs.build filled)
