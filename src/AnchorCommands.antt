-- ===== src/AnchorCommands.antt =====
-- crates/git-anchor/src/main.rs: the subcommands, over a store of entities of any kind, which git-store
-- keeps, a parameter. What a command prints is a list of lines that is added to, or its result.
pub mod Removal
use git_anchor.Base.{
  ℕ, ◌≡◌, Bool, true, false, not, Option, none, some, List, [], ◌∷◌, ◌++◌, if◌then◌else◌,
}
use git_anchor.Base.Text.{Bytes, codes}
use git_anchor.Base.Result.{Result, ok, err, map_err, ok_or}
use git_anchor.Base.Action.{
  Action, Done, pure, fails, reads, returns, fails_as, on_store, on_output, ◌>>=◌,
}
use git_anchor.Error.{Res}
use git_anchor.Repository.{Repository}
use git_anchor.Binding.{
  Binding, commit_of, tree_of, delta_of, hybrid_of, position, NormalForms, Codec, anchor_id,
  write_binding, read_binding, handle_anchor_id,
}
use git_anchor.Documents.{Documents}
use git_anchor.AnchorArgs.{
  AnchorCliError, of_anchors, of_libraries, no_schema_of, unread_binding, invalid_name, no_entity,
  panicking, Surroundings, CreateArgs, build_binding,
}
use git_anchor.AnchorCli.{BindingDocs, struct_fields, binding_field, injected_value}

pub data DeleteResult : Type 0 where
  deleted already_deleted absent : DeleteResult

-- What the commands ask of git-store.
pub record EntityStore (docs : Documents) (State : Type 0) : Type 0 where
  pub kinds : State → Result Bytes (List Bytes)
  pub get_schema : State → Bytes → Result Bytes (Option docs.Schema)
  pub list_names : State → Bytes → Result Bytes (List Bytes)
  -- `dynamic(kind).read(&name)?.value()`
  pub read_value : State → Bytes → Bytes → Result Bytes (Option docs.Value)
  pub delete_name : State → Bytes → Bytes → Result Bytes DeleteResult × State
  -- `write(&value).message(message).anonymous_under(&group)`
  pub write_under : State → Bytes → docs.Value → Bytes → Bytes → Result Bytes ℕ × State
  pub entity_name_under : Bytes → ℕ → Bytes
  -- `repo.reference(name, handle, Any, ..)`
  pub set_reference : State → Bytes → ℕ → Result Bytes Done × State
  pub ref_segment : Bytes → Result Bytes Bytes
  pub ref_path : Bytes → Result Bytes Bytes
  -- the blobs that a capture hands to the object database
  pub put_blobs : List Bytes → State → State
  pub hex : ℕ → Bytes

-- `InjectArgs`
pub record InjectArgs : Type 0 where
  pub kind : Bytes
  pub text : Option Bytes
  pub anchor : ℕ
  pub json : Option Bytes

pub record ListArgs : Type 0 where
  pub kind : Bytes
  pub json : Bool

pub record ShowArgs : Type 0 where
  pub kind : Bytes
  pub name : Bytes
  pub json : Bool

pub record RemoveArgs : Type 0 where
  pub kind : Bytes
  pub names : List Bytes

-- `Command`
pub data AnchorCommand : Type 0 where
  create : CreateArgs → AnchorCommand
  id_of : ℕ → AnchorCommand
  inject : InjectArgs → AnchorCommand
  list : ListArgs → AnchorCommand
  show : ShowArgs → AnchorCommand
  remove : RemoveArgs → AnchorCommand

module _ (docs : Documents) {State : Type 0} (entities : EntityStore docs State) where
  open docs use {Value}

  -- The output of a command that reads the store.
  abbrev pub Printing : Type 0 → Type 0
  Printing A = Action (List Bytes) AnchorCliError A

  abbrev pub print_line : Bytes → Printing Done
  print_line line out = (ok tt, out ++ (line ∷ []))

  -- Whether a kind is anchorable.
  unfoldable pub is_anchorable : BindingDocs docs → Option docs.Schema → Bool
  is_anchorable binding_docs none = false
  is_anchorable binding_docs (some schema) = elim (binding_field docs binding_docs schema) [
    | ok name ↦ true
    | err e ↦ false
  ]

  unfoldable pub print_kinds : BindingDocs docs → State → List Bytes → Printing Done
  print_kinds binding_docs s [] = pure tt
  print_kinds binding_docs s (kind ∷ kinds) = do
    found ← returns (map_err of_libraries (entities.get_schema s kind))
    printed ←
        print_line
          (if is_anchorable binding_docs found then kind ++ codes "  (anchorable)" else kind)
    print_kinds binding_docs s kinds

  unfoldable pub cmd_kinds : BindingDocs docs → State → Printing Done
  cmd_kinds binding_docs s = do
    kinds ← returns (map_err of_libraries (entities.kinds s))
    print_kinds binding_docs s kinds

  -- The line that `list` prints of an entity.
  unfoldable pub entity_line : Bool → Bytes → Value → Result AnchorCliError Bytes
  entity_line true name value = map_err of_libraries (
      docs.to_json
        (docs.object_value ((codes "name", docs.string_value name) ∷ (codes "value", value) ∷ [])))
  entity_line false name value = elim (docs.to_json value) [
    | ok text ↦ ok (name ++ codes "  " ++ text)
    | err e ↦ err (of_libraries e)
  ]

  unfoldable pub print_found : Bool → Bytes → Option Value → Printing Done
  print_found json name none = pure tt
  print_found json name (some value) = do
    line ← returns (entity_line json name value)
    print_line line

  unfoldable pub print_entities : State → Bytes → Bool → List Bytes → Printing Done
  print_entities s kind json [] = pure tt
  print_entities s kind json (name ∷ names) = do
    found ← returns (map_err of_libraries (entities.read_value s kind name))
    printed ← print_found json name found
    print_entities s kind json names

  unfoldable pub cmd_list : State → ListArgs → Printing Done
  cmd_list s args = do
    names ← returns (map_err of_libraries (entities.list_names s args.kind))
    print_entities s args.kind args.json names

  unfoldable pub print_value : Bytes → Value → Bool → Printing Done
  print_value name value true = do
    text ← returns (map_err of_libraries (docs.to_json value))
    print_line text
  print_value name value false = do
    printed ← print_line (codes "name: " ++ name)
    text ← returns (map_err of_libraries (docs.to_json_pretty value))
    print_line text

  unfoldable pub cmd_show : State → ShowArgs → Printing Done
  cmd_show s args = do
    name ← returns (map_err (invalid_name args.name) (entities.ref_path args.name))
    found ← returns (map_err of_libraries (entities.read_value s args.kind name))
    value ← returns (ok_or found (no_entity args.kind name))
    print_value name value args.json

  -- What the first loop of `remove` says of one entity.
  abbrev pub present : Bytes → Bytes → Option Value → Result AnchorCliError Done
  present kind name none = err (no_entity kind name)
  present kind name (some value) = ok tt

  -- The first loop of `remove`.
  unfoldable pub check_all : Bytes → List Bytes → Action State AnchorCliError Done
  check_all kind [] = pure tt
  check_all kind (name ∷ names) = do
    found ← fails_as of_libraries (reads (λ s. entities.read_value s kind name))
    there ← returns (present kind name found)
    check_all kind names

  -- What the second loop of `remove` says of one deletion.
  abbrev pub was_deleted : Bytes → Bytes → DeleteResult → Result AnchorCliError Done
  was_deleted kind name deleted = ok tt
  was_deleted kind name already_deleted = err (no_entity kind name)
  was_deleted kind name absent = err (no_entity kind name)

  -- The second loop of `remove`.
  unfoldable pub delete_all : Bytes → List Bytes → Action State AnchorCliError Done
  delete_all kind [] = pure tt
  delete_all kind (name ∷ names) = do
    result ← fails_as of_libraries (λ s. entities.delete_name s kind name)
    done ← returns (was_deleted kind name result)
    delete_all kind names

  unfoldable pub cmd_remove : RemoveArgs → Action State AnchorCliError Done
  cmd_remove args = do checked ← check_all args.kind args.names; delete_all args.kind args.names

module _ (docs : Documents) (codec : Codec) (entities : EntityStore docs codec.Store) where
  abbrev State : Type 0
  State = codec.Store

  -- A serialization, as an action.
  abbrev pub serializes : Binding → Action State AnchorCliError ℕ
  serializes binding s = elim (write_binding codec binding s) [
    | ok (handle, s') ↦ (ok handle, s')
    | err e ↦ (err (of_anchors e), s)
  ]

  -- `create`: the handle that it prints.
  unfoldable pub cmd_create : Repository → Surroundings → CreateArgs → Action State AnchorCliError ℕ
  cmd_create repo around args = do
    binding ← (λ s.
        (let (blobs, built) = build_binding repo around args in
          (built, entities.put_blobs blobs s)))
    serializes binding

  unfoldable pub cmd_id : NormalForms → ℕ → Action State AnchorCliError ℕ
  cmd_id forms handle = fails_as of_anchors (reads (λ s. handle_anchor_id codec forms handle s))

  -- The ref of a position, for `bind/5` of git-query.
  unfoldable pub publish_position : ℕ → Binding → Action State AnchorCliError Done
  publish_position id (position anchor) = do
    handle ← serializes (position anchor)
    fails_as of_libraries
        (λ s. entities.set_reference s (codes "refs/anchors/" ++ entities.hex id) handle)
  publish_position id (commit_of identity hints) = pure tt
  publish_position id (tree_of identity hints) = pure tt
  publish_position id (delta_of identity hints) = pure tt
  publish_position id (hybrid_of identity hints) = pure tt

  -- `inject`: the name that it prints.
  unfoldable pub cmd_inject :
      BindingDocs docs → NormalForms → InjectArgs → Action State AnchorCliError Bytes
  cmd_inject binding_docs forms args = do
    found ← fails_as of_libraries (reads (λ s. entities.get_schema s args.kind))
    schema ← returns (ok_or found (no_schema_of args.kind))
    binding_name ← returns (binding_field docs binding_docs schema)
    fields ← returns (struct_fields docs schema)
    binding ← fails_as (unread_binding args.anchor) (reads (λ s. read_binding codec args.anchor s))
    value ← returns (
        injected_value docs binding_docs args.kind schema fields binding_name binding args.json
          args.text)
    id ← returns (map_err of_anchors (anchor_id forms binding))
    group ← returns (map_err (λ e. panicking) (entities.ref_segment (entities.hex id)))
    commit ← fails_as of_libraries (λ s.
        entities.write_under s args.kind value (args.kind ++ codes " " ++ entities.hex id) group)
    published ← publish_position id binding
    pure (entities.entity_name_under group commit)

module _ (docs : Documents) (codec : Codec) (entities : EntityStore docs codec.Store)
    (binding_docs : BindingDocs docs) (forms : NormalForms) (repo : Repository)
    (around : Surroundings) where
  abbrev pub Running : Type 0
  Running = Action (codec.Store × List Bytes) AnchorCliError Done

  abbrev pub print_in : Bytes → Running
  print_in line = on_output (λ s. print_line docs entities line)

  -- `main` once the repository is open.
  unfoldable pub run_anchor : Option AnchorCommand → Running
  run_anchor none = on_output (λ s. cmd_kinds docs entities binding_docs s)
  run_anchor (some (create args)) = do
    handle ← on_store (cmd_create docs codec entities repo around args)
    print_in (entities.hex handle)
  run_anchor (some (id_of handle)) = do
    id ← on_store (cmd_id docs codec entities forms handle)
    print_in (entities.hex id)
  run_anchor (some (inject args)) = do
    name ← on_store (cmd_inject docs codec entities binding_docs forms args)
    print_in name
  run_anchor (some (list args)) = on_output (λ s. cmd_list docs entities s args)
  run_anchor (some (show args)) = on_output (λ s. cmd_show docs entities s args)
  run_anchor (some (remove args)) = on_store (cmd_remove docs entities args)
