-- ===== src/AnchorCli.antt =====
-- crates/git-anchor/src/main.rs: the search for the fields of a schema that `inject` fills, and the value
-- that a binding is stored as.
pub mod Matching
pub mod Shapes
use git_anchor.Base.{
  ℕ, ◌≡◌, Bool, true, false, not, ◌&&◌, ◌||◌, Option, none, some, List, [], ◌∷◌, ◌++◌, length,
  if◌then◌else◌,
}
use git_anchor.Base.Text.{Bytes, codes, same}
use git_anchor.Base.Strings.{join_with}
use git_anchor.Base.Result.{Result, ok, err, map_err, ok_or, ◌>>=◌}
use git_anchor.Binding.{
  Binding, commit_of, tree_of, delta_of, hybrid_of, position, NormalForms, Codec, anchor_id,
  write_binding, read_binding, handle_anchor_id,
}
use git_anchor.Documents.{Documents, Field, NodeCase, optional, struct_of, string, resolve_node}
use git_anchor.AnchorArgs.{
  AnchorCliError, of_anchors, of_libraries, no_schema_of, not_a_struct, root_unresolved,
  not_anchorable, ambiguously_anchorable, no_required_string, ambiguous_strings, no_positional,
  unread_binding, unread_json, json_not_object, fields_left, invalid_name, no_entity, panicking,
  Surroundings, CreateArgs, build_binding,
}

-- What `binding_to_value` and `binding_field` ask of facet-git-tree: a store in memory, and the schema
-- of `Binding`.
pub record BindingDocs (docs : Documents) : Type 1 where
  pub Objects : Type 0
  pub no_objects : Objects
  pub serialize_into : Binding → Objects → Result Bytes (ℕ × Objects)
  pub deserialize_value : ℕ → docs.Schema → Objects → Result Bytes docs.Value
  pub binding_schema : Result Bytes docs.Schema

-- `join`
abbrev pub join : List Bytes → Bytes
join names = join_with (codes ", ") names

-- The names of the fields that pass a test, in order.
unfoldable pub names_where :
    {Node : Type 0} → (Bytes → Field Node → Bool) → List (Bytes × Field Node) → List Bytes
names_where test [] = []
names_where test ((name, field) ∷ fields) =
    let rest = names_where test fields in if test name field then name ∷ rest else rest

module _ (docs : Documents) where
  open docs use {Schema, Node, Value, Builder, cases, root, same_node}

  found_fields : Option (NodeCase Node) → Result AnchorCliError (List (Bytes × Field Node))
  found_fields (some (struct_of fields)) = ok fields
  found_fields other = err not_a_struct

  case_of : Option Node → Option (NodeCase Node)
  case_of none = none
  case_of (some node) = some (cases node)

  unfoldable pub struct_fields : Schema → Result AnchorCliError (List (Bytes × Field Node))
  unfolding found_fields case_of
  struct_fields schema = found_fields (case_of (resolve_node docs schema (root schema)))

  same_resolved : Option Node → Node → Bool
  same_resolved none binding = false
  same_resolved (some node) binding = same_node node binding

  optional_shape : Schema → NodeCase Node → Node → Bool
  unfolding same_resolved
  optional_shape schema (optional inner) binding =
      same_resolved (resolve_node docs schema inner) binding
  optional_shape schema other binding = false

  resolved_shape : Schema → Option Node → Node → Bool
  unfolding optional_shape
  resolved_shape schema none binding = false
  resolved_shape schema (some found) binding =
      same_node found binding || optional_shape schema (cases found) binding

  unfoldable pub shape_is_binding : Schema → Node → Node → Bool
  unfolding resolved_shape
  shape_is_binding schema node binding =
      resolved_shape schema (resolve_node docs schema node) binding

  -- What `binding_field` and `unique_string_field` say of the names that match.
  unfoldable pub one_binding : List Bytes → Result AnchorCliError Bytes
  one_binding [] = err not_anchorable
  one_binding (name ∷ []) = ok name
  one_binding (name ∷ other ∷ names) = err (ambiguously_anchorable (join (name ∷ other ∷ names)))

  unfoldable pub one_string : List Bytes → Result AnchorCliError Bytes
  one_string [] = err no_required_string
  one_string (name ∷ []) = ok name
  one_string (name ∷ other ∷ names) =
      err (ambiguous_strings (length (name ∷ other ∷ names)) (join (name ∷ other ∷ names)))

  is_string : Option Node → Bool
  is_string none = false
  is_string (some node) = elim (cases node) [ string ↦ true | _ ↦ false ]

  abbrev pub is_optional : Option Node → Bool
  is_optional none = false
  is_optional (some node) = elim (cases node) [ optional inner ↦ true | _ ↦ false ]

  -- The test of `unique_string_field`.
  unfoldable pub takes_text : Schema → Bytes → Bytes → Field Node → Bool
  unfolding is_string
  takes_text schema binding_name name field =
      not (same name binding_name)
      && not field.has_default
      && is_string (resolve_node docs schema field.node)

  unfoldable pub unique_string_field :
      Schema → List (Bytes × Field Node) → Bytes → Result AnchorCliError Bytes
  unique_string_field schema fields binding_name =
      one_string (names_where (takes_text schema binding_name) fields)

  module _ (binding_docs : BindingDocs docs) where
    open binding_docs use {no_objects, serialize_into, deserialize_value, binding_schema}

    -- The root of Binding's own schema.
    unfoldable pub canonical_root : Result AnchorCliError Node
    canonical_root = do
      canonical ← map_err of_libraries binding_schema
      ok_or (resolve_node docs canonical (root canonical)) root_unresolved

    -- The test of `binding_field`.
    abbrev pub holds_binding : Schema → Node → Bytes → Field Node → Bool
    holds_binding schema binding name field = shape_is_binding schema field.node binding

    unfoldable pub binding_field : Schema → Result AnchorCliError Bytes
    binding_field schema = do
      binding ← canonical_root
      fields ← struct_fields schema
      one_binding (names_where (holds_binding schema binding) fields)

    unfoldable pub binding_to_value : Binding → Result AnchorCliError Value
    binding_to_value binding = do
      stored ← map_err of_libraries (serialize_into binding no_objects)
      schema ← map_err of_libraries binding_schema
      map_err of_libraries (deserialize_value stored.0 schema stored.1)

    -- The fields that start as absent.
    unfoldable pub set_absent :
        Schema → List (Bytes × Field Node) → Builder → Result AnchorCliError Builder
    set_absent schema [] builder = ok builder
    set_absent schema ((name, field) ∷ fields) builder =
        (if not field.has_default && is_optional (resolve_node docs schema field.node)
          then map_err of_libraries (docs.set builder name docs.null)
          else ok builder)
        >>= λ next. set_absent schema fields next

    -- The pairs of a JSON object.
    unfoldable pub set_pairs : List (Bytes × Value) → Builder → Result AnchorCliError Builder
    set_pairs [] builder = ok builder
    set_pairs ((name, value) ∷ pairs) builder =
        map_err of_libraries (docs.set builder name value) >>= λ next. set_pairs pairs next

    -- What `--json` or the positional text sets.
    unfoldable pub set_given :
        Bytes
        → Schema
        → List (Bytes × Field Node)
        → Bytes
        → Option Bytes
        → Option Bytes
        → Builder
        → Result AnchorCliError Builder
    set_given kind schema fields binding_name (some raw) text builder = do
      value ← map_err unread_json (docs.from_json raw)
      pairs ← ok_or (docs.as_object value) json_not_object
      set_pairs pairs builder
    set_given kind schema fields binding_name none (some text) builder = do
      name ← map_err (no_positional kind) (unique_string_field schema fields binding_name)
      map_err of_libraries (docs.set builder name (docs.string_value text))
    set_given kind schema fields binding_name none none builder = ok builder

    -- The document that `inject` writes.
    unfoldable pub injected_value :
        Bytes
        → Schema
        → List (Bytes × Field Node)
        → Bytes
        → Binding
        → Option Bytes
        → Option Bytes
        → Result AnchorCliError Value
    injected_value kind schema fields binding_name binding json text = do
      started ← map_err of_libraries (docs.for_schema schema)
      absent ← set_absent schema fields started
      given ← set_given kind schema fields binding_name json text absent
      value ← binding_to_value binding
      complete ← map_err of_libraries (docs.set given binding_name value)
      map_err (fields_left kind) (docs.build complete)
