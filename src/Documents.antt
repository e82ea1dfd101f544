-- ===== src/Documents.antt =====
-- What the two command lines, crates/git-anchor/src/main.rs and crates/git-attest/src/main.rs, ask of
-- facet-value, facet-json, facet-git-tree and git-store's document builder, as one parameter; and the
-- function `resolve` that both have.
pub mod Resolves
use git_anchor.Base.{Bool, Option, some, List}
use git_anchor.Base.Text.{Bytes}
use git_anchor.Base.Result.{Result}

-- `StructField`
pub record Field (Node : Type 0) : Type 0 where
  pub node : Node
  pub has_default : Bool

-- The cases of `facet_git_tree::Node` that the code tells apart. A `BTreeMap` is its list of entries.
pub data NodeCase (Node : Type 0) : Type 0 where
  ref_to : Bytes → NodeCase Node
  optional : Node → NodeCase Node
  struct_of : List (Bytes × Field Node) → NodeCase Node
  string bytes otherwise : NodeCase Node

pub record Documents : Type 1 where
  pub Value : Type 0
  pub Schema : Type 0
  pub Node : Type 0
  pub Builder : Type 0
  pub null : Value
  pub bool_value : Bool → Value
  pub string_value : Bytes → Value
  -- a `VObject` that the pairs are inserted into, in order
  pub object_value : List (Bytes × Value) → Value
  -- `as_object`, and the pairs that `iter` gives
  pub as_object : Value → Option (List (Bytes × Value))
  pub from_json : Bytes → Result Bytes Value
  pub to_json : Value → Result Bytes Bytes
  pub to_json_pretty : Value → Result Bytes Bytes
  pub root : Schema → Node
  pub def : Schema → Bytes → Option Node
  pub cases : Node → NodeCase Node
  pub same_node : Node → Node → Bool
  pub for_schema : Schema → Result Bytes Builder
  -- `builder.fields()`: name, node, and whether it has a default
  pub fields : Builder → List (Bytes × Node × Bool)
  pub set : Builder → Bytes → Value → Result Bytes Builder
  pub build : Builder → Result Bytes Value

module _ (docs : Documents) where
  open docs use {Schema, Node}

  resolved_case : Schema → Node → NodeCase Node → Option Node
  resolved_case schema node (ref_to name) = docs.def schema name
  resolved_case schema node case = some node

  -- `resolve`
  unfoldable pub resolve_node : Schema → Node → Option Node
  unfolding resolved_case
  resolve_node schema node = resolved_case schema node (docs.cases node)
