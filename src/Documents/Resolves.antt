-- ===== src/Documents/Resolves.antt =====
-- `resolve` of the two command lines, crates/git-anchor/src/main.rs and crates/git-attest/src/main.rs:
-- what a node of a schema stands for.
use git_anchor.Base.{◌≡◌, ◌≢◌, ◌↔◌, ◌⊎◌, inl, inr, refl, sym, ◌∙◌, subst, some, arith}
use git_anchor.Base.Text.{Bytes}
use git_anchor.Documents.{
  Documents, NodeCase, ref_to, optional, struct_of, string, bytes, otherwise, resolved_case,
  resolve_node,
}

abbrev pub IsNoRef : {Node : Type 0} → NodeCase Node → Type 0
IsNoRef case = (name : Bytes) → case ≢ ref_to name

ref_or_not :
    {Node : Type 0} (case : NodeCase Node) → ((name : Bytes) × (case ≡ ref_to name)) ⊎ IsNoRef case
ref_or_not (ref_to name) = inl (name, refl)
ref_or_not (optional node) = inr (λ name e. cc)
ref_or_not (struct_of fields) = inr (λ name e. cc)
ref_or_not string = inr (λ name e. cc)
ref_or_not bytes = inr (λ name e. cc)
ref_or_not otherwise = inr (λ name e. cc)

module _ (docs : Documents) where
  open docs use {Schema, Node, cases}

  -- What a node stands for: the definition that it refers to, or itself where it is no reference.
  pub data Resolves (schema : Schema) (node : Node) : Node → Type 0 where
    by_name :
        {name : Bytes} {found : Node}
        → cases node ≡ ref_to name
        → docs.def schema name ≡ some found
        → Resolves schema node found
    itself : IsNoRef (cases node) → Resolves schema node node

  resolved_itself :
      (schema : Schema) (node : Node) (case : NodeCase Node)
      → IsNoRef case
      → resolved_case docs schema node case ≡ some node
  unfolding resolved_case
  resolved_itself schema node (ref_to name) n = absurd (n name refl)
  resolved_itself schema node (optional inner) n = refl
  resolved_itself schema node (struct_of fields) n = refl
  resolved_itself schema node string n = refl
  resolved_itself schema node bytes n = refl
  resolved_itself schema node otherwise n = refl

  node_itself :
      (schema : Schema) (node : Node)
      → IsNoRef (cases node)
      → resolve_node docs schema node ≡ some node
  unfolding resolve_node
  node_itself schema node n = resolved_itself schema node (cases node) n

  node_by_name :
      (schema : Schema) (node : Node) (name : Bytes)
      → cases node ≡ ref_to name
      → resolve_node docs schema node ≡ docs.def schema name
  unfolding resolve_node resolved_case
  node_by_name schema node name c = rw c refl

  resolve_node-Resolves :
      (schema : Schema) (node found : Node)
      → resolve_node docs schema node ≡ some found
      → Resolves schema node found
  resolve_node-Resolves schema node found e = elim (ref_or_not (cases node)) [
    | inl (name, c) ↦ by_name c (sym (node_by_name schema node name c) ∙ e)
    | inr n ↦
        let found_is : node ≡ found = ground (arith, node_itself schema node n) in
        subst (Resolves schema node) found_is (itself n)
  ]

  Resolves-resolve_node :
      (schema : Schema) (node found : Node)
      → Resolves schema node found
      → resolve_node docs schema node ≡ some found
  Resolves-resolve_node schema node found (by_name {name = name} c d) =
      node_by_name schema node name c ∙ d
  Resolves-resolve_node schema node found (itself n) = node_itself schema node n

  -- `resolve` finds exactly what a node stands for.
  pub resolve_node_iff :
      (schema : Schema) (node found : Node)
      → (resolve_node docs schema node ≡ some found) ↔ Resolves schema node found
  resolve_node_iff schema node found =
      (resolve_node-Resolves schema node found, Resolves-resolve_node schema node found)
