-- ===== src/AnchorCli/Shapes.antt =====
-- `binding_field` of crates/git-anchor/src/main.rs: the field that has a binding's shape.
use git_anchor.Base.{
  ◌≡◌, ◌↔◌, inl, inr, refl, Bool, true, false, ◌||◌, Option, none, some, List, [], ◌∷◌, ◌++◌, All,
  arith, Bool-cases,
}
use git_anchor.Base.Text.{Bytes}
use git_anchor.Base.Result.{ok, map_err, map_err-eq-ok, bind-eq-ok, ok_or-eq-ok}
use git_anchor.Documents.{
  Documents, Field, NodeCase, ref_to, optional, struct_of, string, bytes, otherwise, resolve_node,
}
use git_anchor.Documents.Resolves.{Resolves, resolve_node_iff}
use git_anchor.AnchorArgs.{of_libraries, root_unresolved}
use git_anchor.AnchorCli.{
  BindingDocs, shape_is_binding, names_where, struct_fields, canonical_root, holds_binding,
  binding_field, same_resolved, optional_shape, resolved_shape, found_fields, case_of,
}
use git_anchor.AnchorCli.Matching.{IsOnly, names_where_iff, one_binding-eq-ok, one_binding_alone}

or_true : (b : Bool) → (b || true) ≡ true
or_true true = refl
or_true false = refl

module _ (docs : Documents) where
  open docs use {Schema, Node, cases, same_node}

  -- The shape of a binding, or of an optional one.
  pub data HasShape (schema : Schema) (binding node : Node) : Type 0 where
    plain :
        (found : Node)
        → Resolves docs schema node found
        → same_node found binding ≡ true
        → HasShape schema binding node
    wrapped :
        (found inner core : Node)
        → Resolves docs schema node found
        → cases found ≡ optional inner
        → Resolves docs schema inner core
        → same_node core binding ≡ true
        → HasShape schema binding node

  same_resolved-some :
      (found : Option Node) (binding : Node)
      → same_resolved docs found binding ≡ true
      → (core : Node) × (found ≡ some core) × (same_node core binding ≡ true)
  unfolding same_resolved
  same_resolved-some none binding e = absurd (cc)
  same_resolved-some (some core) binding e = (core, refl, e)

  optional_shape-wrapped :
      (schema : Schema) (case : NodeCase Node) (binding : Node)
      → optional_shape docs schema case binding ≡ true
      → (inner core : Node) × (case ≡ optional inner)
        × (resolve_node docs schema inner ≡ some core)
        × (same_node core binding ≡ true)
  unfolding optional_shape
  optional_shape-wrapped schema (optional inner) binding e =
      let (core, found, same) = same_resolved-some (resolve_node docs schema inner) binding e in
      (inner, core, refl, found, same)
  optional_shape-wrapped schema (ref_to name) binding e = absurd (cc)
  optional_shape-wrapped schema (struct_of fields) binding e = absurd (cc)
  optional_shape-wrapped schema string binding e = absurd (cc)
  optional_shape-wrapped schema bytes binding e = absurd (cc)
  optional_shape-wrapped schema otherwise binding e = absurd (cc)

  resolved_shape-HasShape :
      (schema : Schema) (binding node : Node) (found : Option Node)
      → resolve_node docs schema node ≡ found
      → resolved_shape docs schema found binding ≡ true
      → HasShape schema binding node
  unfolding resolved_shape
  resolved_shape-HasShape schema binding node none r e = absurd (cc)
  resolved_shape-HasShape schema binding node (some found) r e =
      let stands = (resolve_node_iff docs schema node found).0 r in
      elim (Bool-cases (same_node found binding)) [
        | inl same ↦ plain found stands same
        | inr other ↦
            let e' : optional_shape docs schema (cases found) binding ≡ true = rw other at e in
            let (inner, core, c, r', same) =
              optional_shape-wrapped schema (cases found) binding e' in
            wrapped found inner core stands c ((resolve_node_iff docs schema inner core).0 r') same
      ]

  HasShape-resolved :
      (schema : Schema) (binding node : Node)
      → HasShape schema binding node
      → shape_is_binding docs schema node binding ≡ true
  unfolding shape_is_binding resolved_shape optional_shape same_resolved
  HasShape-resolved schema binding node (plain found r e) =
      rw ((resolve_node_iff docs schema node found).1 r, e) refl
  HasShape-resolved schema binding node (wrapped found inner core r c r' e) =
      rw
        (
          (resolve_node_iff docs schema node found).1 r,
          c,
          (resolve_node_iff docs schema inner core).1 r',
          e,
        )
        (or_true (same_node found binding))

  shape_is_binding-HasShape :
      (schema : Schema) (binding node : Node)
      → shape_is_binding docs schema node binding ≡ true
      → HasShape schema binding node
  unfolding shape_is_binding
  shape_is_binding-HasShape schema binding node e =
      resolved_shape-HasShape schema binding node (resolve_node docs schema node) refl e

  -- The one field of the list with a binding's shape.
  abbrev pub IsOnlyShaped : Schema → Node → List (Bytes × Field Node) → Bytes → Type 0
  IsOnlyShaped schema binding fields name =
      (before : List (Bytes × Field Node)) × (field : Field Node) × (after : List
        (Bytes × Field Node))
      × (fields ≡ before ++ ((name, field) ∷ after))
      × HasShape schema binding field.node
      × All (λ (f : Bytes × Field Node). HasShape schema binding f.1.node → ⊥) before
      × All (λ (f : Bytes × Field Node). HasShape schema binding f.1.node → ⊥) after

  unshaped :
      (schema : Schema) (binding : Node) (fields : List (Bytes × Field Node))
      → All
          (λ (f : Bytes × Field Node). shape_is_binding docs schema f.1.node binding ≡ false)
          fields
      → All (λ (f : Bytes × Field Node). HasShape schema binding f.1.node → ⊥) fields
  unshaped schema binding [] h = tt
  unshaped schema binding (f ∷ fields) (e, h) = (
    λ shape. cc (HasShape-resolved schema binding f.1.node shape),
    unshaped schema binding fields h,
  )

  passed_over :
      (schema : Schema) (binding : Node) (fields : List (Bytes × Field Node))
      → All (λ (f : Bytes × Field Node). HasShape schema binding f.1.node → ⊥) fields
      → All
          (λ (f : Bytes × Field Node). shape_is_binding docs schema f.1.node binding ≡ false)
          fields
  passed_over schema binding [] h = tt
  passed_over schema binding (f ∷ fields) (n, h) = (
    elim (Bool-cases (shape_is_binding docs schema f.1.node binding)) [
      | inl e ↦ absurd (n (shape_is_binding-HasShape schema binding f.1.node e))
      | inr e ↦ e
    ],
    passed_over schema binding fields h,
  )

  found_case :
      (case : NodeCase Node) (fields : List (Bytes × Field Node))
      → found_fields docs (some case) ≡ ok fields
      → case ≡ struct_of fields
  unfolding found_fields
  found_case (struct_of found) fields e = let same : found ≡ fields = ground arith in rw same refl
  found_case (ref_to name) fields e = absurd (cc)
  found_case (optional inner) fields e = absurd (cc)
  found_case string fields e = absurd (cc)
  found_case bytes fields e = absurd (cc)
  found_case otherwise fields e = absurd (cc)

  found_nothing : (fields : List (Bytes × Field Node)) → found_fields docs none ≡ ok fields → ⊥
  unfolding found_fields
  found_nothing fields e = cc

  -- A schema describes a struct with some fields.
  abbrev pub IsStruct : Schema → List (Bytes × Field Node) → Type 0
  IsStruct schema fields =
      (node : Node) × Resolves docs schema (docs.root schema) node × (cases node ≡ struct_of fields)

  found-IsStruct :
      (schema : Schema) (fields : List (Bytes × Field Node)) (found : Option Node)
      → resolve_node docs schema (docs.root schema) ≡ found
      → found_fields docs (case_of docs found) ≡ ok fields
      → IsStruct schema fields
  unfolding case_of
  found-IsStruct schema fields none r e = absurd (found_nothing fields e)
  found-IsStruct schema fields (some node) r e = (
    node,
    (resolve_node_iff docs schema (docs.root schema) node).0 r,
    found_case (cases node) fields e,
  )

  struct_fields-IsStruct :
      (schema : Schema) (fields : List (Bytes × Field Node))
      → struct_fields docs schema ≡ ok fields
      → IsStruct schema fields
  unfolding struct_fields
  struct_fields-IsStruct schema fields e =
      found-IsStruct schema fields (resolve_node docs schema (docs.root schema)) refl e

  IsStruct-struct_fields :
      (schema : Schema) (fields : List (Bytes × Field Node))
      → IsStruct schema fields
      → struct_fields docs schema ≡ ok fields
  unfolding struct_fields case_of found_fields
  IsStruct-struct_fields schema fields (node, r, c) =
      rw ((resolve_node_iff docs schema (docs.root schema) node).1 r, c) refl

  module _ (binding_docs : BindingDocs docs) where
    open binding_docs use {binding_schema}

    -- The root of Binding's own schema.
    abbrev pub IsBindingRoot : Node → Type 0
    IsBindingRoot binding =
        (canonical : Schema) × (binding_schema ≡ ok canonical)
        × Resolves docs canonical (docs.root canonical) binding

    canonical_root-IsBindingRoot :
        (binding : Node) → canonical_root docs binding_docs ≡ ok binding → IsBindingRoot binding
    unfolding canonical_root
    canonical_root-IsBindingRoot binding e =
        let (canonical, e1, e2) = bind-eq-ok (map_err of_libraries binding_schema) _ e in
        let found : resolve_node docs canonical (docs.root canonical) ≡ some binding =
          ok_or-eq-ok (resolve_node docs canonical (docs.root canonical)) root_unresolved e2 in
        (
          canonical,
          map_err-eq-ok of_libraries binding_schema e1,
          (resolve_node_iff docs canonical (docs.root canonical) binding).0 found,
        )

    IsBindingRoot-canonical_root :
        (binding : Node) → IsBindingRoot binding → canonical_root docs binding_docs ≡ ok binding
    unfolding canonical_root
    IsBindingRoot-canonical_root binding (canonical, is, r) =
        rw (is, (resolve_node_iff docs canonical (docs.root canonical) binding).1 r) refl

    -- A schema is anchorable at a field exactly when Binding's own schema has a root, the schema
    -- describes a struct, and the field is the one field of it whose node stands for that root, or for an
    -- optional node that does.
    pub binding_field_iff :
        (schema : Schema) (name : Bytes)
        → (binding_field docs binding_docs schema ≡ ok name)
          ↔ (binding : Node) × (fields : List (Bytes × Field Node)) × IsBindingRoot binding
            × IsStruct schema fields
            × IsOnlyShaped schema binding fields name
    unfolding binding_field
    binding_field_iff schema name = (
      λ e.
          let (binding, e1, e2) = bind-eq-ok (canonical_root docs binding_docs) _ e in
          let (fields, e3, e4) = bind-eq-ok (struct_fields docs schema) _ e2 in
          let test = holds_binding docs binding_docs schema binding in
          let (before, field, after, are, passes, h, k) =
            (names_where_iff test fields name).0
              (one_binding-eq-ok docs (names_where test fields) name e4) in
          (
            binding,
            fields,
            canonical_root-IsBindingRoot binding e1,
            struct_fields-IsStruct schema fields e3,
            (
              before,
              field,
              after,
              are,
              shape_is_binding-HasShape schema binding field.node passes,
              unshaped schema binding before h,
              unshaped schema binding after k,
            ),
          ),
      λ (binding, fields, root, struct, (before, field, after, are, shape, h, k)).
          let only : IsOnly (holds_binding docs binding_docs schema binding) fields name = (
            before,
            field,
            after,
            are,
            HasShape-resolved schema binding field.node shape,
            passed_over schema binding before h,
            passed_over schema binding after k,
          ) in
          rw
            (
              IsBindingRoot-canonical_root binding root,
              IsStruct-struct_fields schema fields struct,
              (names_where_iff (holds_binding docs binding_docs schema binding) fields name).1 only,
            )
            (one_binding_alone docs name),
    )
