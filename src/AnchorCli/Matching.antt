-- ===== src/AnchorCli/Matching.antt =====
-- `binding_field` and `unique_string_field` of crates/git-anchor/src/main.rs: the one field that they
-- find.
use git_anchor.Base.{
  ◌≡◌, ◌↔◌, refl, sym, ap, ◌∙◌, subst, Bool, true, false, List, [], ◌∷◌, ◌++◌, All, arith,
  Bool-cases, inl, inr,
}
use git_anchor.Base.Text.{Bytes}
use git_anchor.Base.Result.{ok}
use git_anchor.Documents.{Documents, Field}
use git_anchor.AnchorCli.{names_where, one_binding, one_string, takes_text, unique_string_field}

module _ {Node : Type 0} where
  -- The one field with the name passes the test, and no field before or after it does.
  abbrev pub IsOnly : (Bytes → Field Node → Bool) → List (Bytes × Field Node) → Bytes → Type 0
  IsOnly test fields name =
      (before : List (Bytes × Field Node)) × (field : Field Node) × (after : List
        (Bytes × Field Node))
      × (fields ≡ before ++ ((name, field) ∷ after))
      × (test name field ≡ true)
      × All (λ (f : Bytes × Field Node). test f.0 f.1 ≡ false) before
      × All (λ (f : Bytes × Field Node). test f.0 f.1 ≡ false) after

  module _ (test : Bytes → Field Node → Bool) where
    matched :
        (name : Bytes) (field : Field Node) (fields : List (Bytes × Field Node))
        → test name field ≡ true
        → names_where test ((name, field) ∷ fields) ≡ name ∷ names_where test fields
    unfolding names_where
    matched name field fields e = rw e refl

    passed_over :
        (name : Bytes) (field : Field Node) (fields : List (Bytes × Field Node))
        → test name field ≡ false
        → names_where test ((name, field) ∷ fields) ≡ names_where test fields
    unfolding names_where
    passed_over name field fields e = rw e refl

    names_empty : names_where test [] ≡ []
    unfolding names_where
    names_empty = refl

    none_where :
        (fields : List (Bytes × Field Node))
        → names_where test fields ≡ []
        → All (λ (f : Bytes × Field Node). test f.0 f.1 ≡ false) fields
    none_where [] e = tt
    none_where ((name, field) ∷ fields) e = elim (Bool-cases (test name field)) [
      | inl it_is ↦ absurd (cc (matched name field fields it_is))
      | inr it_is_not ↦
          (it_is_not, none_where fields (sym (passed_over name field fields it_is_not) ∙ e))
    ]

    where_none :
        (fields : List (Bytes × Field Node))
        → All (λ (f : Bytes × Field Node). test f.0 f.1 ≡ false) fields
        → names_where test fields ≡ []
    where_none [] h = names_empty
    where_none ((name, field) ∷ fields) (e, h) =
        passed_over name field fields e ∙ where_none fields h

    names_where-IsOnly :
        (fields : List (Bytes × Field Node)) (name : Bytes)
        → names_where test fields ≡ name ∷ []
        → IsOnly test fields name
    names_where-IsOnly [] name e = absurd (cc names_empty)
    names_where-IsOnly ((n, field) ∷ fields) name e = elim (Bool-cases (test n field)) [
      | inl it_is ↦
          let e' = sym (matched n field fields it_is) ∙ e in
          let (n_is, rest_is) : (n ≡ name) × (names_where test fields ≡ []) = ground arith in
          (
            [],
            field,
            fields,
            ap (λ (m : Bytes). (m, field) ∷ fields) n_is,
            subst (λ m. test m field ≡ true) n_is it_is,
            tt,
            none_where fields rest_is,
          )
      | inr it_is_not ↦
          let (before, f, after, fields_are, passes, none_before, none_after) =
            names_where-IsOnly fields name (sym (passed_over n field fields it_is_not) ∙ e) in
          (
            (n, field) ∷ before,
            f,
            after,
            ap (λ (l : List (Bytes × Field Node)). (n, field) ∷ l) fields_are,
            passes,
            (it_is_not, none_before),
            none_after,
          )
    ]

    where_only :
        (before : List (Bytes × Field Node)) (name : Bytes) (field : Field Node)
        (after : List (Bytes × Field Node))
        → test name field ≡ true
        → All (λ (f : Bytes × Field Node). test f.0 f.1 ≡ false) before
        → All (λ (f : Bytes × Field Node). test f.0 f.1 ≡ false) after
        → names_where test (before ++ ((name, field) ∷ after)) ≡ name ∷ []
    where_only [] name field after passes h k =
        matched name field after passes ∙ ap (◌∷◌ name) (where_none after k)
    where_only ((n, f) ∷ before) name field after passes (e, h) k =
        passed_over n f (before ++ ((name, field) ∷ after)) e
        ∙ where_only before name field after passes h k

    pub names_where_iff :
        (fields : List (Bytes × Field Node)) (name : Bytes)
        → (names_where test fields ≡ name ∷ []) ↔ IsOnly test fields name
    names_where_iff fields name = (
      names_where-IsOnly fields name,
      λ (before, field, after, fields_are, passes, h, k).
          ap (names_where test) fields_are ∙ where_only before name field after passes h k,
    )

module _ (docs : Documents) where
  pub one_binding-eq-ok :
      (names : List Bytes) (name : Bytes) → one_binding docs names ≡ ok name → names ≡ name ∷ []
  unfolding one_binding
  one_binding-eq-ok [] name e = absurd (cc)
  one_binding-eq-ok (n ∷ []) name e = let n_is : n ≡ name = ground arith in ap (λ m. m ∷ []) n_is
  one_binding-eq-ok (n ∷ m ∷ names) name e = absurd (cc)

  pub one_binding_alone : (name : Bytes) → one_binding docs (name ∷ []) ≡ ok name
  unfolding one_binding
  one_binding_alone name = refl

  one_string-eq-ok :
      (names : List Bytes) (name : Bytes) → one_string docs names ≡ ok name → names ≡ name ∷ []
  unfolding one_string
  one_string-eq-ok [] name e = absurd (cc)
  one_string-eq-ok (n ∷ []) name e = let n_is : n ≡ name = ground arith in ap (λ m. m ∷ []) n_is
  one_string-eq-ok (n ∷ m ∷ names) name e = absurd (cc)

  one_string_alone : (name : Bytes) → one_string docs (name ∷ []) ≡ ok name
  unfolding one_string
  one_string_alone name = refl

  -- The positional text goes to a field exactly when that is the one field, besides the binding's, that
  -- has no default and is a string.
  pub unique_string_field_iff :
      (schema : docs.Schema) (fields : List (Bytes × Field docs.Node)) (binding_name name : Bytes)
      → (unique_string_field docs schema fields binding_name ≡ ok name)
        ↔ IsOnly (takes_text docs schema binding_name) fields name
  unfolding unique_string_field
  unique_string_field_iff schema fields binding_name name = (
    λ e.
        (names_where_iff (takes_text docs schema binding_name) fields name).0
          (one_string-eq-ok (names_where (takes_text docs schema binding_name) fields) name e),
    λ h.
        ap (one_string docs)
          ((names_where_iff (takes_text docs schema binding_name) fields name).1 h)
        ∙ one_string_alone name,
  )
