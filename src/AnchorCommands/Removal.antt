-- ===== src/AnchorCommands/Removal.antt =====
-- `remove` of crates/git-anchor/src/main.rs: all named entities are removed, or, where one is missing
-- beforehand, none.
use git_anchor.Base.{
  ◌≡◌, refl, ap, ◌∙◌, Bool, true, false, Option, none, some, List, [], ◌∷◌, In, ◌⊎◌, inl, inr,
  arith, Option-cases, any, if◌then◌else◌,
}
use git_anchor.Base.Text.{Bytes, same}
use git_anchor.Base.Result.{Result, ok, err, Result-cases}
use git_anchor.Base.Action.{Done, after-eq-ok, fails_as, fails_as-eq-ok, returns-eq-ok}
use git_anchor.Documents.{Documents}
use git_anchor.AnchorArgs.{AnchorCliError, of_libraries, no_entity}
use git_anchor.AnchorCommands.{
  DeleteResult, deleted, already_deleted, absent, EntityStore, RemoveArgs, present, check_all,
  was_deleted, delete_all, cmd_remove,
}

module _ (docs : Documents) {State : Type 0} (entities : EntityStore docs State) where
  either :
      (a b : Bool) (r : Result Bytes (Option docs.Value))
      → (if a then ok none else (if b then ok none else r))
        ≡ (if (elim b [ true ↦ true | false ↦ a ]) then ok none else r)
  either true true r = refl
  either true false r = refl
  either false true r = refl
  either false false r = refl

  -- What git-store documents of a deletion: the entity is gone, and every other reads as before.
  abbrev pub DeletesOne : Type 0
  DeletesOne =
      (s s' : State) (kind name : Bytes)
      → entities.delete_name s kind name ≡ (ok deleted, s')
      → (other : Bytes)
      → entities.read_value s' kind other
        ≡ (if same other name then ok none else entities.read_value s kind other)

  module _ (kind name : Bytes) (names : List Bytes) (s : State) where
    check_unread :
        (x : Bytes)
        → entities.read_value s kind name ≡ err x
        → check_all docs entities kind (name ∷ names) s ≡ (err (of_libraries x), s)
    unfolding check_all
    check_unread x e = rw e refl

    check_none :
        entities.read_value s kind name ≡ ok none
        → check_all docs entities kind (name ∷ names) s ≡ (err (no_entity kind name), s)
    unfolding check_all
    check_none e = rw e refl

    check_some :
        (value : docs.Value)
        → entities.read_value s kind name ≡ ok (some value)
        → check_all docs entities kind (name ∷ names) s ≡ check_all docs entities kind names s
    unfolding check_all
    check_some value e = rw e refl

  read_cases :
      (kind name : Bytes) (s : State)
      → ((x : Bytes) × (entities.read_value s kind name ≡ err x))
        ⊎ ((entities.read_value s kind name ≡ ok none)
            ⊎ ((value : docs.Value) × (entities.read_value s kind name ≡ ok (some value))))
  read_cases kind name s = elim (Result-cases (entities.read_value s kind name)) [
    | inr (x, e) ↦ inl (x, e)
    | inl (found, e) ↦ elim (Option-cases found) [
      | inl gone ↦ inr (inl (e ∙ ap ok gone))
      | inr (value, there) ↦ inr (inr (value, e ∙ ap ok there))
    ]
  ]

  check_all_missing :
      (kind name : Bytes) (names : List Bytes) (s : State)
      → In name names
      → entities.read_value s kind name ≡ ok none
      → (e : AnchorCliError) × (check_all docs entities kind names s ≡ (err e, s))
  check_all_missing kind name [] s h missing = absurd h
  check_all_missing kind name (n ∷ names) s h missing = elim (read_cases kind n s) [
    | inl (x, e) ↦ (of_libraries x, check_unread kind n names s x e)
    | inr (inl e) ↦ (no_entity kind n, check_none kind n names s e)
    | inr (inr (value, e)) ↦ elim h [
      | inl it_is ↦
          absurd (let e' : entities.read_value s kind name ≡ ok (some value) = rw it_is e in cc)
      | inr later ↦
          let (x, stopped) = check_all_missing kind name names s later missing in
          (x, check_some kind n names s value e ∙ stopped)
    ]
  ]

  -- Where one of the named entities is not there, `remove` fails and the store stays as it was,
  -- whatever else was named.
  pub cmd_remove_missing :
      (args : RemoveArgs) (name : Bytes) (s : State)
      → In name args.names
      → entities.read_value s args.kind name ≡ ok none
      → (e : AnchorCliError) × (cmd_remove docs entities args s ≡ (err e, s))
  unfolding cmd_remove
  cmd_remove_missing args name s h missing =
      let (x, stopped) = check_all_missing args.kind name args.names s h missing in
      (x, rw stopped refl)

  check_all_reads :
      (kind : Bytes) (names : List Bytes) (s s' : State) (d : Done)
      → check_all docs entities kind names s ≡ (ok d, s')
      → s ≡ s'
  unfolding check_all
  check_all_reads kind [] s s' d e = ground arith
  check_all_reads kind (name ∷ names) s s' d e =
      let (found, s1, e1, e2) =
        after-eq-ok (fails_as of_libraries (λ t. (entities.read_value t kind name, t)) s) _ e in
      let (there, s2, e3, e4) = after-eq-ok (present docs entities kind name found, s1) _ e2 in
      let (_, s_is) = returns-eq-ok of_libraries (entities.read_value s kind name) s found s1 e1 in
      let s1_is : s1 ≡ s2 = ap (λ (o : Result AnchorCliError Done × State). o.1) e3 in
      s_is ∙ s1_is ∙ check_all_reads kind names s2 s' d e4

  -- What is read after entities are removed.
  abbrev pub RemovedFrom : Bytes → List Bytes → State → State → Type 0
  RemovedFrom kind names s s' =
      (other : Bytes)
      → entities.read_value s' kind other ≡ (
          if any (λ name. same other name) names then ok none else entities.read_value s kind other)

  deleted_is :
      (kind name : Bytes) (result : DeleteResult) (d : Done)
      → was_deleted docs entities kind name result ≡ ok d
      → result ≡ deleted
  deleted_is kind name deleted d e = refl
  deleted_is kind name already_deleted d e = absurd (cc)
  deleted_is kind name absent d e = absurd (cc)

  delete_all-RemovedFrom :
      (kind : Bytes) (names : List Bytes) (s s' : State) (d : Done)
      → DeletesOne
      → delete_all docs entities kind names s ≡ (ok d, s')
      → RemovedFrom kind names s s'
  unfolding delete_all
  delete_all-RemovedFrom kind [] s s' d one e other =
      let s_is : s ≡ s' = ground arith in rw s_is refl
  delete_all-RemovedFrom kind (name ∷ names) s s' d one e other =
      let (result, s1, e1, e2) =
        after-eq-ok (fails_as of_libraries (λ t. entities.delete_name t kind name) s) _ e in
      let (done, s2, e3, e4) = after-eq-ok (was_deleted docs entities kind name result, s1) _ e2 in
      let s1_is : s1 ≡ s2 = ap (λ (o : Result AnchorCliError Done × State). o.1) e3 in
      let it_was : result ≡ deleted =
        deleted_is kind name result done
          (ap (λ (o : Result AnchorCliError Done × State). o.0) e3) in
      let gone =
        fails_as-eq-ok of_libraries (entities.delete_name s kind name) result s1 e1
        ∙ ap (λ (r : DeleteResult). (ok r, s1)) it_was in
      let first = one s s1 kind name gone other in
      let later = delete_all-RemovedFrom kind names s1 s' d one (rw s1_is e4) other in
      later
      ∙ ap
          (λ (r : Result Bytes (Option docs.Value)).
            if any (λ n. same other n) names then ok none else r)
          first
      ∙ either (any (λ n. same other n) names) (same other name) (entities.read_value s kind other)

  -- When `remove` succeeds, exactly the named entities of the kind are gone: every name that was given
  -- reads as no entity, and every other one as before.
  pub cmd_remove-RemovedFrom :
      (args : RemoveArgs) (s s' : State) (d : Done)
      → DeletesOne
      → cmd_remove docs entities args s ≡ (ok d, s')
      → RemovedFrom args.kind args.names s s'
  unfolding cmd_remove
  cmd_remove-RemovedFrom args s s' d one e =
      let (checked, s1, e1, e2) =
        after-eq-ok (check_all docs entities args.kind args.names s) _ e in
      let s_is = check_all_reads args.kind args.names s s1 checked e1 in
      delete_all-RemovedFrom args.kind args.names s s' d one (rw s_is e2)
