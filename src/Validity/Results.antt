-- ===== src/Validity/Results.antt =====
-- The answers and the errors of `revalidate` of crates/git-anchor/src/binding.rs, by variant.
use git_anchor.Base.{
  ℕ, zero, suc, ◌≡◌, ◌≢◌, ◌↔◌, ◌⊎◌, subst, inl, inr, refl, sym, Bool, true, false, List, [], ◌∷◌,
  arith, Bool-cases, ◌==◌, ==_iff,
}
use git_anchor.Base.Text.{Bytes}
use git_anchor.Base.Result.{Result, ok, err, Result-cases}
use git_anchor.Error.{Error, resolve, object, Stop, failed, exhausted}
use git_anchor.Repository.{Repository, Entry}
use git_anchor.Anchor.{resolve_commit}
use git_anchor.Oracle.{diff_trace_oracle}
use git_anchor.Binding.{
  Binding, commit_of, tree_of, delta_of, position, hybrid_of, HybridIdentity, NoHints,
}
use git_anchor.Validity.{
  Validity, valid, stale, unknown, EvalState, is_valid, is_unknown, combine, commit_validity,
  tree_validity, tree_reachable, contains_loop, tree_contains, position_validity, revalidate,
}

-- The composition is `valid` exactly when both halves are, and `unknown` exactly when either is; the
-- order of the halves does not matter.
pub combine_lem :
    (a b : Validity)
    → ((combine a b ≡ valid) ↔ ((a ≡ valid) × (b ≡ valid)))
      × ((combine a b ≡ unknown) ↔ ((a ≡ unknown) ⊎ (b ≡ unknown)))
      × (combine a b ≡ combine b a)
unfolding combine is_valid is_unknown
combine_lem valid valid =
    ((λ _. (refl, refl), λ _. refl), (λ e. cc, λ e. elim e [ inl x ↦ cc | inr x ↦ cc ]), refl)
combine_lem valid stale =
    ((λ e. cc, λ e. cc), (λ e. cc, λ e. elim e [ inl x ↦ cc | inr x ↦ cc ]), refl)
combine_lem valid unknown = ((λ e. cc, λ e. cc), (λ e. inr refl, λ e. refl), refl)
combine_lem stale valid =
    ((λ e. cc, λ e. cc), (λ e. cc, λ e. elim e [ inl x ↦ cc | inr x ↦ cc ]), refl)
combine_lem stale stale =
    ((λ e. cc, λ e. cc), (λ e. cc, λ e. elim e [ inl x ↦ cc | inr x ↦ cc ]), refl)
combine_lem stale unknown = ((λ e. cc, λ e. cc), (λ e. inr refl, λ e. refl), refl)
combine_lem unknown valid = ((λ e. cc, λ e. cc), (λ e. inl refl, λ e. refl), refl)
combine_lem unknown stale = ((λ e. cc, λ e. cc), (λ e. inl refl, λ e. refl), refl)
combine_lem unknown unknown = ((λ e. cc, λ e. cc), (λ e. inl refl, λ e. refl), refl)

-- `at` is resolved by `revalidate` for every binding but a delta.
abbrev pub IsResolved : Binding → Type 0
IsResolved (delta_of identity hints) = ⊥
IsResolved (commit_of identity hints) = Unit
IsResolved (tree_of identity hints) = Unit
IsResolved (position anchor) = Unit
IsResolved (hybrid_of identity hints) = Unit

module _ (repo : Repository) where
  -- `resolve_commit` has no other error.
  resolve_commit_err : (at : Bytes) (e : Error) → resolve_commit repo at ≡ err e → e ≡ resolve at
  unfolding resolve_commit
  resolve_commit_err at e h = elim (Result-cases (repo.rev_parse_single at)) [
    | inr (x, bad) ↦ ground arith
    | inl (i, parsed) ↦ elim (Result-cases (repo.find_object i)) [
      | inr (x, bad) ↦ ground arith
      | inl (o, there) ↦ elim (Result-cases (repo.peel_to_commit o)) [
        | inr (x, bad) ↦ ground arith
        | inl (c, peeled) ↦ absurd (ground arith)
      ]
    ]
  ]

  -- Where the revision cannot be resolved, the answer is `unknown`, for every binding but a delta.
  pub revalidate_unresolved :
      (fuel : ℕ) (binding : Binding) (state : EvalState) (e : Error)
      → IsResolved binding
      → resolve_commit repo state.at ≡ err e
      → revalidate repo fuel binding state ≡ ok unknown
  unfolding revalidate commit_validity tree_validity tree_reachable position_validity
      diff_trace_oracle combine is_valid is_unknown
  revalidate_unresolved fuel (commit_of identity hints) state e r h = ground arith
  revalidate_unresolved fuel (tree_of identity hints) state e r h = ground arith
  revalidate_unresolved fuel (delta_of identity hints) state e r h = absurd r
  revalidate_unresolved fuel (position anchor) state e r h =
      let e_is : e ≡ resolve state.at = resolve_commit_err state.at e h in ground arith
  revalidate_unresolved fuel (hybrid_of identity hints) state e r h = ground arith

  -- The errors of the search of a tree are those of reading it.
  IsRead : Stop → Type 0
  IsRead (failed (object message)) = Unit
  IsRead (failed e) = ⊥
  IsRead exhausted = Unit

  contains_loop-IsRead :
      (descend : ℕ → Result Stop Bool) (target : ℕ) (es : List (Result Bytes Entry)) (e : Stop)
      → ((tree : ℕ) (e : Stop) → descend tree ≡ err e → IsRead e)
      → contains_loop repo descend target es ≡ err e
      → IsRead e
  unfolding contains_loop
  contains_loop-IsRead descend target [] e below h = absurd (cc)
  contains_loop-IsRead descend target (err x ∷ es) e below h =
      let e_is : failed (object x) ≡ e = ground arith in subst IsRead e_is (unfold IsRead in tt)
  contains_loop-IsRead descend target (ok d ∷ es) e below h =
      elim (Bool-cases (repo.is_tree d.mode)) [
        | inr leaf ↦ contains_loop-IsRead descend target es e below (rw leaf at h)
        | inl tree ↦ elim (Bool-cases (d.id == target)) [
          | inl eq ↦ absurd (ground arith)
          | inr ne ↦ elim (Result-cases (repo.try_into_tree d.id)) [
            | inr (x, bad) ↦
                let e_is : failed (object x) ≡ e = ground arith in
                subst IsRead e_is (unfold IsRead in tt)
            | inl (s, sub) ↦ elim (Result-cases (descend s)) [
              | inr (x, bad) ↦ below s e (ground arith)
              | inl (true, there) ↦ absurd (ground arith)
              | inl (false, there) ↦
                  contains_loop-IsRead descend target es e below (rw (tree, ne, sub, there) at h)
            ]
          ]
        ]
      ]

  tree_contains-IsRead :
      (fuel target tree : ℕ) (e : Stop) → tree_contains repo fuel target tree ≡ err e → IsRead e
  unfolding tree_contains
  tree_contains-IsRead zero target tree e h =
      let e_is : exhausted ≡ e = ground arith in subst IsRead e_is (unfold IsRead in tt)
  tree_contains-IsRead (suc fuel) target tree e h = elim (Bool-cases (tree == target)) [
    | inl eq ↦ absurd (ground arith)
    | inr ne ↦
        contains_loop-IsRead (tree_contains repo fuel target) target (repo.tree_iter tree) e
          (λ t x b. tree_contains-IsRead fuel target t x b) (rw ne at h)
  ]

  tree_contains_no_resolve :
      (fuel target tree : ℕ) (revision : Bytes)
      → tree_contains repo fuel target tree ≡ err (failed (resolve revision))
      → ⊥
  tree_contains_no_resolve fuel target tree revision h =
      unfold IsRead in
      (let r : IsRead (failed (resolve revision)) =
          tree_contains-IsRead fuel target tree (failed (resolve revision)) h in
        r)

  tree_validity_no_resolve :
      (fuel tree : ℕ) (path at revision : Bytes)
      → tree_validity repo fuel tree path at ≡ err (failed (resolve revision))
      → ⊥
  unfolding tree_validity
  tree_validity_no_resolve fuel tree path at revision h =
      elim (Result-cases (resolve_commit repo at)) [
        | inr (x, bad) ↦ ground arith
        | inl (commit, r) ↦ elim (Result-cases (repo.commit_tree commit)) [
          | inr (x, bad) ↦ ground arith
          | inl (root, t) ↦ ground (arith, tree_contains_no_resolve fuel tree root revision)
        ]
      ]

  tree_reachable_no_resolve :
      (fuel tree : ℕ) (at revision : Bytes)
      → tree_reachable repo fuel tree at ≡ err (failed (resolve revision))
      → ⊥
  unfolding tree_reachable
  tree_reachable_no_resolve fuel tree at revision h = elim (Result-cases (resolve_commit repo at)) [
    | inr (x, bad) ↦ ground arith
    | inl (commit, r) ↦ elim (Result-cases (repo.commit_tree commit)) [
      | inr (x, bad) ↦ ground arith
      | inl (root, t) ↦ ground (arith, tree_contains_no_resolve fuel tree root revision)
    ]
  ]

  -- Whatever the binding and the state, the answer is never the error of an unresolvable revision.
  pub revalidate_no_resolve :
      (fuel : ℕ) (binding : Binding) (state : EvalState) (revision : Bytes)
      → revalidate repo fuel binding state ≢ err (failed (resolve revision))
  unfolding revalidate commit_validity position_validity
  revalidate_no_resolve fuel (commit_of identity hints) state revision h = ground arith
  revalidate_no_resolve fuel (delta_of identity hints) state revision h = ground arith
  revalidate_no_resolve fuel (tree_of identity hints) state revision h =
      tree_validity_no_resolve fuel identity.tree hints.path state.at revision h
  revalidate_no_resolve fuel (position anchor) state revision h = ground arith
  revalidate_no_resolve fuel (hybrid_of identity hints) state revision h =
      ground (arith, tree_reachable_no_resolve fuel identity.tree state.at revision)

  -- A commit binding: `unknown` where the commit is absent; with the revision resolved, `valid`
  -- exactly when the commit is the revision's or its merge base with it, and `stale` otherwise.
  pub commit_validity_lem :
      (commit target : ℕ) (at : Bytes)
      → resolve_commit repo at ≡ ok target
      → (repo.has_object commit ≡ false → commit_validity repo commit at ≡ unknown)
        × (repo.has_object commit ≡ true
            → ((commit_validity repo commit at ≡ valid)
                ↔ ((commit ≡ target) ⊎ (repo.merge_base commit target ≡ ok commit)))
              × ((commit_validity repo commit at ≡ valid)
                  ⊎ (commit_validity repo commit at ≡ stale)))
  unfolding commit_validity
  commit_validity_lem commit target at r = (
    λ gone. ground arith,
    λ there. elim (Bool-cases (commit == target)) [
      | inl eq ↦ (
        (λ _. inl ((==_iff commit target).0 eq), λ _. rw (there, r, eq) refl),
        inl (rw (there, r, eq) refl),
      )
      | inr ne ↦ elim (Result-cases (repo.merge_base commit target)) [
        | inr (x, bad) ↦ (
          (λ v. absurd (ground arith), λ w. ground (arith, ==_iff commit target)),
          inr (rw (there, r, ne, bad) refl),
        )
        | inl (base, m) ↦ elim (Bool-cases (base == commit)) [
          | inl is ↦
              let base_is : base ≡ commit = (==_iff base commit).0 is in
              (
                (λ v. inr (ground arith), λ w. rw (there, r, ne, m, is) refl),
                inl (rw (there, r, ne, m, is) refl),
              )
          | inr is_not ↦ (
            (
              λ v. absurd (ground arith),
              λ w. ground (arith, ==_iff commit target, ==_iff base commit),
            ),
            inr (rw (there, r, ne, m, is_not) refl),
          )
        ]
      ]
    ],
  )

  unfold_hybrid :
      (fuel : ℕ) (identity : HybridIdentity) (hints : NoHints) (state : EvalState) (v : Validity)
      → revalidate repo fuel (hybrid_of identity hints) state ≡ ok v
      → (w : Validity) × (tree_reachable repo fuel identity.tree state.at ≡ ok w)
        × (combine (commit_validity repo identity.commit state.at) w ≡ v)
  unfolding revalidate
  unfold_hybrid fuel identity hints state v e =
      elim (Result-cases (tree_reachable repo fuel identity.tree state.at)) [
        | inr (x, bad) ↦ absurd (ground arith)
        | inl (w, t) ↦ (w, t, ground arith)
      ]

  -- Where a hybrid binding gets an answer, the search for its tree has one too, and the binding is
  -- `valid` exactly when its commit and its tree are.
  pub revalidate_hybrid :
      (fuel : ℕ) (identity : HybridIdentity) (hints : NoHints) (state : EvalState) (v : Validity)
      → revalidate repo fuel (hybrid_of identity hints) state ≡ ok v
      → (w : Validity) × (tree_reachable repo fuel identity.tree state.at ≡ ok w)
        × ((v ≡ valid) ↔ ((commit_validity repo identity.commit state.at ≡ valid) × (w ≡ valid)))
  revalidate_hybrid fuel identity hints state v e =
      let (w, t, c) = unfold_hybrid fuel identity hints state v e in
      (w, t, rw (sym c) (combine_lem (commit_validity repo identity.commit state.at) w).0)
