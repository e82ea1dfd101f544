-- ===== src/Validity/Trees.antt =====
-- The search for a tree below a tree: `tree_contains` and `tree_validity` of
-- crates/git-anchor/src/binding.rs.
use git_anchor.Base.{
  ℕ, zero, suc, ◌≡◌, ◌↔◌, ◌⊎◌, ◌<◌, inl, inr, refl, sym, Bool, true, false, Option, none, some,
  List, [], ◌∷◌, In, arith, Bool-cases, ◌==◌, ==_iff,
}
use git_anchor.Base.Text.{Bytes}
use git_anchor.Base.Result.{Result, ok, err, Result-cases}
use git_anchor.Error.{Stop}
use git_anchor.Repository.{Repository, Entry}
use git_anchor.Anchor.{resolve_commit}
use git_anchor.Validity.{
  Validity, valid, stale, found, contains_loop, tree_contains, is_at_path, tree_validity,
}

-- The tree `target` is the tree, or stands below it at some depth.
pub data Within (repo : Repository) (target : ℕ) : ℕ → Type 0 where
  here : {tree : ℕ} → tree ≡ target → Within repo target tree
  entry :
      {tree : ℕ} (e : Entry)
      → In (ok e) (repo.tree_iter tree)
      → repo.is_tree e.mode ≡ true
      → e.id ≡ target
      → Within repo target tree
  below :
      {tree : ℕ} (e : Entry) (subtree : ℕ)
      → In (ok e) (repo.tree_iter tree)
      → repo.is_tree e.mode ≡ true
      → repo.try_into_tree e.id ≡ ok subtree
      → Within repo target subtree
      → Within repo target tree

module _ (repo : Repository) (target : ℕ) where
  -- Where the loop found the tree.
  abbrev FoundIn : (ℕ → Result Stop Bool) → List (Result Bytes Entry) → Type 0
  FoundIn descend es =
      (e : Entry) × In (ok e) es
      × (repo.is_tree e.mode ≡ true)
      × ((e.id ≡ target) ⊎ ((s : ℕ) × (repo.try_into_tree e.id ≡ ok s) × (descend s ≡ ok true)))

  contains_loop-FoundIn :
      (descend : ℕ → Result Stop Bool) (es : List (Result Bytes Entry))
      → contains_loop repo descend target es ≡ ok true
      → FoundIn descend es
  unfolding contains_loop
  contains_loop-FoundIn descend [] h = absurd (ground arith)
  contains_loop-FoundIn descend (err x ∷ es) h = absurd (ground arith)
  contains_loop-FoundIn descend (ok e ∷ es) h = elim (Bool-cases (repo.is_tree e.mode)) [
    | inr leaf ↦
        let (f, i, t, r) = contains_loop-FoundIn descend es (rw leaf at h) in (f, inr i, t, r)
    | inl tree ↦ elim (Bool-cases (e.id == target)) [
      | inl eq ↦ (e, inl refl, tree, inl ((==_iff e.id target).0 eq))
      | inr ne ↦ elim (Result-cases (repo.try_into_tree e.id)) [
        | inr (x, bad) ↦ absurd (ground arith)
        | inl (s, sub) ↦ elim (Result-cases (descend s)) [
          | inr (x, bad) ↦ absurd (ground arith)
          | inl (true, d) ↦ (e, inl refl, tree, inr (s, sub, d))
          | inl (false, d) ↦
              let (f, i, t, r) = contains_loop-FoundIn descend es (rw (tree, ne, sub, d) at h) in
              (f, inr i, t, r)
        ]
      ]
    ]
  ]

  -- A loop that ends with an answer and passes the tree by has answers for every subtree, all `false`.
  contains_loop-false :
      (descend : ℕ → Result Stop Bool) (es : List (Result Bytes Entry)) (e : Entry)
      → contains_loop repo descend target es ≡ ok false
      → In (ok e) es
      → repo.is_tree e.mode ≡ true
      → ((e.id == target) ≡ false)
        × ((s : ℕ) → repo.try_into_tree e.id ≡ ok s → descend s ≡ ok false)
  unfolding contains_loop
  contains_loop-false descend [] e h i tree = absurd i
  contains_loop-false descend (err x ∷ es) e h i tree = absurd (ground arith)
  contains_loop-false descend (ok d ∷ es) e h (inl i) tree =
      let same : e ≡ d = ground arith in
      let tree' : repo.is_tree d.mode ≡ true = rw (sym same) tree in
      rw same (ground arith, λ s sub. ground arith)
  contains_loop-false descend (ok d ∷ es) e h (inr i) tree =
      contains_loop-false descend es e (ground arith) i tree

  tree_contains-Within :
      (fuel tree : ℕ) → tree_contains repo fuel target tree ≡ ok true → Within repo target tree
  tree_contains-Within zero tree h = absurd (unfold tree_contains in cc)
  tree_contains-Within (suc fuel) tree h = elim (Bool-cases (tree == target)) [
    | inl eq ↦ here ((==_iff tree target).0 eq)
    | inr ne ↦
        let loop : contains_loop repo (tree_contains repo fuel target) target (repo.tree_iter tree)
            ≡ ok true =
          unfold tree_contains in
          (let h' : tree_contains repo (suc fuel) target tree ≡ ok true = h in rw ne at h') in
        let (e, i, t, r) =
          contains_loop-FoundIn (tree_contains repo fuel target) (repo.tree_iter tree) loop in
        elim r [
          | inl is ↦ entry e i t is
          | inr (s, sub, d) ↦ below e s i t sub (tree_contains-Within fuel s d)
        ]
  ]

  tree_contains-false :
      (fuel tree : ℕ) → tree_contains repo fuel target tree ≡ ok false → Within repo target tree → ⊥
  tree_contains-false zero tree h w = unfold tree_contains in cc
  tree_contains-false (suc fuel) tree h w = elim (Bool-cases (tree == target)) [
    | inl eq ↦ unfold tree_contains in ground arith
    | inr ne ↦
        let loop : contains_loop repo (tree_contains repo fuel target) target (repo.tree_iter tree)
            ≡ ok false =
          unfold tree_contains in
          (let h' : tree_contains repo (suc fuel) target tree ≡ ok false = h in rw ne at h') in
        elim w [
          | here is ↦ ground (arith, ==_iff tree target)
          | entry e i t is ↦
              let (n, s) =
                contains_loop-false (tree_contains repo fuel target) (repo.tree_iter tree) e loop i
                  t in
              ground (arith, ==_iff e.id target)
          | below e s i t sub w' ↦
              let (n, d) =
                contains_loop-false (tree_contains repo fuel target) (repo.tree_iter tree) e loop i
                  t in
              tree_contains-false fuel s (d s sub) w'
        ]
  ]

  -- When the search of a tree ends with an answer, the answer is whether the target is that tree or
  -- stands below it.
  pub tree_contains_iff :
      (fuel tree : ℕ) (b : Bool)
      → tree_contains repo fuel target tree ≡ ok b
      → (b ≡ true) ↔ Within repo target tree
  tree_contains_iff fuel tree true h = (λ _. tree_contains-Within fuel tree h, λ _. refl)
  tree_contains_iff fuel tree false h =
      (λ e. absurd (cc), λ w. absurd (tree_contains-false fuel tree h w))

-- Trees that can be read down to their leaves: every entry decodes, and each subtree is again such a
-- tree, of a lesser rank.
pub record ReadableTrees (repo : Repository) : Type 1 where
  pub Holds : ℕ → Type 0
  pub rank : ℕ → ℕ
  pub decodes : (tree : ℕ) → Holds tree → (e : Bytes) → In (err e) (repo.tree_iter tree) → ⊥
  pub subtrees :
      (tree : ℕ)
      → Holds tree
      → (e : Entry) → In (ok e) (repo.tree_iter tree)
      → repo.is_tree e.mode ≡ true
      → (s : ℕ) × (repo.try_into_tree e.id ≡ ok s) × Holds s × (rank s < rank tree)

module _ (repo : Repository) (target : ℕ) where
  contains_loop_total :
      (descend : ℕ → Result Stop Bool) (es : List (Result Bytes Entry))
      → ((e : Bytes) → In (err e) es → ⊥)
      → ((e : Entry)
          → In (ok e) es
          → repo.is_tree e.mode ≡ true
          → (s : ℕ) × (repo.try_into_tree e.id ≡ ok s) × (b : Bool) × (descend s ≡ ok b))
      → (b : Bool) × (contains_loop repo descend target es ≡ ok b)
  unfolding contains_loop
  contains_loop_total descend [] dec sub = (false, refl)
  contains_loop_total descend (err x ∷ es) dec sub = absurd (dec x (inl refl))
  contains_loop_total descend (ok e ∷ es) dec sub =
      let (b, rest) =
        contains_loop_total descend es (λ x i. dec x (inr i)) (λ d i t. sub d (inr i) t) in
      elim (Bool-cases (repo.is_tree e.mode)) [
        | inr leaf ↦ rw leaf (b, rest)
        | inl tree ↦ elim (Bool-cases (e.id == target)) [
          | inl eq ↦ rw (tree, eq) (true, refl)
          | inr ne ↦
              let (s, is, c, d) = sub e (inl refl) tree in
              elim (Bool-cases c) [
                | inl so ↦ rw (tree, ne, is, d, so) (true, refl)
                | inr not_so ↦ rw (tree, ne, is, d, not_so) (b, rest)
              ]
        ]
      ]

  -- On a tree that can be read down to its leaves, the search ends with an answer when the fuel is
  -- above the tree's rank.
  pub tree_contains_total :
      (readable : ReadableTrees repo) (fuel tree : ℕ)
      → readable.Holds tree
      → readable.rank tree < fuel
      → (b : Bool) × (tree_contains repo fuel target tree ≡ ok b)
  unfolding tree_contains
  tree_contains_total readable zero tree holds less = absurd (omega arith)
  tree_contains_total readable (suc fuel) tree holds less = elim (Bool-cases (tree == target)) [
    | inl eq ↦ rw eq (true, refl)
    | inr ne ↦ rw ne (
        contains_loop_total (tree_contains repo fuel target) (repo.tree_iter tree)
          (readable.decodes tree holds)
          (λ e i t.
            let (s, is, h, lt) = readable.subtrees tree holds e i t in
            let (b, c) = tree_contains_total readable fuel s h (omega arith) in (s, is, b, c)))
  ]

-- The entry that a commit's tree has at a path is the tree.
abbrev pub IsAt : Repository → ℕ → ℕ → Bytes → Type 0
IsAt repo tree root path =
    (e : Entry) × (repo.lookup_entry_by_path root path ≡ ok (some e))
    × (repo.is_tree e.mode ≡ true)
    × (e.id ≡ tree)

is_at_path-IsAt :
    (repo : Repository) (tree : ℕ) (r : Result Bytes (Option Entry))
    → is_at_path repo tree r ≡ true
    → (e : Entry) × (r ≡ ok (some e)) × (repo.is_tree e.mode ≡ true) × (e.id ≡ tree)
unfolding is_at_path
is_at_path-IsAt repo tree (err x) h = absurd (cc)
is_at_path-IsAt repo tree (ok none) h = absurd (cc)
is_at_path-IsAt repo tree (ok (some e)) h =
    (e, refl, ground arith, ground (arith, ==_iff e.id tree))

IsAt-is_at_path :
    (repo : Repository) (tree root : ℕ) (path : Bytes)
    → IsAt repo tree root path
    → is_at_path repo tree (repo.lookup_entry_by_path root path) ≡ true
unfolding is_at_path
IsAt-is_at_path repo tree root path (e, found_is, mode, id) =
    rw (found_is, mode, (==_iff e.id tree).1 id) refl

-- With the revision resolved to a commit and its tree read, a tree binding's check that returns an
-- answer says `valid` exactly when the commit's tree has the tree at the recorded path or the tree
-- stands anywhere in the commit's tree, and `stale` otherwise.
pub tree_validity_iff :
    (repo : Repository) (fuel tree commit root : ℕ) (path at : Bytes) (v : Validity)
    → resolve_commit repo at ≡ ok commit
    → repo.commit_tree commit ≡ ok root
    → tree_validity repo fuel tree path at ≡ ok v
    → ((v ≡ valid) ↔ (IsAt repo tree root path ⊎ Within repo tree root))
      × ((v ≡ valid) ⊎ (v ≡ stale))
unfolding tree_validity
tree_validity_iff repo fuel tree commit root path at v r t e =
    elim (Bool-cases (is_at_path repo tree (repo.lookup_entry_by_path root path))) [
      | inl there ↦
          let v_is : v ≡ valid = ground arith in
          (
            (
              λ _. inl (is_at_path-IsAt repo tree (repo.lookup_entry_by_path root path) there),
              λ _. v_is,
            ),
            inl v_is,
          )
      | inr elsewhere ↦ elim (Result-cases (tree_contains repo fuel tree root)) [
        | inr (x, bad) ↦ absurd (ground arith)
        | inl (b, c) ↦
            let v_is : v ≡ found b = ground arith in
            let (fwd, back) = tree_contains_iff repo tree fuel root b c in
            (
              (
                λ ok'. inr (fwd (ground arith)),
                λ w. elim w [
                  | inl x ↦ absurd (cc (IsAt-is_at_path repo tree root path x))
                  | inr x ↦ (let is_there = back x in ground arith)
                ],
              ),
              elim (Bool-cases b) [ inl so ↦ inl (ground arith) | inr not_so ↦ inr (ground arith) ],
            )
      ]
    ]
