-- ===== src/Diff/Sorted.antt =====
-- The sorted result: the order of its paths, and what it lists.
use git_anchor.Base.{
  ℕ, ◌≡◌, ◌↔◌, ◌⊎◌, inl, inr, refl, true, false, Option, List, [], ◌∷◌, All, In, arith, Bool-cases,
}
use git_anchor.Base.Text.{Bytes}
use git_anchor.Base.Result.{ok, bind-eq-ok}
use git_anchor.Diff.{
  TreeChange, TreeStore, DirEntry, path_leb, insert_sorted, sort_by_path, walk, diff_trees,
}
use git_anchor.Diff.Spec.{Differs, StoreUnique, Visits}
use git_anchor.Diff.Sound.{walk-Differs}
use git_anchor.Diff.Complete.{Differs-walk}

-- Each path is at most every later one.
abbrev pub SortedPaths : List TreeChange → Type 0
SortedPaths [] = Unit
SortedPaths (c ∷ cs) = All (λ d. path_leb c.path d.path ≡ true) cs × SortedPaths cs

path_leb_total : (xs ys : Bytes) → path_leb xs ys ≡ false → path_leb ys xs ≡ true
unfolding path_leb
path_leb_total [] ys h = cc
path_leb_total (x ∷ xs) [] h = refl
path_leb_total (x ∷ xs) (y ∷ ys) h = ground (arith, path_leb_total xs ys)

path_leb_trans :
    (xs ys zs : Bytes) → path_leb xs ys ≡ true → path_leb ys zs ≡ true → path_leb xs zs ≡ true
unfolding path_leb
path_leb_trans [] ys zs h k = refl
path_leb_trans (x ∷ xs) [] zs h k = cc
path_leb_trans (x ∷ xs) (y ∷ ys) [] h k = cc
path_leb_trans (x ∷ xs) (y ∷ ys) (z ∷ zs) h k = ground (arith, path_leb_trans xs ys zs)

insert_sorted-In :
    (c d : TreeChange) (ds : List TreeChange) → In c (insert_sorted d ds) ↔ ((c ≡ d) ⊎ In c ds)
unfolding insert_sorted
insert_sorted-In c d [] = (λ i. i, λ i. i)
insert_sorted-In c d (e ∷ ds) = elim (Bool-cases (path_leb d.path e.path)) [
  | inl le ↦ rw le (λ i. i, λ i. i)
  | inr gt ↦
      let rest = insert_sorted-In c d ds in
      rw gt (
        λ i. elim i [
          | inl h ↦ inr (inl h)
          | inr h ↦ elim (rest.0 h) [ inl k ↦ inl k | inr k ↦ inr (inr k) ]
        ],
        λ i. elim i [
          | inl h ↦ inr (rest.1 (inl h))
          | inr h ↦ elim h [ inl k ↦ inl k | inr k ↦ inr (rest.1 (inr k)) ]
        ],
      )
]

pub sort_by_path-In : (c : TreeChange) (cs : List TreeChange) → In c (sort_by_path cs) ↔ In c cs
unfolding sort_by_path
sort_by_path-In c [] = (λ i. i, λ i. i)
sort_by_path-In c (d ∷ cs) =
    let (fwd, back) = insert_sorted-In c d (sort_by_path cs) in
    let (fwd', back') = sort_by_path-In c cs in
    (
      λ i. elim (fwd i) [ inl h ↦ inl h | inr h ↦ inr (fwd' h) ],
      λ i. elim i [ inl h ↦ back (inl h) | inr h ↦ back (inr (back' h)) ],
    )

-- What is below every element of a sorted list.
All-trans :
    (c d : TreeChange) (ds : List TreeChange)
    → path_leb c.path d.path ≡ true
    → All (λ e. path_leb d.path e.path ≡ true) ds
    → All (λ e. path_leb c.path e.path ≡ true) ds
All-trans c d [] h a = tt
All-trans c d (e ∷ ds) h (a, as') =
    (path_leb_trans c.path d.path e.path h a, All-trans c d ds h as')

All-insert_sorted :
    (c d : TreeChange) (ds : List TreeChange)
    → path_leb c.path d.path ≡ true
    → All (λ e. path_leb c.path e.path ≡ true) ds
    → All (λ e. path_leb c.path e.path ≡ true) (insert_sorted d ds)
unfolding insert_sorted
All-insert_sorted c d [] h a = (h, tt)
All-insert_sorted c d (e ∷ ds) h (a, as') = elim (Bool-cases (path_leb d.path e.path)) [
  | inl le ↦ rw le (h, (a, as'))
  | inr gt ↦ rw gt (a, All-insert_sorted c d ds h as')
]

insert_sorted-SortedPaths :
    (d : TreeChange) (ds : List TreeChange) → SortedPaths ds → SortedPaths (insert_sorted d ds)
unfolding insert_sorted
insert_sorted-SortedPaths d [] s = (tt, tt)
insert_sorted-SortedPaths d (e ∷ ds) (a, s) = elim (Bool-cases (path_leb d.path e.path)) [
  | inl le ↦ rw le ((le, All-trans d e ds le a), (a, s))
  | inr gt ↦ rw gt (
    All-insert_sorted e d ds (path_leb_total d.path e.path gt) a,
    insert_sorted-SortedPaths d ds s,
  )
]

pub sort_by_path-SortedPaths : (cs : List TreeChange) → SortedPaths (sort_by_path cs)
unfolding sort_by_path
sort_by_path-SortedPaths [] = tt
sort_by_path-SortedPaths (c ∷ cs) =
    insert_sorted-SortedPaths c (sort_by_path cs) (sort_by_path-SortedPaths cs)

-- When `diff_trees` returns a list, it lists exactly the changes between the two trees as the name by
-- name comparison `Differs` has them, and their paths ascend. Names are unique in each stored tree,
-- and iterating over a map visits its entries in any order.
pub diff_trees_iff :
    (store : TreeStore) (iterate : List DirEntry → List DirEntry) (fuel : ℕ) (base head : Option ℕ)
    (cs : List TreeChange)
    → StoreUnique store
    → Visits iterate
    → diff_trees store iterate fuel base head ≡ ok cs
    → ((c : TreeChange) → In c cs ↔ Differs store c [] base head) × SortedPaths cs
unfolding diff_trees
diff_trees_iff store iterate fuel base head cs unique visits e =
    let (changes, w, s) = bind-eq-ok (walk store iterate fuel [] base head) _ e in
    let sorted : cs ≡ sort_by_path changes = ground arith in
    (
      λ c. rw sorted (
        λ i.
            walk-Differs store iterate unique visits fuel [] base head changes c w
              ((sort_by_path-In c changes).0 i),
        λ d.
            (sort_by_path-In c changes).1
              (Differs-walk store iterate unique visits fuel [] base head changes c w d),
      ),
      rw sorted (sort_by_path-SortedPaths changes),
    )
