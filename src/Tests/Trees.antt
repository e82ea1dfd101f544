-- ===== src/Tests/Trees.antt =====
-- The structural diff of two trees of a small store.
use git_anchor.Base.{
  ℕ, ◌≡◌, ◌≢◌, ◌∙◌, ltb, ==_iff, ◌↔◌, ◌<◌, inl, inr, refl, sym, ap, subst, true, none, some, List,
  [], ◌∷◌, In, arith, ◌==◌, Bool-cases, if◌then◌else◌,
}
use git_anchor.Base.Text.{Bytes, codes, same}
use git_anchor.Base.Result.{ok}
use git_anchor.Diff.{TreeChange, DirEntry, Data, TreeStore, entries, change, diff_trees, empty_tree}
use git_anchor.Diff.Names.{UniqueNames}
use git_anchor.Diff.Spec.{Differs, StoreUnique, Visits}
use git_anchor.Diff.Sorted.{SortedPaths, diff_trees_iff}
use git_anchor.Diff.Ends.{Readable, diff_trees_total}

abbrev leaf : Bytes → ℕ → DirEntry
leaf name id = record { name = name; id = id; mode = 10 }

abbrev subtree : Bytes → ℕ → DirEntry
subtree name id = record { name = name; id = id; mode = 40 }

-- The trees 1 and 2 differ in the file `d/g`, and tree 2 has a file more.
abbrev tree_entries : Bytes → List DirEntry
tree_entries [] = []
tree_entries (b ∷ bytes) =
    if b == 1
    then subtree (codes "d") 3 ∷ leaf (codes "f") 20 ∷ []
    else if b == 2
    then subtree (codes "d") 4 ∷ leaf (codes "e") 23 ∷ leaf (codes "f") 20 ∷ []
    else if b == 3
    then leaf (codes "g") 21 ∷ []
    else leaf (codes "g") 22 ∷ []

unfoldable small_store : TreeStore
small_store = record {
  try_find = λ id. ok (some (record { kind_is_tree = true; bytes = id ∷ [] }));
  from_bytes = λ bytes. ok (tree_entries bytes);
  is_utf8 = λ name. true;
  is_tree = λ mode. mode == 40;
  hex = λ id. id ∷ [];
}

-- What each tree lists.
small_entries :
    (id : ℕ) → id ≢ empty_tree → entries small_store (some id) ≡ ok (tree_entries (id ∷ []))
unfolding entries small_store git_anchor.Diff.decode git_anchor.Diff.check_names
small_entries id h = elim (Bool-cases (id == 1)) [
  | inl a ↦ ground arith
  | inr a ↦ elim (Bool-cases (id == 2)) [
    | inl b ↦ ground arith
    | inr b ↦ elim (Bool-cases (id == 3)) [ inl c ↦ ground arith | inr c ↦ ground arith ]
  ]
]

entries_empty : entries small_store (some empty_tree) ≡ ok []
unfolding entries
entries_empty = refl

unique_entries : (id : ℕ) → UniqueNames (tree_entries (id ∷ []))
unique_entries id = elim (Bool-cases (id == 1)) [
  | inl a ↦ rw a (unfold same in ((refl, tt), (tt, tt)))
  | inr a ↦ elim (Bool-cases (id == 2)) [
    | inl b ↦ rw (a, b) (unfold same in ((refl, (refl, tt)), ((refl, tt), (tt, tt))))
    | inr b ↦ elim (Bool-cases (id == 3)) [
      | inl c ↦ rw (a, b, c) (tt, tt)
      | inr c ↦ rw (a, b, c) (tt, tt)
    ]
  ]
]

small_store-StoreUnique : StoreUnique small_store
small_store-StoreUnique none es e =
    let is : [] ≡ es = unfold entries in ground arith in subst UniqueNames is tt
small_store-StoreUnique (some id) es e = elim (Bool-cases (id == empty_tree)) [
  | inl a ↦
      let id_is : id ≡ empty_tree = (==_iff id empty_tree).0 a in
      let listed : ok [] ≡ ok es =
        sym entries_empty ∙ ap (λ i. entries small_store (some i)) (sym id_is) ∙ e in
      let is : [] ≡ es = ground arith in subst UniqueNames is tt
  | inr a ↦
      let listed : ok (tree_entries (id ∷ [])) ≡ ok es =
        sym (small_entries id (λ h. ground (arith, ==_iff id empty_tree))) ∙ e in
      let is : tree_entries (id ∷ []) ≡ es = ground arith in
      subst UniqueNames is (unique_entries id)
]

-- Trees 1 to 4, the first two above the others.
abbrev rank_of : ℕ → ℕ
rank_of id = if ltb id 3 then 1 else 0

below :
    (id : ℕ)
    → id < 5
    → (e : DirEntry) → In e (tree_entries (id ∷ []))
    → (e.mode == 40) ≡ true
    → (e.id < 5) × (rank_of e.id < rank_of id)
below id h e i m = elim (Bool-cases (id == 1)) [
  | inl a ↦
      let i' : In e (subtree (codes "d") 3 ∷ leaf (codes "f") 20 ∷ []) = rw a at i in ground arith
  | inr a ↦ elim (Bool-cases (id == 2)) [
    | inl b ↦
        let i' : In e (subtree (codes "d") 4 ∷ leaf (codes "e") 23 ∷ leaf (codes "f") 20 ∷ []) =
          rw (a, b) at i in
        ground arith
    | inr b ↦ elim (Bool-cases (id == 3)) [
      | inl c ↦ let i' : In e (leaf (codes "g") 21 ∷ []) = rw (a, b, c) at i in ground arith
      | inr c ↦ let i' : In e (leaf (codes "g") 22 ∷ []) = rw (a, b, c) at i in ground arith
    ]
  ]
]

small_store-Readable : Readable small_store
small_store-Readable = record {
  Holds = λ id. id < 5;
  rank = rank_of;
  reads = λ id h. (
    tree_entries (id ∷ []),
    small_entries id (λ e. omega arith),
    λ e i m. below id h e i (unfold small_store in m),
  );
}

list_is_visited : Visits (λ m. m)
list_is_visited m x = (λ i. i, λ i. i)

abbrev found_changes : List TreeChange
found_changes =
    change (codes "d/g") (some (21, 10)) (some (22, 10))
    ∷ change (codes "e") none (some (23, 10))
    ∷ []

computed : diff_trees small_store (λ m. m) 9 (some 1) (some 2) ≡ ok found_changes
unfolding diff_trees git_anchor.Diff.walk git_anchor.Diff.walk_trees entries small_store
    git_anchor.Diff.head_loop git_anchor.Diff.head_entry git_anchor.Diff.collect_onto same
    git_anchor.Diff.base_loop git_anchor.Diff.sort_by_path git_anchor.Diff.insert_sorted
    git_anchor.Diff.path_leb git_anchor.Diff.join git_anchor.Diff.decode git_anchor.Diff.check_names
computed = refl

diff_trees_iff_example :
    ((c : TreeChange) → In c found_changes ↔ Differs small_store c [] (some 1) (some 2))
    × SortedPaths found_changes
diff_trees_iff_example =
    diff_trees_iff small_store (λ m. m) 9 (some 1) (some 2) found_changes small_store-StoreUnique
      list_is_visited computed

diff_trees_total_example :
    (cs : List TreeChange) × (diff_trees small_store (λ m. m) 4 (some 1) (some 2) ≡ ok cs)
unfolding small_store-Readable
diff_trees_total_example =
    diff_trees_total small_store small_store-Readable (λ m. m) list_is_visited 4 3 (some 1) (some 2)
      (omega arith) (omega arith, ground arith) (omega arith, ground arith)
