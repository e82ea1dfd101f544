-- ===== src/Diff/Ends.antt =====
-- The recursion of the walk of crates/git-anchor/src/diff.rs, its fuel and the depth of the trees.
use git_anchor.Base.{
  ℕ, zero, suc, ◌<◌, ◌≡◌, ◌⊎◌, inl, inr, refl, Bool, true, false, ◌&&◌, Option, none, some, List,
  [], ◌∷◌, ◌++◌, In, arith, Bool-cases, ◌==◌,
}
use git_anchor.Base.Text.{Bytes, same}
use git_anchor.Base.Result.{ok}
use git_anchor.Diff.{
  TreeChange, TreeStore, DirEntry, Walk, entries, join, lookup, erase, insert, collect_onto,
  head_entry, head_loop, base_entry, base_loop, same_id, walk_trees, walk, diff_trees, sort_by_path,
}
use git_anchor.Diff.Names.{In-lookup}
use git_anchor.Diff.Spec.{Visits}

-- The trees of a store that can be read down to their leaves: each decodes, and its subtrees are
-- again such trees, of a lesser rank.
pub record Readable (store : TreeStore) : Type 1 where
  pub Holds : ℕ → Type 0
  pub rank : ℕ → ℕ
  pub reads :
      (id : ℕ)
      → Holds id
      → (es : List DirEntry) × (entries store (some id) ≡ ok es)
        × ((e : DirEntry)
            → In e es
            → store.is_tree e.mode ≡ true
            → Holds e.id × (rank e.id < rank id))

-- A tree of rank below `n`, or no tree.
abbrev pub Small : {store : TreeStore} → Readable store → ℕ → Option ℕ → Type 0
Small readable n none = Unit
Small readable n (some id) = readable.Holds id × (readable.rank id < n)

In-erase_sub : (name : Bytes) (m : List DirEntry) (x : DirEntry) → In x (erase name m) → In x m
In-erase_sub name [] x i = absurd i
In-erase_sub name (e ∷ m) x i = elim (Bool-cases (same e.name name)) [
  | inl eq ↦ inr (In-erase_sub name m x (rw eq at i))
  | inr ne ↦ elim (let split : In x (e ∷ erase name m) = rw ne at i in split) [
    | inl h ↦ inl h
    | inr h ↦ inr (In-erase_sub name m x h)
  ]
]

In-collect_onto :
    (m es : List DirEntry) (x : DirEntry) → In x (collect_onto m es) → In x m ⊎ In x es
unfolding collect_onto
In-collect_onto m [] x i = inl i
In-collect_onto m (e ∷ es) x i = elim (In-collect_onto (insert e m) es x i) [
  | inr h ↦ inr (inr h)
  | inl (inl h) ↦ inr (inl h)
  | inl (inr h) ↦ inl (In-erase_sub e.name m x h)
]

module _ (store : TreeStore) (readable : Readable store) (n : ℕ) where
  Good : List DirEntry → Type 0
  Good es = (e : DirEntry) → In e es → store.is_tree e.mode ≡ true → Small readable n (some e.id)

module _ (store : TreeStore) (readable : Readable store) (n : ℕ)
    (descend : Bytes → Option ℕ → Option ℕ → Walk)
    (total : (p : Bytes) (b h : Option ℕ)
      → Small readable n b
      → Small readable n h
      → (cs : List TreeChange) × (descend p b h ≡ ok cs)) where
  and_parts : (a b : Bool) → (a && b) ≡ true → (a ≡ true) × (b ≡ true)
  and_parts true b e = (refl, e)
  and_parts false b e = cc

  head_entry_total :
      (path : Bytes) (y : DirEntry) (o : Option DirEntry)
      → (store.is_tree y.mode ≡ true → Small readable n (some y.id))
      → ((x : DirEntry) → o ≡ some x → store.is_tree x.mode ≡ true → Small readable n (some x.id))
      → (cs : List TreeChange) × (head_entry store.is_tree descend path y o ≡ ok cs)
  unfolding head_entry
  head_entry_total path y none gy gx = elim (Bool-cases (store.is_tree y.mode)) [
    | inl tree ↦ rw tree (total path none (some y.id) tt (gy tree))
    | inr leaf ↦ rw leaf (_, refl)
  ]
  head_entry_total path y (some x) gy gx = elim (Bool-cases (x.id == y.id)) [
    | inl eq ↦ rw eq (_, refl)
    | inr ne ↦ elim (Bool-cases (store.is_tree x.mode && store.is_tree y.mode)) [
      | inl trees ↦
          let (tx, ty) = and_parts (store.is_tree x.mode) (store.is_tree y.mode) trees in
          rw (ne, trees) (total path (some x.id) (some y.id) (gx x refl tx) (gy ty))
      | inr leaf ↦ rw (ne, leaf) (_, refl)
    ]
  ]

  head_loop_total :
      (p : Bytes) (hs m : List DirEntry)
      → Good store readable n hs
      → Good store readable n m
      → (r : List TreeChange × List DirEntry) × (head_loop store.is_tree descend p hs m ≡ ok r)
        × ((x : DirEntry) → In x r.1 → In x m)
  unfolding head_loop Good
  head_loop_total p [] m gh gm = (([], m), refl, λ x i. i)
  head_loop_total p (h ∷ hs) m gh gm =
      let (here, e) =
        head_entry_total (join p h.name) h (lookup h.name m) (gh h (inl refl))
          (λ x l. gm x (In-lookup h.name m l).0) in
      let (later, l, sub) =
        head_loop_total p hs (erase h.name m) (λ x i. gh x (inr i))
          (λ x i. gm x (In-erase_sub h.name m x i)) in
      ((here ++ later.0, later.1), rw (e, l) refl, λ x i. In-erase_sub h.name m x (sub x i))

  base_loop_total :
      (p : Bytes) (bs : List DirEntry)
      → Good store readable n bs
      → (cs : List TreeChange) × (base_loop store.is_tree descend p bs ≡ ok cs)
  unfolding base_loop base_entry Good
  base_loop_total p [] g = ([], refl)
  base_loop_total p (b ∷ bs) g =
      let (later, l) = base_loop_total p bs (λ x i. g x (inr i)) in
      elim (Bool-cases (store.is_tree b.mode)) [
        | inl tree ↦
            let (here, e) = total (join p b.name) (some b.id) none (g b (inl refl) tree) tt in
            (here ++ later, rw (tree, e, l) refl)
        | inr leaf ↦ rw (leaf, l) (_, refl)
      ]

module _ (store : TreeStore) (readable : Readable store) (iterate : List DirEntry → List DirEntry)
    (visits : Visits iterate) where
  -- A tree of rank at most `n` has subtrees of rank below `n`.
  entries_total :
      (n : ℕ) (o : Option ℕ)
      → Small readable (suc n) o
      → (es : List DirEntry) × (entries store o ≡ ok es) × Good store readable n es
  unfolding Good
  entries_total n none s = ([], unfold entries in refl, λ e i. absurd i)
  entries_total n (some id) (holds, less) =
      let (es, e, below) = readable.reads id holds in
      (es, e, λ x i t. let (hx, lx) = below x i t in (hx, omega arith))

  pub walk_total :
      (fuel n : ℕ) (p : Bytes) (b h : Option ℕ)
      → n < fuel
      → Small readable n b
      → Small readable n h
      → (cs : List TreeChange) × (walk store iterate fuel p b h ≡ ok cs)
  unfolding walk walk_trees Good
  walk_total zero n p b h less sb sh = absurd (omega arith)
  walk_total (suc fuel) zero p none none less sb sh = ([], refl)
  walk_total (suc fuel) zero p (some b) h less sb sh = absurd (omega (arith, sb.1))
  walk_total (suc fuel) zero p none (some h) less sb sh = absurd (omega (arith, sh.1))
  walk_total (suc fuel) (suc n) p b h less sb sh = elim (Bool-cases (same_id b h)) [
    | inl eq ↦ rw eq ([], refl)
    | inr ne ↦
        let total =
          λ (p' : Bytes) (b' h' : Option ℕ) (sb' : Small readable n b') (sh' : Small readable n h').
            walk_total fuel n p' b' h' (omega arith) sb' sh' in
        let (bs, be, gb) = entries_total n b sb in
        let (hs, he, gh) = entries_total n h sh in
        let gm : Good store readable n (collect_onto [] bs) = (λ x i.
          elim (In-collect_onto [] bs x i) [ inl none_in ↦ absurd none_in | inr j ↦ gb x j ]) in
        let (heads, hl, sub) =
          head_loop_total store readable n (walk store iterate fuel) total p hs (collect_onto [] bs)
            gh gm in
        let (bases, bl) =
          base_loop_total store readable n (walk store iterate fuel) total p (iterate heads.1)
            (λ x i. gm x (sub x ((visits heads.1 x).0 i))) in
        (heads.0 ++ bases, rw (ne, be, he, hl, bl) refl)
  ]

  -- On trees that can be read down to their leaves, with ranks below `n`, `diff_trees` with fuel above
  -- `n` returns a list of changes.
  pub diff_trees_total :
      (fuel n : ℕ) (base head : Option ℕ)
      → n < fuel
      → Small readable n base
      → Small readable n head
      → (cs : List TreeChange) × (diff_trees store iterate fuel base head ≡ ok cs)
  unfolding diff_trees
  diff_trees_total fuel n base head less sb sh =
      let (cs, e) = walk_total fuel n [] base head less sb sh in (sort_by_path cs, rw e refl)
