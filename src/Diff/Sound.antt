-- ===== src/Diff/Sound.antt =====
-- The walk of crates/git-anchor/src/diff.rs against the comparison name by name: what it may report.
use git_anchor.Base.{
  ℕ, zero, suc, ◌≡◌, inl, inr, sym, ◌∙◌, ◌&&◌, Option, none, some, List, [], ◌∷◌, ◌++◌, In,
  In-append, arith, Bool-cases, Option-cases, ◌==◌,
}
use git_anchor.Base.Text.{Bytes}
use git_anchor.Base.Result.{ok, map_err, bind-eq-ok}
use git_anchor.Error.{failed}
use git_anchor.Diff.{
  TreeChange, TreeStore, DirEntry, Walk, entries, join, side, change, lookup, collect_onto,
  head_entry, head_loop, base_entry, base_loop, same_id, walk_trees, walk,
}
use git_anchor.Diff.Names.{
  UniqueNames, lookup-collect, UniqueNames-collect_onto, In-erase_all, lookup-In, lookup-Fresh,
  erase_all,
}
use git_anchor.Diff.Spec.{
  Differs, changed, added, removed, inside, inside_added, inside_removed, StoreUnique, Visits,
}
use git_anchor.Diff.Loops.{head_loop_from, base_loop_from, head_loop_left}

-- A change in a list of one.
pub In-one : (c d : TreeChange) (cs : List TreeChange) → cs ≡ d ∷ [] → In c cs → c ≡ d
In-one c d cs e i = elim (let split : In c (d ∷ []) = rw e at i in split) [
  | inl h ↦ h
  | inr h ↦ absurd h
]

pub In-none : (c : TreeChange) (cs : List TreeChange) → cs ≡ [] → In c cs → ⊥
In-none c cs e i = let none_in : In c [] = rw e at i in none_in

module _ (store : TreeStore) (iterate : List DirEntry → List DirEntry) where
  -- The parts of one level of the walk.
  pub record Level (fuel : ℕ) (p : Bytes) (b h : Option ℕ) (cs : List TreeChange) : Type 0 where
    pub bs : List DirEntry
    pub hs : List DirEntry
    pub heads : List TreeChange × List DirEntry
    pub bases : List TreeChange
    pub bs_is : entries store b ≡ ok bs
    pub hs_is : entries store h ≡ ok hs
    pub heads_is :
        head_loop store.is_tree (walk store iterate fuel) p hs (collect_onto [] bs) ≡ ok heads
    pub bases_is : base_loop store.is_tree (walk store iterate fuel) p (iterate heads.1) ≡ ok bases
    pub cs_is : cs ≡ heads.0 ++ bases

  pub entries_ok :
      (id : Option ℕ) (es : List DirEntry)
      → map_err failed (entries store id) ≡ ok es
      → entries store id ≡ ok es
  entries_ok id es e = ground arith

  pub walk_trees-Level :
      (fuel : ℕ) (p : Bytes) (b h : Option ℕ) (cs : List TreeChange)
      → walk_trees store iterate (walk store iterate fuel) p b h ≡ ok cs
      → Level fuel p b h cs
  unfolding walk_trees
  walk_trees-Level fuel p b h cs e =
      let (bs, e1, e2) = bind-eq-ok (map_err failed (entries store b)) _ e in
      let (hs, e3, e4) = bind-eq-ok (map_err failed (entries store h)) _ e2 in
      let (heads, e5, e6) =
        bind-eq-ok (head_loop store.is_tree (walk store iterate fuel) p hs (collect_onto [] bs)) _
          e4 in
      let (bases, e7, e8) =
        bind-eq-ok (base_loop store.is_tree (walk store iterate fuel) p (iterate heads.1)) _ e6 in
      record {
        bs = bs;
        hs = hs;
        heads = heads;
        bases = bases;
        bs_is = entries_ok b bs e1;
        hs_is = entries_ok h hs e3;
        heads_is = e5;
        bases_is = e7;
        cs_is = ground arith;
      }

module _ (store : TreeStore) (descend : Bytes → Option ℕ → Option ℕ → Walk) (c : TreeChange)
    (below : (p : Bytes) (b h : Option ℕ) (cs : List TreeChange)
      → descend p b h ≡ ok cs
      → In c cs
      → Differs store c p b h)
    (p : Bytes) (b h : Option ℕ) (bs hs : List DirEntry) (bs_is : entries store b ≡ ok bs)
    (hs_is : entries store h ≡ ok hs) where
  both-Differs :
      (x y : DirEntry) (part : List TreeChange)
      → lookup y.name bs ≡ some x
      → lookup y.name hs ≡ some y
      → head_entry store.is_tree descend (join p y.name) y (some x) ≡ ok part
      → In c part
      → Differs store c p b h
  unfolding head_entry
  both-Differs x y part l r e i = elim (Bool-cases (x.id == y.id)) [
    | inl eq ↦ absurd (In-none c part (ground arith) i)
    | inr ne ↦ elim (Bool-cases (store.is_tree x.mode && store.is_tree y.mode)) [
      | inl trees ↦
          inside y.name bs hs x y bs_is hs_is l r ne trees
            (below (join p y.name) (some x.id) (some y.id) part (rw (ne, trees) at e) i)
      | inr leaf ↦ changed y.name bs hs x y bs_is hs_is l r ne leaf (
          In-one c (change (join p y.name) (side x) (side y)) part
            (let out : ok (change (join p y.name) (side x) (side y) ∷ []) ≡ ok part =
                rw (ne, leaf) at e in
              ground arith)
            i)
    ]
  ]

  head-Differs :
      (y : DirEntry) (part : List TreeChange)
      → lookup y.name bs ≡ none
      → lookup y.name hs ≡ some y
      → head_entry store.is_tree descend (join p y.name) y none ≡ ok part
      → In c part
      → Differs store c p b h
  unfolding head_entry
  head-Differs y part l r e i = elim (Bool-cases (store.is_tree y.mode)) [
    | inl tree ↦
        inside_added y.name bs hs y bs_is hs_is l r tree
          (below (join p y.name) none (some y.id) part (rw tree at e) i)
    | inr leaf ↦ added y.name bs hs y bs_is hs_is l r leaf (
        In-one c (change (join p y.name) none (side y)) part
          (let out : ok (change (join p y.name) none (side y) ∷ []) ≡ ok part = rw leaf at e in
            ground arith)
          i)
  ]

  base-Differs :
      (x : DirEntry) (part : List TreeChange)
      → lookup x.name bs ≡ some x
      → lookup x.name hs ≡ none
      → base_entry store.is_tree descend (join p x.name) x ≡ ok part
      → In c part
      → Differs store c p b h
  unfolding base_entry
  base-Differs x part l r e i = elim (Bool-cases (store.is_tree x.mode)) [
    | inl tree ↦
        inside_removed x.name bs hs x bs_is hs_is l r tree
          (below (join p x.name) (some x.id) none part (rw tree at e) i)
    | inr leaf ↦ removed x.name bs hs x bs_is hs_is l r leaf (
        In-one c (change (join p x.name) (side x) none) part
          (let out : ok (change (join p x.name) (side x) none ∷ []) ≡ ok part = rw leaf at e in
            ground arith)
          i)
  ]

module _ (store : TreeStore) (iterate : List DirEntry → List DirEntry) (unique : StoreUnique store)
    (visits : Visits iterate) where
  -- Base entries that remain are those the head has no entry for.
  pub left_over :
      (bs hs : List DirEntry) (x : DirEntry)
      → UniqueNames bs
      → In x (iterate (erase_all hs (collect_onto [] bs)))
      → (lookup x.name bs ≡ some x) × (lookup x.name hs ≡ none)
  left_over bs hs x u i =
      let (in_map, fresh) =
        In-erase_all hs (collect_onto [] bs) x
          ((visits (erase_all hs (collect_onto [] bs)) x).0 i) in
      (
        sym (lookup-collect x.name bs u)
            ∙ lookup-In (collect_onto [] bs) (UniqueNames-collect_onto [] bs tt) in_map,
        lookup-Fresh x.name hs fresh,
      )

  pub walk-Differs :
      (fuel : ℕ) (p : Bytes) (b h : Option ℕ) (cs : List TreeChange) (c : TreeChange)
      → walk store iterate fuel p b h ≡ ok cs
      → In c cs
      → Differs store c p b h
  walk-Differs zero p b h cs c e i = absurd (unfold walk in cc)
  walk-Differs (suc fuel) p b h cs c e i = elim (Bool-cases (same_id b h)) [
    | inl eq ↦ let out : cs ≡ [] = unfold walk in ground arith in absurd (In-none c cs out i)
    | inr ne ↦
        let level = walk_trees-Level store iterate fuel p b h cs (
          unfold walk in
          (let e' : walk_trees store iterate (walk store iterate fuel) p b h ≡ ok cs = rw ne at e in
            e')) in
        let below =
          λ (p' : Bytes) (b' h' : Option ℕ) (cs' : List TreeChange)
              (e' : walk store iterate fuel p' b' h' ≡ ok cs') (i' : In c cs').
            walk-Differs fuel p' b' h' cs' c e' i' in
        let split : In c (level.heads.0 ++ level.bases) = rw level.cs_is at i in
        elim (In-append c level.heads.0 level.bases split) [
          | inl in_heads ↦
              let (y, part, y_in, e_part, c_in) =
                head_loop_from store.is_tree (walk store iterate fuel) p level.hs
                  (collect_onto [] level.bs) level.heads c (unique h level.hs level.hs_is)
                  level.heads_is in_heads in
              let seen : lookup y.name (collect_onto [] level.bs) ≡ lookup y.name level.bs =
                lookup-collect y.name level.bs (unique b level.bs level.bs_is) in
              let y_there : lookup y.name level.hs ≡ some y =
                lookup-In level.hs (unique h level.hs level.hs_is) y_in in
              elim (Option-cases (lookup y.name level.bs)) [
                | inl gone ↦
                    head-Differs store (walk store iterate fuel) c below p b h level.bs level.hs
                      level.bs_is level.hs_is y part gone y_there (rw (seen, gone) at e_part) c_in
                | inr (x, there) ↦
                    both-Differs store (walk store iterate fuel) c below p b h level.bs level.hs
                      level.bs_is level.hs_is x y part there y_there (rw (seen, there) at e_part)
                      c_in
              ]
          | inr in_bases ↦
              let (x, part, x_in, e_part, c_in) =
                base_loop_from store.is_tree (walk store iterate fuel) p (iterate level.heads.1)
                  level.bases c level.bases_is in_bases in
              let left : level.heads.1 ≡ erase_all level.hs (collect_onto [] level.bs) =
                head_loop_left store.is_tree (walk store iterate fuel) p level.hs
                  (collect_onto [] level.bs) level.heads level.heads_is in
              let (l, r) =
                left_over level.bs level.hs x (unique b level.bs level.bs_is) (rw left at x_in) in
              base-Differs store (walk store iterate fuel) c below p b h level.bs level.hs
                level.bs_is level.hs_is x part l r e_part c_in
        ]
  ]
