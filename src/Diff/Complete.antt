-- ===== src/Diff/Complete.antt =====
-- The walk of crates/git-anchor/src/diff.rs against the comparison name by name: what it must report.
use git_anchor.Base.{
  ℕ, zero, suc, ◌≡◌, inl, inr, refl, sym, ap, ◌∙◌, true, false, Option, none, some, List, [], ◌∷◌,
  In, In-append_left, In-append_right, arith, Bool-cases, ◌==◌, ==_iff, ==_refl,
}
use git_anchor.Base.Text.{Bytes}
use git_anchor.Base.Result.{ok}
use git_anchor.Diff.{
  TreeChange, TreeStore, DirEntry, entries, join, side, change, lookup, collect_onto, head_entry,
  base_entry, same_id, walk_trees, walk,
}
use git_anchor.Diff.Names.{lookup-collect, In-lookup, Fresh-lookup, lookup-erase_all, erase_all}
use git_anchor.Diff.Spec.{
  Differs, changed, added, removed, inside, inside_added, inside_removed, StoreUnique, Visits,
}
use git_anchor.Diff.Loops.{head_loop-HeadPart, base_loop-BasePart, head_loop_left}
use git_anchor.Diff.Sound.{Level, walk_trees-Level}

same_id→eq : (b h : Option ℕ) → same_id b h ≡ true → b ≡ h
same_id→eq none none e = refl
same_id→eq none (some h) e = cc
same_id→eq (some b) none e = cc
same_id→eq (some b) (some h) e = ap some ((==_iff b h).0 e)

-- Two trees that differ are not one tree.
pub Differs→ne :
    (store : TreeStore) (c : TreeChange) (p : Bytes) (b h : Option ℕ)
    → Differs store c p b h
    → b ≡ h
    → ⊥
Differs→ne store c p b h (changed name bs hs x y be he l r ne leaf is) e =
    let bs_is : ok bs ≡ ok hs = sym be ∙ ap (entries store) e ∙ he in
    let xy : x ≡ y = ground arith in
    let id_is : (y.id == y.id) ≡ false = rw xy at ne in
    let id_refl : (y.id == y.id) ≡ true = ==_refl y.id in cc
Differs→ne store c p b h (added name bs hs y be he l r leaf is) e =
    let bs_is : ok bs ≡ ok hs = sym be ∙ ap (entries store) e ∙ he in ground arith
Differs→ne store c p b h (removed name bs hs x be he l r leaf is) e =
    let bs_is : ok bs ≡ ok hs = sym be ∙ ap (entries store) e ∙ he in ground arith
Differs→ne store c p b h (inside name bs hs x y be he l r ne trees below) e =
    let bs_is : ok bs ≡ ok hs = sym be ∙ ap (entries store) e ∙ he in
    let xy : x ≡ y = ground arith in
    let id_is : (y.id == y.id) ≡ false = rw xy at ne in
    let id_refl : (y.id == y.id) ≡ true = ==_refl y.id in cc
Differs→ne store c p b h (inside_added name bs hs y be he l r tree below) e =
    let bs_is : ok bs ≡ ok hs = sym be ∙ ap (entries store) e ∙ he in ground arith
Differs→ne store c p b h (inside_removed name bs hs x be he l r tree below) e =
    let bs_is : ok bs ≡ ok hs = sym be ∙ ap (entries store) e ∙ he in ground arith

module _ (store : TreeStore) (iterate : List DirEntry → List DirEntry) (unique : StoreUnique store)
    (visits : Visits iterate) where
  -- What one level of the walk puts out for a name.
  record HeadOutput (fuel : ℕ) (p name : Bytes) (o : Option DirEntry) (y : DirEntry)
      (cs : List TreeChange) : Type 0 where
    pub part : List TreeChange
    pub computed : head_entry store.is_tree (walk store iterate fuel) (join p name) y o ≡ ok part
    pub contained : (c : TreeChange) → In c part → In c cs

  record BaseOutput (fuel : ℕ) (p name : Bytes) (x : DirEntry) (cs : List TreeChange) : Type 0 where
    pub part : List TreeChange
    pub computed : base_entry store.is_tree (walk store iterate fuel) (join p name) x ≡ ok part
    pub contained : (c : TreeChange) → In c part → In c cs

  walk-Level :
      (fuel : ℕ) (p : Bytes) (b h : Option ℕ) (cs : List TreeChange) (c : TreeChange)
      → walk store iterate (suc fuel) p b h ≡ ok cs
      → Differs store c p b h
      → Level store iterate fuel p b h cs
  unfolding walk
  walk-Level fuel p b h cs c e d = elim (Bool-cases (same_id b h)) [
    | inl eq ↦ absurd (Differs→ne store c p b h d (same_id→eq b h eq))
    | inr ne ↦ walk_trees-Level store iterate fuel p b h cs (
        let e' : walk_trees store iterate (walk store iterate fuel) p b h ≡ ok cs = rw ne at e in
        e')
  ]

  head_output :
      (fuel : ℕ) (p name : Bytes) (b h : Option ℕ) (cs : List TreeChange) (bs hs : List DirEntry)
      (y : DirEntry)
      → Level store iterate fuel p b h cs
      → entries store b ≡ ok bs
      → entries store h ≡ ok hs
      → lookup name hs ≡ some y
      → HeadOutput fuel p name (lookup name bs) y cs
  head_output fuel p name b h cs bs hs y level be he r =
      let bs_is : level.bs ≡ bs =
        let same : ok level.bs ≡ ok bs = sym level.bs_is ∙ be in ground arith in
      let hs_is : level.hs ≡ hs =
        let same : ok level.hs ≡ ok hs = sym level.hs_is ∙ he in ground arith in
      let (y_in, named) = In-lookup name hs r in
      let out =
        head_loop-HeadPart store.is_tree (walk store iterate fuel) p level.hs
          (collect_onto [] level.bs) level.heads y (unique h level.hs level.hs_is) level.heads_is
          (rw hs_is y_in) in
      let seen : lookup y.name (collect_onto [] level.bs) ≡ lookup name bs =
        lookup-collect y.name level.bs (unique b level.bs level.bs_is) ∙ rw (bs_is, named) refl in
      record {
        part = out.part;
        computed = rw (sym seen, sym named) out.computed;
        contained =
            λ c i. rw level.cs_is (In-append_left c level.heads.0 level.bases (out.contained c i));
      }

  base_output :
      (fuel : ℕ) (p name : Bytes) (b h : Option ℕ) (cs : List TreeChange) (bs hs : List DirEntry)
      (x : DirEntry)
      → Level store iterate fuel p b h cs
      → entries store b ≡ ok bs
      → entries store h ≡ ok hs
      → lookup name bs ≡ some x
      → lookup name hs ≡ none
      → BaseOutput fuel p name x cs
  base_output fuel p name b h cs bs hs x level be he l r =
      let bs_is : level.bs ≡ bs =
        let same : ok level.bs ≡ ok bs = sym level.bs_is ∙ be in ground arith in
      let hs_is : level.hs ≡ hs =
        let same : ok level.hs ≡ ok hs = sym level.hs_is ∙ he in ground arith in
      let left : level.heads.1 ≡ erase_all level.hs (collect_onto [] level.bs) =
        head_loop_left store.is_tree (walk store iterate fuel) p level.hs (collect_onto [] level.bs)
          level.heads level.heads_is in
      let r' : lookup name level.hs ≡ none = rw hs_is r in
      let remains : lookup name (erase_all level.hs (collect_onto [] level.bs)) ≡ some x =
        lookup-erase_all name level.hs (collect_onto [] level.bs) (Fresh-lookup name level.hs r')
        ∙ lookup-collect name level.bs (unique b level.bs level.bs_is)
        ∙ rw bs_is l in
      let (x_in, named) = In-lookup name (erase_all level.hs (collect_onto [] level.bs)) remains in
      let x_visited : In x (iterate level.heads.1) = (visits level.heads.1 x).1 (rw left x_in) in
      let out =
        base_loop-BasePart store.is_tree (walk store iterate fuel) p (iterate level.heads.1)
          level.bases x level.bases_is x_visited in
      record {
        part = out.part;
        computed = rw (sym named) out.computed;
        contained =
            λ c i. rw level.cs_is (In-append_right c level.heads.0 level.bases (out.contained c i));
      }

  single_member : (c d : TreeChange) (part : List TreeChange) → part ≡ d ∷ [] → c ≡ d → In c part
  single_member c d part e i = rw e (inl i)

  pub Differs-walk :
      (fuel : ℕ) (p : Bytes) (b h : Option ℕ) (cs : List TreeChange) (c : TreeChange)
      → walk store iterate fuel p b h ≡ ok cs
      → Differs store c p b h
      → In c cs
  Differs-walk zero p b h cs c e d = absurd (unfold walk in cc)
  Differs-walk (suc fuel) p b h cs c e (changed name bs hs x y be he l r ne leaf is) =
      let level = walk-Level fuel p b h cs c e (changed name bs hs x y be he l r ne leaf is) in
      let out = head_output fuel p name b h cs bs hs y level be he r in
      let o : head_entry store.is_tree (walk store iterate fuel) (join p name) y (some x)
          ≡ ok out.part =
        rw l at out.computed in
      out.contained c (
        single_member c (change (join p name) (side x) (side y)) out.part
          (unfold head_entry in ground arith) is)
  Differs-walk (suc fuel) p b h cs c e (added name bs hs y be he l r leaf is) =
      let level = walk-Level fuel p b h cs c e (added name bs hs y be he l r leaf is) in
      let out = head_output fuel p name b h cs bs hs y level be he r in
      let o : head_entry store.is_tree (walk store iterate fuel) (join p name) y none
          ≡ ok out.part =
        rw l at out.computed in
      out.contained c (
        single_member c (change (join p name) none (side y)) out.part
          (unfold head_entry in ground arith) is)
  Differs-walk (suc fuel) p b h cs c e (removed name bs hs x be he l r leaf is) =
      let level = walk-Level fuel p b h cs c e (removed name bs hs x be he l r leaf is) in
      let out = base_output fuel p name b h cs bs hs x level be he l r in
      let o = out.computed in
      out.contained c (
        single_member c (change (join p name) (side x) none) out.part
          (unfold base_entry in ground arith) is)
  Differs-walk (suc fuel) p b h cs c e (inside name bs hs x y be he l r ne trees below) =
      let level = walk-Level fuel p b h cs c e (inside name bs hs x y be he l r ne trees below) in
      let out = head_output fuel p name b h cs bs hs y level be he r in
      let o : head_entry store.is_tree (walk store iterate fuel) (join p name) y (some x)
          ≡ ok out.part =
        rw l at out.computed in
      let inner : walk store iterate fuel (join p name) (some x.id) (some y.id) ≡ ok out.part =
        (unfold head_entry in
          (let o' : head_entry store.is_tree (walk store iterate fuel) (join p name) y (some x)
                ≡ ok out.part =
              o in
            rw (ne, trees) at o')) in
      out.contained c
        (Differs-walk fuel (join p name) (some x.id) (some y.id) out.part c inner below)
  Differs-walk (suc fuel) p b h cs c e (inside_added name bs hs y be he l r tree below) =
      let level = walk-Level fuel p b h cs c e (inside_added name bs hs y be he l r tree below) in
      let out = head_output fuel p name b h cs bs hs y level be he r in
      let o : head_entry store.is_tree (walk store iterate fuel) (join p name) y none
          ≡ ok out.part =
        rw l at out.computed in
      let inner : walk store iterate fuel (join p name) none (some y.id) ≡ ok out.part =
        (unfold head_entry in ground arith) in
      out.contained c (Differs-walk fuel (join p name) none (some y.id) out.part c inner below)
  Differs-walk (suc fuel) p b h cs c e (inside_removed name bs hs x be he l r tree below) =
      let level = walk-Level fuel p b h cs c e (inside_removed name bs hs x be he l r tree below) in
      let out = base_output fuel p name b h cs bs hs x level be he l r in
      let o = out.computed in
      let inner : walk store iterate fuel (join p name) (some x.id) none ≡ ok out.part =
        (unfold base_entry in ground arith) in
      out.contained c (Differs-walk fuel (join p name) (some x.id) none out.part c inner below)
