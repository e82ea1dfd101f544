-- ===== src/Diff/Loops.antt =====
-- The two loops of the walk, entry by entry: where a change in their output comes from, and what is
-- output for each entry.
use git_anchor.Base.{
  ℕ, ◌≡◌, inl, inr, refl, sym, ap, ◌∙◌, Bool, Option, List, [], ◌∷◌, ◌++◌, In, In-append,
  In-append_left, In-append_right, arith,
}
use git_anchor.Base.Text.{Bytes}
use git_anchor.Base.Result.{ok, bind-eq-ok}
use git_anchor.Diff.{
  TreeChange, DirEntry, Walk, join, lookup, erase, head_entry, head_loop, base_entry, base_loop,
}
use git_anchor.Diff.Names.{Fresh, UniqueNames, Fresh-In, same_comm, lookup-erase_ne, erase_all}

module _ (is_tree : ℕ → Bool) (descend : Bytes → Option ℕ → Option ℕ → Walk) where
  -- What the head loop put out for an entry.
  pub record HeadPart (prefix : Bytes) (m : List DirEntry) (cs : List TreeChange) (h : DirEntry)
      : Type 0 where
    pub part : List TreeChange
    pub computed : head_entry is_tree descend (join prefix h.name) h (lookup h.name m) ≡ ok part
    pub contained : (c : TreeChange) → In c part → In c cs

  pub record BasePart (prefix : Bytes) (cs : List TreeChange) (b : DirEntry) : Type 0 where
    pub part : List TreeChange
    pub computed : base_entry is_tree descend (join prefix b.name) b ≡ ok part
    pub contained : (c : TreeChange) → In c part → In c cs

  head_loop-parts :
      (prefix : Bytes) (h : DirEntry) (hs m : List DirEntry) (r : List TreeChange × List DirEntry)
      → head_loop is_tree descend prefix (h ∷ hs) m ≡ ok r
      → (here : List TreeChange) × (later : List TreeChange × List DirEntry) × (head_entry is_tree
            descend
            (join prefix h.name)
            h
            (lookup h.name m)
          ≡ ok here)
        × (head_loop is_tree descend prefix hs (erase h.name m) ≡ ok later)
        × (r ≡ (here ++ later.0, later.1))
  unfolding head_loop
  head_loop-parts prefix h hs m r e =
      let (here, e1, e2) =
        bind-eq-ok (head_entry is_tree descend (join prefix h.name) h (lookup h.name m)) _ e in
      let (later, e3, e4) =
        bind-eq-ok (head_loop is_tree descend prefix hs (erase h.name m)) _ e2 in
      (here, later, e1, e3, ground arith)

  base_loop-parts :
      (prefix : Bytes) (b : DirEntry) (bs : List DirEntry) (cs : List TreeChange)
      → base_loop is_tree descend prefix (b ∷ bs) ≡ ok cs
      → (here later : List TreeChange) × (base_entry is_tree descend (join prefix b.name) b
          ≡ ok here)
        × (base_loop is_tree descend prefix bs ≡ ok later)
        × (cs ≡ here ++ later)
  unfolding base_loop
  base_loop-parts prefix b bs cs e =
      let (here, e1, e2) = bind-eq-ok (base_entry is_tree descend (join prefix b.name) b) _ e in
      let (later, e3, e4) = bind-eq-ok (base_loop is_tree descend prefix bs) _ e2 in
      (here, later, e1, e3, ground arith)

  -- A later entry finds what it found before the earlier names were removed.
  lookup_later :
      (h x : DirEntry) (hs m : List DirEntry)
      → Fresh h.name hs
      → In x hs
      → lookup x.name (erase h.name m) ≡ lookup x.name m
  lookup_later h x hs m f i =
      lookup-erase_ne x.name h.name m (same_comm h.name x.name ∙ Fresh-In h.name hs x f i)

  pub head_loop_left :
      (prefix : Bytes) (hs m : List DirEntry) (r : List TreeChange × List DirEntry)
      → head_loop is_tree descend prefix hs m ≡ ok r
      → r.1 ≡ erase_all hs m
  head_loop_left prefix [] m r e = unfold head_loop in ground arith
  head_loop_left prefix (h ∷ hs) m r e =
      let (here, later, _, l, r_is) = head_loop-parts prefix h hs m r e in
      ap (λ (p : List TreeChange × List DirEntry). p.1) r_is
      ∙ head_loop_left prefix hs (erase h.name m) later l

  pub head_loop-HeadPart :
      (prefix : Bytes) (hs m : List DirEntry) (r : List TreeChange × List DirEntry) (x : DirEntry)
      → UniqueNames hs
      → head_loop is_tree descend prefix hs m ≡ ok r
      → In x hs
      → HeadPart prefix m r.0 x
  head_loop-HeadPart prefix [] m r x u e i = absurd i
  head_loop-HeadPart prefix (h ∷ hs) m r x (f, u) e (inl x_is) =
      let (here, later, now, l, r_is) = head_loop-parts prefix h hs m r e in
      record {
        part = here;
        computed = rw x_is now;
        contained = λ c i. rw r_is (In-append_left c here later.0 i);
      }
  head_loop-HeadPart prefix (h ∷ hs) m r x (f, u) e (inr i) =
      let (here, later, now, l, r_is) = head_loop-parts prefix h hs m r e in
      let rest = head_loop-HeadPart prefix hs (erase h.name m) later x u l i in
      record {
        part = rest.part;
        computed = rw (sym (lookup_later h x hs m f i)) rest.computed;
        contained = λ c j. rw r_is (In-append_right c here later.0 (rest.contained c j));
      }

  pub head_loop_from :
      (prefix : Bytes) (hs m : List DirEntry) (r : List TreeChange × List DirEntry) (c : TreeChange)
      → UniqueNames hs
      → head_loop is_tree descend prefix hs m ≡ ok r
      → In c r.0
      → (x : DirEntry) × (part : List TreeChange) × In x hs
        × (head_entry is_tree descend (join prefix x.name) x (lookup x.name m) ≡ ok part)
        × In c part
  head_loop_from prefix [] m r c u e i =
      let empty : r.0 ≡ [] = unfold head_loop in ground arith in
      absurd (let none_in : In c [] = rw empty at i in none_in)
  head_loop_from prefix (h ∷ hs) m r c (f, u) e i =
      let (here, later, now, l, r_is) = head_loop-parts prefix h hs m r e in
      let split : In c (here ++ later.0) = rw r_is at i in
      elim (In-append c here later.0 split) [
        | inl now_in ↦ (h, here, inl refl, now, now_in)
        | inr later_in ↦
            let (x, part, x_in, p, c_in) =
              head_loop_from prefix hs (erase h.name m) later c u l later_in in
            (x, part, inr x_in, rw (sym (lookup_later h x hs m f x_in)) p, c_in)
      ]

  pub base_loop-BasePart :
      (prefix : Bytes) (bs : List DirEntry) (cs : List TreeChange) (x : DirEntry)
      → base_loop is_tree descend prefix bs ≡ ok cs
      → In x bs
      → BasePart prefix cs x
  base_loop-BasePart prefix [] cs x e i = absurd i
  base_loop-BasePart prefix (b ∷ bs) cs x e (inl x_is) =
      let (here, later, now, l, cs_is) = base_loop-parts prefix b bs cs e in
      record {
        part = here;
        computed = rw x_is now;
        contained = λ c i. rw cs_is (In-append_left c here later i);
      }
  base_loop-BasePart prefix (b ∷ bs) cs x e (inr i) =
      let (here, later, now, l, cs_is) = base_loop-parts prefix b bs cs e in
      let rest = base_loop-BasePart prefix bs later x l i in
      record {
        part = rest.part;
        computed = rest.computed;
        contained = λ c j. rw cs_is (In-append_right c here later (rest.contained c j));
      }

  pub base_loop_from :
      (prefix : Bytes) (bs : List DirEntry) (cs : List TreeChange) (c : TreeChange)
      → base_loop is_tree descend prefix bs ≡ ok cs
      → In c cs
      → (x : DirEntry) × (part : List TreeChange) × In x bs
        × (base_entry is_tree descend (join prefix x.name) x ≡ ok part)
        × In c part
  base_loop_from prefix [] cs c e i =
      let empty : cs ≡ [] = unfold base_loop in ground arith in
      absurd (let none_in : In c [] = rw empty at i in none_in)
  base_loop_from prefix (b ∷ bs) cs c e i =
      let (here, later, now, l, cs_is) = base_loop-parts prefix b bs cs e in
      let split : In c (here ++ later) = rw cs_is at i in
      elim (In-append c here later split) [
        | inl now_in ↦ (b, here, inl refl, now, now_in)
        | inr later_in ↦
            let (x, part, x_in, p, c_in) = base_loop_from prefix bs later c l later_in in
            (x, part, inr x_in, p, c_in)
      ]
