-- ===== src/AnchorArgs/Paths.antt =====
-- `cwd_relative_path` of crates/git-anchor/src/main.rs: the components of the path that it makes.
use git_anchor.Base.{
  ℕ, ◌≡◌, ◌≢◌, refl, sym, ap, ◌∙◌, subst, false, ◌||◌, Option, none, some, List, [], ◌∷◌, ◌++◌, map,
  All, All-append, arith, Bool-cases, inl, inr, ◌==◌,
}
use git_anchor.Base.Text.{Bytes, codes, same}
use git_anchor.Base.Strings.{is_empty, split_at, join_with}
use git_anchor.Base.Strings.Splits.{Without}
use git_anchor.Base.Strings.Lossy.{from_utf8_lossy}
use git_anchor.Base.Result.{ok}
use git_anchor.Repository.{Repository}
use git_anchor.AnchorArgs.{
  kept_parts, root_part, components, path_components, Surroundings, prefix_parts, cwd_relative_path,
}

-- A component that is kept: not empty, not `.`, and without a slash.
abbrev pub IsPart : Bytes → Type 0
IsPart part = (is_empty part ≡ false) × (same part (codes ".") ≡ false) × Without b'/' part

-- A path that does not start at the root.
abbrev pub IsRelative : Bytes → Type 0
IsRelative path = root_part path ≡ []

abbrev pub IsRelativePrefix : Option Bytes → Type 0
IsRelativePrefix none = Unit
IsRelativePrefix (some path) = IsRelative path

abbrev parts_from : Bytes → List Bytes
parts_from text = let (first, later) = split_at b'/' text in first ∷ later

split_slash : (bs : Bytes) → split_at b'/' (b'/' ∷ bs) ≡ ([], parts_from bs)
unfolding split_at
split_slash bs = refl

split_other :
    (b : ℕ) (bs : Bytes)
    → b ≢ b'/'
    → split_at b'/' (b ∷ bs) ≡ (b ∷ (split_at b'/' bs).0, (split_at b'/' bs).1)
unfolding split_at
split_other b bs ne = let differs : (b == b'/') ≡ false = ground arith in rw differs refl

split_empty : split_at b'/' [] ≡ ([], [])
unfolding split_at
split_empty = refl

parts_from-Without : (text : Bytes) → All (Without b'/') (parts_from text)
parts_from-Without [] = rw split_empty (tt, tt)
parts_from-Without (b ∷ bs) = elim (Bool-cases (b == b'/')) [
  | inl it_is ↦
      let b_is : b ≡ b'/' = ground arith in rw (b_is, split_slash bs) (tt, parts_from-Without bs)
  | inr it_is_not ↦
      let ne : b ≢ b'/' = λ e. absurd (ground arith) in
      let (first, later) = parts_from-Without bs in rw (split_other b bs ne) ((ne, first), later)
]

kept_parts-IsPart : (parts : List Bytes) → All (Without b'/') parts → All IsPart (kept_parts parts)
unfolding kept_parts
kept_parts-IsPart [] h = tt
kept_parts-IsPart (part ∷ parts) (w, h) =
    elim (Bool-cases (is_empty part || same part (codes "."))) [
      | inl dropped ↦ rw dropped (kept_parts-IsPart parts h)
      | inr kept ↦
          let (is_full, is_other) : (is_empty part ≡ false) × (same part (codes ".") ≡ false) =
            ground arith in
          rw kept ((is_full, is_other, w), kept_parts-IsPart parts h)
    ]

kept_parts-All : (parts : List Bytes) → All IsPart parts → kept_parts parts ≡ parts
unfolding kept_parts
kept_parts-All [] h = refl
kept_parts-All (part ∷ parts) ((is_full, is_other, w), h) =
    rw (is_full, is_other, kept_parts-All parts h) refl

components-IsPart : (path : Bytes) → IsRelative path → All IsPart (components path)
unfolding components
components-IsPart path relative =
    rw relative (kept_parts-IsPart (parts_from path) (parts_from-Without path))

split_alone : (part : Bytes) → Without b'/' part → split_at b'/' part ≡ (part, [])
split_alone [] h = split_empty
split_alone (b ∷ bs) (ne, h) = rw (split_other b bs ne, split_alone bs h) refl

split_first :
    (part rest : Bytes)
    → Without b'/' part
    → split_at b'/' (part ++ (b'/' ∷ rest)) ≡ (part, parts_from rest)
split_first [] rest h = split_slash rest
split_first (b ∷ bs) rest (ne, h) =
    rw (split_other b (bs ++ (b'/' ∷ rest)) ne, split_first bs rest h) refl

split-join_with :
    (part : Bytes) (parts : List Bytes)
    → All IsPart (part ∷ parts)
    → split_at b'/' (join_with (codes "/") (part ∷ parts)) ≡ (part, parts)
unfolding join_with
split-join_with part [] ((_, _, w), h) = split_alone part w
split-join_with part (next ∷ parts) ((_, _, w), h) =
    split_first part (join_with (codes "/") (next ∷ parts)) w
    ∙ ap (λ (p : Bytes × List Bytes). (part, p.0 ∷ p.1)) (split-join_with next parts h)

root_part_full : (b : ℕ) (bs : Bytes) → b ≢ b'/' → root_part (b ∷ bs) ≡ []
unfolding same
root_part_full b bs ne = ground arith

join_first :
    (part : Bytes) (parts : List Bytes)
    → IsPart part
    → IsRelative (join_with (codes "/") (part ∷ parts))
unfolding join_with
join_first [] parts (is_full, _, w) = absurd (cc)
join_first (b ∷ bs) [] (_, _, (ne, w)) = root_part_full b bs ne
join_first (b ∷ bs) (next ∷ parts) (_, _, (ne, w)) =
    root_part_full b (bs ++ (b'/' ∷ join_with (codes "/") (next ∷ parts))) ne

components_empty : components (join_with (codes "/") []) ≡ []
unfolding components join_with split_at kept_parts
components_empty = refl

-- Components that are kept come back from the path that they are joined to.
components-join_with :
    (parts : List Bytes) → All IsPart parts → components (join_with (codes "/") parts) ≡ parts
unfolding components
components-join_with [] h = components_empty
components-join_with (part ∷ parts) (p, h) =
    rw (join_first part parts p, split-join_with part parts (p, h))
      (kept_parts-All (part ∷ parts) (p, h))

-- A component that is a text, which decoding leaves as it is.
abbrev pub IsText : Bytes → Type 0
IsText part = from_utf8_lossy part ≡ part

texts : (parts : List Bytes) → All IsText parts → map from_utf8_lossy parts ≡ parts
texts [] h = refl
texts (part ∷ parts) (e, h) = rw (e, texts parts h) refl

abbrev pub prefix_components : Option Bytes → List Bytes
prefix_components none = []
prefix_components (some path) = components path

prefix_components-IsPart :
    (prefix : Option Bytes) → IsRelativePrefix prefix → All IsPart (prefix_components prefix)
prefix_components-IsPart none h = tt
prefix_components-IsPart (some path) h = components-IsPart path h

prefix_texts :
    (prefix : Option Bytes)
    → All IsText (prefix_components prefix)
    → prefix_parts prefix ≡ prefix_components prefix
unfolding path_components
prefix_texts none h = refl
prefix_texts (some path) h = texts (components path) h

path_texts : (path : Bytes) → All IsText (components path) → path_components path ≡ components path
unfolding path_components
path_texts path h = texts (components path) h

joined :
    (repo : Repository) (around : Surroundings) (prefix : Option Bytes) (path : Bytes)
    → around.prefix ≡ ok prefix
    → cwd_relative_path repo around path
      ≡ ok (join_with (codes "/") (prefix_parts prefix ++ path_components path))
unfolding cwd_relative_path
joined repo around prefix path found = rw found refl

-- For a path that does not start at the root, where the components are texts, the path below the working
-- tree's root has exactly the components of the directory that the command runs in, followed by those of
-- the path, and none of them is empty, is `.`, or holds a slash.
components-cwd_relative_path :
    (repo : Repository) (around : Surroundings) (prefix : Option Bytes) (path below : Bytes)
    → around.prefix ≡ ok prefix
    → IsRelativePrefix prefix
    → IsRelative path
    → All IsText (prefix_components prefix)
    → All IsText (components path)
    → cwd_relative_path repo around path ≡ ok below
    → (components below ≡ prefix_components prefix ++ components path)
      × All IsPart (components below)
components-cwd_relative_path repo around prefix path below found in_tree relative t u e =
    let parts = prefix_components prefix ++ components path in
    let are_parts =
      All-append IsPart (prefix_components prefix) (components path)
        (prefix_components-IsPart prefix in_tree) (components-IsPart path relative) in
    let written : cwd_relative_path repo around path ≡ ok (join_with (codes "/") parts) =
      rw (sym (prefix_texts prefix t), sym (path_texts path u))
        (joined repo around prefix path found) in
    let below_is : join_with (codes "/") parts ≡ below = ground (arith, written) in
    let same_parts = ap components (sym below_is) ∙ components-join_with parts are_parts in
    (same_parts, subst (All IsPart) (sym same_parts) are_parts)
