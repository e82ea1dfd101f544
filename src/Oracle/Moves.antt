-- ===== src/Oracle/Moves.antt =====
-- `diff_trace_onto` of crates/git-anchor/src/oracle.rs: where the changes between two trees take a file.
use git_anchor.Base.{
  ℕ, ◌≡◌, ◌≢◌, ◌↔◌, refl, sym, ap, ◌∙◌, true, false, List, [], ◌∷◌, ◌++◌, All, arith, Bool-cases,
  inl, inr,
}
use git_anchor.Base.Text.{Bytes, same, same_iff, same_refl}
use git_anchor.Repository.{Repository, Change, addition, deletion, modification, rewrite}
use git_anchor.Oracle.{nowhere, at_path, destination}

-- A change that takes the file at a path to a blob: it modifies the file in place, or it renames the
-- file, which is no copy.
pub data Moves (repo : Repository) (origin : Bytes) : Change → Bytes → ℕ → Type 0 where
  modified :
      {id mode : ℕ}
      → repo.is_blob mode ≡ true
      → Moves repo origin (modification origin id mode) origin id
  renamed :
      {location : Bytes} {id mode : ℕ}
      → repo.is_blob mode ≡ true
      → Moves repo origin (rewrite origin location id mode false) (repo.to_str_lossy location) id

-- A change that is about another file, or adds one.
abbrev pub IsElsewhere : Bytes → Change → Type 0
IsElsewhere origin (addition location) = Unit
IsElsewhere origin (deletion location) = location ≢ origin
IsElsewhere origin (modification location id mode) = location ≢ origin
IsElsewhere origin (rewrite source location id mode true) = Unit
IsElsewhere origin (rewrite source location id mode false) = source ≢ origin

-- The first change that is about the file takes it to a blob at a path.
abbrev pub LeadsTo : Repository → Bytes → List Change → Bytes → ℕ → Type 0
LeadsTo repo origin changes path blob =
    (before : List Change) × (change : Change) × (after : List Change) × (changes
      ≡ before ++ (change ∷ after))
    × All (IsElsewhere origin) before
    × Moves repo origin change path blob

differs : (a b : Bytes) → a ≢ b → same a b ≡ false
differs a b ne = elim (Bool-cases (same a b)) [
  | inl e ↦ absurd (ne ((same_iff a b).0 e))
  | inr e ↦ e
]

unlike : (a b : Bytes) → same a b ≡ false → a ≢ b
unlike a b e eq = absurd (cc ((same_iff a b).1 eq))

module _ (repo : Repository) (origin : Bytes) where
  passes :
      (change : Change) (changes : List Change)
      → IsElsewhere origin change
      → destination repo origin (change ∷ changes) ≡ destination repo origin changes
  unfolding destination
  passes (addition location) changes h = refl
  passes (deletion location) changes h = rw (differs location origin h, destination) refl
  passes (modification location id mode) changes h =
      rw (differs location origin h, destination) refl
  passes (rewrite source location id mode true) changes h = refl
  passes (rewrite source location id mode false) changes h =
      rw (differs source origin h, destination) refl

  Moves-destination :
      (change : Change) (after : List Change) (path : Bytes) (blob : ℕ)
      → Moves repo origin change path blob
      → destination repo origin (change ∷ after) ≡ at_path path blob true
  unfolding destination
  Moves-destination change after path blob (modified b) = rw (same_refl origin, b, destination) refl
  Moves-destination change after path blob (renamed b) = rw (same_refl origin, b, destination) refl

  skips :
      (before changes : List Change)
      → All (IsElsewhere origin) before
      → destination repo origin (before ++ changes) ≡ destination repo origin changes
  skips [] changes h = refl
  skips (change ∷ before) changes (h, hs) =
      passes change (before ++ changes) h ∙ skips before changes hs

  LeadsTo-destination :
      (changes : List Change) (path : Bytes) (blob : ℕ)
      → LeadsTo repo origin changes path blob
      → destination repo origin changes ≡ at_path path blob true
  LeadsTo-destination changes path blob (before, change, after, are, h, moves) =
      ap (destination repo origin) are
      ∙ skips before (change ∷ after) h
      ∙ Moves-destination change after path blob moves

  later :
      (change : Change) (changes : List Change) (path : Bytes) (blob : ℕ)
      → IsElsewhere origin change
      → LeadsTo repo origin changes path blob
      → LeadsTo repo origin (change ∷ changes) path blob
  later change changes path blob h (before, found, after, are, hs, moves) =
      (change ∷ before, found, after, ap (◌∷◌ change) are, (h, hs), moves)

  destination-empty :
      (path : Bytes) (blob : ℕ) → destination repo origin [] ≡ at_path path blob true → ⊥
  unfolding destination
  destination-empty path blob e = cc

  -- What a change that is about the file, or about another, makes of the destination.
  deleted :
      (location : Bytes) (changes : List Change) (path : Bytes) (blob : ℕ)
      → same location origin ≡ true
      → destination repo origin (deletion location ∷ changes) ≡ at_path path blob true
      → ⊥
  unfolding destination
  deleted location changes path blob it_is e =
      let e' : nowhere ≡ at_path path blob true = rw (it_is, destination) at e in cc

  here :
      (change : Change) (changes : List Change) {path : Bytes} {blob : ℕ}
      → Moves repo origin change path blob
      → LeadsTo repo origin (change ∷ changes) path blob
  here change changes moves = ([], change, changes, refl, tt, moves)

  modified_here :
      (location : Bytes) (id mode : ℕ) (changes : List Change) (path : Bytes) (blob : ℕ)
      → location ≡ origin
      → destination repo origin (modification location id mode ∷ changes) ≡ at_path path blob true
      → LeadsTo repo origin (modification location id mode ∷ changes) path blob
  unfolding destination
  modified_here location id mode changes path blob it_is e =
      let e' : at_path origin id (repo.is_blob mode) ≡ at_path path blob true =
        rw (it_is, same_refl origin, destination) at e in
      let (path_is, blob_is, b) : (origin ≡ path) × (id ≡ blob) × (repo.is_blob mode ≡ true) =
        ground arith in
      rw (it_is, sym path_is, sym blob_is) (here (modification origin id mode) changes (modified b))

  renamed_here :
      (source location : Bytes) (id mode : ℕ) (changes : List Change) (path : Bytes) (blob : ℕ)
      → source ≡ origin
      → destination repo origin (rewrite source location id mode false ∷ changes)
        ≡ at_path path blob true
      → LeadsTo repo origin (rewrite source location id mode false ∷ changes) path blob
  unfolding destination
  renamed_here source location id mode changes path blob it_is e =
      let e' : at_path (repo.to_str_lossy location) id (repo.is_blob mode)
          ≡ at_path path blob true =
        rw (it_is, same_refl origin, destination) at e in
      let (path_is, blob_is, b) : (repo.to_str_lossy location ≡ path)
          × (id ≡ blob)
          × (repo.is_blob mode ≡ true) =
        ground arith in
      rw (it_is, sym path_is, sym blob_is)
        (here (rewrite origin location id mode false) changes (renamed b))

  elsewhere :
      (change : Change) (changes : List Change) (path : Bytes) (blob : ℕ)
      → (destination repo origin changes ≡ at_path path blob true
          → LeadsTo repo origin changes path blob)
      → IsElsewhere origin change
      → destination repo origin (change ∷ changes) ≡ at_path path blob true
      → LeadsTo repo origin (change ∷ changes) path blob
  elsewhere change changes path blob rest h e =
      later change changes path blob h (rest (sym (passes change changes h) ∙ e))

  destination-LeadsTo :
      (changes : List Change) (path : Bytes) (blob : ℕ)
      → destination repo origin changes ≡ at_path path blob true
      → LeadsTo repo origin changes path blob
  destination-LeadsTo [] path blob e = absurd (destination-empty path blob e)
  destination-LeadsTo (addition location ∷ changes) path blob e =
      elsewhere (addition location) changes path blob (destination-LeadsTo changes path blob) tt e
  destination-LeadsTo (deletion location ∷ changes) path blob e =
      elim (Bool-cases (same location origin)) [
        | inl it_is ↦ absurd (deleted location changes path blob it_is e)
        | inr it_is_not ↦
            elsewhere (deletion location) changes path blob (destination-LeadsTo changes path blob)
              (unlike location origin it_is_not) e
      ]
  destination-LeadsTo (modification location id mode ∷ changes) path blob e =
      elim (Bool-cases (same location origin)) [
        | inl it_is ↦
            modified_here location id mode changes path blob ((same_iff location origin).0 it_is) e
        | inr it_is_not ↦
            elsewhere (modification location id mode) changes path blob
              (destination-LeadsTo changes path blob) (unlike location origin it_is_not) e
      ]
  destination-LeadsTo (rewrite source location id mode true ∷ changes) path blob e =
      elsewhere (rewrite source location id mode true) changes path blob
        (destination-LeadsTo changes path blob) tt e
  destination-LeadsTo (rewrite source location id mode false ∷ changes) path blob e =
      elim (Bool-cases (same source origin)) [
        | inl it_is ↦
            renamed_here source location id mode changes path blob
              ((same_iff source origin).0 it_is) e
        | inr it_is_not ↦
            elsewhere (rewrite source location id mode false) changes path blob
              (destination-LeadsTo changes path blob) (unlike source origin it_is_not) e
      ]

  -- The changes take the file to a blob at a path exactly when the first of them that is about the file
  -- does.
  pub destination_iff :
      (changes : List Change) (path : Bytes) (blob : ℕ)
      → (destination repo origin changes ≡ at_path path blob true)
        ↔ LeadsTo repo origin changes path blob
  destination_iff changes path blob =
      (destination-LeadsTo changes path blob, LeadsTo-destination changes path blob)
