-- ===== src/Fingerprint/Slots.antt =====
-- The slots of `minhash_shingle` of crates/git-anchor/src/fingerprint.rs.
use mathlib.Core.Path.{fun_ext}
use git_anchor.Base.{
  ℕ, zero, suc, ◌+◌, ◌*◌, ◌≤◌, ◌≡◌, ◌≢◌, ◌↔◌, refl, sym, ap, ◌∙◌, ◌⊎◌, inl, inr, some, List, [],
  ◌∷◌, length, concat, map, min, arith, Bool-cases, leb,
}
use git_anchor.Base.Text.{Bytes}
use git_anchor.Base.Words.{u64_max}
use git_anchor.Fingerprint.{
  slot_hash, fold_shingle, fold_shingles, shingles, replicate, to_be_bytes, minhash_shingle,
  windows,
}

-- The least value of hash function `i` over a list of shingles, at most `u64::MAX`.
abbrev pub min_hash : ℕ → List Bytes → ℕ
min_hash i [] = u64_max
min_hash i (s ∷ rest) = min (slot_hash i s) (min_hash i rest)

-- `f i`, `f (i + 1)`, … for `h` indices.
abbrev pub row : ℕ → ℕ → (ℕ → ℕ) → List ℕ
row i zero f = []
row i (suc h) f = f i ∷ row (i + 1) h f

minima : (ℕ → ℕ) → List Bytes → ℕ → ℕ
minima f [] = f
minima f (s ∷ rest) = minima (λ i. min (slot_hash i s) (f i)) rest

minima-eq-min :
    (f : ℕ → ℕ) (parts : List Bytes) (i : ℕ)
    → f i ≤ u64_max
    → minima f parts i ≡ min (f i) (min_hash i parts)
unfolding minima
minima-eq-min f [] i h = omega arith
minima-eq-min f (s ∷ rest) i h =
    minima-eq-min (λ j. min (slot_hash j s) (f j)) rest i (omega arith) ∙ omega arith

fold_shingle-row :
    (i h : ℕ) (f : ℕ → ℕ) (s : Bytes)
    → fold_shingle i (row i h f) s ≡ row i h (λ j. min (slot_hash j s) (f j))
unfolding fold_shingle
fold_shingle-row i zero f s = refl
fold_shingle-row i (suc h) f s = ground (arith, fold_shingle-row (i + 1) h f s)

fold_shingles-row :
    (h : ℕ) (f : ℕ → ℕ) (parts : List Bytes)
    → fold_shingles (row 0 h f) parts ≡ row 0 h (minima f parts)
unfolding fold_shingles minima
fold_shingles-row h f [] = refl
fold_shingles-row h f (s ∷ rest) =
    ap (λ (m : List ℕ). fold_shingles m rest) (fold_shingle-row 0 h f s)
    ∙ fold_shingles-row h (λ j. min (slot_hash j s) (f j)) rest

replicate-row : (i h v : ℕ) → replicate h v ≡ row i h (λ _. v)
replicate-row i zero v = refl
replicate-row i (suc h) v = ap (◌∷◌ v) (replicate-row (i + 1) h v)

pub fold_shingles-eq-row :
    (h : ℕ) (parts : List Bytes)
    → fold_shingles (replicate h u64_max) parts ≡ row 0 h (λ i. min_hash i parts)
fold_shingles-eq-row h parts =
    ap (λ (m : List ℕ). fold_shingles m parts) (replicate-row 0 h u64_max)
    ∙ fold_shingles-row h (λ _. u64_max) parts
    ∙ ap (row 0 h)
        (fun_ext λ i. minima-eq-min (λ _. u64_max) parts i (omega arith) ∙ min_hash_max i parts)
  where
    min_hash_max : (i : ℕ) (ps : List Bytes) → min u64_max (min_hash i ps) ≡ min_hash i ps
    min_hash_max i [] = omega arith
    min_hash_max i (s ∷ rest) = omega (arith, min_hash_max i rest)

-- The fingerprint of a list of shingles, slot by slot.
abbrev pub fingerprint_row : ℕ → List Bytes → Bytes
fingerprint_row hashes parts = concat (map to_be_bytes (row 0 hashes (λ i. min_hash i parts)))

-- `minhash_shingle` computes, for each hash function, the minimum over the shingles.
pub minhash_shingle-eq_row :
    (bytes : Bytes) (k hashes : ℕ) (parts : List Bytes)
    → shingles bytes k ≡ some parts
    → minhash_shingle bytes k hashes ≡ some (fingerprint_row hashes parts)
unfolding minhash_shingle
minhash_shingle-eq_row bytes k hashes parts e =
    rw (e, minhash_shingle)
      (ap (λ (m : List ℕ). some (concat (map to_be_bytes m))) (fold_shingles-eq-row hashes parts))

length-row : (i h : ℕ) (f : ℕ → ℕ) → length (concat (map to_be_bytes (row i h f))) ≡ h * 8
length-row i zero f = refl
length-row i (suc h) f = omega (arith, length-row (i + 1) h f)

pub length-fingerprint_row : (h : ℕ) (parts : List Bytes) → length (fingerprint_row h parts) ≡ h * 8
length-fingerprint_row h parts = length-row 0 h (λ i. min_hash i parts)

-- The shingles exist, so no window of size 0 is asked for.
pub shingles_total :
    (bytes : Bytes) (k : ℕ) → k ≢ 0 → (parts : List Bytes) × (shingles bytes k ≡ some parts)
unfolding shingles
shingles_total bytes k h = elim (Bool-cases (leb (length bytes) k)) [
  | inl short ↦ (bytes ∷ [], ground arith)
  | inr long ↦ (windows k bytes, ground arith)
]

-- At a shingle length that is not 0 the fingerprint exists and has eight bytes for each hash.
pub minhash_shingle_total :
    (bytes : Bytes) (k hashes : ℕ)
    → k ≢ 0
    → (v : Bytes) × (minhash_shingle bytes k hashes ≡ some v) × (length v ≡ hashes * 8)
minhash_shingle_total bytes k hashes h =
    let (parts, e) = shingles_total bytes k h in
    (
      fingerprint_row hashes parts,
      minhash_shingle-eq_row bytes k hashes parts e,
      length-fingerprint_row hashes parts,
    )

-- Membership with its place.
abbrev pub Member : Bytes → List Bytes → Type 0
Member s [] = ⊥
Member s (x ∷ xs) = (s ≡ x) ⊎ Member s xs

min_hash-le :
    (i : ℕ) (s : Bytes) (parts : List Bytes) → Member s parts → min_hash i parts ≤ slot_hash i s
min_hash-le i s [] m = absurd m
min_hash-le i s (x ∷ rest) (inl e) = rw e (omega arith)
min_hash-le i s (x ∷ rest) (inr m) = omega (arith, min_hash-le i s rest m)

min_hash-le_max : (i : ℕ) (parts : List Bytes) → min_hash i parts ≤ u64_max
min_hash-le_max i [] = omega arith
min_hash-le_max i (x ∷ rest) = omega (arith, min_hash-le_max i rest)

min_hash_anti :
    (i : ℕ) (xs ys : List Bytes)
    → ((s : Bytes) → Member s xs → Member s ys)
    → min_hash i ys ≤ min_hash i xs
min_hash_anti i [] ys h = min_hash-le_max i ys
min_hash_anti i (x ∷ xs) ys h =
    omega (arith, min_hash-le i x ys (h x (inl refl)), min_hash_anti i xs ys (λ s m. h s (inr m)))

-- Texts with the same shingles, in any order and any number, have the same fingerprint.
pub minhash_shingle_set :
    (a b : Bytes) (k hashes : ℕ) (xs ys : List Bytes)
    → shingles a k ≡ some xs
    → shingles b k ≡ some ys
    → ((s : Bytes) → Member s xs ↔ Member s ys)
    → minhash_shingle a k hashes ≡ minhash_shingle b k hashes
minhash_shingle_set a b k hashes xs ys ea eb h =
    minhash_shingle-eq_row a k hashes xs ea
    ∙ ap (λ (f : ℕ → ℕ). some (concat (map to_be_bytes (row 0 hashes f))))
        (fun_ext λ i.
          omega (arith, min_hash_anti i xs ys (λ s. (h s).0), min_hash_anti i ys xs (λ s. (h s).1)))
    ∙ sym (minhash_shingle-eq_row b k hashes ys eb)
