-- ===== src/Fingerprint/Similarity.antt =====
-- `minhash_similarity` of crates/git-anchor/src/oracle.rs.
use git_anchor.Base.{
  ℕ, zero, suc, ◌/◌, ◌%◌, ◌≤◌, ◌<◌, ◌≡◌, refl, true, [], ◌∷◌, length, arith, Bool-cases, inl, inr,
}
use native.Mathlib.Decide.{dec_lt}
use git_anchor.Base.Text.{Bytes, same, same_refl, same_iff}
use git_anchor.Fingerprint.{is_exact, slot_bytes, count_matches, minhash_similarity}

same_comm : (a b : Bytes) → same a b ≡ same b a
unfolding same
same_comm [] [] = refl
same_comm [] (y ∷ ys) = refl
same_comm (x ∷ xs) [] = refl
same_comm (x ∷ xs) (y ∷ ys) = ground (arith, same_comm xs ys)

count_matches_comm : (n : ℕ) (a b : Bytes) → count_matches n a b ≡ count_matches n b a
unfolding count_matches
count_matches_comm zero a b = refl
count_matches_comm (suc i) a b =
    ground (arith, same_comm (slot_bytes a i) (slot_bytes b i), count_matches_comm i a b)

count_matches-le : (n : ℕ) (a b : Bytes) → count_matches n a b ≤ n
unfolding count_matches
count_matches-le zero a b = omega arith
count_matches-le (suc i) a b = ground (arith, count_matches-le i a b)

count_matches_self : (n : ℕ) (a : Bytes) → count_matches n a a ≡ n
unfolding count_matches
count_matches_self zero a = refl
count_matches_self (suc i) a = ground (arith, same_refl (slot_bytes a i), count_matches_self i a)

-- All slots below `n` agree.
abbrev pub SlotsAgree : ℕ → Bytes → Bytes → Type 0
SlotsAgree n a b = (i : ℕ) → i < n → slot_bytes a i ≡ slot_bytes b i

count_matches_full : (n : ℕ) (a b : Bytes) → n ≤ count_matches n a b → SlotsAgree n a b
unfolding count_matches
count_matches_full zero a b h i k = absurd (omega arith)
count_matches_full (suc n) a b h i k = elim (Bool-cases (same (slot_bytes a n) (slot_bytes b n))) [
  | inl eq ↦ elim (dec_lt i n) [
    | yes lt ↦ count_matches_full n a b (ground arith) i lt
    | no ge ↦
        let e : i ≡ n = omega arith in rw e ((same_iff (slot_bytes a n) (slot_bytes b n)).0 eq)
  ]
  | inr ne ↦ absurd (ground (arith, count_matches-le n a b))
]

-- The score does not depend on the order of its arguments.
pub minhash_similarity_comm : (a b : Bytes) → minhash_similarity a b ≡ minhash_similarity b a
unfolding minhash_similarity
minhash_similarity_comm [] [] = refl
minhash_similarity_comm [] (y ∷ b) = ground arith
minhash_similarity_comm (x ∷ a) [] = ground arith
minhash_similarity_comm (x ∷ a) (y ∷ b) =
    ground (arith, count_matches_comm (length (x ∷ a) / 8) (x ∷ a) (y ∷ b))

-- The score lies between 0 and 1, and its denominator is not 0.
pub minhash_similarity_bounds :
    (a b : Bytes)
    → ((minhash_similarity a b).matches ≤ (minhash_similarity a b).slots)
      × (0 < (minhash_similarity a b).slots)
unfolding minhash_similarity
minhash_similarity_bounds [] b = (ground arith, ground arith)
minhash_similarity_bounds (x ∷ a) b =
    (ground (arith, count_matches-le (length (x ∷ a) / 8) (x ∷ a) b), ground arith)

-- A fingerprint of whole slots scores 1 against itself.
pub minhash_similarity_self :
    (a : Bytes) → 0 < length a → length a % 8 ≡ 0 → is_exact (minhash_similarity a a) ≡ true
unfolding minhash_similarity
minhash_similarity_self [] h e = absurd (omega arith)
minhash_similarity_self (x ∷ a) h e =
    ground (arith, count_matches_self (length (x ∷ a) / 8) (x ∷ a))

-- Two fingerprints that score 1 have the same length and agree in each slot.
pub is_exact-minhash_similarity :
    (a b : Bytes)
    → is_exact (minhash_similarity a b) ≡ true
    → (length a ≡ length b) × SlotsAgree (length a / 8) a b
unfolding minhash_similarity
is_exact-minhash_similarity [] b h = absurd (ground arith)
is_exact-minhash_similarity (x ∷ a) b h =
    (ground arith, count_matches_full (length (x ∷ a) / 8) (x ∷ a) b (ground arith))
