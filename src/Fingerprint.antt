-- ===== src/Fingerprint.antt =====
-- crates/git-anchor/src/fingerprint.rs: MinHash fingerprints over byte shingles, and
-- `minhash_similarity` of crates/git-anchor/src/oracle.rs. An `f64` score is the exact fraction
-- that it rounds. `none` stands for the panic of `slice::windows` at size 0.
pub mod Slots
pub mod Similarity
use Prim.Native.Nat.{bit_xor}
use git_anchor.Base.{
  ℕ, zero, suc, ◌+◌, ◌*◌, ◌/◌, ◌%◌, ◌^◌, Bool, true, false, not, ◌||◌, Option, none, some, List, [],
  ◌∷◌, ◌++◌, length, take, drop, concat, map, get_elem?, leb, ltb, ◌==◌, if◌then◌else◌,
}
use git_anchor.Base.Text.{Bytes, codes, same}
use git_anchor.Base.Words.{u64_max, wrapping_add, wrapping_mul}
use git_anchor.Lines.{unwrap_or}

pub record Param : Type 0 where
  pub key : Bytes
  pub value : Bytes

pub record Fingerprint : Type 0 where
  pub algo : Bytes
  pub params : List Param
  pub value : Bytes

abbrev pub minhash_shingle_v1 : Bytes
minhash_shingle_v1 = codes "minhash-shingle-v1"

abbrev pub minhash_shingle_v2 : Bytes
minhash_shingle_v2 = codes "minhash-shingle-v2"

abbrev pub v1_shingle_len : ℕ
v1_shingle_len = 8

abbrev pub shingle_len : ℕ
shingle_len = 4

abbrev pub num_hashes : ℕ
num_hashes = 16

abbrev pub seeds : List ℕ
seeds =
    0x9E3779B97F4A7C15 ∷ 0xC2B2AE3D27D4EB4F ∷ 0x165667B19E3779F9 ∷ 0xFF51AFD7ED558CCD
    ∷ 0xD6E8FEB86659FD93 ∷ 0xA5A358F19D2C13B7 ∷ 0x8CB92BA72F3D8DD7 ∷ 0xDB4F0B9175AE2165
    ∷ 0xBBE05A4D9C2F137B ∷ 0x6C8E9CF570932BD1 ∷ 0xF1357AEA2E62A9C5 ∷ 0x91E10DA5C79E7B3F
    ∷ 0xB5C0FBCFEC4D3A29 ∷ 0xE8D32A746F91C5B7 ∷ 0x47A19D3CB682F05E ∷ 0xC6BC279692B5C323 ∷ []

-- Element `i` of `SEEDS.iter().cycle()`.
seed : ℕ → ℕ
seed i = unwrap_or (get_elem? seeds (i % num_hashes)) 0

fnv1a_onto : ℕ → Bytes → ℕ
fnv1a_onto hash [] = hash
fnv1a_onto hash (byte ∷ rest) = fnv1a_onto (wrapping_mul (bit_xor hash byte) 0x100000001B3) rest

unfoldable pub fnv1a : Bytes → ℕ
unfolding fnv1a_onto
fnv1a bytes = fnv1a_onto 0xcbf29ce484222325 bytes

unfoldable pub splitmix64 : ℕ → ℕ
splitmix64 x =
    let a = wrapping_add x 0x9E3779B97F4A7C15 in
    let b = wrapping_mul (bit_xor a (a / 2 ^ 30)) 0xBF58476D1CE4E5B9 in
    let c = wrapping_mul (bit_xor b (b / 2 ^ 27)) 0x94D049BB133111EB in bit_xor c (c / 2 ^ 31)

-- Hash function `i` on a shingle.
unfoldable pub slot_hash : ℕ → Bytes → ℕ
unfolding seed fnv1a splitmix64
slot_hash i shingle = splitmix64 (bit_xor (fnv1a shingle) (seed i))

-- The closure `fold`: each slot, from slot `i` on, keeps the least hash so far.
unfoldable pub fold_shingle : ℕ → List ℕ → Bytes → List ℕ
fold_shingle i [] shingle = []
fold_shingle i (slot ∷ mins) shingle =
    let h = slot_hash i shingle in
    (if ltb h slot then h else slot) ∷ fold_shingle (i + 1) mins shingle

unfoldable pub fold_shingles : List ℕ → List Bytes → List ℕ
fold_shingles mins [] = mins
fold_shingles mins (shingle ∷ rest) = fold_shingles (fold_shingle 0 mins shingle) rest

-- `slice::windows` at a size that is not 0
unfoldable pub windows : ℕ → Bytes → List Bytes
windows k [] = []
windows k (b ∷ bytes) =
    let rest = windows k bytes in
    if leb k (length (b ∷ bytes)) then take k (b ∷ bytes) ∷ rest else []

-- The shingles that `minhash_shingle` folds.
unfoldable pub shingles : Bytes → ℕ → Option (List Bytes)
shingles bytes k =
    if leb (length bytes) k
    then some (bytes ∷ [])
    else if k == 0
    then none
    else some (windows k bytes)

abbrev pub replicate : ℕ → ℕ → List ℕ
replicate zero v = []
replicate (suc n) v = v ∷ replicate n v

-- `u64::to_be_bytes`
abbrev pub to_be_bytes : ℕ → Bytes
to_be_bytes v =
    v / 2 ^ 56 % 256
    ∷ v / 2 ^ 48 % 256
    ∷ v / 2 ^ 40 % 256
    ∷ v / 2 ^ 32 % 256
    ∷ v / 2 ^ 24 % 256
    ∷ v / 2 ^ 16 % 256
    ∷ v / 2 ^ 8 % 256
    ∷ v % 256
    ∷ []

unfoldable pub minhash_shingle : Bytes → ℕ → ℕ → Option Bytes
minhash_shingle bytes k hashes = elim (shingles bytes k) [
  | none ↦ none
  | some parts ↦ some (concat (map to_be_bytes (fold_shingles (replicate hashes u64_max) parts)))
]

fingerprint_of : Bytes → Bytes → ℕ → Bytes → ℕ → Bytes → Option Fingerprint
fingerprint_of bytes algo k k_text hashes hashes_text = elim (minhash_shingle bytes k hashes) [
  | none ↦ none
  | some value ↦ some (record {
    algo = algo;
    params =
        record { key = codes "k"; value = k_text }
        ∷ record { key = codes "hashes"; value = hashes_text }
        ∷ [];
    value = value;
  })
]

unfoldable pub capture_fingerprint : Bytes → Option Fingerprint
unfolding fingerprint_of
capture_fingerprint bytes =
    fingerprint_of bytes minhash_shingle_v2 shingle_len (codes "4") num_hashes (codes "16")

-- `none` is an unknown algorithm: neither shingle length is 0.
unfoldable pub fingerprint_for : Bytes → Bytes → Option Bytes
fingerprint_for algo bytes =
    if same algo minhash_shingle_v1
    then minhash_shingle bytes v1_shingle_len 4
    else if same algo minhash_shingle_v2
    then minhash_shingle bytes shingle_len num_hashes
    else none

-- A score `matches / slots`.
pub record Score : Type 0 where
  pub matches : ℕ
  pub slots : ℕ

abbrev pub zero_score : Score
zero_score = record { matches = 0; slots = 1 }

abbrev pub one_score : Score
one_score = record { matches = 1; slots = 1 }

-- `score > 0.0` and `score >= 1.0`
abbrev pub is_positive : Score → Bool
is_positive s = ltb 0 s.matches

abbrev pub is_exact : Score → Bool
is_exact s = leb s.slots s.matches

-- `v[i * 8..i * 8 + 8]`
abbrev pub slot_bytes : Bytes → ℕ → Bytes
slot_bytes v i = take 8 (drop (i * 8) v)

-- How many of the slots below a number agree.
unfoldable pub count_matches : ℕ → Bytes → Bytes → ℕ
count_matches zero a b = 0
count_matches (suc i) a b =
    (if same (slot_bytes a i) (slot_bytes b i) then 1 else 0) + count_matches i a b

is_empty : Bytes → Bool
is_empty [] = true
is_empty (x ∷ xs) = false

unfoldable pub minhash_similarity : Bytes → Bytes → Score
unfolding is_empty
minhash_similarity a b =
    if is_empty a || (not (length a == length b) || not (length a % 8 == 0))
    then zero_score
    else let slots = length a / 8 in record { matches = count_matches slots a b; slots = slots }
