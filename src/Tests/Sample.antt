-- ===== src/Tests/Sample.antt =====
-- A small repository with two commits, and that it behaves as the libraries document.
use git_anchor.Base.{
  ℕ, suc, ◌+◌, ◌≤◌, ◌≡◌, ◌≢◌, refl, ap, ◌∙◌, subst, Bool, true, none, some, List, [], ◌∷◌, ◌++◌,
  append-nil, length, length-take, length-drop, take, drop, take-append-drop, concat, All, arith,
  ◌==◌, if◌then◌else◌, Bool-cases, inl, inr,
}
use git_anchor.Base.Text.{Bytes, codes, same, same→eq}
use git_anchor.Base.Words.{u64_max}
use git_anchor.Base.Strings.Lossy.{from_utf8_lossy}
use git_anchor.Base.Result.{ok, err}
use git_anchor.Lines.{SplitsLines}
use git_anchor.Repository.{Repository, IsLawful, Entry, modification, Hunk, Script, rest, edit}

-- The lines of a text, each with its line feed.
push_byte : ℕ → List Bytes → List Bytes
push_byte b [] = (b ∷ []) ∷ []
push_byte b (line ∷ lines) = if b == 10 then (b ∷ []) ∷ (line ∷ lines) else (b ∷ line) ∷ lines

unfoldable pub split_lines : Bytes → List Bytes
unfolding push_byte
split_lines [] = []
split_lines (b ∷ bytes) = push_byte b (split_lines bytes)

concat-push_byte : (b : ℕ) (lines : List Bytes) → concat (push_byte b lines) ≡ b ∷ concat lines
unfolding push_byte
concat-push_byte b [] = refl
concat-push_byte b (line ∷ lines) = elim (Bool-cases (b == 10)) [
  | inl eq ↦ rw eq refl
  | inr ne ↦ rw ne refl
]

push_byte_ne_nil :
    (b : ℕ) (lines : List Bytes) → All (λ l. l ≢ []) lines → All (λ l. l ≢ []) (push_byte b lines)
unfolding push_byte
push_byte_ne_nil b [] a = (λ e. cc, tt)
push_byte_ne_nil b (line ∷ lines) (n, a) = elim (Bool-cases (b == 10)) [
  | inl eq ↦ rw eq (λ e. cc, (n, a))
  | inr ne ↦ rw ne (λ e. cc, a)
]

concat-split_lines : (bytes : Bytes) → concat (split_lines bytes) ≡ bytes
unfolding split_lines
concat-split_lines [] = refl
concat-split_lines (b ∷ bytes) =
    concat-push_byte b (split_lines bytes) ∙ ap (◌∷◌ b) (concat-split_lines bytes)

split_lines_ne_nil : (bytes : Bytes) → All (λ l. l ≢ []) (split_lines bytes)
unfolding split_lines
split_lines_ne_nil [] = tt
split_lines_ne_nil (b ∷ bytes) = push_byte_ne_nil b (split_lines bytes) (split_lines_ne_nil bytes)

pub split_lines-SplitsLines : SplitsLines split_lines
split_lines-SplitsLines = record { joined = concat-split_lines; line_ne_nil = split_lines_ne_nil }

-- How many lines two texts have in common at their start.
unfoldable pub common : List Bytes → List Bytes → ℕ
common [] ys = 0
common (x ∷ xs) [] = 0
common (x ∷ xs) (y ∷ ys) = let more = common xs ys in if same x y then suc more else 0

take-common : (xs ys : List Bytes) → take (common xs ys) xs ≡ take (common xs ys) ys
unfolding common
take-common [] ys = refl
take-common (x ∷ xs) [] = refl
take-common (x ∷ xs) (y ∷ ys) = elim (Bool-cases (same x y)) [
  | inl eq ↦ rw (eq, same→eq x y eq, take-common xs ys) refl
  | inr ne ↦ rw ne refl
]

common-le : (xs ys : List Bytes) → (common xs ys ≤ length xs) × (common xs ys ≤ length ys)
unfolding common
common-le [] ys = (omega arith, omega arith)
common-le (x ∷ xs) [] = (omega arith, omega arith)
common-le (x ∷ xs) (y ∷ ys) = (ground (arith, common-le xs ys), ground (arith, common-le xs ys))

-- One hunk, from the first line that differs on.
abbrev pub hunk_of : List Bytes → List Bytes → Hunk
hunk_of xs ys = record {
  before_start = common xs ys;
  before_end = length xs;
  after_start = common xs ys;
  after_end = length ys;
}

hunk_of-Script : (xs ys : List Bytes) → Script 0 0 (hunk_of xs ys ∷ []) xs ys
hunk_of-Script xs ys =
    let n = common xs ys in
    let (nx, ny) = common-le xs ys in
    let made : Script 0 0 (hunk_of xs ys ∷ []) (take n xs ++ (drop n xs ++ []))
        (take n xs ++ (drop n ys ++ [])) =
      edit (take n xs) (drop n xs) (drop n ys) {hunk = hunk_of xs ys}
        (omega (arith, length-take n xs)) (omega (arith, length-drop n xs))
        (omega (arith, length-take n xs)) (omega (arith, length-drop n ys)) (rest []) in
    let left : take n xs ++ (drop n xs ++ []) ≡ xs =
      ap (◌++◌ (take n xs)) (append-nil (drop n xs)) ∙ take-append-drop n xs in
    let right : take n xs ++ (drop n ys ++ []) ≡ ys =
      ap (◌++◌ (take n xs)) (append-nil (drop n ys))
      ∙ ap (λ t. t ++ drop n ys) (take-common xs ys)
      ∙ take-append-drop n ys in
    subst (λ ls. Script 0 0 (hunk_of xs ys ∷ []) xs ls) right
      (subst (λ ls. Script 0 0 (hunk_of xs ys ∷ []) ls (take n xs ++ (drop n ys ++ []))) left made)

abbrev pub old_text : Bytes
old_text = codes "a\nb\n"

abbrev pub new_text : Bytes
new_text = codes "a\nb\nc\n"

abbrev pub file_path : Bytes
file_path = codes "f"

abbrev pub file_entry : ℕ → Entry
file_entry id = record { mode = 10; id = id }

abbrev pub tree_entry : ℕ → Entry
tree_entry id = record { mode = 40; id = id }

-- Commit 1 has the tree 11 with the old text in blob 21, commit 2 the tree 12 with the new text in
-- blob 22 and a subtree 13. `alive` tells whether the objects are still stored.
unfoldable pub sample : Bool → Repository
sample alive = record {
  lines = split_lines;
  is_tree = λ mode. mode == 40;
  is_blob = λ mode. mode == 10;
  to_str_lossy = from_utf8_lossy;
  hex = λ id. id ∷ [];
  rev_parse_single = λ revision.
      if same revision (codes "HEAD")
      then ok 1
      else if same revision (codes "next")
      then ok 2
      else err [];
  find_object = λ id. ok id;
  peel_to_commit = λ id. ok id;
  commit_tree = λ id. ok (10 + id);
  lookup_entry_by_path =
      λ tree path. if same path file_path then ok (some (file_entry (10 + tree))) else ok none;
  find_blob = λ id. if id == 21 then ok old_text else if id == 22 then ok new_text else err [];
  has_object = λ id. alive;
  merge_base = λ a b. ok 1;
  tree_iter = λ tree.
      if tree == 12 then ok (file_entry 22) ∷ ok (tree_entry 13) ∷ [] else ok (file_entry 21) ∷ [];
  try_into_tree = λ id. ok id;
  diff_tree_to_tree = λ a b. ok (modification file_path 22 10 ∷ []);
  hunks = λ old new. hunk_of (split_lines old) (split_lines new) ∷ [];
  before_len = λ old new. length (split_lines old);
  workdir = some (record { is_file = λ path. true; read = λ path. some new_text });
  write_blob = λ bytes. ok 22;
}

blob_size :
    (alive : Bool) (id : ℕ) (bytes : Bytes)
    → (sample alive).find_blob id ≡ ok bytes
    → length bytes ≤ u64_max
unfolding sample
blob_size alive id bytes e = elim (Bool-cases (id == 21)) [
  | inl a ↦
      let is : old_text ≡ bytes = ground arith in
      subst (λ (t : Bytes). length t ≤ u64_max) is (omega arith)
  | inr b ↦ elim (Bool-cases (id == 22)) [
    | inl a ↦
        let is : new_text ≡ bytes = ground arith in
        subst (λ (t : Bytes). length t ≤ u64_max) is (omega arith)
    | inr c ↦ absurd (ground arith)
  ]
]

pub sample-IsLawful : (alive : Bool) → IsLawful (sample alive)
sample-IsLawful alive = record {
  splits = unfold sample in split_lines-SplitsLines;
  blob_size = blob_size alive;
  script = λ old new. unfold sample in hunk_of-Script (split_lines old) (split_lines new);
  before_lines = λ old new. unfold sample in refl;
}
