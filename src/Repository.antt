-- ===== src/Repository.antt =====
-- What git-anchor asks of a repository: the operations of gix, gix-diff, bstr and std::fs that
-- crates/git-anchor/src calls, as one parameter with no definitions, and what their documentation
-- promises. Object ids are the numbers that their 20 bytes spell; entry modes are their raw numbers.
use git_anchor.Base.{ℕ, ◌+◌, ◌≤◌, ◌≡◌, Bool, Option, List, [], ◌∷◌, ◌++◌, length}
use git_anchor.Base.Text.{Bytes}
use git_anchor.Base.Words.{u64_max}
use git_anchor.Base.Result.{Result, ok}
use git_anchor.Lines.{SplitsLines}

-- `gix::object::tree::Entry`
pub record Entry : Type 0 where
  pub mode : ℕ
  pub id : ℕ

-- The four cases of `gix::diff::tree_with_rewrites::Change`.
pub data Change : Type 0 where
  addition : Bytes → Change
  deletion : Bytes → Change
  -- location, id and mode on the new side
  modification : Bytes → ℕ → ℕ → Change
  -- source location, location, id, mode, and whether it is a copy
  rewrite : Bytes → Bytes → ℕ → ℕ → Bool → Change

-- `gix::diff::blob::Hunk`: the lines removed and the lines added.
pub record Hunk : Type 0 where
  pub before_start : ℕ
  pub before_end : ℕ
  pub after_start : ℕ
  pub after_end : ℕ

-- The files of a working tree, by their path below its root.
pub record Worktree : Type 0 where
  pub is_file : Bytes → Bool
  pub read : Bytes → Option Bytes

pub record Repository : Type 0 where
  pub lines : Bytes → List Bytes
  pub is_tree : ℕ → Bool
  pub is_blob : ℕ → Bool
  pub hex : ℕ → Bytes
  -- `to_str_lossy` of bstr
  pub to_str_lossy : Bytes → Bytes
  pub rev_parse_single : Bytes → Result Bytes ℕ
  -- `find_object(id)` and `Id::object`: whether the object is there
  pub find_object : ℕ → Result Bytes ℕ
  -- `peel_to_kind(Commit)` with `try_into_commit`
  pub peel_to_commit : ℕ → Result Bytes ℕ
  pub commit_tree : ℕ → Result Bytes ℕ
  pub lookup_entry_by_path : ℕ → Bytes → Result Bytes (Option Entry)
  pub find_blob : ℕ → Result Bytes Bytes
  pub has_object : ℕ → Bool
  pub merge_base : ℕ → ℕ → Result Bytes ℕ
  -- `Tree::iter`: each entry may fail to decode
  pub tree_iter : ℕ → List (Result Bytes Entry)
  -- `Entry::object` with `try_into_tree`
  pub try_into_tree : ℕ → Result Bytes ℕ
  pub diff_tree_to_tree : ℕ → ℕ → Result Bytes (List Change)
  -- `Diff::compute(Histogram, InternedInput::new(old, new)).hunks()`
  pub hunks : Bytes → Bytes → List Hunk
  -- `InternedInput::before.len()`
  pub before_len : Bytes → Bytes → ℕ
  pub workdir : Option Worktree
  pub write_blob : Bytes → Result Bytes ℕ

-- An edit script from old lines to new ones: the hunks in order, equal lines around them. The
-- numbers are the positions that the two sides have reached.
pub data Script : ℕ → ℕ → List Hunk → List Bytes → List Bytes → Type 0 where
  rest : {i j : ℕ} (kept : List Bytes) → Script i j [] kept kept
  edit :
      {i j : ℕ} (kept removed added : List Bytes) {hunk : Hunk} {hunks : List Hunk}
      {old new : List Bytes}
      → hunk.before_start ≡ i + length kept
      → hunk.before_end ≡ hunk.before_start + length removed
      → hunk.after_start ≡ j + length kept
      → hunk.after_end ≡ hunk.after_start + length added
      → Script hunk.before_end hunk.after_end hunks old new
      → Script i j (hunk ∷ hunks) (kept ++ (removed ++ old)) (kept ++ (added ++ new))

-- What the libraries document. Nothing held in memory is longer than a 64-bit length.
pub record IsLawful (repo : Repository) : Type 0 where
  pub splits : SplitsLines repo.lines
  pub blob_size : (id : ℕ) (bytes : Bytes) → repo.find_blob id ≡ ok bytes → length bytes ≤ u64_max
  pub script : (old new : Bytes) → Script 0 0 (repo.hunks old new) (repo.lines old) (repo.lines new)
  pub before_lines : (old new : Bytes) → repo.before_len old new ≡ length (repo.lines old)
