-- ===== src/AnchorArgs/Captures.antt =====
-- `build_binding` of crates/git-anchor/src/main.rs: what it binds to, and what it refuses.
use git_anchor.Base.{ℕ, ◌≡◌, true, false, Option, none, some, List, [], ◌∷◌}
use git_anchor.Base.Text.{Bytes, codes}
use git_anchor.Base.Result.{Result, ok}
use git_anchor.Error.{Error}
use git_anchor.Repository.{Repository, Worktree}
use git_anchor.Anchor.{Anchor, resolve_commit}
use git_anchor.Anchor.Capture.{FileAt, IsAnchorOf}
use git_anchor.Binding.{Binding, commit_of, position}
use git_anchor.AnchorArgs.{
  Surroundings, CreateArgs, lines_path, lines_range, or_head, cwd_relative_path,
}

-- The path that the arguments name, by `--path`, by `-L`, or alike by both.
pub data NamedPath : Option Bytes → Option Bytes → Bytes → Type 0 where
  by_path : {path : Bytes} → NamedPath (some path) none path
  by_lines : {path : Bytes} → NamedPath none (some path) path
  by_both : {path : Bytes} → NamedPath (some path) (some path) path

module _ (repo : Repository) (around : Surroundings) where
  -- The three things that are bound: the object that a revision names, where no path and no lines are
  -- given; an anchor of the named file at a revision's commit; or one of it in the working tree, whose
  -- content is written.
  pub data Built (args : CreateArgs) : List Bytes → Binding → Type 0 where
    whole_commit :
        (commit : ℕ)
        → (args.path ≡ none) × (args.lines ≡ none) × (args.worktree ≡ false)
        → repo.rev_parse_single (or_head args.at_revision) ≡ ok commit
        → Built args [] (commit_of (record { commit = commit }) (record {}))
    at_revision :
        (named below : Bytes) (anchor : Anchor) (commit : ℕ) (content : Bytes)
        → NamedPath args.path (lines_path args.lines) named
        → args.worktree ≡ false
        → cwd_relative_path repo around named ≡ ok below
        → resolve_commit repo (or_head args.at_revision) ≡ ok commit
        → FileAt repo commit below content
        → IsAnchorOf repo commit below content (lines_range args.lines) anchor
        → Built args [] (position anchor)
    in_worktree :
        (named below : Bytes) (anchor : Anchor) (commit : ℕ) (content : Bytes) (dir : Worktree)
        → NamedPath args.path (lines_path args.lines) named
        → args.worktree ≡ true
        → cwd_relative_path repo around named ≡ ok below
        → resolve_commit repo (codes "HEAD") ≡ ok commit
        → repo.workdir ≡ some dir
        → dir.is_file below ≡ true
        → dir.read below ≡ some content
        → IsAnchorOf repo commit below content (lines_range args.lines) anchor
        → Built args (content ∷ []) (position anchor)
