-- ===== src/Anchor.antt =====
-- crates/git-anchor/src/anchor.rs: identity, hints and capture; `resolve_commit`, `commit_at` and
-- `read_blob` of crates/git-anchor/src/util.rs.
pub mod Capture
use git_anchor.Base.{
  ℕ, ◌≡◌, Bool, true, false, Option, none, some, List, [], ◌∷◌, length, if◌then◌else◌,
}
use git_anchor.Base.Text.{Bytes, codes}
use git_anchor.Base.Result.{Result, ok, err, map_err, ok_or, ◌>>=◌}
use git_anchor.Error.{Error, Res, resolve, object, missing_path, no_working_tree, panic}
use git_anchor.Lines.{LineRange, Span, whole, slice, byte_span_of}
use git_anchor.Fingerprint.{Fingerprint, capture_fingerprint}
use git_anchor.Repository.{Repository, Entry, Worktree}

pub record AnchorIdentity : Type 0 where
  pub genesis_rev : ℕ
  pub path : Bytes
  pub span : Span

pub record Descriptor : Type 0 where
  pub grammar_id : Bytes
  pub grammar_version : Bytes
  pub node_kind : Bytes
  pub name_path : List Bytes

pub record AnchorHints : Type 0 where
  pub fingerprints : List Fingerprint
  pub descriptors : List Descriptor

pub record Anchor : Type 0 where
  pub identity : AnchorIdentity
  pub hints : AnchorHints

-- A slice that does not fit falls back on the whole content.
or_whole : Option Bytes → Bytes → Bytes
or_whole none content = content
or_whole (some bytes) content = bytes

unfoldable pub hints_for : Bytes → Span → Res AnchorHints
unfolding or_whole
hints_for content span = do
  print ← ok_or (capture_fingerprint (or_whole (slice span content) content)) panic
  ok (record { fingerprints = print ∷ []; descriptors = [] })

-- `Option::filter(|entry| entry.mode().is_blob())`
abbrev pub only_blob : (ℕ → Bool) → Option Entry → Option Entry
only_blob is_blob none = none
only_blob is_blob (some entry) = if is_blob entry.mode then some entry else none

module _ (repo : Repository) where
  open repo use {
    lines, is_blob, hex, rev_parse_single, find_object, peel_to_commit, commit_tree,
    lookup_entry_by_path, find_blob, workdir, write_blob,
  }

  unfoldable pub resolve_commit : Bytes → Res ℕ
  resolve_commit revision = do
    id ← map_err (λ _. resolve revision) (rev_parse_single revision)
    found ← map_err (λ _. resolve revision) (find_object id)
    map_err (λ _. resolve revision) (peel_to_commit found)

  unfoldable pub commit_at : ℕ → Res ℕ
  commit_at id = do
    found ← map_err (λ _. resolve (hex id)) (find_object id)
    map_err (λ _. resolve (hex id)) (peel_to_commit found)

  unfoldable pub read_blob : ℕ → Res Bytes
  read_blob id = map_err object (find_blob id)

  unfoldable pub span_for : Bytes → Bytes → Option LineRange → Res Span
  span_for content path none = ok (whole (length content))
  span_for content path (some range) = byte_span_of lines content path range

  unfoldable pub capture : Bytes → Bytes → Option LineRange → Res Anchor
  capture revision path range = do
    commit ← resolve_commit revision
    tree ← map_err object (commit_tree commit)
    found ← map_err object (lookup_entry_by_path tree path)
    entry ← ok_or (only_blob is_blob found) (missing_path commit path)
    content ← read_blob entry.id
    span ← span_for content path range
    hints ← hints_for content span
    ok (record {
      identity = record { genesis_rev = commit; path = path; span = span };
      hints = hints;
    })

  -- The blobs handed to `write_blob`, and the result.
  abbrev Written : Type 0 → Type 0
  Written A = List Bytes × Res A

  -- From the span on: the content is written before the anchor is built.
  write_and_build : ℕ → Bytes → Bytes → Res Span → Written Anchor
  write_and_build commit path content (err e) = ([], err e)
  write_and_build commit path content (ok span) = (
    content ∷ [],
    do
      written ← map_err object (write_blob content)
      hints ← hints_for content span
      ok (record {
        identity = record { genesis_rev = commit; path = path; span = span };
        hints = hints;
      }),
  )

  read_and_build : ℕ → Bytes → Option LineRange → Option Bytes → Written Anchor
  unfolding write_and_build
  read_and_build commit path range none = ([], err (missing_path commit path))
  read_and_build commit path range (some content) =
      write_and_build commit path content (span_for content path range)

  at_head : Worktree → Bytes → Option LineRange → Res ℕ → Written Anchor
  unfolding read_and_build
  at_head dir path range (err e) = ([], err e)
  at_head dir path range (ok commit) =
      if dir.is_file path
      then read_and_build commit path range (dir.read path)
      else ([], err (missing_path commit path))

  in_workdir : Bytes → Option LineRange → Option Worktree → Written Anchor
  unfolding at_head
  in_workdir path range none = ([], err no_working_tree)
  in_workdir path range (some dir) = at_head dir path range (resolve_commit (codes "HEAD"))

  unfoldable pub capture_worktree : Bytes → Option LineRange → List Bytes × Res Anchor
  unfolding in_workdir
  capture_worktree path range = in_workdir path range workdir
