-- ===== src/AnchorArgs.antt =====
-- crates/git-anchor/src/main.rs: the arguments of `create`, `parse_lines_arg`, `cwd_relative_path` and
-- `build_binding`. A message of the code is carried as its parts. What is written to the object
-- database is a list of blobs.
pub mod LineRanges
pub mod Paths
pub mod Captures
use git_anchor.Base.{
  ℕ, ◌≡◌, Bool, true, false, not, ◌&&◌, ◌||◌, Option, none, some, List, [], ◌∷◌, ◌++◌, map, max,
  if◌then◌else◌,
}
use git_anchor.Base.Text.{Bytes, codes, same}
use git_anchor.Base.Words.{saturating_add, saturating_sub}
use git_anchor.Base.Strings.{
  is_empty, trim, split_once, split_at, strip_prefix, parse_u64, join_with,
}
use git_anchor.Base.Strings.Lossy.{from_utf8_lossy}
use git_anchor.Base.Result.{Result, ok, err, map_err, ok_or, ◌>>=◌}
use git_anchor.Error.{Error}
use git_anchor.Lines.{LineRange}
use git_anchor.Repository.{Repository}
use git_anchor.Anchor.{capture, capture_worktree}
use git_anchor.Binding.{Binding, commit_of, position}

-- The errors of the command line of git-anchor.
pub data AnchorCliError : Type 0 where
  of_anchors : Error → AnchorCliError
  of_libraries : Bytes → AnchorCliError
  line_number line_count : Bytes → AnchorCliError
  -- --path and -L's embedded path disagree
  paths_disagree : Bytes → Bytes → AnchorCliError
  path_required : AnchorCliError
  -- the revision, whether a file has its name, and why it does not resolve
  no_revision : Bytes → Bool → Bytes → AnchorCliError
  prefix_unknown : Bytes → AnchorCliError
  no_schema_of : Bytes → AnchorCliError
  not_a_struct root_unresolved : AnchorCliError
  not_anchorable : AnchorCliError
  -- the fields that match, joined
  ambiguously_anchorable : Bytes → AnchorCliError
  no_required_string : AnchorCliError
  ambiguous_strings : ℕ → Bytes → AnchorCliError
  no_positional : Bytes → AnchorCliError → AnchorCliError
  unread_binding : ℕ → Error → AnchorCliError
  unread_json : Bytes → AnchorCliError
  json_not_object : AnchorCliError
  fields_left : Bytes → Bytes → AnchorCliError
  invalid_name : Bytes → Bytes → AnchorCliError
  -- no entity, in the kind
  no_entity : Bytes → Bytes → AnchorCliError
  -- `expect` on a value that is not there
  panicking : AnchorCliError

pub record LinesArg : Type 0 where
  pub range : LineRange
  pub path : Option Bytes

-- The end of a range, from the count after its plus sign or the whole text after its comma.
unfoldable pub parse_end_text : ℕ → Option Bytes → Bytes → Result AnchorCliError ℕ
parse_end_text start (some count_text) text = do
  count ← ok_or (parse_u64 count_text) (line_count count_text)
  ok (max (saturating_sub (saturating_add start count) 1) start)
parse_end_text start none text = ok_or (parse_u64 text) (line_number text)

unfoldable pub parse_end : ℕ → Option Bytes → Result AnchorCliError ℕ
parse_end start none = ok start
parse_end start (some text) = parse_end_text start (strip_prefix b'+' text) text

-- The parts of a text around a separator, or all of it and nothing.
abbrev pub parts_at : Bytes → Option (Bytes × Bytes) → Bytes × Option Bytes
parts_at text none = (text, none)
parts_at text (some (before, after)) = (before, some after)

abbrev pub trim_some : Option Bytes → Option Bytes
trim_some none = none
trim_some (some text) = some (trim text)

-- A range, from the text on both sides of its comma.
unfoldable pub parse_range : Bytes → Option Bytes → Result AnchorCliError LineRange
parse_range start_text end_text = do
  start ← ok_or (parse_u64 (trim start_text)) (line_number (trim start_text))
  end ← parse_end start (trim_some end_text)
  ok (record { start = start; end = end })

unfoldable pub parse_lines_arg : Bytes → Result AnchorCliError LinesArg
parse_lines_arg raw =
    let (range_part, path) = parts_at raw (split_once b':' raw) in
    let (start_text, end_text) = parts_at range_part (split_once b',' range_part) in
    do range ← parse_range start_text end_text; ok (record { range = range; path = path })

-- The components of a path that `path_components` keeps, between its slashes: not the empty ones, and
-- not `.`.
unfoldable pub kept_parts : List Bytes → List Bytes
kept_parts [] = []
kept_parts (part ∷ parts) =
    let rest = kept_parts parts in
    if is_empty part || same part (codes ".") then rest else part ∷ rest

abbrev pub root_part : Bytes → List Bytes
root_part [] = []
root_part (b ∷ bs) = if same (b ∷ []) (codes "/") then codes "/" ∷ [] else []

-- The components of a path in Unix's syntax, `.` left out.
unfoldable pub components : Bytes → List Bytes
components path =
    let (first, later) = split_at b'/' path in root_part path ++ kept_parts (first ∷ later)

-- `path_components`: the components as texts, each by `to_string_lossy`.
unfoldable pub path_components : Bytes → List Bytes
path_components path = map from_utf8_lossy (components path)

-- What the command asks of gix and the file system: `repo.prefix()` and `Path::exists`.
pub record Surroundings : Type 0 where
  pub prefix : Result Bytes (Option Bytes)
  pub exists_file : Bytes → Bool

abbrev pub prefix_parts : Option Bytes → List Bytes
prefix_parts none = []
prefix_parts (some path) = path_components path

pub record CreateArgs : Type 0 where
  pub at_revision : Option Bytes
  pub path : Option Bytes
  pub lines : Option LinesArg
  pub worktree : Bool

abbrev pub lines_path : Option LinesArg → Option Bytes
lines_path none = none
lines_path (some arg) = arg.path

abbrev pub lines_range : Option LinesArg → Option LineRange
lines_range none = none
lines_range (some arg) = some arg.range

-- The path that is named, by `--path` and by `-L`.
unfoldable pub raw_path : Option Bytes → Option Bytes → Result AnchorCliError (Option Bytes)
raw_path none none = ok none
raw_path none (some embedded) = ok (some embedded)
raw_path (some path) none = ok (some path)
raw_path (some path) (some embedded) =
    if not (same path embedded) then err (paths_disagree path embedded) else ok (some path)

-- Lines need a path.
unfoldable pub with_lines : Option LinesArg → Option Bytes → Result AnchorCliError (Option Bytes)
with_lines (some arg) none = err path_required
with_lines (some arg) (some path) = ok (some path)
with_lines none named = ok named

-- `at.unwrap_or_else(|| "HEAD".to_owned())`
abbrev pub or_head : Option Bytes → Bytes
or_head none = codes "HEAD"
or_head (some revision) = revision

-- Blobs written, and a result.
abbrev pub WithBlobs : Type 0 → Type 0
WithBlobs A = List Bytes × Result AnchorCliError A

abbrev pub as_position : Result Error git_anchor.Anchor.Anchor → Result AnchorCliError Binding
as_position (ok anchor) = ok (position anchor)
as_position (err e) = err (of_anchors e)

module _ (repo : Repository) (around : Surroundings) where
  unfoldable pub cwd_relative_path : Bytes → Result AnchorCliError Bytes
  cwd_relative_path path = do
    prefix ← map_err prefix_unknown around.prefix
    ok (join_with (codes "/") (prefix_parts prefix ++ path_components path))

  -- The path below the working tree's root, when one is named.
  unfoldable pub relative_path : Option Bytes → Result AnchorCliError (Option Bytes)
  relative_path none = ok none
  relative_path (some path) = do below ← cwd_relative_path path; ok (some below)

  -- The path of `build_binding`, or its error.
  unfoldable pub bound_path : CreateArgs → Result AnchorCliError (Option Bytes)
  bound_path args = do
    named ← raw_path args.path (lines_path args.lines)
    required ← with_lines args.lines named
    relative_path required

  unfoldable pub bind_commit : Bytes → Result AnchorCliError Binding
  bind_commit revision = do
    commit ←
        map_err (no_revision revision (around.exists_file revision))
          (repo.rev_parse_single revision)
    ok (commit_of (record { commit = commit }) (record {}))

  -- What is captured, once the path is known.
  unfoldable pub bind_at : CreateArgs → Option Bytes → WithBlobs Binding
  bind_at args none =
      if args.worktree then ([], err panicking) else ([], bind_commit (or_head args.at_revision))
  bind_at args (some path) =
      if args.worktree
      then (let (blobs, anchor) = capture_worktree repo path (lines_range args.lines) in
          (blobs, as_position anchor))
      else ([], as_position (capture repo (or_head args.at_revision) path (lines_range args.lines)))

  abbrev pub bind_found : CreateArgs → Result AnchorCliError (Option Bytes) → WithBlobs Binding
  bind_found args (err e) = ([], err e)
  bind_found args (ok path) = bind_at args path

  unfoldable pub build_binding : CreateArgs → WithBlobs Binding
  build_binding args = bind_found args (bound_path args)
