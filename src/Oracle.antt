-- ===== src/Oracle.antt =====
-- crates/git-anchor/src/oracle.rs: the three oracles that map an anchor onto a revision.
pub mod MapSpan
pub mod Untouched
pub mod Moves
pub mod Trace
pub mod Match
use git_anchor.Base.{
  ℕ, ◌+◌, ◌-◌, Bool, true, false, not, ◌&&◌, ◌||◌, Option, none, some, List, [], ◌∷◌, ◌++◌, length,
  leb, ltb, ◌==◌, if◌then◌else◌,
}
use git_anchor.Base.Text.{Bytes, same}
use git_anchor.Base.Words.{checked_add, checked_sub, saturating_sub}
use git_anchor.Base.Result.{Result, ok, err, map_err, ok_or, ◌>>=◌}
use git_anchor.Error.{Error, Res, object, diff, panic}
use git_anchor.Lines.{Span, slice, get_range, line_boundaries, span_to_lines, lines_to_span}
use git_anchor.Fingerprint.{
  Fingerprint, minhash_shingle_v1, minhash_shingle_v2, capture_fingerprint, fingerprint_for, Score,
  one_score, is_positive, minhash_similarity,
}
use git_anchor.Repository.{
  Repository, Entry, Change, addition, deletion, modification, rewrite, Hunk,
}
use git_anchor.Anchor.{Anchor, only_blob, resolve_commit, commit_at, read_blob}

pub data Oracle : Type 0 where
  op_log diff_trace fingerprint : Oracle

pub record Candidate : Type 0 where
  pub oracle : Oracle
  pub confidence : Score
  pub path : Bytes
  pub span : Option Span

-- `op_log`: the source is a trait object that the caller may supply.
unfoldable pub op_log_oracle : Option (ℕ → ℕ → List Candidate) → ℕ → ℕ → List Candidate
op_log_oracle none anchor_id target = []
op_log_oracle (some lookup) anchor_id target = lookup anchor_id target

-- The loop of `map_span` over the hunks, with the lines added and removed so far.
unfoldable pub shift_loop : List Hunk → ℕ → ℕ → ℕ → ℕ → Option (ℕ × ℕ)
shift_loop [] start_line end_line added removed = some (added, removed)
shift_loop (hunk ∷ hunks) start_line end_line added removed =
    if leb hunk.before_end start_line
    then elim (checked_sub hunk.before_end hunk.before_start) [
      | none ↦ none
      | some gone ↦ elim (checked_add removed gone) [
        | none ↦ none
        | some removed' ↦ elim (checked_sub hunk.after_end hunk.after_start) [
          | none ↦ none
          | some new ↦ elim (checked_add added new) [
            | none ↦ none
            | some added' ↦ shift_loop hunks start_line end_line added' removed'
          ]
        ]
      ]
    ]
    else if leb end_line hunk.before_start
    then some (added, removed)
    else none

-- The closure `map`.
unfoldable pub map_line : ℕ × ℕ → ℕ → Option ℕ
map_line (added, removed) line = elim (checked_add line added) [
  | none ↦ none
  | some moved ↦ checked_sub moved removed
]

-- The end of `map_span`, from the shift on.
unfoldable pub place_lines : (Bytes → List Bytes) → Bytes → ℕ → ℕ → Option (ℕ × ℕ) → Option Span
place_lines lines new start_line end_line none = none
place_lines lines new start_line end_line (some shift) = elim (map_line shift start_line) [
  | none ↦ none
  | some start ↦ elim (map_line shift end_line) [
    | none ↦ none
    | some end ↦ lines_to_span lines new start end
  ]
]

-- `candidate`
abbrev pub traced : Bytes → Span → Candidate
traced path span = record {
  oracle = diff_trace;
  confidence = one_score;
  path = path;
  span = some span;
}

-- Where the changes take the file at a path: gone, unknown, or at a path with a blob or not.
pub data Destination : Type 0 where
  nowhere : Destination
  at_path : Bytes → ℕ → Bool → Destination

-- `anchor.hints.fingerprints.iter().find(…)`
unfoldable pub find_known : List Fingerprint → Option Fingerprint
find_known [] = none
find_known (f ∷ rest) =
    if same f.algo minhash_shingle_v1 || same f.algo minhash_shingle_v2
    then some f
    else find_known rest

module _ (repo : Repository) where
  open repo use {
    lines, is_blob, to_str_lossy, hunks, before_len, has_object, commit_tree, lookup_entry_by_path,
    diff_tree_to_tree,
  }

  unfoldable pub map_span : Bytes → Bytes → Span → Option Span
  map_span old new span =
      let (start_line, end_line) = span_to_lines lines old span in
      if ltb end_line start_line
      then none
      else if ltb (before_len old new) end_line
      then none
      else place_lines lines new start_line end_line
          (shift_loop (hunks old new) start_line end_line 0 0)

  -- The first change that deletes, modifies or renames the path decides.
  unfoldable pub destination : Bytes → List Change → Destination
  destination path [] = nowhere
  destination path (addition location ∷ changes) = destination path changes
  destination path (deletion location ∷ changes) = elim (same location path) [
    | true ↦ nowhere
    | false ↦ destination path changes
  ]
  destination path (modification location id mode ∷ changes) = elim (same location path) [
    | true ↦ at_path path id (is_blob mode)
    | false ↦ destination path changes
  ]
  destination path (rewrite source location id mode copy ∷ changes) =
      elim (not copy && same source path) [
        | true ↦ at_path (to_str_lossy location) id (is_blob mode)
        | false ↦ destination path changes
      ]

  unfoldable pub blob_at : ℕ → Bytes → Res (Option ℕ)
  blob_at tree path = do
    found ← map_err object (lookup_entry_by_path tree path)
    ok (elim (only_blob is_blob found) [ none ↦ none | some entry ↦ some entry.id ])

  -- The entry is a blob with this id.
  unfoldable pub is_unchanged : Option Entry → ℕ → Bool
  is_unchanged none blob = false
  is_unchanged (some entry) blob = is_blob entry.mode && entry.id == blob

  -- From the destination on.
  unfoldable pub follow : Anchor → ℕ → Destination → Res (List Candidate)
  follow anchor anchor_blob nowhere = ok []
  follow anchor anchor_blob (at_path path blob false) = ok []
  follow anchor anchor_blob (at_path path blob true) =
      if blob == anchor_blob then ok (traced path anchor.identity.span ∷ []) else do
        old ← read_blob repo anchor_blob
        new ← read_blob repo blob
        ok (elim (map_span old new anchor.identity.span) [
          | none ↦ []
          | some mapped ↦ traced path mapped ∷ []
        ])

  -- From the blob that the anchor's own commit has at its path on.
  unfoldable pub trace_blob : Anchor → ℕ → ℕ → Option ℕ → Res (List Candidate)
  trace_blob anchor anchor_tree target_tree none = ok []
  trace_blob anchor anchor_tree target_tree (some anchor_blob) = do
    found ← map_err object (lookup_entry_by_path target_tree anchor.identity.path)
    if is_unchanged found anchor_blob
        then ok (traced anchor.identity.path anchor.identity.span ∷ [])
        else do
          changes ← map_err diff (diff_tree_to_tree anchor_tree target_tree)
          follow anchor anchor_blob (destination anchor.identity.path changes)

  unfoldable pub diff_trace_onto : Anchor → ℕ → Res (List Candidate)
  diff_trace_onto anchor target_tree =
      if has_object anchor.identity.genesis_rev
      then (do
        commit ← commit_at repo anchor.identity.genesis_rev
        anchor_tree ← map_err object (commit_tree commit)
        blob ← blob_at anchor_tree anchor.identity.path
        trace_blob anchor anchor_tree target_tree blob)
      else ok []

  unfoldable pub diff_trace_oracle : Anchor → Bytes → Res (List Candidate)
  diff_trace_oracle anchor target = do
    commit ← resolve_commit repo target
    tree ← map_err object (commit_tree commit)
    diff_trace_onto anchor tree

  recompute_from : Anchor → Option ℕ → Res (Option Bytes)
  recompute_from anchor none = ok none
  recompute_from anchor (some blob) = do
    bytes ← read_blob repo blob
    elim (slice anchor.identity.span bytes) [
      | none ↦ ok none
      | some text ↦ do print ← ok_or (capture_fingerprint text) panic; ok (some print.value)
    ]

  unfoldable pub recompute_reference : Anchor → Res (Option Bytes)
  unfolding recompute_from
  recompute_reference anchor =
      if has_object anchor.identity.genesis_rev
      then (do
        commit ← commit_at repo anchor.identity.genesis_rev
        tree ← map_err object (commit_tree commit)
        blob ← blob_at tree anchor.identity.path
        recompute_from anchor blob)
      else ok none

  -- The algorithm and the reference value to compare with.
  unfoldable pub reference_of : Anchor → Option Fingerprint → Res (Option (Bytes × Bytes))
  reference_of anchor (some f) = ok (some (f.algo, f.value))
  reference_of anchor none = do
    value ← recompute_reference anchor
    ok (elim value [ none ↦ none | some v ↦ some (minhash_shingle_v2, v) ])

-- One window: the candidate of a window that fits, can be fingerprinted and scores above zero.
unfoldable pub score_window : Bytes → Bytes → Bytes → Bytes → ℕ → ℕ → Option Candidate
score_window path algo reference content window_len start = elim (checked_add start window_len) [
  | none ↦ none
  | some end ↦ elim (get_range content start end) [
    | none ↦ none
    | some window ↦ elim (fingerprint_for algo window) [
      | none ↦ none
      | some print ↦
          if is_positive (minhash_similarity print reference)
          then some (record {
            oracle = fingerprint;
            confidence = minhash_similarity print reference;
            path = path;
            span = some (record { start = start; end = end });
          })
          else none
    ]
  ]
]

abbrev pub push_some : Option Candidate → List Candidate → List Candidate
push_some none cs = cs
push_some (some c) cs = c ∷ cs

-- The loop over the line boundaries.
unfoldable pub score_windows : Bytes → Bytes → Bytes → Bytes → ℕ → List ℕ → List Candidate
score_windows path algo reference content window_len [] = []
score_windows path algo reference content window_len (start ∷ starts) =
    push_some (score_window path algo reference content window_len start)
      (score_windows path algo reference content window_len starts)

module _ (repo : Repository) where
  open repo use {lines, is_blob, commit_tree, lookup_entry_by_path}

  unfoldable pub search_content : Anchor → Bytes → Bytes → Bytes → List Candidate
  search_content anchor algo reference content =
      let window_len = saturating_sub anchor.identity.span.end anchor.identity.span.start in
      if window_len == 0 || ltb (length content) window_len
      then []
      else score_windows anchor.identity.path algo reference content window_len
          (line_boundaries lines content)

  search_entry : Anchor → Bytes × Bytes → Option Entry → Res (List Candidate)
  search_entry anchor (algo, reference) none = ok []
  search_entry anchor (algo, reference) (some entry) = do
    content ← read_blob repo entry.id
    ok (search_content anchor algo reference content)

  unfoldable pub search_target : Anchor → Bytes → Option (Bytes × Bytes) → Res (List Candidate)
  unfolding search_entry
  search_target anchor target none = ok []
  search_target anchor target (some reference) = do
    commit ← resolve_commit repo target
    tree ← map_err object (commit_tree commit)
    found ← map_err object (lookup_entry_by_path tree anchor.identity.path)
    search_entry anchor reference (only_blob is_blob found)

  unfoldable pub fingerprint_oracle : Anchor → Bytes → Res (List Candidate)
  fingerprint_oracle anchor target = do
    reference ← reference_of repo anchor (find_known anchor.hints.fingerprints)
    search_target anchor target reference

  unfoldable pub project :
      Anchor → ℕ → Bytes → Option (ℕ → ℕ → List Candidate) → Res (List Candidate)
  project anchor anchor_id target source = do
    target_id ← resolve_commit repo target
    traced_ones ← diff_trace_oracle repo anchor target
    matched ← fingerprint_oracle anchor target
    ok (op_log_oracle source anchor_id target_id ++ (traced_ones ++ matched))
