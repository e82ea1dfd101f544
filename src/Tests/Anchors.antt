-- ===== src/Tests/Anchors.antt =====
-- Captures of the sample repository.
use git_anchor.Base.{
  ℕ, ◌≡◌, ◌⊎◌, refl, subst, ◌≤◌, Bool, true, false, Option, none, some, [], ◌∷◌, length, arith,
}
use git_anchor.Base.Text.{Bytes, codes, same}
use git_anchor.Base.Words.{u64_max}
use git_anchor.Base.Result.{ok, err}
use git_anchor.Error.{missing_path, lines_out_of_range}
use git_anchor.Lines.{LineRange, Span, byte_span_of, slice, span_to_lines, lines_to_span}
use git_anchor.Fingerprint.{
  Fingerprint, capture_fingerprint, minhash_shingle, minhash_shingle_v2, shingle_len, num_hashes,
}
use git_anchor.Anchor.{Anchor, capture, capture_worktree, resolve_commit}
use git_anchor.Anchor.Capture.{
  FileAt, IsAnchorOf, HasHints, anchored_text, capture-IsAnchorOf, capture_missing, capture_lines,
  capture_worktree-IsAnchorOf, ReadsFit,
}
use git_anchor.Lines.Spans.{
  lines_between, slice-byte_span_of, span_to_lines-byte_span_of, in_range, WholeLines,
}
use git_anchor.Repository.{Worktree}
use git_anchor.Tests.Sample.{
  sample, sample-IsLawful, file_path, file_entry, old_text, new_text, split_lines,
  split_lines-SplitsLines,
}

abbrev pub line_two : LineRange
line_two = record { start = 2; end = 2 }

abbrev or_empty : Option Fingerprint → Fingerprint
or_empty none = record { algo = []; params = []; value = [] }
or_empty (some f) = f

-- The fingerprint of the second line.
unfoldable pub sample_print : Fingerprint
sample_print = or_empty (capture_fingerprint (codes "b\n"))

abbrev pub sample_anchor : Anchor
sample_anchor = record {
  identity = record { genesis_rev = 1; path = file_path; span = record { start = 2; end = 4 } };
  hints = record { fingerprints = sample_print ∷ []; descriptors = [] };
}

pub captured : capture (sample true) (codes "HEAD") file_path (some line_two) ≡ ok sample_anchor
unfolding capture resolve_commit sample same git_anchor.Anchor.read_blob git_anchor.Anchor.span_for
    byte_span_of git_anchor.Lines.line_boundaries git_anchor.Lines.push_boundaries split_lines
    git_anchor.Anchor.hints_for capture_fingerprint git_anchor.Fingerprint.minhash_shingle
    git_anchor.Fingerprint.shingles slice sample_print
captured = refl

pub head_is : (alive : Bool) → resolve_commit (sample alive) (codes "HEAD") ≡ ok 1
unfolding resolve_commit sample same
head_is alive = refl

pub next_is : (alive : Bool) → resolve_commit (sample alive) (codes "next") ≡ ok 2
unfolding resolve_commit sample same
next_is alive = refl

unfoldable pub sample_file : (alive : Bool) → FileAt (sample alive) 1 file_path old_text
unfolding sample same
sample_file alive = record {
  tree = 11;
  entry = file_entry 21;
  tree_is = refl;
  entry_is = refl;
  blob = refl;
  content_is = refl;
}

print_algo : sample_print.algo ≡ minhash_shingle_v2
unfolding sample_print capture_fingerprint minhash_shingle git_anchor.Fingerprint.shingles
print_algo = refl

pub print_value : minhash_shingle (codes "b\n") shingle_len num_hashes ≡ some sample_print.value
unfolding minhash_shingle git_anchor.Fingerprint.shingles sample_print
    git_anchor.Fingerprint.fold_shingles capture_fingerprint git_anchor.Fingerprint.fold_shingle
print_value = refl

sample_text : anchored_text split_lines old_text (some line_two) ≡ codes "b\n"
unfolding split_lines
sample_text = refl

pub sample_hints : HasHints sample_anchor.hints (anchored_text split_lines old_text (some line_two))
sample_hints = record {
  print = sample_print;
  prints = refl;
  algo = print_algo;
  value = rw sample_text print_value;
  descriptors = refl;
}

unfoldable pub sample_lines :
    (alive : Bool) → WholeLines (sample alive).lines old_text sample_anchor.identity.span
unfolding sample split_lines
sample_lines alive = record {
  from = 1;
  to = 2;
  from-le = omega arith;
  to-le = omega arith;
  span_is = refl;
}

unfoldable pub sample_is :
    (alive : Bool) → IsAnchorOf (sample alive) 1 file_path old_text (some line_two) sample_anchor
unfolding sample slice split_lines
sample_is alive = record {
  genesis = refl;
  path_is = refl;
  text = refl;
  whole_lines = sample_lines alive;
  hints = sample_hints;
}

span_two : byte_span_of split_lines old_text file_path line_two ≡ ok (record { start = 2; end = 4 })
unfolding byte_span_of git_anchor.Lines.line_boundaries git_anchor.Lines.push_boundaries split_lines
span_two = refl

capture-IsAnchorOf_example :
    (commit : ℕ) × (content : Bytes) × (resolve_commit (sample true) (codes "HEAD") ≡ ok commit)
    × FileAt (sample true) commit file_path content
    × IsAnchorOf (sample true) commit file_path content (some line_two) sample_anchor
capture-IsAnchorOf_example =
    capture-IsAnchorOf (sample true) (sample-IsLawful true) (codes "HEAD") file_path (some line_two)
      sample_anchor captured

capture_missing_example :
    capture (sample true) (codes "HEAD") (codes "g") none ≡ err (missing_path 1 (codes "g"))
capture_missing_example =
    capture_missing (sample true) (sample-IsLawful true) (codes "HEAD") (codes "g") none 1 11 none
      (head_is true) (unfold sample in refl) (unfold sample same in refl) refl

slice-byte_span_of_example :
    slice (record { start = 2; end = 4 }) old_text ≡ some (lines_between split_lines old_text 1 2)
slice-byte_span_of_example =
    slice-byte_span_of split_lines split_lines-SplitsLines old_text file_path line_two
      (record { start = 2; end = 4 }) (omega arith) span_two

span_to_lines-byte_span_of_example :
    span_to_lines split_lines old_text (record { start = 2; end = 4 }) ≡ (1, 2)
span_to_lines-byte_span_of_example =
    span_to_lines-byte_span_of split_lines split_lines-SplitsLines old_text file_path line_two
      (record { start = 2; end = 4 }) (omega arith) span_two

capture_lines_example :
    ((in_range line_two (length ((sample true).lines old_text)) ≡ true)
      × ((a : Anchor) × (capture (sample true) (codes "HEAD") file_path (some line_two) ≡ ok a)))
    ⊎ ((in_range line_two (length ((sample true).lines old_text)) ≡ false)
        × (capture (sample true) (codes "HEAD") file_path (some line_two)
            ≡ err (lines_out_of_range file_path 2 2 (length ((sample true).lines old_text)))))
capture_lines_example =
    capture_lines (sample true) (sample-IsLawful true) (codes "HEAD") file_path line_two 1 old_text
      (head_is true) (sample_file true)

-- An anchor on the last line of the working tree's file.
abbrev worktree_anchor : Anchor
worktree_anchor = record {
  identity = record { genesis_rev = 1; path = file_path; span = record { start = 0; end = 6 } };
  hints = record { fingerprints = or_empty (capture_fingerprint new_text) ∷ []; descriptors = [] };
}

worktree_captured : (capture_worktree (sample true) file_path none).1 ≡ ok worktree_anchor
unfolding capture_worktree sample resolve_commit same git_anchor.Anchor.span_for
    git_anchor.Anchor.hints_for capture_fingerprint minhash_shingle git_anchor.Fingerprint.shingles
    slice git_anchor.Lines.whole
worktree_captured = refl

read_fits : ReadsFit (sample true) (sample-IsLawful true) file_path
unfolding sample
read_fits dir content w r =
    let is : new_text ≡ content = ground arith in
    subst (λ (t : Bytes). length t ≤ u64_max) is (omega arith)

capture_worktree-IsAnchorOf_example :
    (commit : ℕ) × (content : Bytes) × (dir : Worktree) × (resolve_commit
        (sample true)
        (codes "HEAD")
      ≡ ok commit)
    × ((sample true).workdir ≡ some dir)
    × (dir.is_file file_path ≡ true)
    × (dir.read file_path ≡ some content)
    × ((capture_worktree (sample true) file_path none).0 ≡ content ∷ [])
    × IsAnchorOf (sample true) commit file_path content none worktree_anchor
capture_worktree-IsAnchorOf_example =
    capture_worktree-IsAnchorOf (sample true) (sample-IsLawful true) file_path none worktree_anchor
      read_fits worktree_captured
