-- ===== src/Tests/Oracles.antt =====
-- Fingerprints, and the oracles on the sample repository.
use git_anchor.Base.{
  ◌≡◌, ◌≤◌, ◌<◌, inl, inr, refl, true, some, [], ◌∷◌, length, get_elem?, ◌+◌, All, In, arith,
}
use git_anchor.Base.Text.{Bytes, codes, same}
use git_anchor.Base.Result.{ok}
use git_anchor.Lines.{Span, slice, line_boundaries}
use git_anchor.Lines.Spans.{lines_between, span_of_lines}
use git_anchor.Fingerprint.{
  shingles, minhash_shingle, minhash_similarity, is_exact, minhash_shingle_v2, shingle_len,
  num_hashes,
}
use git_anchor.Fingerprint.Slots.{fingerprint_row, minhash_shingle-eq_row, Member}
use git_anchor.Fingerprint.Similarity.{minhash_similarity_bounds, minhash_similarity_self}
use git_anchor.Repository.{modification}
use git_anchor.Anchor.{commit_at}
use git_anchor.Anchor.Capture.{anchored_text}
use git_anchor.Oracle.{
  Candidate, traced, diff_trace_onto, map_span, search_content, is_unchanged, destination, at_path,
}
use git_anchor.Oracle.Moves.{modified}
use git_anchor.Oracle.MapSpan.{map_span-span_of_lines}
use git_anchor.Oracle.Untouched.{Untouched, map_span-Untouched}
use git_anchor.Oracle.Trace.{NoneOrPlace, diff_trace_onto-NoneOrPlace, diff_trace_onto_moved}
use git_anchor.Oracle.Match.{width, search_content_recovers}
use git_anchor.Tests.Sample.{
  sample, sample-IsLawful, split_lines, common, old_text, new_text, file_path, file_entry,
}
use git_anchor.Tests.Anchors.{
  line_two, sample_anchor, sample_print, sample_is, sample_lines, sample_file, print_value,
}

minhash_shingle-eq_row_example :
    minhash_shingle (codes "abcde") 4 2
    ≡ some (fingerprint_row 2 (codes "abcd" ∷ codes "bcde" ∷ []))
unfolding git_anchor.Fingerprint.windows
minhash_shingle-eq_row_example =
    minhash_shingle-eq_row (codes "abcde") 4 2 (codes "abcd" ∷ codes "bcde" ∷ [])
      (unfold shingles in refl)

same_members :
    (s : Bytes)
    → ((Member s (codes "a" ∷ codes "b" ∷ codes "a" ∷ []))
        → Member s (codes "b" ∷ codes "a" ∷ codes "b" ∷ []))
      × (Member s (codes "b" ∷ codes "a" ∷ codes "b" ∷ [])
          → Member s (codes "a" ∷ codes "b" ∷ codes "a" ∷ []))
same_members s = (
  λ m. elim m [
    | inl e ↦ inr (inl e)
    | inr (inl e) ↦ inl e
    | inr (inr (inl e)) ↦ inr (inl e)
    | inr (inr (inr e)) ↦ absurd e
  ],
  λ m. elim m [
    | inl e ↦ inr (inl e)
    | inr (inl e) ↦ inl e
    | inr (inr (inl e)) ↦ inr (inl e)
    | inr (inr (inr e)) ↦ absurd e
  ],
)

minhash_similarity_bounds_example :
    ((minhash_similarity (codes "12345678") (codes "x")).matches
      ≤ (minhash_similarity (codes "12345678") (codes "x")).slots)
    × (0 < (minhash_similarity (codes "12345678") (codes "x")).slots)
minhash_similarity_bounds_example = minhash_similarity_bounds (codes "12345678") (codes "x")

exact_eight : is_exact (minhash_similarity (codes "12345678") (codes "12345678")) ≡ true
unfolding minhash_similarity git_anchor.Fingerprint.count_matches same
exact_eight = refl

minhash_similarity_self_example :
    is_exact (minhash_similarity (codes "12345678") (codes "12345678")) ≡ true
minhash_similarity_self_example = minhash_similarity_self (codes "12345678") (omega arith) refl

abbrev line_span : Span
line_span = record { start = 2; end = 4 }

mapped_line :
    map_span (sample true) old_text new_text (span_of_lines (sample true).lines old_text 1 2)
    ≡ some line_span
unfolding map_span git_anchor.Lines.span_to_lines sample split_lines git_anchor.Lines.position
    line_boundaries git_anchor.Lines.push_boundaries git_anchor.Lines.rposition
    git_anchor.Oracle.place_lines git_anchor.Oracle.shift_loop git_anchor.Tests.Sample.common same
    git_anchor.Oracle.map_line git_anchor.Lines.lines_to_span
mapped_line = refl

two_lines : 2 ≤ length ((sample true).lines old_text)
unfolding sample split_lines
two_lines = omega arith

map_span-span_of_lines_example :
    slice line_span new_text ≡ some (lines_between (sample true).lines old_text 1 2)
map_span-span_of_lines_example =
    map_span-span_of_lines (sample true) (sample-IsLawful true) old_text new_text 1 2 line_span
      (omega arith) (omega arith) (omega arith) two_lines mapped_line

not_touched : All (Untouched 1 2) ((sample true).hunks old_text new_text)
unfolding sample split_lines common same
not_touched = (inr (omega arith), tt)

map_span-Untouched_example :
    (mapped : Span) × (map_span
        (sample true)
        old_text
        new_text
        (span_of_lines (sample true).lines old_text 1 2)
      ≡ some mapped)
map_span-Untouched_example =
    map_span-Untouched (sample true) (sample-IsLawful true) old_text new_text 1 2 (omega arith)
      (omega arith) two_lines not_touched

commit_one : commit_at (sample true) 1 ≡ ok 1
unfolding commit_at sample
commit_one = refl

traced_line : diff_trace_onto (sample true) sample_anchor 12 ≡ ok (traced file_path line_span ∷ [])
unfolding diff_trace_onto sample commit_at git_anchor.Oracle.blob_at same
    git_anchor.Oracle.trace_blob is_unchanged git_anchor.Oracle.follow destination
    git_anchor.Anchor.read_blob map_span git_anchor.Lines.span_to_lines git_anchor.Lines.position
    line_boundaries git_anchor.Lines.push_boundaries split_lines git_anchor.Lines.rposition
    git_anchor.Lines.lines_to_span git_anchor.Oracle.map_line git_anchor.Oracle.place_lines
    git_anchor.Oracle.shift_loop git_anchor.Tests.Sample.common
traced_line = refl

diff_trace_onto-NoneOrPlace_example :
    NoneOrPlace
      (sample true)
      file_path
      (sample_file true).tree
      12
      (some (anchored_text (sample true).lines old_text (some line_two)))
      (traced file_path line_span ∷ [])
diff_trace_onto-NoneOrPlace_example =
    diff_trace_onto-NoneOrPlace (sample true) (sample-IsLawful true) 1 file_path old_text
      (some line_two) sample_anchor (sample_is true) (sample_file true) 12
      (traced file_path line_span ∷ []) commit_one traced_line

not_touched_here :
    All
      (Untouched (sample_is true).whole_lines.from (sample_is true).whole_lines.to)
      ((sample true).hunks old_text new_text)
unfolding sample sample_is sample_lines split_lines common same
not_touched_here = (inr (omega arith), tt)

diff_trace_onto_moved_example :
    (mapped : Span) × (diff_trace_onto (sample true) sample_anchor 12
      ≡ ok (traced file_path mapped ∷ []))
diff_trace_onto_moved_example =
    diff_trace_onto_moved (sample true) (sample-IsLawful true) 1 file_path old_text (some line_two)
      sample_anchor (sample_is true) (sample_file true) 12 (some (file_entry 22))
      (modification file_path 22 10 ∷ []) file_path new_text 22 commit_one (unfold sample in refl)
      (unfold sample same in refl) (unfold sample sample_file is_unchanged in refl)
      (unfold sample in refl)
      ([], modification file_path 22 10, [], refl, tt, modified {mode = 10} (unfold sample in refl))
      (unfold sample in refl) (omega arith) not_touched_here

boundary_two : get_elem? (line_boundaries (sample true).lines new_text) 1 ≡ some 2
unfolding line_boundaries git_anchor.Lines.push_boundaries sample split_lines
boundary_two = refl

search_content_recovers_example :
    (c : Candidate) × In c
      (search_content (sample true) sample_anchor minhash_shingle_v2 sample_print.value new_text)
    × (is_exact c.confidence ≡ true)
    × (c.span ≡ some (record { start = 2; end = 2 + width sample_anchor }))
search_content_recovers_example =
    search_content_recovers (sample true) sample_anchor sample_print.value new_text (codes "b\n") 1
      2 print_value (omega arith) (omega arith) boundary_two refl
