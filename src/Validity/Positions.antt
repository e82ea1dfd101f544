-- ===== src/Validity/Positions.antt =====
-- Position bindings of crates/git-anchor/src/binding.rs: a captured anchor, checked against a later
-- revision.
use git_anchor.Base.{
  ℕ, ◌≡◌, ◌<◌, ◌+◌, inl, inr, refl, sym, ap, ◌∙◌, Bool, true, false, ◌||◌, Option, some, List, [],
  ◌∷◌, In, any, get_elem?, arith,
}
use git_anchor.Base.Text.{Bytes, same}
use git_anchor.Base.Result.{ok}
use git_anchor.Lines.{LineRange, get_range, line_boundaries}
use git_anchor.Fingerprint.{Fingerprint, is_exact, minhash_shingle_v1, minhash_shingle_v2}
use git_anchor.Repository.{Repository, IsLawful, Entry}
use git_anchor.Anchor.{Anchor, resolve_commit, commit_at, read_blob}
use git_anchor.Anchor.Capture.{IsAnchorOf, FileAt, anchored_text}
use git_anchor.Oracle.{
  Candidate, diff_trace_onto, diff_trace_oracle, find_known, reference_of, search_content,
  search_target, fingerprint_oracle,
}
use git_anchor.Oracle.Trace.{diff_trace_onto_unchanged}
use git_anchor.Oracle.Match.{width, search_content_recovers}
use git_anchor.Binding.{position}
use git_anchor.Validity.{valid, EvalState, position_validity, revalidate}

any-In :
    (p : Candidate → Bool) (c : Candidate) (cs : List Candidate)
    → In c cs
    → p c ≡ true
    → any p cs ≡ true
any-In p c [] i h = absurd i
any-In p c (d ∷ cs) (inl e) h = let hd : p d ≡ true = ap p (sym e) ∙ h in rw (hd, any) refl
any-In p c (d ∷ cs) (inr i) h = ground (arith, any-In p c cs i h)

find_known_v2 : (f : Fingerprint) → f.algo ≡ minhash_shingle_v2 → find_known (f ∷ []) ≡ some f
unfolding find_known
find_known_v2 f e =
    let hit : (same f.algo minhash_shingle_v1 || same f.algo minhash_shingle_v2) ≡ true =
      rw e (unfold same in refl) in
    rw hit refl

module _ (repo : Repository) (law : IsLawful repo) (commit : ℕ) (path content : Bytes)
    (range : Option LineRange) (anchor : Anchor)
    (is : IsAnchorOf repo commit path content range anchor) where
  -- An anchor captured from a file stays `valid` at every revision that still has the file's blob at
  -- the path, while the anchor's commit is in the repository and peels to itself.
  pub revalidate_unchanged :
      (file : FileAt repo commit path content) (fuel target target_tree : ℕ) (entry : Entry)
      (state : EvalState)
      → commit_at repo commit ≡ ok commit
      → repo.has_object commit ≡ true
      → resolve_commit repo state.at ≡ ok target
      → repo.commit_tree target ≡ ok target_tree
      → repo.lookup_entry_by_path target_tree path ≡ ok (some entry)
      → repo.is_blob entry.mode ≡ true
      → entry.id ≡ file.entry.id
      → revalidate repo fuel (position anchor) state ≡ ok valid
  unfolding revalidate position_validity diff_trace_oracle
  revalidate_unchanged file fuel target target_tree entry state c there r t l b e =
      let onto =
        diff_trace_onto_unchanged repo law commit path content range anchor is file target_tree
          entry c there l b e in
      simp (r, t, onto)

  known : find_known anchor.hints.fingerprints ≡ some is.hints.print
  known = ap find_known is.hints.prints ∙ find_known_v2 is.hints.print is.hints.algo

  -- Once the anchor's commit is gone, a captured anchor whose text, not empty, stands at a line
  -- boundary of the file at its path is `valid`.
  pub revalidate_recovered :
      (fuel target target_tree i start : ℕ) (entry : Entry) (new : Bytes) (state : EvalState)
      → repo.has_object commit ≡ false
      → resolve_commit repo state.at ≡ ok target
      → repo.commit_tree target ≡ ok target_tree
      → repo.lookup_entry_by_path target_tree path ≡ ok (some entry)
      → repo.is_blob entry.mode ≡ true
      → repo.find_blob entry.id ≡ ok new
      → 0 < width anchor
      → get_elem? (line_boundaries repo.lines new) i ≡ some start
      → get_range new start (start + width anchor) ≡ some (anchored_text repo.lines content range)
      → revalidate repo fuel (position anchor) state ≡ ok valid
  unfolding revalidate position_validity diff_trace_oracle diff_trace_onto fingerprint_oracle
      reference_of search_target read_blob
  revalidate_recovered fuel target target_tree i start entry new state gone r t l b f pos at found =
      let gone' : repo.has_object anchor.identity.genesis_rev ≡ false = rw is.genesis gone in
      let l' : repo.lookup_entry_by_path target_tree anchor.identity.path ≡ ok (some entry) =
        rw is.path_is l in
      let (c, c_in, exact, _) =
        search_content_recovers repo anchor is.hints.print.value new
          (anchored_text repo.lines content range) i start is.hints.value pos
          (law.blob_size entry.id new f) at found in
      let hit : any (λ (d : Candidate). is_exact d.confidence)
            (search_content repo anchor minhash_shingle_v2 is.hints.print.value new)
          ≡ true =
        any-In (λ d. is_exact d.confidence) c
          (search_content repo anchor minhash_shingle_v2 is.hints.print.value new) c_in exact in
      simp (r, t, gone', known, is.hints.algo, l', b, f, hit)
