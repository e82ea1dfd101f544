-- ===== src/Anchor/Capture.antt =====
-- `capture` and `capture_worktree` of crates/git-anchor/src/anchor.rs: what an anchor records.
use git_anchor.Base.{
  ℕ, ◌-◌, ◌≤◌, ◌≡◌, refl, ap, ◌∙◌, ◌⊎◌, true, false, Option, none, some, List, [], ◌∷◌, length,
  take, take_all, subst, arith, inl, inr, Bool-cases,
}
use git_anchor.Base.Text.{Bytes, codes}
use git_anchor.Base.Words.{u64_max}
use git_anchor.Base.Result.{ok, err, map_err, ok_or, ◌>>=◌, bind-eq-ok}
use git_anchor.Error.{Res, object, missing_path, lines_out_of_range}
use git_anchor.Lines.{LineRange, Span, whole, slice}
use git_anchor.Lines.Spans.{
  WholeLines, whole-WholeLines, byte_span_of-WholeLines, lines_between, slice-byte_span_of,
  byte_span_of_lem, in_range, span_of_lines,
}
use git_anchor.Fingerprint.{
  Fingerprint, minhash_shingle, minhash_shingle_v2, shingle_len, num_hashes, capture_fingerprint,
}
use git_anchor.Fingerprint.Slots.{minhash_shingle_total}
use git_anchor.Repository.{Repository, Entry, IsLawful, Worktree}
use git_anchor.Anchor.{
  Anchor, AnchorHints, hints_for, only_blob, resolve_commit, read_blob, span_for, capture,
  write_and_build, read_and_build, at_head, in_workdir, capture_worktree,
}

-- The text that a capture of `range` anchors.
abbrev pub anchored_text : (Bytes → List Bytes) → Bytes → Option LineRange → Bytes
anchored_text lines content none = content
anchored_text lines content (some range) = lines_between lines content (range.start - 1) range.end

-- One current fingerprint of the text, and no descriptors.
pub record HasHints (hints : AnchorHints) (text : Bytes) : Type 0 where
  pub print : Fingerprint
  pub prints : hints.fingerprints ≡ print ∷ []
  pub algo : print.algo ≡ minhash_shingle_v2
  pub value : minhash_shingle text shingle_len num_hashes ≡ some print.value
  pub descriptors : hints.descriptors ≡ []

pub record IsAnchorOf (repo : Repository) (commit : ℕ) (path content : Bytes)
    (range : Option LineRange) (a : Anchor) : Type 0 where
  pub genesis : a.identity.genesis_rev ≡ commit
  pub path_is : a.identity.path ≡ path
  pub text : slice a.identity.span content ≡ some (anchored_text repo.lines content range)
  pub whole_lines : WholeLines repo.lines content a.identity.span
  pub hints : HasHints a.hints (anchored_text repo.lines content range)

-- `content` is the file at `path` in the tree of `commit`.
pub record FileAt (repo : Repository) (commit : ℕ) (path content : Bytes) : Type 0 where
  pub tree : ℕ
  pub entry : Entry
  pub tree_is : repo.commit_tree commit ≡ ok tree
  pub entry_is : repo.lookup_entry_by_path tree path ≡ ok (some entry)
  pub blob : repo.is_blob entry.mode ≡ true
  pub content_is : repo.find_blob entry.id ≡ ok content

hints_for-slice :
    (content : Bytes) (span : Span) (text : Bytes)
    → slice span content ≡ some text
    → (hints : AnchorHints) × (hints_for content span ≡ ok hints) × HasHints hints text
unfolding hints_for capture_fingerprint
hints_for-slice content span text e =
    let (value, made, _) = minhash_shingle_total text shingle_len num_hashes (omega arith) in
    let print : Fingerprint = record {
      algo = minhash_shingle_v2;
      params =
          record { key = codes "k"; value = codes "4" }
          ∷ record { key = codes "hashes"; value = codes "16" }
          ∷ [];
      value = value;
    } in
    (
      record { fingerprints = print ∷ []; descriptors = [] },
      ground arith,
      record { print = print; prints = refl; algo = refl; value = made; descriptors = refl },
    )

slice-whole : (content : Bytes) → slice (whole (length content)) content ≡ some content
unfolding slice whole
slice-whole content = ground (
  arith,
  ap (λ (n : ℕ). take n content) {x = length content - 0} {y = length content} (omega arith),
  take_all (length content) content (omega arith),
)

module _ (repo : Repository) (law : IsLawful repo) where
  span_for-text :
      (content path : Bytes) (range : Option LineRange) (span : Span)
      → length content ≤ u64_max
      → span_for repo content path range ≡ ok span
      → slice span content ≡ some (anchored_text repo.lines content range)
  unfolding span_for
  span_for-text content path none span h e =
      let e' : whole (length content) ≡ span = cc in
      subst (λ (s : Span). slice s content ≡ some content) e' (slice-whole content)
  span_for-text content path (some range) span h e =
      slice-byte_span_of repo.lines law.splits content path range span h e

  span_for-WholeLines :
      (content path : Bytes) (range : Option LineRange) (span : Span)
      → length content ≤ u64_max
      → span_for repo content path range ≡ ok span
      → WholeLines repo.lines content span
  unfolding span_for
  span_for-WholeLines content path none span h e =
      let e' : whole (length content) ≡ span = cc in
      subst (λ (s : Span). WholeLines repo.lines content s) e'
        (whole-WholeLines repo.lines law.splits content)
  span_for-WholeLines content path (some range) span h e =
      byte_span_of-WholeLines repo.lines law.splits content path range span h e

  -- What the two capture functions end with.
  build : ℕ → Bytes → Span → Bytes → Res Anchor
  build commit path span content = do
    hints ← hints_for content span
    ok (record {
      identity = record { genesis_rev = commit; path = path; span = span };
      hints = hints;
    })

  build-IsAnchorOf :
      (commit : ℕ) (path content : Bytes) (range : Option LineRange) (span : Span) (a : Anchor)
      → length content ≤ u64_max
      → span_for repo content path range ≡ ok span
      → build commit path span content ≡ ok a
      → IsAnchorOf repo commit path content range a
  unfolding build
  build-IsAnchorOf commit path content range span a h s e =
      let text = span_for-text content path range span h s in
      let (hints, made, has) =
        hints_for-slice content span (anchored_text repo.lines content range) text in
      let b : Anchor = record {
        identity = record { genesis_rev = commit; path = path; span = span };
        hints = hints;
      } in
      let e' : b ≡ a = cc in
      subst (λ (x : Anchor). IsAnchorOf repo commit path content range x) e'
        (record {
          genesis = refl;
          path_is = refl;
          text = text;
          whole_lines = span_for-WholeLines content path range span h s;
          hints = has;
        })

  -- A captured anchor records the commit that the revision names, the path, a span that cuts out
  -- exactly the asked-for lines of the file there, and one fingerprint of those lines.
  pub capture-IsAnchorOf :
      (revision path : Bytes) (range : Option LineRange) (a : Anchor)
      → capture repo revision path range ≡ ok a
      → (commit : ℕ) × (content : Bytes) × (resolve_commit repo revision ≡ ok commit)
        × FileAt repo commit path content
        × IsAnchorOf repo commit path content range a
  unfolding capture
  capture-IsAnchorOf revision path range a e =
      let (commit, rev, e1) = bind-eq-ok (resolve_commit repo revision) _ e in
      let (tree, t, e2) = bind-eq-ok (map_err object (repo.commit_tree commit)) _ e1 in
      let (found, f, e3) = bind-eq-ok (map_err object (repo.lookup_entry_by_path tree path)) _ e2 in
      let (entry, b, e4) =
        bind-eq-ok (ok_or (only_blob repo.is_blob found) (missing_path commit path)) _ e3 in
      let (content, c, e5) = bind-eq-ok (read_blob repo entry.id) _ e4 in
      let (span, s, e6) = bind-eq-ok (span_for repo content path range) _ e5 in
      let content_is : repo.find_blob entry.id ≡ ok content = unfold read_blob in ground arith in
      let size : length content ≤ u64_max = law.blob_size entry.id content content_is in
      (
        commit,
        content,
        rev,
        record {
          tree = tree;
          entry = entry;
          tree_is = ground arith;
          entry_is = ground arith;
          blob = ground arith;
          content_is = content_is;
        },
        build-IsAnchorOf commit path content range span a size s (unfold build in e6),
      )

  build_total :
      (commit : ℕ) (path content : Bytes) (range : Option LineRange) (span : Span)
      → length content ≤ u64_max
      → span_for repo content path range ≡ ok span
      → (a : Anchor) × (build commit path span content ≡ ok a)
  unfolding build
  build_total commit path content range span h s =
      let text = span_for-text content path range span h s in
      let (hints, made, has) =
        hints_for-slice content span (anchored_text repo.lines content range) text in
      (
        record {
          identity = record { genesis_rev = commit; path = path; span = span };
          hints = hints;
        },
        rw made,
      )

  capture-FileAt :
      (revision path : Bytes) (range : Option LineRange) (commit : ℕ) (content : Bytes)
      → resolve_commit repo revision ≡ ok commit
      → FileAt repo commit path content
      → capture repo revision path range
        ≡ (span_for repo content path range >>= λ span. build commit path span content)
  unfolding capture read_blob build
  capture-FileAt revision path range commit content r file =
      simp (r, file.tree_is, file.entry_is, file.blob, file.content_is)

  -- On a file of the commit that the revision names, a capture of lines that fit succeeds; lines that do not fit are the error that names
  -- the path, the range and the number of lines.
  pub capture_lines :
      (revision path : Bytes) (range : LineRange) (commit : ℕ) (content : Bytes)
      → resolve_commit repo revision ≡ ok commit
      → FileAt repo commit path content
      → ((in_range range (length (repo.lines content)) ≡ true)
          × ((a : Anchor) × (capture repo revision path (some range) ≡ ok a)))
        ⊎ ((in_range range (length (repo.lines content)) ≡ false)
            × (capture repo revision path (some range)
                ≡ err
                    (lines_out_of_range path range.start range.end (length (repo.lines content)))))
  capture_lines revision path range commit content r file =
      let size : length content ≤ u64_max = law.blob_size file.entry.id content file.content_is in
      let spanned = byte_span_of_lem repo.lines law.splits content path range size in
      elim (Bool-cases (in_range range (length (repo.lines content)))) [
        | inl v ↦
            let s : span_for repo content path (some range)
                ≡ ok (span_of_lines repo.lines content (range.start - 1) range.end) =
              unfold span_for in ground arith in
            let (a, made) = build_total commit path content (some range) _ size s in
            inl
              (v, (a, capture-FileAt revision path (some range) commit content r file ∙ rw s made))
        | inr v ↦
            let s : span_for repo content path (some range)
                ≡ err
                    (lines_out_of_range path range.start range.end (length (repo.lines content))) =
              unfold span_for in ground arith in
            inr (v, capture-FileAt revision path (some range) commit content r file ∙ rw s)
      ]

  -- A path that is absent from the commit's tree, or is no blob there, is `MissingPath`.
  pub capture_missing :
      (revision path : Bytes) (range : Option LineRange) (commit tree : ℕ) (found : Option Entry)
      → resolve_commit repo revision ≡ ok commit
      → repo.commit_tree commit ≡ ok tree
      → repo.lookup_entry_by_path tree path ≡ ok found
      → only_blob repo.is_blob found ≡ none
      → capture repo revision path range ≡ err (missing_path commit path)
  unfolding capture
  capture_missing revision path range commit tree found r t f b = rw (r, t, f, b)

  -- A file of the working tree fits in memory.
  abbrev pub ReadsFit : Bytes → Type 0
  ReadsFit path =
      (dir : Worktree) (content : Bytes)
      → repo.workdir ≡ some dir
      → dir.read path ≡ some content
      → length content ≤ u64_max

  write_and_build-IsAnchorOf :
      (commit : ℕ) (path content : Bytes) (range : Option LineRange) (s : Res Span) (a : Anchor)
      → length content ≤ u64_max
      → span_for repo content path range ≡ s
      → (write_and_build repo commit path content s).1 ≡ ok a
      → ((write_and_build repo commit path content s).0 ≡ content ∷ [])
        × IsAnchorOf repo commit path content range a
  unfolding write_and_build
  write_and_build-IsAnchorOf commit path content range (err x) a h s e = absurd (cc)
  write_and_build-IsAnchorOf commit path content range (ok span) a h s e =
      let (written, _, e') = bind-eq-ok (map_err object (repo.write_blob content)) _ e in
      (refl, build-IsAnchorOf commit path content range span a h s (unfold build in e'))

  read_and_build-IsAnchorOf :
      (commit : ℕ) (path : Bytes) (range : Option LineRange) (o : Option Bytes) (a : Anchor)
      → ((content : Bytes) → o ≡ some content → length content ≤ u64_max)
      → (read_and_build repo commit path range o).1 ≡ ok a
      → (content : Bytes) × (o ≡ some content)
        × ((read_and_build repo commit path range o).0 ≡ content ∷ [])
        × IsAnchorOf repo commit path content range a
  unfolding read_and_build
  read_and_build-IsAnchorOf commit path range none a h e = absurd (cc)
  read_and_build-IsAnchorOf commit path range (some content) a h e =
      let (w, is) =
        write_and_build-IsAnchorOf commit path content range (span_for repo content path range) a
          (h content refl) refl e in
      (content, refl, w, is)

  at_head-IsAnchorOf :
      (dir : Worktree) (path : Bytes) (range : Option LineRange) (r : Res ℕ) (a : Anchor)
      → ((content : Bytes) → dir.read path ≡ some content → length content ≤ u64_max)
      → (at_head repo dir path range r).1 ≡ ok a
      → (commit : ℕ) × (content : Bytes) × (r ≡ ok commit)
        × (dir.is_file path ≡ true)
        × (dir.read path ≡ some content)
        × ((at_head repo dir path range r).0 ≡ content ∷ [])
        × IsAnchorOf repo commit path content range a
  unfolding at_head
  at_head-IsAnchorOf dir path range (err x) a h e = absurd (cc)
  at_head-IsAnchorOf dir path range (ok commit) a h e = elim (Bool-cases (dir.is_file path)) [
    | inl file ↦
        let (content, o, w, is) =
          read_and_build-IsAnchorOf commit path range (dir.read path) a h (rw file at e) in
        (commit, content, refl, file, o, rw file w, is)
    | inr gone ↦ absurd (cc (rw gone at e))
  ]

  in_workdir-IsAnchorOf :
      (path : Bytes) (range : Option LineRange) (o : Option Worktree) (a : Anchor)
      → ((dir : Worktree) (content : Bytes)
          → o ≡ some dir
          → dir.read path ≡ some content
          → length content ≤ u64_max)
      → (in_workdir repo path range o).1 ≡ ok a
      → (commit : ℕ) × (content : Bytes) × (dir : Worktree) × (resolve_commit repo (codes "HEAD")
          ≡ ok commit)
        × (o ≡ some dir)
        × (dir.is_file path ≡ true)
        × (dir.read path ≡ some content)
        × ((in_workdir repo path range o).0 ≡ content ∷ [])
        × IsAnchorOf repo commit path content range a
  unfolding in_workdir
  in_workdir-IsAnchorOf path range none a h e = absurd (cc)
  in_workdir-IsAnchorOf path range (some dir) a h e =
      let (commit, content, r, file, o, w, is) =
        at_head-IsAnchorOf dir path range (resolve_commit repo (codes "HEAD")) a
          (λ content. h dir content refl) e in
      (commit, content, dir, r, refl, file, o, w, is)

  -- A capture of the working tree records `HEAD` and the file's content on disk, if a read content
  -- fits 64 bits, and has then written exactly that content to the object database.
  pub capture_worktree-IsAnchorOf :
      (path : Bytes) (range : Option LineRange) (a : Anchor)
      → ReadsFit path
      → (capture_worktree repo path range).1 ≡ ok a
      → (commit : ℕ) × (content : Bytes) × (dir : Worktree) × (resolve_commit repo (codes "HEAD")
          ≡ ok commit)
        × (repo.workdir ≡ some dir)
        × (dir.is_file path ≡ true)
        × (dir.read path ≡ some content)
        × ((capture_worktree repo path range).0 ≡ content ∷ [])
        × IsAnchorOf repo commit path content range a
  unfolding capture_worktree
  capture_worktree-IsAnchorOf path range a h = in_workdir-IsAnchorOf path range repo.workdir a h
