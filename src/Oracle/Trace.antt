-- ===== src/Oracle/Trace.antt =====
-- The candidates of `diff_trace` of crates/git-anchor/src/oracle.rs.
use git_anchor.Base.{
  ℕ, ◌≤◌, ◌≡◌, ◌⊎◌, inl, inr, refl, sym, ◌∙◌, subst, true, false, Option, none, some, List, [], ◌∷◌,
  length, arith, Bool-cases, Option-cases, ◌==◌, ==_iff, ==_refl, ◌+◌, All,
}
use git_anchor.Base.Text.{Bytes}
use git_anchor.Base.Words.{u64_max}
use git_anchor.Base.Result.{ok, map_err, bind-eq-ok, Result-cases}
use git_anchor.Error.{object, diff}
use git_anchor.Lines.{LineRange, Span, slice}
use git_anchor.Lines.Spans.{WholeLines, slice-span_of_lines}
use git_anchor.Repository.{Repository, IsLawful, Entry, Change}
use git_anchor.Anchor.Capture.{IsAnchorOf, FileAt, anchored_text}
use git_anchor.Anchor.{Anchor, commit_at, read_blob}
use git_anchor.Oracle.{
  Candidate, traced, Destination, nowhere, at_path, map_span, destination, blob_at, is_unchanged,
  follow, trace_blob, diff_trace_onto,
}
use git_anchor.Oracle.Moves.{LeadsTo, destination_iff}
use git_anchor.Oracle.MapSpan.{map_span-span_of_lines}
use git_anchor.Oracle.Untouched.{Untouched, map_span-Untouched}

-- The path and the blob are what the target tree has of the file at `origin`: its own entry there, or
-- where the first change of the two trees that is about the file takes it, by a modification or a rename.
abbrev pub IsTarget : Repository → Bytes → ℕ → ℕ → Bytes → ℕ → Type 0
IsTarget repo origin anchor_tree target_tree path blob =
    ((path ≡ origin)
      × ((e : Entry) × (repo.lookup_entry_by_path target_tree origin ≡ ok (some e))
          × (repo.is_blob e.mode ≡ true)
          × (e.id ≡ blob)))
    ⊎ ((changes : List Change) × (repo.diff_tree_to_tree anchor_tree target_tree ≡ ok changes)
        × LeadsTo repo origin changes path blob)

-- One candidate of full confidence, at a blob of the target that can be read, whose span cuts `text`
-- out of it.
pub record Place (repo : Repository) (origin : Bytes) (anchor_tree target_tree : ℕ)
    (text : Option Bytes) (cs : List Candidate) : Type 0 where
  pub path : Bytes
  pub span : Span
  pub blob : ℕ
  pub content : Bytes
  pub one : cs ≡ traced path span ∷ []
  pub target_is : IsTarget repo origin anchor_tree target_tree path blob
  pub content_is : repo.find_blob blob ≡ ok content
  pub text_is : slice span content ≡ text

abbrev pub NoneOrPlace : Repository → Bytes → ℕ → ℕ → Option Bytes → List Candidate → Type 0
NoneOrPlace repo origin anchor_tree target_tree text cs =
    (cs ≡ []) ⊎ Place repo origin anchor_tree target_tree text cs

is_unchanged_entry :
    (repo : Repository) (found : Option Entry) (blob : ℕ)
    → is_unchanged repo found blob ≡ true
    → (e : Entry) × (found ≡ some e) × (repo.is_blob e.mode ≡ true) × (e.id ≡ blob)
unfolding is_unchanged
is_unchanged_entry repo none blob h = absurd (cc)
is_unchanged_entry repo (some e) blob h = (e, refl, ground arith, ground (arith, ==_iff e.id blob))

module _ (repo : Repository) (law : IsLawful repo) (anchor : Anchor) (old : Bytes) (anchor_blob : ℕ)
    (old_is : repo.find_blob anchor_blob ≡ ok old)
    (whole : WholeLines repo.lines old anchor.identity.span) (anchor_tree target_tree : ℕ) where
  abbrev text : Option Bytes
  text = slice anchor.identity.span old

  same_blob :
      (path : Bytes) (blob : ℕ)
      → blob ≡ anchor_blob
      → IsTarget repo anchor.identity.path anchor_tree target_tree path blob
      → Place repo anchor.identity.path anchor_tree target_tree text
          (traced path anchor.identity.span ∷ [])
  same_blob path blob e target = record {
    path = path;
    span = anchor.identity.span;
    blob = blob;
    content = old;
    one = refl;
    target_is = target;
    content_is = rw e old_is;
    text_is = refl;
  }

  mapped-Place :
      (path new : Bytes) (blob : ℕ) (mapped : Span)
      → repo.find_blob blob ≡ ok new
      → map_span repo old new anchor.identity.span ≡ some mapped
      → IsTarget repo anchor.identity.path anchor_tree target_tree path blob
      → Place repo anchor.identity.path anchor_tree target_tree text (traced path mapped ∷ [])
  mapped-Place path new blob mapped h e target = record {
    path = path;
    span = mapped;
    blob = blob;
    content = new;
    one = refl;
    target_is = target;
    content_is = h;
    text_is = rw (whole.span_is) (
        map_span-span_of_lines repo law old new whole.from whole.to mapped
          (law.blob_size anchor_blob old old_is) (law.blob_size blob new h) whole.from-le
          whole.to-le (rw whole.span_is at e)
        ∙ sym (slice-span_of_lines repo.lines law.splits old whole.from whole.to whole.from-le));
  }

  follow-NoneOrPlace :
      (changes : List Change) (d : Destination) (cs : List Candidate)
      → repo.diff_tree_to_tree anchor_tree target_tree ≡ ok changes
      → destination repo anchor.identity.path changes ≡ d
      → follow repo anchor anchor_blob d ≡ ok cs
      → NoneOrPlace repo anchor.identity.path anchor_tree target_tree text cs
  unfolding follow read_blob
  follow-NoneOrPlace changes nowhere cs d t e = inl (ground arith)
  follow-NoneOrPlace changes (at_path path blob false) cs d t e = inl (ground arith)
  follow-NoneOrPlace changes (at_path path blob true) cs d t e =
      let moves = (destination_iff repo anchor.identity.path changes path blob).0 t in
      elim (Bool-cases (blob == anchor_blob)) [
        | inl eq ↦
            let out : cs ≡ traced path anchor.identity.span ∷ [] = ground arith in
            inr (
              rw out
                (same_blob path blob ((==_iff blob anchor_blob).0 eq) (inr (changes, d, moves))))
        | inr ne ↦ elim (Result-cases (repo.find_blob blob)) [
          | inr (x, gone) ↦ absurd (ground arith)
          | inl (new, h) ↦ elim (Option-cases (map_span repo old new anchor.identity.span)) [
            | inl edited ↦ inl (ground arith)
            | inr (mapped, m) ↦
                let out : cs ≡ traced path mapped ∷ [] = ground arith in
                inr (rw out (mapped-Place path new blob mapped h m (inr (changes, d, moves))))
          ]
        ]
      ]

  trace_blob-NoneOrPlace :
      (cs : List Candidate)
      → trace_blob repo anchor anchor_tree target_tree (some anchor_blob) ≡ ok cs
      → NoneOrPlace repo anchor.identity.path anchor_tree target_tree text cs
  unfolding trace_blob
  trace_blob-NoneOrPlace cs e =
      let (found, f, e1) =
        bind-eq-ok (map_err object (repo.lookup_entry_by_path target_tree anchor.identity.path)) _
          e in
      elim (Bool-cases (is_unchanged repo found anchor_blob)) [
        | inl same ↦
            let out : cs ≡ traced anchor.identity.path anchor.identity.span ∷ [] = ground arith in
            let (entry, entry_is, blob, id) = is_unchanged_entry repo found anchor_blob same in
            let there : repo.lookup_entry_by_path target_tree anchor.identity.path
                ≡ ok (some entry) =
              ground arith in
            inr (
              rw out (
                same_blob anchor.identity.path anchor_blob refl
                  (inl (refl, (entry, there, blob, id)))))
        | inr changed ↦
            let (changes, d, e2) =
              bind-eq-ok (map_err diff (repo.diff_tree_to_tree anchor_tree target_tree))
                (λ changes.
                  follow repo anchor anchor_blob (destination repo anchor.identity.path changes))
                (rw changed at e1) in
            let listed : repo.diff_tree_to_tree anchor_tree target_tree ≡ ok changes =
              ground arith in
            follow-NoneOrPlace changes (destination repo anchor.identity.path changes) cs listed
              refl e2
      ]

module _ (repo : Repository) (law : IsLawful repo) (commit : ℕ) (path content : Bytes)
    (range : Option LineRange) (anchor : Anchor)
    (is : IsAnchorOf repo commit path content range anchor)
    (file : FileAt repo commit path content) where
  blob_at-file : blob_at repo file.tree anchor.identity.path ≡ ok (some file.entry.id)
  unfolding blob_at
  blob_at-file = rw (is.path_is, file.entry_is, file.blob)

  diff_trace_onto-there :
      (target_tree : ℕ)
      → commit_at repo commit ≡ ok commit
      → repo.has_object anchor.identity.genesis_rev ≡ true
      → diff_trace_onto repo anchor target_tree
        ≡ trace_blob repo anchor file.tree target_tree (some file.entry.id)
  unfolding diff_trace_onto
  diff_trace_onto-there target_tree c there =
      let c' : commit_at repo anchor.identity.genesis_rev ≡ ok anchor.identity.genesis_rev =
        rw is.genesis c in
      let t : repo.commit_tree anchor.identity.genesis_rev ≡ ok file.tree =
        rw is.genesis file.tree_is in
      simp (there, c', t, blob_at-file)

  -- For an anchor captured from a file of a commit whose id peels to itself, an answer of `diff_trace`
  -- is no candidate, or exactly one, of confidence 1: at the blob that the target tree has at the path, or
  -- that the first change of the trees which is about the file modifies or renames it to, which is read,
  -- and whose bytes under the span are the anchored text.
  pub diff_trace_onto-NoneOrPlace :
      (target_tree : ℕ) (cs : List Candidate)
      → commit_at repo commit ≡ ok commit
      → diff_trace_onto repo anchor target_tree ≡ ok cs
      → NoneOrPlace repo anchor.identity.path file.tree target_tree
          (some (anchored_text repo.lines content range))
          cs
  unfolding diff_trace_onto
  diff_trace_onto-NoneOrPlace target_tree cs c e =
      elim (Bool-cases (repo.has_object anchor.identity.genesis_rev)) [
        | inr gone ↦ inl (ground arith)
        | inl there ↦
            let e' : trace_blob repo anchor file.tree target_tree (some file.entry.id) ≡ ok cs =
              sym (diff_trace_onto-there target_tree c there) ∙ e in
            subst (λ t. NoneOrPlace repo anchor.identity.path file.tree target_tree t cs) is.text
              (trace_blob-NoneOrPlace repo law anchor content file.entry.id file.content_is
                is.whole_lines file.tree target_tree cs e')
      ]

  -- For a captured anchor whose commit is in the repository and peels to itself: where the target tree
  -- still has the same blob at the path, the answer is the anchor's own path and span.
  pub diff_trace_onto_unchanged :
      (target_tree : ℕ) (entry : Entry)
      → commit_at repo commit ≡ ok commit
      → repo.has_object commit ≡ true
      → repo.lookup_entry_by_path target_tree path ≡ ok (some entry)
      → repo.is_blob entry.mode ≡ true
      → entry.id ≡ file.entry.id
      → diff_trace_onto repo anchor target_tree ≡ ok (traced path anchor.identity.span ∷ [])
  diff_trace_onto_unchanged target_tree entry c there l b same =
      let there' : repo.has_object anchor.identity.genesis_rev ≡ true = rw is.genesis there in
      let l' : repo.lookup_entry_by_path target_tree anchor.identity.path ≡ ok (some entry) =
        rw is.path_is l in
      diff_trace_onto-there target_tree c there'
      ∙ (unfold trace_blob is_unchanged in rw (l', b, same, ==_refl, is.path_is))

  -- For a captured anchor whose commit is in the repository and peels to itself: where the target tree
  -- does not have the same blob at the path, the first change of the trees which is about the file modifies
  -- it or renames it to a blob, the two contents together fit 64 bits and no hunk touches the anchored
  -- lines, exactly one candidate is reported, at the path that the change takes it to.
  pub diff_trace_onto_moved :
      (target_tree : ℕ) (found : Option Entry) (changes : List Change) (path' new : Bytes)
      (blob : ℕ)
      → commit_at repo commit ≡ ok commit
      → repo.has_object commit ≡ true
      → repo.lookup_entry_by_path target_tree path ≡ ok found
      → is_unchanged repo found file.entry.id ≡ false
      → repo.diff_tree_to_tree file.tree target_tree ≡ ok changes
      → LeadsTo repo path changes path' blob
      → repo.find_blob blob ≡ ok new
      → length content + length new ≤ u64_max
      → All (Untouched is.whole_lines.from is.whole_lines.to) (repo.hunks content new)
      → (mapped : Span) × (diff_trace_onto repo anchor target_tree ≡ ok (traced path' mapped ∷ []))
  diff_trace_onto_moved target_tree found changes path' new blob c there l u d at n size un =
      let there' : repo.has_object anchor.identity.genesis_rev ≡ true = rw is.genesis there in
      let l' : repo.lookup_entry_by_path target_tree anchor.identity.path ≡ ok found =
        rw is.path_is l in
      let at' : destination repo anchor.identity.path changes ≡ at_path path' blob true =
        rw is.path_is ((destination_iff repo path changes path' blob).1 at) in
      elim (Bool-cases (blob == file.entry.id)) [
        | inl eq ↦ (
          anchor.identity.span,
          diff_trace_onto-there target_tree c there'
              ∙ (unfold trace_blob follow in simp (l', u, d, at', eq)),
        )
        | inr ne ↦
            let (mapped, m) =
              map_span-Untouched repo law content new is.whole_lines.from is.whole_lines.to size
                is.whole_lines.from-le is.whole_lines.to-le un in
            let m' : map_span repo content new anchor.identity.span ≡ some mapped =
              rw is.whole_lines.span_is m in
            (
              mapped,
              diff_trace_onto-there target_tree c there'
                  ∙ (unfold trace_blob follow read_blob in
                      simp (l', u, d, at', ne, file.content_is, n, m')),
            )
      ]
