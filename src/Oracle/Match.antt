-- ===== src/Oracle/Match.antt =====
-- The candidates of the `fingerprint` oracle of crates/git-anchor/src/oracle.rs.
use git_anchor.Base.{
  ℕ, zero, suc, ◌+◌, ◌-◌, ◌≤◌, ◌<◌, ◌≡◌, inl, inr, refl, sym, ap, ◌∙◌, true, false, ◌||◌, some,
  List, [], ◌∷◌, length, All, In, arith, Bool-cases, Option-cases, ltb, leb, ◌==◌, get_elem?,
}
use git_anchor.Base.Text.{Bytes, same}
use git_anchor.Base.Words.{u64_max}
use git_anchor.Lines.{get_range, line_boundaries}
use git_anchor.Fingerprint.{
  is_positive, is_exact, minhash_similarity, minhash_shingle, fingerprint_for, minhash_shingle_v2,
  shingle_len, num_hashes,
}
use git_anchor.Fingerprint.Slots.{minhash_shingle_total}
use git_anchor.Fingerprint.Similarity.{minhash_similarity_self, minhash_similarity_bounds}
use git_anchor.Repository.{Repository}
use git_anchor.Anchor.{Anchor}
use git_anchor.Oracle.{Candidate, fingerprint, score_window, score_windows, search_content}

module _ (path algo reference content : Bytes) (window_len : ℕ) where
  -- A candidate of the search: a window of the anchored width that fits the content, with the score
  -- of its fingerprint, which is positive.
  pub record Matches (c : Candidate) : Type 0 where
    pub start : ℕ
    pub window : Bytes
    pub print : Bytes
    pub oracle_is : c.oracle ≡ fingerprint
    pub path_is : c.path ≡ path
    pub span_is : c.span ≡ some (record { start = start; end = start + window_len })
    pub window_is : get_range content start (start + window_len) ≡ some window
    pub print_is : fingerprint_for algo window ≡ some print
    pub score_is : c.confidence ≡ minhash_similarity print reference
    pub positive : is_positive c.confidence ≡ true

  score_window-Matches :
      (start : ℕ) (c : Candidate)
      → score_window path algo reference content window_len start ≡ some c
      → Matches c
  unfolding score_window
  score_window-Matches start c e = elim (Bool-cases (leb (start + window_len) u64_max)) [
    | inr over ↦ absurd (ground arith)
    | inl fits ↦ elim (Option-cases (get_range content start (start + window_len))) [
      | inl out ↦ absurd (ground arith)
      | inr (window, w) ↦ elim (Option-cases (fingerprint_for algo window)) [
        | inl unknown ↦ absurd (ground arith)
        | inr (print, p) ↦ record {
          start = start;
          window = window;
          print = print;
          oracle_is = ground arith;
          path_is = ground arith;
          span_is = ground arith;
          window_is = w;
          print_is = p;
          score_is = ground arith;
          positive = ground arith;
        }
      ]
    ]
  ]

  score_windows-All :
      (starts : List ℕ) → All Matches (score_windows path algo reference content window_len starts)
  unfolding score_windows
  score_windows-All [] = tt
  score_windows-All (start ∷ starts) =
      elim (Option-cases (score_window path algo reference content window_len start)) [
        | inl nothing ↦ rw nothing (score_windows-All starts)
        | inr (c, e) ↦ rw e (score_window-Matches start c e, score_windows-All starts)
      ]

  score_windows-In :
      (starts : List ℕ) (i start : ℕ) (c : Candidate)
      → get_elem? starts i ≡ some start
      → score_window path algo reference content window_len start ≡ some c
      → In c (score_windows path algo reference content window_len starts)
  unfolding score_windows
  score_windows-In [] i start c h e = absurd (cc)
  score_windows-In (x ∷ starts) zero start c h e =
      let x_is : x ≡ start = cc in rw (x_is, e) (inl refl)
  score_windows-In (x ∷ starts) (suc i) start c h e =
      elim (Option-cases (score_window path algo reference content window_len x)) [
        | inl nothing ↦ rw nothing (score_windows-In starts i start c h e)
        | inr (d, f) ↦ rw f (inr (score_windows-In starts i start c h e))
      ]

abbrev pub width : Anchor → ℕ
width anchor = anchor.identity.span.end - anchor.identity.span.start

-- Every candidate that the search of a content reports is a window of the anchored width inside that
-- content, at the anchor's path, with the positive score of the window's own fingerprint.
pub search_content-Matches :
    (repo : Repository) (anchor : Anchor) (algo reference content : Bytes)
    → All
        (Matches anchor.identity.path algo reference content (width anchor))
        (search_content repo anchor algo reference content)
unfolding search_content
search_content-Matches repo anchor algo reference content =
    elim (Bool-cases (width anchor == 0 || ltb (length content) (width anchor))) [
      | inl no_room ↦ rw no_room tt
      | inr room ↦ rw room (
          score_windows-All anchor.identity.path algo reference content (width anchor)
            (line_boundaries repo.lines content))
    ]

-- A current fingerprint of a text, taken of the same text again, scores 1.
fingerprint_for_v2 :
    (text : Bytes)
    → fingerprint_for minhash_shingle_v2 text ≡ minhash_shingle text shingle_len num_hashes
unfolding fingerprint_for same
fingerprint_for_v2 text = refl

exact_self :
    (text reference : Bytes)
    → minhash_shingle text shingle_len num_hashes ≡ some reference
    → (is_exact (minhash_similarity reference reference) ≡ true)
      × (is_positive (minhash_similarity reference reference) ≡ true)
exact_self text reference e =
    let (v, made, size) = minhash_shingle_total text shingle_len num_hashes (omega arith) in
    let v_is : v ≡ reference = cc in
    let size' : length reference ≡ 128 = ap (λ (t : Bytes). length t) (sym v_is) ∙ size in
    let exact = minhash_similarity_self reference (omega arith) (omega arith) in
    let (_, pos) = minhash_similarity_bounds reference reference in (exact, ground arith)

score_window-eq :
    (path algo reference content window print : Bytes) (n start : ℕ)
    → start + n ≤ u64_max
    → get_range content start (start + n) ≡ some window
    → fingerprint_for algo window ≡ some print
    → is_positive (minhash_similarity print reference) ≡ true
    → score_window path algo reference content n start
      ≡ some (record {
        oracle = fingerprint;
        confidence = minhash_similarity print reference;
        path = path;
        span = some (record { start = start; end = start + n });
      })
unfolding score_window
score_window-eq path algo reference content window print n start h w p s = ground arith

window_content :
    (content text : Bytes) (start n : ℕ)
    → get_range content start (start + n) ≡ some text
    → start + n ≤ length content
window_content content text start n e = ground arith

-- Where the anchored text, not empty, stands again at a line boundary of the target, with the anchor's
-- current fingerprint for reference, the search reports that place with a score of 1.
pub search_content_recovers :
    (repo : Repository) (anchor : Anchor) (reference content text : Bytes) (i start : ℕ)
    → minhash_shingle text shingle_len num_hashes ≡ some reference
    → 0 < width anchor
    → length content ≤ u64_max
    → get_elem? (line_boundaries repo.lines content) i ≡ some start
    → get_range content start (start + width anchor) ≡ some text
    → (c : Candidate) × In c (search_content repo anchor minhash_shingle_v2 reference content)
      × (is_exact c.confidence ≡ true)
      × (c.span ≡ some (record { start = start; end = start + width anchor }))
unfolding search_content
search_content_recovers repo anchor reference content text i start e pos size at found =
    let (exact, positive) = exact_self text reference e in
    let c : Candidate = record {
      oracle = fingerprint;
      confidence = minhash_similarity reference reference;
      path = anchor.identity.path;
      span = some (record { start = start; end = start + width anchor });
    } in
    let fits = window_content content text start (width anchor) found in
    let print : fingerprint_for minhash_shingle_v2 text ≡ some reference =
      fingerprint_for_v2 text ∙ e in
    let scored : score_window anchor.identity.path minhash_shingle_v2 reference content
          (width anchor) start
        ≡ some c =
      score_window-eq anchor.identity.path minhash_shingle_v2 reference content text reference
        (width anchor) start (omega arith) found print positive in
    let room : (width anchor == 0 || ltb (length content) (width anchor)) ≡ false = ground arith in
    (
      c,
      rw room (
          score_windows-In anchor.identity.path minhash_shingle_v2 reference content (width anchor)
            (line_boundaries repo.lines content) i start c at scored),
      exact,
      refl,
    )
