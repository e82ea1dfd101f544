-- ===== src/Lines/Spans.antt =====
-- Line ranges and byte spans: byte_span_of, span_to_lines and lines_to_span of
-- crates/git-anchor/src/util.rs.
use git_anchor.Base.{
  ℕ, ◌+◌, ◌-◌, ◌≤◌, ◌≡◌, refl, sym, ap, ◌∙◌, Bool, ◌&&◌, true, false, some, List, ◌∷◌, length,
  get_elem?, concat, take, drop, take_all, leb, if◌then◌else◌, arith, Bool-cases, inl, inr,
}
use native.Mathlib.Decide.{dec_lt}
use git_anchor.Base.Text.{Bytes}
use git_anchor.Base.Words.{u64_max}
use git_anchor.Base.Result.{ok, err}
use git_anchor.Error.{lines_out_of_range}
use git_anchor.Lines.{
  LineRange, Span, whole, slice, SplitsLines, push_boundaries, position, rposition, line_boundaries,
  byte_span_of, span_to_lines, lines_to_span,
}
use git_anchor.Lines.Boundaries.{
  offset_of, Fits, length-push_boundaries, get_elem?-boundaries, rposition_at, position_at,
  offset_of-le, offset_of-lt, offset_of-le_length, take-drop-offset_of,
}

-- The 1-based inclusive range lies in a text of `n` lines; `start == end + 1` names no line.
abbrev pub in_range : LineRange → ℕ → Bool
in_range range n = leb 1 range.start && (leb range.start (range.end + 1) && leb range.end n)

module _ (lines : Bytes → List Bytes) where
  -- The bytes of lines `from` (0-based) up to `to`, not included.
  abbrev pub lines_between : Bytes → ℕ → ℕ → Bytes
  lines_between bytes from to = concat (take (to - from) (drop from (lines bytes)))

  abbrev pub span_of_lines : Bytes → ℕ → ℕ → Span
  span_of_lines bytes from to = record {
    start = offset_of (lines bytes) from;
    end = offset_of (lines bytes) to;
  }

module _ (lines : Bytes → List Bytes) (split : SplitsLines lines) where
  pub fits : (bytes : Bytes) → length bytes ≤ u64_max → Fits 0 (lines bytes)
  fits bytes h = omega (arith, ap (λ (t : Bytes). length t) (split.joined bytes))

  pub boundary :
      (bytes : Bytes) (i : ℕ)
      → length bytes ≤ u64_max
      → i ≤ length (lines bytes)
      → get_elem? (line_boundaries lines bytes) i ≡ some (offset_of (lines bytes) i)
  unfolding line_boundaries
  boundary bytes i h k =
      get_elem?-boundaries 0 (lines bytes) i (fits bytes h) k ∙ ap some (omega arith)

  pub length-line_boundaries :
      (bytes : Bytes) → length (line_boundaries lines bytes) ≡ length (lines bytes) + 1
  unfolding line_boundaries
  length-line_boundaries bytes = omega (arith, length-push_boundaries 0 (lines bytes))

  byte_span_of-in_range :
      (bytes path : Bytes) (range : LineRange)
      → length bytes ≤ u64_max
      → in_range range (length (lines bytes)) ≡ true
      → byte_span_of lines bytes path range
        ≡ ok (span_of_lines lines bytes (range.start - 1) range.end)
  unfolding byte_span_of
  byte_span_of-in_range bytes path range h v = ground (
    arith,
    length-line_boundaries bytes,
    boundary bytes (range.start - 1) h (ground arith),
    boundary bytes range.end h (ground arith),
  )

  byte_span_of-not_in_range :
      (bytes path : Bytes) (range : LineRange)
      → in_range range (length (lines bytes)) ≡ false
      → byte_span_of lines bytes path range
        ≡ err (lines_out_of_range path range.start range.end (length (lines bytes)))
  unfolding byte_span_of
  byte_span_of-not_in_range bytes path range v = ground (arith, length-line_boundaries bytes)

  -- A line range becomes the span from its first line's offset to the end of its last, exactly when
  -- it lies in the text; any other range is the error that names it and the number of lines.
  pub byte_span_of_lem :
      (bytes path : Bytes) (range : LineRange)
      → length bytes ≤ u64_max
      → byte_span_of lines bytes path range ≡ (
          if in_range range (length (lines bytes))
          then ok (span_of_lines lines bytes (range.start - 1) range.end)
          else err (lines_out_of_range path range.start range.end (length (lines bytes))))
  byte_span_of_lem bytes path range h = elim (Bool-cases (in_range range (length (lines bytes)))) [
    | inl v ↦
        byte_span_of-in_range bytes path range h v
        ∙ ap
            (λ (b : Bool).
              if b
              then ok (span_of_lines lines bytes (range.start - 1) range.end)
              else err (lines_out_of_range path range.start range.end (length (lines bytes))))
            (sym v)
    | inr v ↦
        byte_span_of-not_in_range bytes path range v
        ∙ ap
            (λ (b : Bool).
              if b
              then ok (span_of_lines lines bytes (range.start - 1) range.end)
              else err (lines_out_of_range path range.start range.end (length (lines bytes))))
            (sym v)
  ]

  -- What an accepted range says of its span.
  pub record Accepted (bytes : Bytes) (range : LineRange) (span : Span) : Type 0 where
    pub start_pos : 1 ≤ range.start
    pub start-le : range.start ≤ range.end + 1
    pub end-le : range.end ≤ length (lines bytes)
    pub span_is : span ≡ span_of_lines lines bytes (range.start - 1) range.end

  pub byte_span_of-Accepted :
      (bytes path : Bytes) (range : LineRange) (span : Span)
      → length bytes ≤ u64_max
      → byte_span_of lines bytes path range ≡ ok span
      → Accepted bytes range span
  byte_span_of-Accepted bytes path range span h e =
      elim (Bool-cases (in_range range (length (lines bytes)))) [
        | inl v ↦ record {
          start_pos = ground arith;
          start-le = ground arith;
          end-le = ground arith;
          span_is = cc (byte_span_of-in_range bytes path range h v);
        }
        | inr v ↦ absurd (cc (byte_span_of-not_in_range bytes path range v))
      ]

  span_of_lines-le :
      (bytes : Bytes) (from to : ℕ) → from ≤ to → offset_of (lines bytes) to ≤ length bytes
  span_of_lines-le bytes from to h = omega (
    arith,
    offset_of-le_length (lines bytes) to,
    ap (λ (t : Bytes). length t) (split.joined bytes),
  )

  -- The slice of a span of whole lines is those lines.
  pub slice-span_of_lines :
      (bytes : Bytes) (from to : ℕ)
      → from ≤ to
      → slice (span_of_lines lines bytes from to) bytes ≡ some (lines_between lines bytes from to)
  unfolding slice
  slice-span_of_lines bytes from to h = ground (
    arith,
    offset_of-le (lines bytes) from to h,
    span_of_lines-le bytes from to h,
    ap
        (λ (t : Bytes).
          take (offset_of (lines bytes) to - offset_of (lines bytes) from)
            (drop (offset_of (lines bytes) from) t))
        (split.joined bytes),
    take-drop-offset_of (lines bytes) from (to - from) (offset_of (lines bytes) from)
        (offset_of (lines bytes) to) refl
        (ap (λ (k : ℕ). offset_of (lines bytes) k) {x = to} {y = from + (to - from)} (omega arith)),
  )

  pub span_to_lines-span_of_lines :
      (bytes : Bytes) (from to : ℕ)
      → length bytes ≤ u64_max
      → from ≤ to
      → to ≤ length (lines bytes)
      → span_to_lines lines bytes (span_of_lines lines bytes from to) ≡ (from, to)
  unfolding span_to_lines line_boundaries
  span_to_lines-span_of_lines bytes from to h k m =
      let ls = lines bytes in
      let start_line : rposition (λ b. leb b (offset_of ls from)) (0 ∷ push_boundaries 0 ls)
          ≡ some from =
        rposition_at 0 ls from (offset_of ls from) (fits bytes h) (split.line_ne_nil bytes)
          (omega arith) (omega arith) in
      let end_line : position (λ b. leb (offset_of ls to) b) (0 ∷ push_boundaries 0 ls) ≡ some to =
        position_at 0 ls to (offset_of ls to) (fits bytes h) (split.line_ne_nil bytes) m
          (omega arith) in
      elim (dec_lt from to) [
        | yes lt ↦
            rw (start_line, end_line)
              (ground (arith, offset_of-lt ls from to (split.line_ne_nil bytes) lt m))
        | no ge ↦
            let e : from ≡ to = omega arith in
            rw (start_line, end_line) (ground (arith, offset_of-le ls to from (omega arith)))
      ]

  pub lines_to_span-span_of_lines :
      (bytes : Bytes) (from to : ℕ)
      → length bytes ≤ u64_max
      → from ≤ length (lines bytes)
      → to ≤ length (lines bytes)
      → lines_to_span lines bytes from to ≡ some (span_of_lines lines bytes from to)
  unfolding lines_to_span
  lines_to_span-span_of_lines bytes from to h k m =
      ground (arith, boundary bytes from h k, boundary bytes to h m)

module _ (lines : Bytes → List Bytes) (split : SplitsLines lines) (bytes path : Bytes)
    (range : LineRange) (span : Span) (h : length bytes ≤ u64_max)
    (captured : byte_span_of lines bytes path range ≡ ok span) where
  accepted : Accepted lines split bytes range span
  accepted = byte_span_of-Accepted lines split bytes path range span h captured

  -- A span that `byte_span_of` returns, of bytes that fit 64 bits split into lines as documented, cuts
  -- out exactly the lines of its range.
  pub slice-byte_span_of :
      slice span bytes ≡ some (lines_between lines bytes (range.start - 1) range.end)
  slice-byte_span_of = rw (accepted.span_is) (
      slice-span_of_lines lines split bytes (range.start - 1) range.end
        (omega (arith, accepted.start-le)))

  -- `span_to_lines` takes a span that `byte_span_of` returns, of bytes that fit 64 bits, back to its
  -- range, 0-based and half-open.
  pub span_to_lines-byte_span_of : span_to_lines lines bytes span ≡ (range.start - 1, range.end)
  span_to_lines-byte_span_of = rw (accepted.span_is) (
      span_to_lines-span_of_lines lines split bytes (range.start - 1) range.end h
        (omega (arith, accepted.start-le)) accepted.end-le)

  -- On a span that `byte_span_of` returns, of bytes that fit 64 bits, `lines_to_span` takes the lines of
  -- `span_to_lines` back to the span.
  pub lines_to_span-span_to_lines :
      (let ls = span_to_lines lines bytes span in lines_to_span lines bytes ls.0 ls.1) ≡ some span
  lines_to_span-span_to_lines =
      rw (span_to_lines-byte_span_of, accepted.span_is)
        (lines_to_span-span_of_lines lines split bytes (range.start - 1) range.end h
          (omega (arith, accepted.start-le, accepted.end-le, accepted.start_pos)) accepted.end-le)

-- A span of whole lines.
pub record WholeLines (lines : Bytes → List Bytes) (bytes : Bytes) (span : Span) : Type 0 where
  pub from : ℕ
  pub to : ℕ
  pub from-le : from ≤ to
  pub to-le : to ≤ length (lines bytes)
  pub span_is : span ≡ span_of_lines lines bytes from to

module _ (lines : Bytes → List Bytes) (split : SplitsLines lines) (bytes : Bytes) where
  pub byte_span_of-WholeLines :
      (path : Bytes) (range : LineRange) (span : Span)
      → length bytes ≤ u64_max
      → byte_span_of lines bytes path range ≡ ok span
      → WholeLines lines bytes span
  byte_span_of-WholeLines path range span h e =
      let acc = byte_span_of-Accepted lines split bytes path range span h e in
      record {
        from = range.start - 1;
        to = range.end;
        from-le = omega (arith, acc.start-le);
        to-le = acc.end-le;
        span_is = acc.span_is;
      }

  -- The whole of a text is all its lines.
  pub whole-WholeLines : WholeLines lines bytes (whole (length bytes))
  unfolding whole
  whole-WholeLines = record {
    from = 0;
    to = length (lines bytes);
    from-le = omega arith;
    to-le = omega arith;
    span_is =
        ap (λ (n : ℕ). record { start = 0; end = n })
          (sym (
            ap (λ (t : Bytes). length t)
              (ap concat (take_all (length (lines bytes)) (lines bytes) (omega arith))
                ∙ split.joined bytes)));
  }
