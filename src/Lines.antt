-- ===== src/Lines.antt =====
-- crates/git-anchor/src/util.rs: line boundaries, and the conversions between line ranges and
-- byte spans; `LineRange` and `Span` of crates/git-anchor/src/anchor.rs. The splitting of bytes
-- into lines is bstr's, a parameter here with what its documentation promises. `usize` and `u64`
-- are both 64 bits wide, so that the conversions between them are the identity.
pub mod Boundaries
pub mod Spans
use git_anchor.Base.{
  ℕ, zero, suc, ◌-◌, ◌≤◌, ◌≡◌, ◌≢◌, Bool, ◌||◌, Option, none, some, List, [], ◌∷◌, length,
  get_elem?, concat, take, drop, All, leb, ltb, if◌then◌else◌,
}
use git_anchor.Base.Text.{Bytes}
use git_anchor.Base.Words.{saturating_add, saturating_sub, checked_sub}
use git_anchor.Base.Result.{ok, err, ok_or, ◌>>=◌}
use git_anchor.Error.{Res, Error, lines_out_of_range, panic}

pub record LineRange : Type 0 where
  pub start : ℕ
  pub end : ℕ

pub record Span : Type 0 where
  pub start : ℕ
  pub end : ℕ

-- `Span::whole`
unfoldable pub whole : ℕ → Span
whole len = record { start = 0; end = len }

-- `<[T]>::get(start..end)`
abbrev pub get_range : Bytes → ℕ → ℕ → Option Bytes
get_range bytes start end =
    if leb start end
    then (if leb end (length bytes) then some (take (end - start) (drop start bytes)) else none)
    else none

-- `Span::slice`
unfoldable pub slice : Span → Bytes → Option Bytes
slice span bytes = get_range bytes span.start span.end

-- `Iterator::position` and `Iterator::rposition`
unfoldable pub position : (ℕ → Bool) → List ℕ → Option ℕ
position p [] = none
position p (x ∷ xs) =
    let rest = position p xs in
    if p x then some 0 else elim rest [ none ↦ none | some i ↦ some (suc i) ]

unfoldable pub rposition : (ℕ → Bool) → List ℕ → Option ℕ
rposition p [] = none
rposition p (x ∷ xs) = elim (rposition p xs) [
  | none ↦ if p x then some 0 else none
  | some i ↦ some (suc i)
]

abbrev pub unwrap_or : Option ℕ → ℕ → ℕ
unwrap_or none d = d
unwrap_or (some n) d = n

-- What bstr documents of `lines_with_terminator`: the lines, terminators included, spell the
-- bytes, and no line is empty.
pub record SplitsLines (lines : Bytes → List Bytes) : Type 0 where
  pub joined : (bytes : Bytes) → concat (lines bytes) ≡ bytes
  pub line_ne_nil : (bytes : Bytes) → All (λ line. line ≢ []) (lines bytes)

-- The loop of `line_boundaries`, from the offset reached.
unfoldable pub push_boundaries : ℕ → List Bytes → List ℕ
push_boundaries offset [] = []
push_boundaries offset (line ∷ rest) =
    let offset' = saturating_add offset (length line) in offset' ∷ push_boundaries offset' rest

module _ (lines : Bytes → List Bytes) where
  unfoldable pub line_boundaries : Bytes → List ℕ
  line_boundaries bytes = 0 ∷ push_boundaries 0 (lines bytes)

  unfoldable pub byte_span_of : Bytes → Bytes → LineRange → Res Span
  byte_span_of bytes path range =
      let boundaries = line_boundaries bytes in
      let line_count = saturating_sub (length boundaries) 1 in
      let out_of_range = lines_out_of_range path range.start range.end line_count in
      do
        first ← ok_or (checked_sub range.start 1) out_of_range
        let last = range.end
        if ltb last first || ltb line_count last then err out_of_range else do
          start ← ok_or (get_elem? boundaries first) panic
          end ← ok_or (get_elem? boundaries last) panic
          ok (record { start = start; end = end })

  unfoldable pub span_to_lines : Bytes → Span → ℕ × ℕ
  span_to_lines bytes span =
      let boundaries = line_boundaries bytes in
      let start_line = unwrap_or (rposition (λ b. leb b span.start) boundaries) 0 in
      let end_line =
        if leb span.end span.start
        then start_line
        else unwrap_or (position (λ b. leb span.end b) boundaries)
            (saturating_sub (length boundaries) 1) in
      (start_line, end_line)

  unfoldable pub lines_to_span : Bytes → ℕ → ℕ → Option Span
  lines_to_span bytes start_line end_line =
      let boundaries = line_boundaries bytes in
      elim (get_elem? boundaries start_line) [
        | none ↦ none
        | some start ↦ elim (get_elem? boundaries end_line) [
          | none ↦ none
          | some end ↦ some (record { start = start; end = end })
        ]
      ]
