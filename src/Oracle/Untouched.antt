-- ===== src/Oracle/Untouched.antt =====
-- `map_span` of crates/git-anchor/src/oracle.rs on a region that no hunk touches.
use git_anchor.Base.{
  ℕ, ◌+◌, ◌-◌, ◌≤◌, ◌<◌, ◌≡◌, ◌≢◌, ◌⊎◌, refl, ap, ◌∙◌, Option, some, List, [], ◌∷◌, ◌++◌, length,
  All, arith, length-append, concat,
}
use native.Mathlib.Decide.{dec_le}
use git_anchor.Base.Text.{Bytes}
use git_anchor.Base.Words.{u64_max}
use git_anchor.Lines.{Span, span_to_lines, lines_to_span}
use git_anchor.Lines.Boundaries.{length-pos}
use git_anchor.Lines.Spans.{span_of_lines, span_to_lines-span_of_lines, lines_to_span-span_of_lines}
use git_anchor.Repository.{Repository, Hunk, Script, rest, edit, IsLawful}
use git_anchor.Oracle.{shift_loop, map_line, place_lines, map_span}

-- The hunk changes no line of the region and inserts none inside it.
abbrev pub Untouched : ℕ → ℕ → Hunk → Type 0
Untouched s e hunk = (hunk.before_end ≤ s) ⊎ (e ≤ hunk.before_start)

-- What the loop returns on an untouched region: a shift that fits the new text.
record Fit (s e j n : ℕ) (shifted : Option (ℕ × ℕ)) : Type 0 where
  added : ℕ
  removed : ℕ
  shifted_is : shifted ≡ some (added, removed)
  removed-le : removed ≤ s
  added-le : added ≤ n
  fits : e + added ≤ n + removed

shift_loop-step :
    (hunk : Hunk) (hunks : List Hunk) (s e a r gone made : ℕ)
    → hunk.before_end ≡ hunk.before_start + gone
    → hunk.after_end ≡ hunk.after_start + made
    → hunk.before_end ≤ s
    → r + gone ≤ u64_max
    → a + made ≤ u64_max
    → shift_loop (hunk ∷ hunks) s e a r ≡ shift_loop hunks s e (a + made) (r + gone)
unfolding shift_loop
shift_loop-step hunk hunks s e a r gone made h k m b c =
    let gone_is : hunk.before_end - hunk.before_start ≡ gone = omega arith in
    let made_is : hunk.after_end - hunk.after_start ≡ made = omega arith in ground arith

shift_loop-break :
    (hunk : Hunk) (hunks : List Hunk) (s e a r : ℕ)
    → s < hunk.before_end
    → e ≤ hunk.before_start
    → shift_loop (hunk ∷ hunks) s e a r ≡ some (a, r)
unfolding shift_loop
shift_loop-break hunk hunks s e a r h k = ground arith

shift_loop-nil_eq : (s e a r : ℕ) → shift_loop [] s e a r ≡ some (a, r)
unfolding shift_loop
shift_loop-nil_eq s e a r = refl

shift_loop-Fit :
    {i j : ℕ} {hunks : List Hunk} {old new : List Bytes}
    → Script i j hunks old new
    → (s e a r n : ℕ) → i ≤ s
    → s ≤ e
    → e ≤ i + length old
    → j + r ≡ i + a
    → n ≡ j + length new
    → r ≤ i
    → a ≤ j
    → n ≤ u64_max
    → s ≤ u64_max
    → All (Untouched s e) hunks
    → Fit s e j n (shift_loop hunks s e a r)
shift_loop-Fit {i} {j} (rest kept) s e a r n h k m q t x y z w u = record {
  added = a;
  removed = r;
  shifted_is = shift_loop-nil_eq s e a r;
  removed-le = omega arith;
  added-le = omega arith;
  fits = omega arith;
}
shift_loop-Fit {i} {j} (edit kept gone made {hunk} {hunks} {old} {new} bs be sa ea script) s e a r n
      h k m q t x y z w (u, us) =
    let size = length-append kept (gone ++ old) in
    let size' = length-append gone old in
    let nsize = length-append kept (made ++ new) in
    let nsize' = length-append made new in
    elim (dec_le hunk.before_end s) [
      | yes past ↦
          let further =
            shift_loop-Fit script s e (a + length made) (r + length gone) n past k (omega arith)
              (omega arith) (omega arith) (omega arith) (omega arith) z w us in
          record {
            added = further.added;
            removed = further.removed;
            shifted_is =
                shift_loop-step hunk hunks s e a r (length gone) (length made) be ea past
                  (omega arith) (omega arith)
                ∙ further.shifted_is;
            removed-le = further.removed-le;
            added-le = further.added-le;
            fits = further.fits;
          }
      | no touch ↦
          let below : e ≤ hunk.before_start = omega arith in
          record {
            added = a;
            removed = r;
            shifted_is = shift_loop-break hunk hunks s e a r (omega arith) below;
            removed-le = omega arith;
            added-le = omega arith;
            fits = omega arith;
          }
    ]

map_line-some :
    (added removed line : ℕ)
    → line + added ≤ u64_max
    → removed ≤ line + added
    → map_line (added, removed) line ≡ some (line + added - removed)
unfolding map_line
map_line-some added removed line h k = ground arith

map_span-eq :
    (repo : Repository) (old new : Bytes) (span mapped : Span) (from to added removed start end : ℕ)
    → span_to_lines repo.lines old span ≡ (from, to)
    → from ≤ to
    → to ≤ repo.before_len old new
    → shift_loop (repo.hunks old new) from to 0 0 ≡ some (added, removed)
    → map_line (added, removed) from ≡ some start
    → map_line (added, removed) to ≡ some end
    → lines_to_span repo.lines new start end ≡ some mapped
    → map_span repo old new span ≡ some mapped
unfolding map_span place_lines
map_span-eq repo old new span mapped from to added removed start end sp h k sh st en there =
    ground arith

-- No text has more lines than bytes.
lines-le : (ls : List Bytes) → All (λ l. l ≢ []) ls → length ls ≤ length (concat ls)
lines-le [] ne = omega arith
lines-le (l ∷ ls) ne =
    omega (arith, length-pos l ne.0, length-append l (concat ls), lines-le ls ne.1)

module _ (repo : Repository) (law : IsLawful repo) (old new : Bytes) where
  lines-le_length : (bytes : Bytes) → length (repo.lines bytes) ≤ length bytes
  lines-le_length bytes = omega (
    arith,
    lines-le (repo.lines bytes) (law.splits.line_ne_nil bytes),
    ap (λ (t : Bytes). length t) (law.splits.joined bytes),
  )

  -- In contents that together fit 64 bits, whole lines that no hunk of the diff touches are relocated:
  -- `map_span` returns a span.
  pub map_span-Untouched :
      (from to : ℕ)
      → length old + length new ≤ u64_max
      → from ≤ to
      → to ≤ length (repo.lines old)
      → All (Untouched from to) (repo.hunks old new)
      → (mapped : Span) × (map_span repo old new (span_of_lines repo.lines old from to)
          ≡ some mapped)
  map_span-Untouched from to h k m u =
      let lold = lines-le_length old in
      let lnew = lines-le_length new in
      let spanned =
        span_to_lines-span_of_lines repo.lines law.splits old from to (omega arith) k m in
      let fit =
        shift_loop-Fit (law.script old new) from to 0 0 (length (repo.lines new)) (omega arith) k
          (omega arith) refl (omega arith) (omega arith) (omega arith) (omega arith) (omega arith)
          u in
      let start = from + fit.added - fit.removed in
      let end = to + fit.added - fit.removed in
      let start_is =
        map_line-some fit.added fit.removed from (omega (arith, fit.added-le))
          (omega (arith, fit.removed-le)) in
      let end_is =
        map_line-some fit.added fit.removed to (omega (arith, fit.added-le))
          (omega (arith, fit.removed-le)) in
      let there =
        lines_to_span-span_of_lines repo.lines law.splits new start end (omega arith)
          (omega (arith, fit.fits, fit.removed-le)) (omega (arith, fit.fits, fit.removed-le)) in
      (
        span_of_lines repo.lines new start end,
        map_span-eq repo old new (span_of_lines repo.lines old from to)
            (span_of_lines repo.lines new start end) from to fit.added fit.removed start end spanned
            k (omega (arith, law.before_lines old new)) fit.shifted_is start_is end_is there,
      )
