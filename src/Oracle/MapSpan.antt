-- ===== src/Oracle/MapSpan.antt =====
-- `map_span` of crates/git-anchor/src/oracle.rs along an edit script: the text of a relocated span.
use git_anchor.Base.{
  ℕ, ◌+◌, ◌-◌, ◌≤◌, ◌<◌, ◌≡◌, refl, sym, ap, ◌∙◌, subst, Option, none, some, List, [], ◌∷◌, ◌++◌,
  length, take, drop, concat, arith, inl, inr, Option-cases, length-append, drop-append_left,
  drop-append_right, take-append_left, length-drop, append-nil,
}
use native.Mathlib.Decide.{dec_le}
use git_anchor.Base.Text.{Bytes}
use git_anchor.Base.Words.{u64_max}
use git_anchor.Lines.{Span, slice, span_to_lines, lines_to_span}
use git_anchor.Lines.Spans.{
  lines_between, span_of_lines, slice-span_of_lines, span_to_lines-span_of_lines,
  lines_to_span-span_of_lines,
}
use git_anchor.Repository.{Repository, Hunk, Script, rest, edit, IsLawful}
use git_anchor.Oracle.{shift_loop, map_line, place_lines, map_span}

-- Old lines `s` to `e` stand at new line `place`, which is `s` shifted by what was added and removed.
record Shifted (i j s e added removed : ℕ) (old new : List Bytes) : Type 0 where
  place : ℕ
  shift : place + removed ≡ s + added
  low : j ≤ place
  high : place + (e - s) ≤ j + length new
  same_lines : take (e - s) (drop (s - i) old) ≡ take (e - s) (drop (place - j) new)

window-append_right :
    {A : Type 0} (n k : ℕ) (xs ys : List A)
    → length xs ≤ n
    → take k (drop n (xs ++ ys)) ≡ take k (drop (n - length xs) ys)
window-append_right n k xs ys h = ap (take k) (drop-append_right n xs ys h)

window-append_left :
    {A : Type 0} (n k : ℕ) (xs ys : List A)
    → n + k ≤ length xs
    → take k (drop n (xs ++ ys)) ≡ take k (drop n xs)
window-append_left n k xs ys h =
    ap (take k) (drop-append_left n xs ys (omega arith))
    ∙ take-append_left k (drop n xs) ys (omega (arith, length-drop n xs))

-- Past the kept and the changed lines.
window_past :
    {A : Type 0} (n m k : ℕ) (xs ys zs : List A)
    → n ≡ length xs + length ys + m
    → take k (drop n (xs ++ (ys ++ zs))) ≡ take k (drop m zs)
window_past n m k xs ys zs h =
    window-append_right n k xs (ys ++ zs) (omega arith)
    ∙ window-append_right (n - length xs) k ys zs (omega arith)
    ∙ ap (λ (t : ℕ). take k (drop t zs)) {x = n - length xs - length ys} {y = m} (omega arith)

Shifted-here :
    (i j s e a r added removed : ℕ) (kept old new : List Bytes)
    → i ≤ s
    → s ≤ e
    → e ≤ i + length kept
    → j + r ≡ i + a
    → a ≡ added
    → r ≡ removed
    → Shifted i j s e added removed (kept ++ old) (kept ++ new)
Shifted-here i j s e a r added removed kept old new h k m q ea er = record {
  place = j + (s - i);
  shift = omega arith;
  low = omega arith;
  high = omega (arith, length-append kept new);
  same_lines =
      window-append_left (s - i) (e - s) kept old (omega arith)
      ∙ sym (window-append_left (s - i) (e - s) kept new (omega arith))
      ∙ ap (λ (t : ℕ). take (e - s) (drop t (kept ++ new))) {x = s - i} {y = j + (s - i) - j}
          (omega arith);
}

-- The step of the loop past a hunk that ends above the region.
shift_loop-past :
    (hunk : Hunk) (hunks : List Hunk) (s e a r removed added : ℕ) {out : ℕ × ℕ}
    → hunk.before_end ≡ hunk.before_start + removed
    → hunk.after_end ≡ hunk.after_start + added
    → hunk.before_end ≤ s
    → shift_loop (hunk ∷ hunks) s e a r ≡ some out
    → shift_loop hunks s e (a + added) (r + removed) ≡ some out
unfolding shift_loop
shift_loop-past hunk hunks s e a r removed added h k m q =
    let gone : hunk.before_end - hunk.before_start ≡ removed = omega arith in
    let new : hunk.after_end - hunk.after_start ≡ added = omega arith in ground arith

-- The loop at a hunk that does not end above the region: it stops, or the region was edited.
shift_loop-stop :
    (hunk : Hunk) (hunks : List Hunk) (s e a r : ℕ) {added removed : ℕ}
    → s < hunk.before_end
    → shift_loop (hunk ∷ hunks) s e a r ≡ some (added, removed)
    → (e ≤ hunk.before_start) × (a ≡ added) × (r ≡ removed)
unfolding shift_loop
shift_loop-stop hunk hunks s e a r h q = (ground arith, ground arith, ground arith)

shift_loop-nil :
    (s e a r : ℕ) {added removed : ℕ}
    → shift_loop [] s e a r ≡ some (added, removed)
    → (a ≡ added) × (r ≡ removed)
unfolding shift_loop
shift_loop-nil s e a r q = (ground arith, ground arith)

shift_loop-Shifted :
    {i j : ℕ} {hunks : List Hunk} {old new : List Bytes}
    → Script i j hunks old new
    → (s e a r added removed : ℕ) → i ≤ s
    → s ≤ e
    → e ≤ i + length old
    → j + r ≡ i + a
    → shift_loop hunks s e a r ≡ some (added, removed)
    → Shifted i j s e added removed old new
shift_loop-Shifted {i} {j} (rest kept) s e a r added removed h k m q l =
    let (ea, er) = shift_loop-nil s e a r l in
    subst (λ (t : List Bytes). Shifted i j s e added removed t t) (append-nil kept)
      (Shifted-here i j s e a r added removed kept [] [] h k m q ea er)
shift_loop-Shifted {i} {j} (edit kept gone made {hunk} {hunks} {old} {new} bs be sa ea script) s e a
      r added removed h k m q l =
    elim (dec_le hunk.before_end s) [
      | yes past ↦
          let size = length-append kept (gone ++ old) in
          let size' = length-append gone old in
          let further =
            shift_loop-Shifted script s e (a + length made) (r + length gone) added removed past k
              (omega arith) (omega arith)
              (shift_loop-past hunk hunks s e a r (length gone) (length made) be ea past l) in
          record {
            place = further.place;
            shift = further.shift;
            low = omega (arith, further.low);
            high =
                omega
                  (arith, further.high, length-append kept (made ++ new), length-append made new);
            same_lines =
                window_past (s - i) (s - hunk.before_end) (e - s) kept gone old (omega arith)
                ∙ further.same_lines
                ∙ sym (
                    window_past (further.place - j) (further.place - hunk.after_end) (e - s) kept
                      made new (omega (arith, further.low)));
          }
      | no touch ↦
          let (below, ea', er) = shift_loop-stop hunk hunks s e a r (omega arith) l in
          Shifted-here i j s e a r added removed kept (gone ++ old) (made ++ new) h k (omega arith)
            q ea' er
    ]

map_line-eq :
    (added removed line : ℕ) {out : ℕ}
    → map_line (added, removed) line ≡ some out
    → out + removed ≡ line + added
unfolding map_line
map_line-eq added removed line h = ground arith

-- What a placed span rests on.
record Placed (lines : Bytes → List Bytes) (new : Bytes) (from to : ℕ) (shifted : Option (ℕ × ℕ))
    (span : Span) : Type 0 where
  added : ℕ
  removed : ℕ
  start : ℕ
  end : ℕ
  shifted_is : shifted ≡ some (added, removed)
  start_is : start + removed ≡ from + added
  end_is : end + removed ≡ to + added
  span_is : lines_to_span lines new start end ≡ some span

place_lines-Placed :
    (lines : Bytes → List Bytes) (new : Bytes) (from to : ℕ) (shifted : Option (ℕ × ℕ))
    (span : Span)
    → place_lines lines new from to shifted ≡ some span
    → Placed lines new from to shifted span
place_lines-Placed lines new from to none span e = absurd (unfold place_lines in cc)
place_lines-Placed lines new from to (some (added, removed)) span e =
    elim (Option-cases (map_line (added, removed) from)) [
      | inl none_from ↦ absurd (unfold place_lines in ground arith)
      | inr (start, s) ↦ elim (Option-cases (map_line (added, removed) to)) [
        | inl none_to ↦ absurd (unfold place_lines in ground arith)
        | inr (end, t) ↦ record {
          added = added;
          removed = removed;
          start = start;
          end = end;
          shifted_is = refl;
          start_is = map_line-eq added removed from s;
          end_is = map_line-eq added removed to t;
          span_is = unfold place_lines in ground arith;
        }
      ]
    ]

module _ (repo : Repository) (law : IsLawful repo) (old new : Bytes) where
  map_span-Placed :
      (from to : ℕ) (span mapped : Span)
      → span_to_lines repo.lines old span ≡ (from, to)
      → map_span repo old new span ≡ some mapped
      → Placed repo.lines new from to (shift_loop (repo.hunks old new) from to 0 0) mapped
  map_span-Placed from to span mapped s e =
      place_lines-Placed repo.lines new from to _ mapped (unfold map_span in ground arith)

  -- In contents that fit 64 bits, whole lines that `map_span` relocates keep their text: the mapped span
  -- cuts the same lines out of the new content.
  pub map_span-span_of_lines :
      (from to : ℕ) (mapped : Span)
      → length old ≤ u64_max
      → length new ≤ u64_max
      → from ≤ to
      → to ≤ length (repo.lines old)
      → map_span repo old new (span_of_lines repo.lines old from to) ≡ some mapped
      → slice mapped new ≡ some (lines_between repo.lines old from to)
  map_span-span_of_lines from to mapped h h' k m e =
      let spanned = span_to_lines-span_of_lines repo.lines law.splits old from to h k m in
      let placed =
        map_span-Placed from to (span_of_lines repo.lines old from to) mapped spanned e in
      let moved =
        shift_loop-Shifted (law.script old new) from to 0 0 placed.added placed.removed
          (omega arith) k (omega arith) refl placed.shifted_is in
      let e1 : moved.place ≡ placed.start = omega (arith, moved.shift, placed.start_is) in
      let e2 : placed.end ≡ placed.start + (to - from) =
        omega (arith, placed.start_is, placed.end_is) in
      let there : some mapped ≡ some (span_of_lines repo.lines new placed.start placed.end) =
        sym placed.span_is
        ∙ lines_to_span-span_of_lines repo.lines law.splits new placed.start placed.end h'
            (omega (arith, moved.high)) (omega (arith, moved.high)) in
      let there' : mapped ≡ span_of_lines repo.lines new placed.start placed.end = cc in
      rw there' (
        slice-span_of_lines repo.lines law.splits new placed.start placed.end (omega arith)
        ∙ ap (λ (t : List Bytes). some (concat t))
            (ap (λ (n : ℕ). take n (drop placed.start (repo.lines new)))
                {x = placed.end - placed.start} {y = to - from} (omega arith)
              ∙ ap (λ (n : ℕ). take (to - from) (drop n (repo.lines new))) {x = placed.start}
                  {y = moved.place - 0} (omega arith)
              ∙ sym moved.same_lines
              ∙ ap (λ (n : ℕ). take (to - from) (drop n (repo.lines old))) {x = from - 0} {y = from}
                  (omega arith)))
