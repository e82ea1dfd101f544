-- ===== src/AnchorArgs/LineRanges.antt =====
-- `parse_lines_arg` of crates/git-anchor/src/main.rs: how ranges are written, and what they are read as.
use git_anchor.Base.{
  ℕ, ◌+◌, ◌-◌, ◌≤◌, ◌≡◌, ◌≢◌, refl, Option, none, some, [], ◌∷◌, ◌++◌, max, min, All, All-append,
  arith, append-nil,
}
use git_anchor.Base.Text.{Bytes}
use git_anchor.Base.Words.{u64_max}
use git_anchor.Base.Strings.{trim, split_once, strip_prefix}
use git_anchor.Base.Strings.Splits.{Without, split_once-append, split_once-none}
use git_anchor.Base.Strings.Trims.{IsGraphic, trim_graphic}
use git_anchor.Base.Strings.Numbers.{decimal, IsDigit, decimal-IsDigit, parse_u64-decimal}
use git_anchor.Base.Result.{ok}
use git_anchor.AnchorArgs.{
  parse_end_text, parse_end, parts_at, trim_some, parse_range, parse_lines_arg,
}

-- What follows the first line of a range: nothing, a last line, or a number of lines.
pub data Ending : Type 0 where
  alone : Ending
  through counted : ℕ → Ending

-- Its numbers are 64-bit numbers.
abbrev pub Fits : Ending → Type 0
Fits alone = Unit
Fits (through last) = last ≤ u64_max
Fits (counted count) = count ≤ u64_max

abbrev pub write_ending : Ending → Option Bytes
write_ending alone = none
write_ending (through last) = some (decimal last)
write_ending (counted count) = some (b'+' ∷ decimal count)

abbrev pub write_after : ℕ → Option Bytes → Bytes
write_after sep none = []
write_after sep (some text) = sep ∷ text

-- A range as it is written, and a path after it.
abbrev pub write_range : ℕ → Ending → Bytes
write_range start ending = decimal start ++ write_after b',' (write_ending ending)

abbrev pub write_lines : ℕ → Ending → Option Bytes → Bytes
write_lines start ending path = write_range start ending ++ write_after b':' path

-- The last line of a range. A number of lines counts from the first line, and the range keeps its first
-- line when the number is 0, and stops at the largest 64-bit number.
abbrev pub last_line : ℕ → Ending → ℕ
last_line start alone = start
last_line start (through last) = last
last_line start (counted count) = max (min (start + count) u64_max - 1) start

-- A digit or a plus sign.
abbrev IsNumeral : ℕ → Type 0
IsNumeral b = (43 ≤ b) × (b ≤ 57) × (b ≢ 44)

All-map : (P Q : ℕ → Type 0) (f : (b : ℕ) → P b → Q b) (text : Bytes) → All P text → All Q text
All-map P Q f [] h = tt
All-map P Q f (b ∷ bs) (p, h) = (f b p, All-map P Q f bs h)

decimal-IsNumeral : (n : ℕ) → All IsNumeral (decimal n)
decimal-IsNumeral n =
    All-map IsDigit IsNumeral (λ b h. (omega arith, omega arith, λ e. absurd (omega arith)))
      (decimal n) (decimal-IsDigit n)

trim_numeral : (text : Bytes) → All IsNumeral text → trim text ≡ text
trim_numeral text h =
    trim_graphic text (All-map IsNumeral IsGraphic (λ b p. (omega arith, omega arith)) text h)

IsNumeral-Without :
    (sep : ℕ) (text : Bytes)
    → ((b : ℕ) → IsNumeral b → b ≢ sep)
    → All IsNumeral text
    → Without sep text
IsNumeral-Without sep text apart h = All-map IsNumeral (λ b. b ≢ sep) apart text h

abbrev no_comma : (b : ℕ) → IsNumeral b → b ≢ b','
no_comma b h = h.2

no_colon : (b : ℕ) → IsNumeral b → b ≢ b':'
no_colon b h = λ e. absurd (omega arith)

parts_of :
    (sep : ℕ) (text : Bytes) (after : Option Bytes)
    → Without sep text
    → parts_at (text ++ write_after sep after) (split_once sep (text ++ write_after sep after))
      ≡ (text, after)
parts_of sep text none h = rw (append-nil text, split_once-none sep text h) refl
parts_of sep text (some after) h = rw (split_once-append sep text after h) refl

trimmed : (n : ℕ) → trim (decimal n) ≡ decimal n
trimmed n = trim_numeral (decimal n) (decimal-IsNumeral n)

counted-IsNumeral : (n : ℕ) → All IsNumeral (b'+' ∷ decimal n)
counted-IsNumeral n = ((omega arith, omega arith, λ e. absurd (omega arith)), decimal-IsNumeral n)

trimmed_count : (n : ℕ) → trim (b'+' ∷ decimal n) ≡ b'+' ∷ decimal n
trimmed_count n = trim_numeral (b'+' ∷ decimal n) (counted-IsNumeral n)

digit_unsigned : (b : ℕ) (bs : Bytes) → IsDigit b → strip_prefix b'+' (b ∷ bs) ≡ none
unfolding strip_prefix
digit_unsigned b bs h = ground arith

unsigned : (text : Bytes) → All IsDigit text → strip_prefix b'+' text ≡ none
unfolding strip_prefix
unsigned [] h = refl
unsigned (b ∷ bs) (p, h) = digit_unsigned b bs p

signed : (text : Bytes) → strip_prefix b'+' (b'+' ∷ text) ≡ some text
unfolding strip_prefix
signed text = refl

parse_end_written :
    (start : ℕ) (ending : Ending)
    → Fits ending
    → parse_end start (trim_some (write_ending ending)) ≡ ok (last_line start ending)
unfolding parse_end parse_end_text
parse_end_written start alone h = refl
parse_end_written start (through last) h =
    rw (trimmed last, unsigned (decimal last) (decimal-IsDigit last), parse_u64-decimal last h) refl
parse_end_written start (counted count) h =
    rw (trimmed_count count, signed (decimal count), parse_u64-decimal count h) refl

parse_range_written :
    (start : ℕ) (ending : Ending)
    → start ≤ u64_max
    → Fits ending
    → parse_range (decimal start) (write_ending ending)
      ≡ ok (record { start = start; end = last_line start ending })
unfolding parse_range
parse_range_written start ending fits h =
    rw (trimmed start, parse_u64-decimal start fits, parse_end_written start ending h) refl

write_ending-Without : (ending : Ending) → Without b':' (write_after b',' (write_ending ending))
write_ending-Without alone = tt
write_ending-Without (through last) = (
  λ e. absurd (omega arith),
  IsNumeral-Without b':' (decimal last) no_colon (decimal-IsNumeral last),
)
write_ending-Without (counted count) = (
  λ e. absurd (omega arith),
  IsNumeral-Without b':' (b'+' ∷ decimal count) no_colon (counted-IsNumeral count),
)

write_range-Without : (start : ℕ) (ending : Ending) → Without b':' (write_range start ending)
write_range-Without start ending =
    All-append (λ b. b ≢ b':') (decimal start) (write_after b',' (write_ending ending))
      (IsNumeral-Without b':' (decimal start) no_colon (decimal-IsNumeral start))
      (write_ending-Without ending)

-- A range that is written as a first line and nothing, a last line, or a number of lines, with or
-- without a path after it, all numbers of 64 bits, is read back as that path and the lines it means;
-- the path may hold any bytes, colons and commas among them.
pub parse_lines_arg-write_lines :
    (start : ℕ) (ending : Ending) (path : Option Bytes)
    → start ≤ u64_max
    → Fits ending
    → parse_lines_arg (write_lines start ending path)
      ≡ ok (record { range = record { start = start; end = last_line start ending }; path = path })
unfolding parse_lines_arg
parse_lines_arg-write_lines start ending path fits h =
    rw
      (
        parts_of b':' (write_range start ending) path (write_range-Without start ending),
        parts_of b',' (decimal start) (write_ending ending)
            (IsNumeral-Without b',' (decimal start) no_comma (decimal-IsNumeral start)),
        parse_range_written start ending fits h,
      )
      refl
