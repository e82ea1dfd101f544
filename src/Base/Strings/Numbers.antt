-- ===== src/Base/Strings/Numbers.antt =====
-- `u64` of Base/Strings: the decimal digits that a number is printed with, and that they are read back.
use Prim.Native.Nat.{ℕ, zero, suc, ◌+◌, ◌-◌, ◌*◌, ◌/◌, ◌%◌, ◌≤◌, ◌<◌}
use mathlib.Core.Path.{◌≡◌, refl, sym, ap, ◌∙◌}
use mathlib.Core.Logic.{inl, inr}
use mathlib.Core.Bool.{true, false}
use mathlib.Core.Option.{Option, none, some}
use mathlib.Core.List.{[], ◌∷◌}
use native.Mathlib.Omega.{arith}
use git_anchor.Base.Tests.{ltb, leb, ◌==◌, if◌then◌else◌, Bool-cases}
use git_anchor.Base.Lists.{All}
use git_anchor.Base.Text.{Bytes}
use git_anchor.Base.Words.{u64_max}
use git_anchor.Base.Strings.{strip_prefix, parse_digits, some_digits, unsigned_digits, parse_u64}

-- The digits of a number before a text, on fuel.
digits_before : ℕ → ℕ → Bytes → Bytes
digits_before zero n rest = (b'0' + n % 10) ∷ rest
digits_before (suc fuel) n rest =
    let later = digits_before fuel (n / 10) ((b'0' + n % 10) ∷ rest) in
    if ltb n 10 then (b'0' + n) ∷ rest else later

-- `Display` of a number.
unfoldable pub decimal : ℕ → Bytes
unfolding digits_before
decimal n = digits_before n n []

abbrev pub IsDigit : ℕ → Type 0
IsDigit b = (b'0' ≤ b) × (b ≤ b'9')

parse_one :
    (value d : ℕ) (rest : Bytes)
    → d < 10
    → value * 10 + d ≤ u64_max
    → parse_digits value ((b'0' + d) ∷ rest) ≡ parse_digits (value * 10 + d) rest
unfolding parse_digits
parse_one value d rest small fits =
    let digit : (b'0' + d) - b'0' ≡ d = omega arith in
    let low : leb b'0' (b'0' + d) ≡ true = ground arith in
    let high : leb (b'0' + d) b'9' ≡ true = ground arith in
    let within : leb (value * 10 + d) u64_max ≡ true = ground arith in
    rw (digit, low, high, within) refl

parse_before :
    (fuel n : ℕ) (rest : Bytes)
    → n ≤ fuel
    → n ≤ u64_max
    → parse_digits 0 (digits_before fuel n rest) ≡ parse_digits n rest
unfolding digits_before
parse_before zero n rest e fits =
    parse_one 0 (n % 10) rest (omega arith) (omega arith)
    ∙ ap (λ (v : ℕ). parse_digits v rest) (omega arith)
parse_before (suc fuel) n rest e fits = elim (Bool-cases (ltb n 10)) [
  | inl small ↦ rw small (
      parse_one 0 n rest (ground arith) (omega arith)
      ∙ ap (λ (v : ℕ). parse_digits v rest) (omega arith))
  | inr large ↦ rw large (
      parse_before fuel (n / 10) ((b'0' + n % 10) ∷ rest) (ground arith) (omega arith)
      ∙ parse_one (n / 10) (n % 10) rest (omega arith) (omega arith)
      ∙ ap (λ (v : ℕ). parse_digits v rest) (omega arith))
]

digits_before-IsDigit :
    (fuel n : ℕ) (rest : Bytes) → All IsDigit rest → All IsDigit (digits_before fuel n rest)
unfolding digits_before
digits_before-IsDigit zero n rest h = ((omega arith, omega arith), h)
digits_before-IsDigit (suc fuel) n rest h =
    ground (arith, digits_before-IsDigit fuel (n / 10) ((b'0' + n % 10) ∷ rest))

pub decimal-IsDigit : (n : ℕ) → All IsDigit (decimal n)
unfolding decimal
decimal-IsDigit n = digits_before-IsDigit n n [] tt

no_sign : (b : ℕ) (bs : Bytes) → IsDigit b → strip_prefix b'+' (b ∷ bs) ≡ none
unfolding strip_prefix
no_sign b bs h = let unsigned : (b == b'+') ≡ false = ground arith in rw unsigned refl

-- A number of digits is read without a sign.
parse_unsigned : (b : ℕ) (bs : Bytes) → IsDigit b → parse_u64 (b ∷ bs) ≡ parse_digits 0 (b ∷ bs)
unfolding parse_u64 unsigned_digits some_digits
parse_unsigned b bs h = rw (no_sign b bs h) refl

digits_before_first :
    (fuel n : ℕ) (rest : Bytes)
    → All IsDigit rest
    → (b : ℕ) × (bs : Bytes) × (digits_before fuel n rest ≡ b ∷ bs) × IsDigit b
unfolding digits_before
digits_before_first zero n rest h = (b'0' + n % 10, rest, refl, (omega arith, omega arith))
digits_before_first (suc fuel) n rest h = elim (Bool-cases (ltb n 10)) [
  | inl small ↦ (b'0' + n, rest, rw small refl, (ground arith, ground arith))
  | inr large ↦
      rw large
        (digits_before_first fuel (n / 10) ((b'0' + n % 10) ∷ rest) ((omega arith, omega arith), h))
]

-- A 64-bit number is read back from its digits.
parsed : (n : ℕ) → parse_digits n [] ≡ some n
unfolding parse_digits
parsed n = refl

pub parse_u64-decimal : (n : ℕ) → n ≤ u64_max → parse_u64 (decimal n) ≡ some n
unfolding decimal
parse_u64-decimal n fits =
    let (b, bs, text, digit) = digits_before_first n n [] tt in
    ap parse_u64 text
    ∙ parse_unsigned b bs digit
    ∙ ap (parse_digits 0) (sym text)
    ∙ parse_before n n [] (omega arith) fits
    ∙ parsed n

-- What is read is a 64-bit number.
parse_digits_bound :
    (value : ℕ) (text : Bytes) (n : ℕ)
    → value ≤ u64_max
    → parse_digits value text ≡ some n
    → n ≤ u64_max
unfolding parse_digits
parse_digits_bound value [] n h e = ground arith
parse_digits_bound value (b ∷ bs) n h e =
    ground (arith, parse_digits_bound (value * 10 + (b - b'0')) bs n)

some_digits_bound : (text : Bytes) (n : ℕ) → some_digits text ≡ some n → n ≤ u64_max
unfolding some_digits
some_digits_bound [] n e = absurd (cc)
some_digits_bound (b ∷ bs) n e = parse_digits_bound 0 (b ∷ bs) n (omega arith) e

unsigned_digits_bound :
    (sign : Option Bytes) (text : Bytes) (n : ℕ) → unsigned_digits sign text ≡ some n → n ≤ u64_max
unfolding unsigned_digits
unsigned_digits_bound none text n e = some_digits_bound text n e
unsigned_digits_bound (some digits) text n e = some_digits_bound digits n e

pub parse_u64_bound : (text : Bytes) (n : ℕ) → parse_u64 text ≡ some n → n ≤ u64_max
unfolding parse_u64
parse_u64_bound text n e = unsigned_digits_bound (strip_prefix b'+' text) text n e
