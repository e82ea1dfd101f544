-- ===== src/Base/Strings.antt =====
-- What the code uses of Rust's `str`, on the bytes of a text: UTF-8 validity, trimming, splitting at a
-- byte, and reading a `u64`.
pub mod Splits
pub mod Trims
pub mod Numbers
pub mod Lossy
use Prim.Native.Nat.{ℕ, zero, suc, ◌+◌, ◌-◌, ◌*◌}
use mathlib.Core.Bool.{Bool, true, false, not, ◌&&◌, ◌||◌}
use mathlib.Core.Option.{Option, none, some}
use mathlib.Core.List.{List, [], ◌∷◌, ◌++◌, reverse}
use git_anchor.Base.Tests.{leb, ◌==◌, if◌then◌else◌}
use git_anchor.Base.Text.{Bytes}
use git_anchor.Base.Words.{u64_max}

abbrev pub between : ℕ → ℕ → ℕ → Bool
between low high b = leb low b && leb b high

-- How many bytes follow a first byte, and the bounds of the next one.
unfoldable pub expects : ℕ → Option (ℕ × ℕ × ℕ)
expects b =
    if leb b 0x7f
    then some (0, 0, 0)
    else if between 0xc2 0xdf b
    then some (1, 0x80, 0xbf)
    else if b == 0xe0
    then some (2, 0xa0, 0xbf)
    else if b == 0xed
    then some (2, 0x80, 0x9f)
    else if between 0xe1 0xef b
    then some (2, 0x80, 0xbf)
    else if b == 0xf0
    then some (3, 0x90, 0xbf)
    else if between 0xf1 0xf3 b
    then some (3, 0x80, 0xbf)
    else if b == 0xf4
    then some (3, 0x80, 0x8f)
    else none

utf8_from : ℕ → ℕ → ℕ → Bytes → Bool
utf8_from zero low high [] = true
utf8_from (suc n) low high [] = false
utf8_from (suc n) low high (b ∷ bs) = between low high b && utf8_from n 0x80 0xbf bs
utf8_from zero low high (b ∷ bs) = elim (expects b) [
  | none ↦ false
  | some (n, low', high') ↦ utf8_from n low' high' bs
]

-- `std::str::from_utf8(bytes).is_ok()`
unfoldable pub from_utf8 : Bytes → Bool
unfolding utf8_from
from_utf8 bytes = utf8_from 0 0 0 bytes

-- The characters of Unicode's `White_Space`, by their bytes.
abbrev pub white_1 : ℕ → Bool
white_1 a = between 9 13 a || a == 32

abbrev pub white_2 : ℕ → ℕ → Bool
white_2 a b = a == 0xc2 && (b == 0x85 || b == 0xa0)

abbrev pub white_3 : ℕ → ℕ → ℕ → Bool
white_3 a b c =
    (a == 0xe1 && b == 0x9a && c == 0x80)
    || (a == 0xe2 && b == 0x80 && (between 0x80 0x8a c || c == 0xa8 || c == 0xa9 || c == 0xaf))
    || (a == 0xe2 && b == 0x81 && c == 0x9f)
    || (a == 0xe3 && b == 0x80 && c == 0x80)

-- The length of the white space character at the start of a text, or 0.
unfoldable pub white_start : Bytes → ℕ
white_start [] = 0
white_start (a ∷ []) = if white_1 a then 1 else 0
white_start (a ∷ b ∷ []) = if white_1 a then 1 else if white_2 a b then 2 else 0
white_start (a ∷ b ∷ c ∷ rest) =
    if white_1 a then 1 else if white_2 a b then 2 else if white_3 a b c then 3 else 0

-- The same at the end of a text, which is given backwards.
unfoldable pub white_end : Bytes → ℕ
white_end [] = 0
white_end (a ∷ []) = if white_1 a then 1 else 0
white_end (b ∷ a ∷ []) = if white_1 b then 1 else if white_2 a b then 2 else 0
white_end (c ∷ b ∷ a ∷ rest) =
    if white_1 c then 1 else if white_2 b c then 2 else if white_3 a b c then 3 else 0

trim_from : (Bytes → ℕ) → ℕ → Bytes → Bytes
trim_from white skip [] = []
trim_from white (suc skip) (b ∷ bs) = trim_from white skip bs
trim_from white zero (b ∷ bs) = elim (white (b ∷ bs)) [
  | zero ↦ b ∷ bs
  | suc skip ↦ trim_from white skip bs
]

unfoldable pub trim_start : Bytes → Bytes
unfolding trim_from
trim_start text = trim_from white_start 0 text

unfoldable pub trim_end : Bytes → Bytes
unfolding trim_from
trim_end text = reverse (trim_from white_end 0 (reverse text))

unfoldable pub trim : Bytes → Bytes
trim text = trim_end (trim_start text)

-- `split_once` at a byte
unfoldable pub split_once : ℕ → Bytes → Option (Bytes × Bytes)
split_once sep [] = none
split_once sep (b ∷ bs) =
    let rest = split_once sep bs in
    if b == sep
    then some ([], bs)
    else elim rest [ none ↦ none | some (before, after) ↦ some (b ∷ before, after) ]

-- `rsplit_once` at a byte
unfoldable pub rsplit_once : ℕ → Bytes → Option (Bytes × Bytes)
rsplit_once sep [] = none
rsplit_once sep (b ∷ bs) = elim (rsplit_once sep bs) [
  | some (before, after) ↦ some (b ∷ before, after)
  | none ↦ if b == sep then some ([], bs) else none
]

-- `strip_prefix` of one byte
unfoldable pub strip_prefix : ℕ → Bytes → Option Bytes
strip_prefix sign [] = none
strip_prefix sign (b ∷ bs) = if b == sign then some bs else none

parse_digits : ℕ → Bytes → Option ℕ
parse_digits value [] = some value
parse_digits value (b ∷ bs) =
    let next = value * 10 + (b - b'0') in
    let rest = parse_digits next bs in
    if between b'0' b'9' b && leb next u64_max then rest else none

some_digits : Bytes → Option ℕ
unfolding parse_digits
some_digits [] = none
some_digits (b ∷ bs) = parse_digits 0 (b ∷ bs)

unsigned_digits : Option Bytes → Bytes → Option ℕ
unfolding some_digits
unsigned_digits (some digits) text = some_digits digits
unsigned_digits none text = some_digits text

-- `<u64 as FromStr>::from_str`: digits, after one `+` if there is one.
unfoldable pub parse_u64 : Bytes → Option ℕ
unfolding unsigned_digits
parse_u64 text = unsigned_digits (strip_prefix b'+' text) text

-- `[&str]::join`
unfoldable pub join_with : Bytes → List Bytes → Bytes
join_with sep [] = []
join_with sep (part ∷ []) = part
join_with sep (part ∷ next ∷ parts) = part ++ (sep ++ join_with sep (next ∷ parts))

abbrev pub is_empty : Bytes → Bool
is_empty [] = true
is_empty (b ∷ bs) = false

-- `str::split` at a byte: the parts, of which there is one at least.
unfoldable pub split_at : ℕ → Bytes → Bytes × List Bytes
split_at sep [] = ([], [])
split_at sep (b ∷ bs) =
    let (first, later) = split_at sep bs in
    if b == sep then ([], first ∷ later) else (b ∷ first, later)
