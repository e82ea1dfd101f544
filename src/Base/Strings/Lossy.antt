-- ===== src/Base/Strings/Lossy.antt =====
-- `String::from_utf8_lossy` on bytes.
use git_anchor.Base.Strings.{between, expects}
use Prim.Native.Nat.{ℕ, zero, suc}
use mathlib.Core.Option.{Option, none, some}
use mathlib.Core.List.{[], ◌∷◌, ◌++◌}
use git_anchor.Base.Tests.{if◌then◌else◌}
use git_anchor.Base.Text.{Bytes}

-- Decoding that has read the start of a character, and expects further bytes between two bounds.
pub data Decoding : Type 0 where
  idle : Decoding
  pending : Bytes → ℕ → ℕ → ℕ → Decoding

abbrev replacement : Bytes
replacement = 0xef ∷ 0xbf ∷ 0xbd ∷ []

decode_first : ℕ → Option (ℕ × ℕ × ℕ) → Bytes × Decoding
decode_first b none = (replacement, idle)
decode_first b (some (zero, low, high)) = (b ∷ [], idle)
decode_first b (some (suc n, low, high)) = ([], pending (b ∷ []) n low high)

decode_next : Decoding → ℕ → Bytes × Decoding
unfolding decode_first
decode_next idle b = decode_first b (expects b)
decode_next (pending read zero low high) b =
    let (out, next) = decode_first b (expects b) in
    if between low high b then (read ++ (b ∷ []), idle) else (replacement ++ out, next)
decode_next (pending read (suc n) low high) b =
    let (out, next) = decode_first b (expects b) in
    if between low high b
    then ([], pending (read ++ (b ∷ [])) n 0x80 0xbf)
    else (replacement ++ out, next)

decode_from : Decoding → Bytes → Bytes
unfolding decode_next
decode_from idle [] = []
decode_from (pending read n low high) [] = replacement
decode_from state (b ∷ bs) = let (out, next) = decode_next state b in out ++ decode_from next bs

-- `String::from_utf8_lossy`
unfoldable pub from_utf8_lossy : Bytes → Bytes
unfolding decode_from
from_utf8_lossy bytes = decode_from idle bytes
