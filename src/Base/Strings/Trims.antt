-- ===== src/Base/Strings/Trims.antt =====
-- `trim` of Base/Strings on a text of printing ASCII characters.
use Prim.Native.Nat.{ℕ, zero, ◌≤◌}
use mathlib.Core.Path.{◌≡◌, refl, sym, subst}
use mathlib.Core.List.{List, [], ◌∷◌, reverse, reverse-cons, reverse-reverse}
use native.Mathlib.Omega.{arith}
use git_anchor.Base.Lists.{All, All-append}
use git_anchor.Base.Text.{Bytes}
use git_anchor.Base.Strings.{white_start, white_end, trim_from, trim_start, trim_end, trim}

abbrev pub IsGraphic : ℕ → Type 0
IsGraphic b = (33 ≤ b) × (b ≤ 126)

All-reverse : {A : Type 0} (P : A → Type 0) (xs : List A) → All P xs → All P (reverse xs)
All-reverse P [] h = tt
All-reverse P (x ∷ xs) (p, h) =
    subst (All P) (sym (reverse-cons x xs))
      (All-append P (reverse xs) (x ∷ []) (All-reverse P xs h) (p, tt))

white_start_graphic : (b : ℕ) (bs : Bytes) → IsGraphic b → white_start (b ∷ bs) ≡ zero
unfolding white_start
white_start_graphic b [] h = ground arith
white_start_graphic b (c ∷ []) h = ground arith
white_start_graphic b (c ∷ d ∷ bs) h = ground arith

white_end_graphic : (b : ℕ) (bs : Bytes) → IsGraphic b → white_end (b ∷ bs) ≡ zero
unfolding white_end
white_end_graphic b [] h = ground arith
white_end_graphic b (c ∷ []) h = ground arith
white_end_graphic b (c ∷ d ∷ bs) h = ground arith

trim_from_kept :
    (white : Bytes → ℕ) (b : ℕ) (bs : Bytes)
    → white (b ∷ bs) ≡ zero
    → trim_from white 0 (b ∷ bs) ≡ b ∷ bs
unfolding trim_from
trim_from_kept white b bs e = rw (e, trim_from) refl

trim_start_graphic : (text : Bytes) → All IsGraphic text → trim_start text ≡ text
unfolding trim_start trim_from
trim_start_graphic [] h = refl
trim_start_graphic (b ∷ bs) (p, h) = trim_from_kept white_start b bs (white_start_graphic b bs p)

trim_backwards : (text : Bytes) → All IsGraphic text → trim_from white_end 0 text ≡ text
unfolding trim_from
trim_backwards [] h = refl
trim_backwards (b ∷ bs) (p, h) = trim_from_kept white_end b bs (white_end_graphic b bs p)

-- A text of printing ASCII characters has nothing to trim.
pub trim_graphic : (text : Bytes) → All IsGraphic text → trim text ≡ text
unfolding trim trim_end
trim_graphic text h =
    rw (trim_start_graphic text h, trim_backwards (reverse text) (All-reverse IsGraphic text h))
      (reverse-reverse text)
