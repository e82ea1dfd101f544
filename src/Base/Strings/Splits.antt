-- ===== src/Base/Strings/Splits.antt =====
-- `split_once` and `rsplit_once` of Base/Strings: the place they split at.
use Prim.Native.Nat.{ℕ}
use mathlib.Core.Path.{◌≡◌, refl, sym, ap, ◌∙◌, subst}
use mathlib.Core.Logic.{◌≢◌, ◌↔◌, inl, inr}
use mathlib.Core.Bool.{true, false}
use mathlib.Core.Option.{Option, none, some}
use mathlib.Core.List.{[], ◌∷◌, ◌++◌}
use native.Mathlib.Omega.{arith}
use git_anchor.Base.Tests.{◌==◌, ==_iff, ==_refl, Bool-cases, Option-cases}
use git_anchor.Base.Lists.{All}
use git_anchor.Base.Text.{Bytes}
use git_anchor.Base.Strings.{split_once, rsplit_once}

-- The byte does not occur.
abbrev pub Without : ℕ → Bytes → Type 0
Without sep text = All (λ b. b ≢ sep) text

differ : (a b : ℕ) → a ≢ b → (a == b) ≡ false
differ a b ne = ground arith

same_byte : (a b : ℕ) → a ≡ b → (a == b) ≡ true
same_byte a b e = rw e (==_refl b)

module _ (sep b : ℕ) (bs : Bytes) where
  rsplit_later :
      (before after : Bytes)
      → rsplit_once sep bs ≡ some (before, after)
      → rsplit_once sep (b ∷ bs) ≡ some (b ∷ before, after)
  unfolding rsplit_once
  rsplit_later before after e = rw e refl

  rsplit_here : rsplit_once sep bs ≡ none → b ≡ sep → rsplit_once sep (b ∷ bs) ≡ some ([], bs)
  unfolding rsplit_once
  rsplit_here e it_is = rw (e, same_byte b sep it_is) refl

  rsplit_nowhere : rsplit_once sep bs ≡ none → b ≢ sep → rsplit_once sep (b ∷ bs) ≡ none
  unfolding rsplit_once
  rsplit_nowhere e it_is_not = rw (e, differ b sep it_is_not) refl

rsplit_empty : (sep : ℕ) → rsplit_once sep [] ≡ none
unfolding rsplit_once
rsplit_empty sep = refl

pub rsplit_once-Without : (sep : ℕ) (text : Bytes) → rsplit_once sep text ≡ none → Without sep text
rsplit_once-Without sep [] e = tt
rsplit_once-Without sep (b ∷ bs) e = elim (Option-cases (rsplit_once sep bs)) [
  | inl later ↦
      (λ it_is. absurd (cc (rsplit_here sep b bs later it_is)), rsplit_once-Without sep bs later)
  | inr ((before, after), later) ↦ absurd (cc (rsplit_later sep b bs before after later))
]

pub Without-rsplit_once : (sep : ℕ) (text : Bytes) → Without sep text → rsplit_once sep text ≡ none
Without-rsplit_once sep [] h = rsplit_empty sep
Without-rsplit_once sep (b ∷ bs) (ne, h) = rsplit_nowhere sep b bs (Without-rsplit_once sep bs h) ne

rsplit_once-append :
    (sep : ℕ) (before after : Bytes)
    → Without sep after
    → rsplit_once sep (before ++ (sep ∷ after)) ≡ some (before, after)
rsplit_once-append sep [] after h = rsplit_here sep sep after (Without-rsplit_once sep after h) refl
rsplit_once-append sep (b ∷ before) after h =
    rsplit_later sep b (before ++ (sep ∷ after)) before after
      (rsplit_once-append sep before after h)

pair_eq :
    (a b c d : Bytes)
    → ◌≡◌ {A = Option (Bytes × Bytes)} (some (a, b)) (some (c, d))
    → (a ≡ c) × (b ≡ d)
pair_eq a b c d e = ground arith

rsplit_once-eq-some :
    (sep : ℕ) (text before after : Bytes)
    → rsplit_once sep text ≡ some (before, after)
    → (text ≡ before ++ (sep ∷ after)) × Without sep after
rsplit_once-eq-some sep [] before after e = absurd (cc (rsplit_empty sep))
rsplit_once-eq-some sep (b ∷ bs) before after e = elim (Option-cases (rsplit_once sep bs)) [
  | inr ((first, last), later) ↦
      let (before_is, after_is) =
        pair_eq (b ∷ first) last before after (sym (rsplit_later sep b bs first last later) ∙ e) in
      let (bs_is, h) = rsplit_once-eq-some sep bs first last later in
      (rw (sym before_is, sym after_is) (ap (◌∷◌ b) bs_is), subst (Without sep) after_is h)
  | inl later ↦ elim (Bool-cases (b == sep)) [
    | inr it_is_not ↦
        absurd (cc (rsplit_nowhere sep b bs later (λ it_is. absurd (cc (same_byte b sep it_is)))))
    | inl it_is ↦
        let b_is = (==_iff b sep).0 it_is in
        let (before_is, after_is) =
          pair_eq [] bs before after (sym (rsplit_here sep b bs later b_is) ∙ e) in
        (
          rw (sym before_is, sym after_is, b_is) refl,
          subst (Without sep) after_is (rsplit_once-Without sep bs later),
        )
  ]
]

-- A text is split at the last separator exactly where it is the two parts around it, and none is left.
pub rsplit_once_iff :
    (sep : ℕ) (text before after : Bytes)
    → (rsplit_once sep text ≡ some (before, after))
      ↔ (text ≡ before ++ (sep ∷ after)) × Without sep after
rsplit_once_iff sep text before after = (
  rsplit_once-eq-some sep text before after,
  λ (text_is, h). ap (rsplit_once sep) text_is ∙ rsplit_once-append sep before after h,
)

split_empty : (sep : ℕ) → split_once sep [] ≡ none
unfolding split_once
split_empty sep = refl

pub split_once-append :
    (sep : ℕ) (before after : Bytes)
    → Without sep before
    → split_once sep (before ++ (sep ∷ after)) ≡ some (before, after)
unfolding split_once
split_once-append sep [] after h = rw (same_byte sep sep refl) refl
split_once-append sep (b ∷ before) after (ne, h) =
    rw (differ b sep ne, split_once-append sep before after h) refl

pub split_once-none : (sep : ℕ) (text : Bytes) → Without sep text → split_once sep text ≡ none
unfolding split_once
split_once-none sep [] h = refl
split_once-none sep (b ∷ bs) (ne, h) = rw (differ b sep ne, split_once-none sep bs h) refl
