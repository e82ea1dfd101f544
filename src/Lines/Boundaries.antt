-- ===== src/Lines/Boundaries.antt =====
-- The boundaries of a split text: line_boundaries of crates/git-anchor/src/util.rs.
use git_anchor.Base.{
  ℕ, zero, suc, ◌+◌, ◌-◌, ◌≤◌, ◌<◌, ◌≡◌, ◌≢◌, refl, sym, ap, ◌∙◌, subst, Bool, none, some, true,
  false, List, [], ◌∷◌, length, get_elem?, concat, take, drop, All, leb, if◌then◌else◌, arith,
  length-append, take-append-drop, take-length-append, concat-append, drop-append_right, min,
}
use git_anchor.Base.Text.{Bytes}
use git_anchor.Base.Words.{u64_max, saturating_add}
use git_anchor.Lines.{push_boundaries, position, rposition}

-- Where line `i` starts.
abbrev pub offset_of : List Bytes → ℕ → ℕ
offset_of ls i = length (concat (take i ls))

-- The offsets fit 64 bits.
abbrev pub Fits : ℕ → List Bytes → Type 0
Fits o ls = o + length (concat ls) ≤ u64_max

pub length-push_boundaries : (o : ℕ) (ls : List Bytes) → length (push_boundaries o ls) ≡ length ls
unfolding push_boundaries
length-push_boundaries o [] = refl
length-push_boundaries o (l ∷ ls) = ap suc (length-push_boundaries (saturating_add o (length l)) ls)

pub push_boundaries-cons :
    (o : ℕ) (l : Bytes) (ls : List Bytes)
    → Fits o (l ∷ ls)
    → push_boundaries o (l ∷ ls) ≡ (o + length l) ∷ push_boundaries (o + length l) ls
unfolding push_boundaries
push_boundaries-cons o l ls h =
    let e : min (o + length l) u64_max ≡ o + length l =
      omega (arith, length-append l (concat ls)) in
    rw e

pub Fits-tail : (o : ℕ) (l : Bytes) (ls : List Bytes) → Fits o (l ∷ ls) → Fits (o + length l) ls
Fits-tail o l ls h = omega (arith, length-append l (concat ls))

pub length-pos : (l : Bytes) → l ≢ [] → 0 < length l
length-pos [] h = absurd (h refl)
length-pos (x ∷ l) h = omega arith

-- Boundary `i` of the lines is the offset of line `i`.
pub get_elem?-boundaries :
    (o : ℕ) (ls : List Bytes) (i : ℕ)
    → Fits o ls
    → i ≤ length ls
    → get_elem? (o ∷ push_boundaries o ls) i ≡ some (o + offset_of ls i)
get_elem?-boundaries o ls zero f h = ap some (omega arith)
get_elem?-boundaries o [] (suc i) f h = absurd (omega arith)
get_elem?-boundaries o (l ∷ ls) (suc i) f h = rw (push_boundaries-cons o l ls f) (
    get_elem?-boundaries (o + length l) ls i (Fits-tail o l ls f) (omega arith)
    ∙ ap some (omega (arith, length-append l (concat (take i ls)))))

pub get_elem?_past :
    (o : ℕ) (ls : List Bytes) (i : ℕ)
    → length ls < i
    → get_elem? (o ∷ push_boundaries o ls) i ≡ none
unfolding push_boundaries
get_elem?_past o ls zero h = absurd (omega arith)
get_elem?_past o [] (suc i) h = refl
get_elem?_past o (l ∷ ls) (suc i) h =
    get_elem?_past (saturating_add o (length l)) ls i (omega arith)

module _ (p : ℕ → Bool) (x : ℕ) (xs : List ℕ) where
  pub rposition-cons_some : {i : ℕ} → rposition p xs ≡ some i → rposition p (x ∷ xs) ≡ some (suc i)
  unfolding rposition
  rposition-cons_some h = rw h

  pub rposition-cons_none :
      rposition p xs ≡ none → rposition p (x ∷ xs) ≡ (if p x then some 0 else none)
  unfolding rposition
  rposition-cons_none h = rw h

  pub position-cons_true : p x ≡ true → position p (x ∷ xs) ≡ some 0
  unfolding position
  position-cons_true h = rw h

  pub position-cons_false :
      {i : ℕ} → p x ≡ false → position p xs ≡ some i → position p (x ∷ xs) ≡ some (suc i)
  unfolding position
  position-cons_false h k = rw (h, k)

-- A boundary found from the right by `<=` is the line's own, since no line is empty.
rposition-none :
    (o s : ℕ) (ls : List Bytes)
    → Fits o ls
    → All (λ l. l ≢ []) ls
    → s ≤ o
    → rposition (λ b. leb b s) (push_boundaries o ls) ≡ none
unfolding rposition push_boundaries
rposition-none o s [] f ne h = refl
rposition-none o s (l ∷ ls) f ne h =
    subst (λ bs. rposition (λ b. leb b s) bs ≡ none) (sym (push_boundaries-cons o l ls f))
      (rposition-cons_none (λ b. leb b s) (o + length l) (push_boundaries (o + length l) ls)
          (rposition-none (o + length l) s ls (Fits-tail o l ls f) ne.1 (omega arith))
        ∙ ground (arith, length-pos l ne.0))

pub rposition_at :
    (o : ℕ) (ls : List Bytes) (k s : ℕ)
    → Fits o ls
    → All (λ l. l ≢ []) ls
    → k ≤ length ls
    → s ≡ o + offset_of ls k
    → rposition (λ b. leb b s) (o ∷ push_boundaries o ls) ≡ some k
rposition_at o ls zero s f ne h e =
    rposition-cons_none (λ b. leb b s) o (push_boundaries o ls)
      (rposition-none o s ls f ne (omega arith))
    ∙ ground arith
rposition_at o [] (suc k) s f ne h e = absurd (omega arith)
rposition_at o (l ∷ ls) (suc k) s f ne h e =
    rposition-cons_some (λ b. leb b s) o (push_boundaries o (l ∷ ls))
      (subst (λ bs. rposition (λ b. leb b s) bs ≡ some k) (sym (push_boundaries-cons o l ls f))
        (rposition_at (o + length l) ls k s (Fits-tail o l ls f) ne.1 (omega arith)
          (omega (arith, length-append l (concat (take k ls))))))

pub position_at :
    (o : ℕ) (ls : List Bytes) (k s : ℕ)
    → Fits o ls
    → All (λ l. l ≢ []) ls
    → k ≤ length ls
    → s ≡ o + offset_of ls k
    → position (λ b. leb s b) (o ∷ push_boundaries o ls) ≡ some k
position_at o ls zero s f ne h e =
    position-cons_true (λ b. leb s b) o (push_boundaries o ls) (ground arith)
position_at o [] (suc k) s f ne h e = absurd (omega arith)
position_at o (l ∷ ls) (suc k) s f ne h e =
    position-cons_false (λ b. leb s b) o (push_boundaries o (l ∷ ls))
      (ground (arith, length-pos l ne.0, length-append l (concat (take k ls))))
      (subst (λ bs. position (λ b. leb s b) bs ≡ some k) (sym (push_boundaries-cons o l ls f))
        (position_at (o + length l) ls k s (Fits-tail o l ls f) ne.1 (omega arith)
          (omega (arith, length-append l (concat (take k ls))))))

-- Offsets grow with the line number, strictly.
pub offset_of-le : (ls : List Bytes) (i j : ℕ) → i ≤ j → offset_of ls i ≤ offset_of ls j
offset_of-le ls zero j h = omega arith
offset_of-le ls (suc i) zero h = absurd (omega arith)
offset_of-le [] (suc i) (suc j) h = omega arith
offset_of-le (l ∷ ls) (suc i) (suc j) h = omega (
  arith,
  length-append l (concat (take i ls)),
  length-append l (concat (take j ls)),
  offset_of-le ls i j (omega arith),
)

pub offset_of-lt :
    (ls : List Bytes) (i j : ℕ)
    → All (λ l. l ≢ []) ls
    → i < j
    → j ≤ length ls
    → offset_of ls i < offset_of ls j
offset_of-lt ls i zero ne h k = absurd (omega arith)
offset_of-lt [] i (suc j) ne h k = absurd (omega arith)
offset_of-lt (l ∷ ls) zero (suc j) ne h k =
    omega (arith, length-pos l ne.0, length-append l (concat (take j ls)))
offset_of-lt (l ∷ ls) (suc i) (suc j) ne h k = omega (
  arith,
  length-append l (concat (take i ls)),
  length-append l (concat (take j ls)),
  offset_of-lt ls i j ne.1 (omega arith) (omega arith),
)

pub offset_of-le_length : (ls : List Bytes) (i : ℕ) → offset_of ls i ≤ length (concat ls)
offset_of-le_length ls zero = omega arith
offset_of-le_length [] (suc i) = omega arith
offset_of-le_length (l ∷ ls) (suc i) = omega (
  arith,
  length-append l (concat (take i ls)),
  length-append l (concat ls),
  offset_of-le_length ls i,
)

-- The bytes between two offsets are the lines between them.
pub drop-offset_of :
    (ls : List Bytes) (i : ℕ) → drop (offset_of ls i) (concat ls) ≡ concat (drop i ls)
drop-offset_of ls zero = refl
drop-offset_of [] (suc i) = refl
drop-offset_of (l ∷ ls) (suc i) =
    drop-append_right (offset_of (l ∷ ls) (suc i)) l (concat ls)
      (omega (arith, length-append l (concat (take i ls))))
    ∙ ap (λ (k : ℕ). drop k (concat ls)) {x = offset_of (l ∷ ls) (suc i) - length l}
        {y = offset_of ls i} (omega (arith, length-append l (concat (take i ls))))
    ∙ drop-offset_of ls i

pub take-offset_of :
    (ls : List Bytes) (i : ℕ) → take (offset_of ls i) (concat ls) ≡ concat (take i ls)
take-offset_of ls i =
    ap (λ (t : List ℕ). take (offset_of ls i) t)
      (sym (ap concat (take-append-drop i ls)) ∙ concat-append (take i ls) (drop i ls))
    ∙ take-length-append (concat (take i ls)) (concat (drop i ls))

offset_of-nil : (i : ℕ) → offset_of [] i ≡ 0
offset_of-nil zero = refl
offset_of-nil (suc i) = refl

drop-nil {ℓ} : {A : Type ℓ} (i : ℕ) → drop {A = A} i [] ≡ []
drop-nil zero = refl
drop-nil (suc i) = refl

-- Offsets add up.
pub offset_of-add :
    (ls : List Bytes) (i k j : ℕ)
    → j ≡ i + k
    → offset_of ls j ≡ offset_of ls i + offset_of (drop i ls) k
offset_of-add ls zero k j e = let e' : j ≡ k = omega arith in rw e' (omega arith)
offset_of-add ls (suc i) k zero e = absurd (omega arith)
offset_of-add [] (suc i) k (suc j) e = omega (arith, offset_of-nil k)
offset_of-add (l ∷ ls) (suc i) k (suc j) e = omega (
  arith,
  length-append l (concat (take i ls)),
  length-append l (concat (take j ls)),
  offset_of-add ls i k j (omega arith),
)

-- The bytes from one boundary to another are the lines between.
pub take-drop-offset_of :
    (ls : List Bytes) (i k : ℕ) (from to : ℕ)
    → from ≡ offset_of ls i
    → to ≡ offset_of ls (i + k)
    → take (to - from) (drop from (concat ls)) ≡ concat (take k (drop i ls))
take-drop-offset_of ls i k from to p q =
    rw (p, drop-offset_of)
      (ap (λ (n : ℕ). take n (concat (drop i ls))) {x = to - offset_of ls i}
          {y = offset_of (drop i ls) k} (omega (arith, offset_of-add ls i k (i + k) refl))
        ∙ take-offset_of (drop i ls) k)
