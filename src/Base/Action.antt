-- ===== src/Base/Action.antt =====
-- Stateful fallible code: a state is passed on, and comes back with an error too, since what was
-- written stays written.
use mathlib.Core.Path.{◌≡◌, refl}
use native.Mathlib.Omega.{arith}
use git_anchor.Base.Result.{Result, ok, err, map_err}

abbrev pub Action : Type 0 → Type 0 → Type 0 → Type 0
Action S E A = S → Result E A × S

-- `()`
abbrev pub Done : Type 0
Done = Unit

module _ {S E A : Type 0} where
  abbrev pub pure : A → Action S E A
  pure a s = (ok a, s)

  abbrev pub fails : E → Action S E A
  fails e s = (err e, s)

  -- A computation that reads the state and leaves it as it is.
  abbrev pub reads : (S → Result E A) → Action S E A
  reads f s = (f s, s)

  abbrev pub returns : Result E A → Action S E A
  returns r s = (r, s)

abbrev pub fails_as : {S E F A : Type 0} → (E → F) → Action S E A → Action S F A
fails_as f m s = let (r, s') = m s in (map_err f r, s')

abbrev pub after : {S E A B : Type 0} → Result E A × S → (A → Action S E B) → Result E B × S
after (ok a, s) k = k a s
after (err e, s) k = (err e, s)

infixl 5 ◌>>=◌
abbrev pub ◌>>=◌ : {S E A B : Type 0} → Action S E A → (A → Action S E B) → Action S E B
(m >>= k) s = after (m s) k

pub after-eq-ok :
    {S E A B : Type 0} (m : Result E A × S) (k : A → Action S E B) {b : B} {s' : S}
    → after m k ≡ (ok b, s')
    → (a : A) × (s1 : S) × (m ≡ (ok a, s1)) × (k a s1 ≡ (ok b, s'))
after-eq-ok (ok a, s) k e = (a, s, refl, e)
after-eq-ok (err x, s) k e = cc

pub fails_as-eq-ok :
    {S E F A : Type 0} (f : E → F) (m : Result E A × S) (a : A) (s' : S)
    → ◌≡◌ {A = Result F A × S} (map_err f m.0, m.1) (ok a, s')
    → m ≡ (ok a, s')
fails_as-eq-ok f (ok b, s) a s' e = ground arith
fails_as-eq-ok f (err x, s) a s' e = absurd (ground arith)

pub returns-eq-ok :
    {S E F A : Type 0} (f : E → F) (r : Result E A) (s : S) (a : A) (s' : S)
    → ◌≡◌ {A = Result F A × S} (map_err f r, s) (ok a, s')
    → (r ≡ ok a) × (s ≡ s')
returns-eq-ok f (ok b) s a s' e = ground arith
returns-eq-ok f (err x) s a s' e = absurd (ground arith)

-- An action on the first of two states, and one on the second that reads the first.
module _ {S T E A : Type 0} where
  abbrev pub on_store : Action S E A → Action (S × T) E A
  on_store m (s, t) = let (r, s') = m s in (r, (s', t))

  abbrev pub on_output : (S → Action T E A) → Action (S × T) E A
  on_output m (s, t) = let (r, t') = m s t in (r, (s, t'))
