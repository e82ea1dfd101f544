-- ===== src/Diff/Names.antt =====
-- Directories as maps by name: what looking up, removing and collecting do.
use git_anchor.Base.{
  ◌≡◌, inl, inr, refl, sym, ap, ◌∙◌, subst, false, none, some, List, [], ◌∷◌, All, In, arith,
  Bool-cases, Option-cases,
}
use git_anchor.Base.Text.{Bytes, same, same_refl, same→eq, same_iff}
use git_anchor.Diff.{DirEntry, lookup, erase, insert, collect_onto}

-- No entry has the name.
abbrev pub Fresh : Bytes → List DirEntry → Type 0
Fresh name es = All (λ e. same e.name name ≡ false) es

-- No two entries have one name, as in every git tree.
abbrev pub UniqueNames : List DirEntry → Type 0
UniqueNames [] = Unit
UniqueNames (e ∷ es) = Fresh e.name es × UniqueNames es

pub same_comm : (a b : Bytes) → same a b ≡ same b a
unfolding same
same_comm [] [] = refl
same_comm [] (y ∷ ys) = refl
same_comm (x ∷ xs) [] = refl
same_comm (x ∷ xs) (y ∷ ys) = ground (arith, same_comm xs ys)

pub lookup-Fresh : (name : Bytes) (es : List DirEntry) → Fresh name es → lookup name es ≡ none
lookup-Fresh name [] f = refl
lookup-Fresh name (e ∷ es) (f, fs) = rw f (lookup-Fresh name es fs)

pub Fresh-lookup : (name : Bytes) (es : List DirEntry) → lookup name es ≡ none → Fresh name es
Fresh-lookup name [] h = tt
Fresh-lookup name (e ∷ es) h = elim (Bool-cases (same e.name name)) [
  | inl eq ↦ absurd (ground arith)
  | inr ne ↦ (ne, Fresh-lookup name es (rw ne at h))
]

pub In-lookup :
    (name : Bytes) (es : List DirEntry) {e : DirEntry}
    → lookup name es ≡ some e
    → In e es × (e.name ≡ name)
In-lookup name [] h = absurd (cc)
In-lookup name (x ∷ es) {e} h = elim (Bool-cases (same x.name name)) [
  | inl eq ↦
      let x_is : x ≡ e = ground arith in
      (inl (sym x_is), ap (λ (d : DirEntry). d.name) (sym x_is) ∙ same→eq x.name name eq)
  | inr ne ↦ let (i, n) = In-lookup name es {e = e} (rw ne at h) in (inr i, n)
]

pub Fresh-In :
    (name : Bytes) (es : List DirEntry) (e : DirEntry)
    → Fresh name es
    → In e es
    → same e.name name ≡ false
Fresh-In name [] e f m = absurd m
Fresh-In name (x ∷ es) e (f, fs) (inl h) = rw h f
Fresh-In name (x ∷ es) e (f, fs) (inr h) = Fresh-In name es e fs h

pub lookup-In :
    (es : List DirEntry) {e : DirEntry} → UniqueNames es → In e es → lookup e.name es ≡ some e
lookup-In [] u m = absurd m
lookup-In (x ∷ es) {e} (f, u) (inl h) = rw h (rw same_refl refl)
lookup-In (x ∷ es) {e} (f, u) (inr h) =
    let ne : same x.name e.name ≡ false = same_comm x.name e.name ∙ Fresh-In x.name es e f h in
    rw ne (lookup-In es u h)

-- Removing one name leaves the others.
pub lookup-erase_ne :
    (name other : Bytes) (es : List DirEntry)
    → same other name ≡ false
    → lookup name (erase other es) ≡ lookup name es
lookup-erase_ne name other [] h = refl
lookup-erase_ne name other (e ∷ es) h = ground (
  arith,
  lookup-erase_ne name other es h,
  same_iff e.name other,
  same_iff e.name name,
  same_iff other name,
)

pub Fresh-erase : (name : Bytes) (es : List DirEntry) → Fresh name (erase name es)
Fresh-erase name [] = tt
Fresh-erase name (e ∷ es) = elim (Bool-cases (same e.name name)) [
  | inl eq ↦ rw eq (Fresh-erase name es)
  | inr ne ↦ rw ne (ne, Fresh-erase name es)
]

Fresh-erase_ne :
    (name other : Bytes) (es : List DirEntry) → Fresh name es → Fresh name (erase other es)
Fresh-erase_ne name other [] f = tt
Fresh-erase_ne name other (e ∷ es) (f, fs) = elim (Bool-cases (same e.name other)) [
  | inl eq ↦ rw eq (Fresh-erase_ne name other es fs)
  | inr ne ↦ rw ne (f, Fresh-erase_ne name other es fs)
]

pub UniqueNames-erase :
    (name : Bytes) (es : List DirEntry) → UniqueNames es → UniqueNames (erase name es)
UniqueNames-erase name [] u = tt
UniqueNames-erase name (e ∷ es) (f, u) = elim (Bool-cases (same e.name name)) [
  | inl eq ↦ rw eq (UniqueNames-erase name es u)
  | inr ne ↦ rw ne (Fresh-erase_ne e.name name es f, UniqueNames-erase name es u)
]

pub UniqueNames-insert :
    (e : DirEntry) (m : List DirEntry) → UniqueNames m → UniqueNames (insert e m)
UniqueNames-insert e m u = (Fresh-erase e.name m, UniqueNames-erase e.name m u)

pub UniqueNames-collect_onto :
    (m es : List DirEntry) → UniqueNames m → UniqueNames (collect_onto m es)
unfolding collect_onto
UniqueNames-collect_onto m [] u = u
UniqueNames-collect_onto m (e ∷ es) u =
    UniqueNames-collect_onto (insert e m) es (UniqueNames-insert e m u)

-- The collected map answers like the list it was collected from.
collect_onto-Fresh :
    (name : Bytes) (m es : List DirEntry)
    → Fresh name es
    → lookup name (collect_onto m es) ≡ lookup name m
unfolding collect_onto
collect_onto-Fresh name m [] f = refl
collect_onto-Fresh name m (e ∷ es) (f, fs) =
    collect_onto-Fresh name (insert e m) es fs ∙ rw f (lookup-erase_ne name e.name m f)

collect_onto-some :
    (name : Bytes) (m es : List DirEntry) (e : DirEntry)
    → UniqueNames es
    → lookup name es ≡ some e
    → lookup name (collect_onto m es) ≡ some e
unfolding collect_onto
collect_onto-some name m [] e u h = absurd (cc)
collect_onto-some name m (x ∷ es) e (f, u) h = elim (Bool-cases (same x.name name)) [
  | inl eq ↦
      let x_is : x ≡ e = ground arith in
      let n_is : x.name ≡ name = same→eq x.name name eq in
      let f' : Fresh name es = subst (λ (n : Bytes). Fresh n es) n_is f in
      collect_onto-Fresh name (insert x m) es f' ∙ rw eq (ap some x_is)
  | inr ne ↦ collect_onto-some name (insert x m) es e u (rw ne at h)
]

pub lookup-collect :
    (name : Bytes) (es : List DirEntry)
    → UniqueNames es
    → lookup name (collect_onto [] es) ≡ lookup name es
lookup-collect name es u = elim (Option-cases (lookup name es)) [
  | inl none_there ↦
      collect_onto-Fresh name [] es (Fresh-lookup name es none_there) ∙ sym none_there
  | inr (e, there) ↦ collect_onto-some name [] es e u there ∙ sym there
]

-- What remains of a map once the names of a list are removed.
abbrev pub erase_all : List DirEntry → List DirEntry → List DirEntry
erase_all [] m = m
erase_all (e ∷ es) m = erase_all es (erase e.name m)

In-erase :
    (name : Bytes) (m : List DirEntry) (x : DirEntry)
    → In x (erase name m)
    → In x m × (same x.name name ≡ false)
In-erase name [] x i = absurd i
In-erase name (e ∷ m) x i = elim (Bool-cases (same e.name name)) [
  | inl eq ↦ let (j, n) = In-erase name m x (rw eq at i) in (inr j, n)
  | inr ne ↦ elim (let split : In x (e ∷ erase name m) = rw ne at i in split) [
    | inl h ↦ (inl h, rw h ne)
    | inr h ↦ let (j, n) = In-erase name m x h in (inr j, n)
  ]
]

pub In-erase_all :
    (es m : List DirEntry) (x : DirEntry) → In x (erase_all es m) → In x m × Fresh x.name es
In-erase_all [] m x i = (i, tt)
In-erase_all (e ∷ es) m x i =
    let (j, f) = In-erase_all es (erase e.name m) x i in
    let (k, n) = In-erase e.name m x j in (k, (same_comm e.name x.name ∙ n, f))

pub UniqueNames-erase_all : (es m : List DirEntry) → UniqueNames m → UniqueNames (erase_all es m)
UniqueNames-erase_all [] m u = u
UniqueNames-erase_all (e ∷ es) m u =
    UniqueNames-erase_all es (erase e.name m) (UniqueNames-erase e.name m u)

pub lookup-erase_all :
    (name : Bytes) (es m : List DirEntry)
    → Fresh name es
    → lookup name (erase_all es m) ≡ lookup name m
lookup-erase_all name [] m f = refl
lookup-erase_all name (e ∷ es) m (f, fs) =
    lookup-erase_all name es (erase e.name m) fs ∙ lookup-erase_ne name e.name m f
