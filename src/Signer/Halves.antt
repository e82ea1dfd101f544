-- ===== src/Signer/Halves.antt =====
-- `SigningKey::at` of crates/git-attest/src/signer.rs: the two halves of a key pair, by their paths.
use git_anchor.Base.{
  ◌≡◌, ◌≢◌, refl, sym, ap, ◌∙◌, append_assoc, All-append, Bool, true, false, ◌&&◌, ◌||◌, Option,
  none, some, [], ◌∷◌, ◌++◌, ◌==◌, arith, Bool-cases, Option-cases, inl, inr,
}
use git_anchor.Base.Text.{Bytes, codes, same, same→eq}
use git_anchor.Base.Strings.{rsplit_once, is_empty}
use git_anchor.Base.Strings.Splits.{
  Without, rsplit_once_iff, Without-rsplit_once, rsplit_once-Without,
}
use git_anchor.Signer.{
  adds_none, up_to_name, folder_of, name_of, at_dot, parts, extension, without_extension, Host,
  is_pub, private_half, signing_key_at, resolve_signing_key,
}

abbrev dot_pub : Bytes
dot_pub = codes ".pub"

-- The last byte is a slash.
unfoldable pub ends_in_slash : Bytes → Bool
ends_in_slash [] = false
ends_in_slash (b ∷ []) = b == b'/'
ends_in_slash (b ∷ c ∷ bs) = ends_in_slash (c ∷ bs)

and_false : (b : Bool) → (b && false) ≡ false
and_false true = refl
and_false false = refl

adds_some : (after_slash : Bool) (path : Bytes) → adds_none after_slash (path ++ dot_pub) ≡ false
unfolding adds_none
adds_some true [] = refl
adds_some false [] = refl
adds_some after_slash (b ∷ bs) =
    rw (adds_some (b == b'/') bs) (and_false (b == b'/' || after_slash && b == b'.'))

up_to_name_pub : (path : Bytes) → up_to_name (path ++ dot_pub) ≡ path ++ dot_pub
unfolding up_to_name adds_none
up_to_name_pub [] = refl
up_to_name_pub (b ∷ bs) = rw (adds_some false (b ∷ bs), up_to_name_pub bs) refl

slash_at_end : (before : Bytes) → ends_in_slash (before ++ (b'/' ∷ [])) ≡ true
unfolding ends_in_slash
slash_at_end [] = refl
slash_at_end (b ∷ []) = refl
slash_at_end (b ∷ c ∷ bs) = slash_at_end (c ∷ bs)

-- A path names a file: it is not empty, and its last byte is not a slash.
abbrev pub NamesFile : Bytes → Type 0
NamesFile path = (is_empty path ≡ false) × (ends_in_slash path ≡ false)

not_dots : (stem : Bytes) → same (stem ++ dot_pub) (codes "..") ≡ false
unfolding same
not_dots [] = refl
not_dots (a ∷ []) = and_false (a == b'.')
not_dots (a ∷ b ∷ []) = rw (and_false (b == b'.')) (and_false (a == b'.'))
not_dots (a ∷ b ∷ c ∷ stem) = rw (and_false (b == b'.')) (and_false (a == b'.'))

no_dot_in_pub : Without b'.' (codes "pub")
no_dot_in_pub = ground arith

at_dot_stem :
    (stem : Bytes)
    → is_empty stem ≡ false
    → at_dot (stem ++ dot_pub) (rsplit_once b'.' (stem ++ dot_pub)) ≡ (stem, some (codes "pub"))
unfolding at_dot
at_dot_stem stem named =
    rw
      (
        (rsplit_once_iff b'.' (stem ++ dot_pub) stem (codes "pub")).1 (refl, no_dot_in_pub),
        named,
        not_dots stem,
      )
      refl

parts_at :
    (path : Bytes) {slash : Option (Bytes × Bytes)} {stem : Bytes} {ext : Option Bytes}
    → up_to_name path ≡ path
    → rsplit_once b'/' path ≡ slash
    → at_dot (name_of slash path) (rsplit_once b'.' (name_of slash path)) ≡ (stem, ext)
    → parts path ≡ (folder_of slash, stem, ext)
unfolding parts
parts_at path whole split dot = rw (whole, split, dot) refl

no_slash_in_pub : Without b'/' dot_pub
no_slash_in_pub = ground arith

slash_or_name :
    (before after : Bytes)
    → ends_in_slash (before ++ (b'/' ∷ after)) ≡ false
    → is_empty after ≡ false
slash_or_name before [] e = absurd (cc (slash_at_end before))
slash_or_name before (b ∷ after) e = refl

parts_pub :
    (path : Bytes)
    → NamesFile path
    → (folder : Bytes) × (stem : Bytes) × (parts (path ++ dot_pub)
        ≡ (folder, stem, some (codes "pub")))
      × (folder ++ stem ≡ path)
      × (is_empty stem ≡ false)
unfolding folder_of name_of
parts_pub path (full, ends) = elim (Option-cases (rsplit_once b'/' path)) [
  | inl no_slash ↦ (
    [],
    path,
    parts_at (path ++ dot_pub) (up_to_name_pub path)
        (Without-rsplit_once b'/' (path ++ dot_pub) (
          All-append (λ b. b ≢ b'/') path dot_pub (rsplit_once-Without b'/' path no_slash)
            no_slash_in_pub))
        (at_dot_stem path full),
    refl,
    full,
  )
  | inr ((before, after), slash) ↦
      let (path_is, h) = (rsplit_once_iff b'/' path before after).0 slash in
      let named = slash_or_name before after (sym (ap ends_in_slash path_is) ∙ ends) in
      (
        before ++ (b'/' ∷ []),
        after,
        parts_at (path ++ dot_pub) (up_to_name_pub path)
            ((rsplit_once_iff b'/' (path ++ dot_pub) before (after ++ dot_pub)).1 (
              ap (λ p. p ++ dot_pub) path_is ∙ append_assoc before (b'/' ∷ after) dot_pub,
              All-append (λ b. b ≢ b'/') after dot_pub h no_slash_in_pub,
            ))
            (at_dot_stem after named),
        append_assoc before (b'/' ∷ []) after ∙ sym path_is,
        named,
      )
]

module _ (path : Bytes) {folder stem : Bytes} {ext : Option Bytes}
    (e : parts path ≡ (folder, stem, ext)) where
  extension_of : extension path ≡ ext
  unfolding extension
  extension_of = ap (λ p. p.2) e

  without_extension_of : is_empty stem ≡ false → without_extension path ≡ folder ++ stem
  unfolding without_extension
  without_extension_of named = rw (e, named) refl

half_without :
    (path : Bytes) → is_pub (extension path) ≡ true → private_half path ≡ without_extension path
unfolding private_half
half_without path e = rw e refl

half_itself : (path : Bytes) → is_pub (extension path) ≡ false → private_half path ≡ path
unfolding private_half
half_itself path e = rw e refl

half_pub : (path : Bytes) → NamesFile path → private_half (path ++ dot_pub) ≡ path
unfolding is_pub same
half_pub path named =
    let (folder, stem, parts_are, path_is, full) = parts_pub path named in
    half_without (path ++ dot_pub) (ap is_pub (extension_of (path ++ dot_pub) parts_are))
    ∙ without_extension_of (path ++ dot_pub) parts_are full
    ∙ path_is

is_pub-eq-some : (ext : Option Bytes) → is_pub ext ≡ true → ext ≡ some (codes "pub")
unfolding is_pub
is_pub-eq-some none e = cc
is_pub-eq-some (some ext) e = ap some (same→eq ext (codes "pub") e)

half_other : (path : Bytes) → extension path ≢ some (codes "pub") → private_half path ≡ path
half_other path other = elim (Bool-cases (is_pub (extension path))) [
  | inl it_is ↦ absurd (other (is_pub-eq-some (extension path) it_is))
  | inr it_is_not ↦ half_itself path it_is_not
]

-- Either half of a key pair selects the same key: a path that names a file, of another extension than
-- `pub`, and the path with `.pub` after it.
pub resolve_signing_key-half :
    (host : Host) (path : Bytes)
    → NamesFile path
    → extension path ≢ some (codes "pub")
    → resolve_signing_key host (some (path ++ dot_pub)) ≡ resolve_signing_key host (some path)
unfolding resolve_signing_key signing_key_at
resolve_signing_key-half host path named other =
    rw (half_pub path named, half_other path other) refl
