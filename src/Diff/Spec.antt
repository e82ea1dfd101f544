-- ===== src/Diff/Spec.antt =====
-- Which changes two trees have: by looking each name up on both sides, with no walk and no pruning.
use git_anchor.Base.{ℕ, ◌≡◌, ◌↔◌, true, false, ◌&&◌, Option, none, some, List, In, ◌==◌}
use git_anchor.Base.Text.{Bytes}
use git_anchor.Base.Result.{ok}
use git_anchor.Diff.{TreeChange, TreeStore, DirEntry, entries, lookup, join, side, change}
use git_anchor.Diff.Names.{UniqueNames}

-- The change `c` lies between the trees `b` and `h`, found at a prefix. A name with different ids on
-- its two sides is the change itself, unless trees (or nothing) stand on both sides: then the change
-- lies inside.
pub data Differs (store : TreeStore) (c : TreeChange) : Bytes → Option ℕ → Option ℕ → Type 0 where
  changed :
      {p : Bytes} {b h : Option ℕ} (name : Bytes) (bs hs : List DirEntry) (x y : DirEntry)
      → entries store b ≡ ok bs
      → entries store h ≡ ok hs
      → lookup name bs ≡ some x
      → lookup name hs ≡ some y
      → (x.id == y.id) ≡ false
      → (store.is_tree x.mode && store.is_tree y.mode) ≡ false
      → c ≡ change (join p name) (side x) (side y)
      → Differs store c p b h
  added :
      {p : Bytes} {b h : Option ℕ} (name : Bytes) (bs hs : List DirEntry) (y : DirEntry)
      → entries store b ≡ ok bs
      → entries store h ≡ ok hs
      → lookup name bs ≡ none
      → lookup name hs ≡ some y
      → store.is_tree y.mode ≡ false
      → c ≡ change (join p name) none (side y)
      → Differs store c p b h
  removed :
      {p : Bytes} {b h : Option ℕ} (name : Bytes) (bs hs : List DirEntry) (x : DirEntry)
      → entries store b ≡ ok bs
      → entries store h ≡ ok hs
      → lookup name bs ≡ some x
      → lookup name hs ≡ none
      → store.is_tree x.mode ≡ false
      → c ≡ change (join p name) (side x) none
      → Differs store c p b h
  inside :
      {p : Bytes} {b h : Option ℕ} (name : Bytes) (bs hs : List DirEntry) (x y : DirEntry)
      → entries store b ≡ ok bs
      → entries store h ≡ ok hs
      → lookup name bs ≡ some x
      → lookup name hs ≡ some y
      → (x.id == y.id) ≡ false
      → (store.is_tree x.mode && store.is_tree y.mode) ≡ true
      → Differs store c (join p name) (some x.id) (some y.id)
      → Differs store c p b h
  inside_added :
      {p : Bytes} {b h : Option ℕ} (name : Bytes) (bs hs : List DirEntry) (y : DirEntry)
      → entries store b ≡ ok bs
      → entries store h ≡ ok hs
      → lookup name bs ≡ none
      → lookup name hs ≡ some y
      → store.is_tree y.mode ≡ true
      → Differs store c (join p name) none (some y.id)
      → Differs store c p b h
  inside_removed :
      {p : Bytes} {b h : Option ℕ} (name : Bytes) (bs hs : List DirEntry) (x : DirEntry)
      → entries store b ≡ ok bs
      → entries store h ≡ ok hs
      → lookup name bs ≡ some x
      → lookup name hs ≡ none
      → store.is_tree x.mode ≡ true
      → Differs store c (join p name) (some x.id) none
      → Differs store c p b h

-- Names in a stored tree are unique, as git's tree format has it.
abbrev pub StoreUnique : TreeStore → Type 0
StoreUnique store = (id : Option ℕ) (es : List DirEntry) → entries store id ≡ ok es → UniqueNames es

-- Iterating over a map visits its entries, in whatever order.
abbrev pub Visits : (List DirEntry → List DirEntry) → Type 0
Visits iterate = (m : List DirEntry) (x : DirEntry) → In x (iterate m) ↔ In x m
