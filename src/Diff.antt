-- ===== src/Diff.antt =====
-- crates/git-anchor/src/diff.rs: the structural diff of two trees by object id. The object store and
-- the tree decoder are gix's, a parameter; the order in which a `HashMap` is iterated is the
-- parameter `iterate`. The recursion takes fuel, and says when it runs out.
pub mod Names
pub mod Spec
pub mod Loops
pub mod Sound
pub mod Complete
pub mod Sorted
pub mod Ends
use git_anchor.Base.{
  ℕ, zero, suc, ◌≡◌, Bool, true, false, not, ◌&&◌, ◌||◌, Option, none, some, List, [], ◌∷◌, ◌++◌,
  ◌==◌, ltb, if◌then◌else◌,
}
use git_anchor.Base.Text.{Bytes, codes, same}
use git_anchor.Base.Result.{Result, ok, err, map_err, ◌>>=◌}
use git_anchor.Error.{Error, object, Stop, failed, exhausted}

-- The object id and the mode of an entry.
abbrev pub Side : Type 0
Side = ℕ × ℕ

pub record TreeChange : Type 0 where
  pub path : Bytes
  pub base : Option Side
  pub head : Option Side

-- `(String, ObjectId, EntryMode)`
pub record DirEntry : Type 0 where
  pub name : Bytes
  pub id : ℕ
  pub mode : ℕ

-- `gix_object::Data`
pub record Data : Type 0 where
  pub kind_is_tree : Bool
  pub bytes : Bytes

pub record TreeStore : Type 0 where
  pub try_find : ℕ → Result Bytes (Option Data)
  -- `TreeRef::from_bytes`
  pub from_bytes : Bytes → Result Bytes (List DirEntry)
  pub is_utf8 : Bytes → Bool
  pub is_tree : ℕ → Bool
  pub hex : ℕ → Bytes

abbrev pub empty_tree : ℕ
empty_tree = 0x4b825dc642cb6eb9a060e54bf8d69288fbee4904

-- `join`
unfoldable pub join : Bytes → Bytes → Bytes
join [] name = name
join (b ∷ prefix) name = (b ∷ prefix) ++ (b'/' ∷ name)

unfoldable pub check_names : (Bytes → Bool) → Bytes → List DirEntry → Result Error (List DirEntry)
check_names is_utf8 id_text [] = ok []
check_names is_utf8 id_text (e ∷ es) =
    if is_utf8 e.name
    then (do rest ← check_names is_utf8 id_text es; ok (e ∷ rest))
    else err (object (codes "non-utf8 entry name in tree " ++ id_text))

module _ (store : TreeStore) where
  open store use {try_find, from_bytes, is_utf8, is_tree, hex}

  unfoldable pub decode : ℕ → Option Data → Result Error (List DirEntry)
  decode id none = err (object (codes "object " ++ (hex id ++ codes " not found")))
  decode id (some found) =
      if found.kind_is_tree
      then (do raw ← map_err object (from_bytes found.bytes); check_names is_utf8 (hex id) raw)
      else err (object (hex id ++ codes " is not a tree"))

  unfoldable pub entries : Option ℕ → Result Error (List DirEntry)
  entries none = ok []
  entries (some id) =
      if id == empty_tree then ok [] else do found ← map_err object (try_find id); decode id found

-- `HashMap::get`, `remove` and `insert`, by name.
abbrev pub lookup : Bytes → List DirEntry → Option DirEntry
lookup name [] = none
lookup name (e ∷ es) = if same e.name name then some e else lookup name es

abbrev pub erase : Bytes → List DirEntry → List DirEntry
erase name [] = []
erase name (e ∷ es) = let rest = erase name es in if same e.name name then rest else e ∷ rest

abbrev pub insert : DirEntry → List DirEntry → List DirEntry
insert e es = e ∷ erase e.name es

-- `iter().collect::<HashMap<_, _>>()`
unfoldable pub collect_onto : List DirEntry → List DirEntry → List DirEntry
collect_onto m [] = m
collect_onto m (e ∷ es) = collect_onto (insert e m) es

abbrev pub Walk : Type 0
Walk = Result Stop (List TreeChange)

abbrev pub side : DirEntry → Option Side
side e = some (e.id, e.mode)

abbrev pub change : Bytes → Option Side → Option Side → TreeChange
change path base head = record { path = path; base = base; head = head }

-- `Option<ObjectId>` equality
abbrev pub same_id : Option ℕ → Option ℕ → Bool
same_id none none = true
same_id (some a) (some b) = a == b
same_id _ _ = false

module _ (is_tree : ℕ → Bool) (descend : Bytes → Option ℕ → Option ℕ → Walk) where
  -- The `match` on `remaining.remove(name)`.
  unfoldable pub head_entry : Bytes → DirEntry → Option DirEntry → Walk
  head_entry path h (some b) =
      if b.id == h.id
      then ok []
      else if is_tree b.mode && is_tree h.mode
      then descend path (some b.id) (some h.id)
      else ok (change path (side b) (side h) ∷ [])
  head_entry path h none =
      if is_tree h.mode then descend path none (some h.id) else ok (change path none (side h) ∷ [])

  -- The loop over the head's entries, and what then remains of the base's.
  unfoldable pub head_loop :
      Bytes → List DirEntry → List DirEntry → Result Stop (List TreeChange × List DirEntry)
  head_loop prefix [] remaining = ok ([], remaining)
  head_loop prefix (h ∷ hs) remaining =
      let rest = head_loop prefix hs (erase h.name remaining) in
      do
        here ← head_entry (join prefix h.name) h (lookup h.name remaining)
        later ← rest
        ok (here ++ later.0, later.1)

  unfoldable pub base_entry : Bytes → DirEntry → Walk
  base_entry path b =
      if is_tree b.mode then descend path (some b.id) none else ok (change path (side b) none ∷ [])

  unfoldable pub base_loop : Bytes → List DirEntry → Walk
  base_loop prefix [] = ok []
  base_loop prefix (b ∷ bs) =
      let rest = base_loop prefix bs in
      do here ← base_entry (join prefix b.name) b; later ← rest; ok (here ++ later)

module _ (store : TreeStore) (iterate : List DirEntry → List DirEntry) where
  unfoldable pub walk_trees :
      (Bytes → Option ℕ → Option ℕ → Walk) → Bytes → Option ℕ → Option ℕ → Walk
  walk_trees descend prefix base head = do
    base_entries ← map_err failed (entries store base)
    head_entries ← map_err failed (entries store head)
    heads ← head_loop store.is_tree descend prefix head_entries (collect_onto [] base_entries)
    bases ← base_loop store.is_tree descend prefix (iterate heads.1)
    ok (heads.0 ++ bases)

  unfoldable pub walk : ℕ → Bytes → Option ℕ → Option ℕ → Walk
  walk zero prefix base head = err exhausted
  walk (suc fuel) prefix base head =
      if same_id base head then ok [] else walk_trees (walk fuel) prefix base head

-- `str::cmp`, as "at most"
unfoldable pub path_leb : Bytes → Bytes → Bool
path_leb [] ys = true
path_leb (x ∷ xs) [] = false
path_leb (x ∷ xs) (y ∷ ys) = ltb x y || (x == y && path_leb xs ys)

-- `sort_by(|a, b| a.path.cmp(&b.path))`, a stable sort
unfoldable pub insert_sorted : TreeChange → List TreeChange → List TreeChange
insert_sorted c [] = c ∷ []
insert_sorted c (d ∷ ds) =
    let rest = insert_sorted c ds in if path_leb c.path d.path then c ∷ (d ∷ ds) else d ∷ rest

unfoldable pub sort_by_path : List TreeChange → List TreeChange
sort_by_path [] = []
sort_by_path (c ∷ cs) = insert_sorted c (sort_by_path cs)

unfoldable pub diff_trees :
    TreeStore → (List DirEntry → List DirEntry) → ℕ → Option ℕ → Option ℕ → Walk
diff_trees store iterate fuel base head = do
  changes ← walk store iterate fuel [] base head
  ok (sort_by_path changes)
