-- ===== src/Validity.antt =====
-- crates/git-anchor/src/binding.rs: `revalidate` and what it is made of. The search of a tree for a
-- tree takes fuel, and says when it runs out.
pub mod Trees
pub mod Results
pub mod Positions
use git_anchor.Base.{
  ℕ, zero, suc, ◌≡◌, Bool, true, false, not, ◌&&◌, ◌||◌, Option, none, some, List, [], ◌∷◌, any,
  ◌==◌, if◌then◌else◌,
}
use git_anchor.Base.Text.{Bytes}
use git_anchor.Base.Result.{Result, ok, err, map_err, ◌>>=◌}
use git_anchor.Error.{Error, Res, resolve, object, Stop, failed, exhausted}
use git_anchor.Fingerprint.{is_exact}
use git_anchor.Repository.{Repository, Entry}
use git_anchor.Anchor.{Anchor, resolve_commit}
use git_anchor.Oracle.{Candidate, diff_trace_oracle, fingerprint_oracle}
use git_anchor.Binding.{Binding, commit_of, tree_of, delta_of, position, hybrid_of}

pub data Validity : Type 0 where
  valid stale unknown : Validity

pub record EvalState : Type 0 where
  pub at : Bytes
  pub delta : Option (ℕ × ℕ)

-- `==` on `Validity`
unfoldable pub is_valid : Validity → Bool
is_valid valid = true
is_valid stale = false
is_valid unknown = false

unfoldable pub is_unknown : Validity → Bool
is_unknown valid = false
is_unknown stale = false
is_unknown unknown = true

unfoldable pub combine : Validity → Validity → Validity
combine a b =
    if is_unknown a || is_unknown b
    then unknown
    else if is_valid a && is_valid b
    then valid
    else stale

unfoldable pub delta_validity : ℕ → ℕ → Option (ℕ × ℕ) → Validity
delta_validity base_tree head_tree none = unknown
delta_validity base_tree head_tree (some (base, head)) =
    if base == base_tree && head == head_tree then valid else stale

abbrev pub found : Bool → Validity
found b = if b then valid else stale

-- `Result::is_ok_and(|base| base == commit)`
abbrev pub is_ok_and_eq : Result Bytes ℕ → ℕ → Bool
is_ok_and_eq (ok base) commit = base == commit
is_ok_and_eq (err e) commit = false

module _ (repo : Repository) where
  open repo use {
    is_tree, has_object, merge_base, commit_tree, lookup_entry_by_path, tree_iter, try_into_tree,
  }

  commit_against : ℕ → Res ℕ → Validity
  commit_against commit (err e) = unknown
  commit_against commit (ok target) =
      if commit == target || is_ok_and_eq (merge_base commit target) commit then valid else stale

  unfoldable pub commit_validity : ℕ → Bytes → Validity
  unfolding commit_against
  commit_validity commit at =
      if not (has_object commit) then unknown else commit_against commit (resolve_commit repo at)

  -- The loop over a tree's entries; `descend` is the recursive call.
  unfoldable pub contains_loop :
      (ℕ → Result Stop Bool) → ℕ → List (Result Bytes Entry) → Result Stop Bool
  contains_loop descend target [] = ok false
  contains_loop descend target (err e ∷ entries) = err (failed (object e))
  contains_loop descend target (ok entry ∷ entries) =
      let rest = contains_loop descend target entries in
      if not (is_tree entry.mode) then rest else if entry.id == target then ok true else do
        subtree ← map_err (λ e. failed (object e)) (try_into_tree entry.id)
        below ← descend subtree
        if below then ok true else rest

  unfoldable pub tree_contains : ℕ → ℕ → ℕ → Result Stop Bool
  tree_contains zero target tree = err exhausted
  tree_contains (suc fuel) target tree =
      if tree == target
      then ok true
      else contains_loop (tree_contains fuel target) target (tree_iter tree)

  -- The entry that the recorded path leads to is the tree.
  unfoldable pub is_at_path : ℕ → Result Bytes (Option Entry) → Bool
  is_at_path tree (ok (some entry)) = is_tree entry.mode && entry.id == tree
  is_at_path tree (ok none) = false
  is_at_path tree (err e) = false

  tree_against : ℕ → ℕ → Bytes → Res ℕ → Result Stop Validity
  tree_against fuel tree path (err e) = ok unknown
  tree_against fuel tree path (ok commit) = do
    root ← map_err (λ e. failed (object e)) (commit_tree commit)
    if is_at_path tree (lookup_entry_by_path root path)
        then ok valid
        else do b ← tree_contains fuel tree root; ok (found b)

  unfoldable pub tree_validity : ℕ → ℕ → Bytes → Bytes → Result Stop Validity
  unfolding tree_against
  tree_validity fuel tree path at = tree_against fuel tree path (resolve_commit repo at)

  reachable_from : ℕ → ℕ → Res ℕ → Result Stop Validity
  reachable_from fuel tree (err e) = ok unknown
  reachable_from fuel tree (ok commit) = do
    root ← map_err (λ e. failed (object e)) (commit_tree commit)
    b ← tree_contains fuel tree root
    ok (found b)

  unfoldable pub tree_reachable : ℕ → ℕ → Bytes → Result Stop Validity
  unfolding reachable_from
  tree_reachable fuel tree at = reachable_from fuel tree (resolve_commit repo at)

  -- An unresolvable revision is `unknown`, any other error the caller's.
  or_unknown : Error → Res Validity
  or_unknown (resolve revision) = ok unknown
  or_unknown e = err e

  from_fingerprint : Res (List Candidate) → Res Validity
  unfolding or_unknown
  from_fingerprint (ok candidates) = ok (found (any (λ c. is_exact c.confidence) candidates))
  from_fingerprint (err e) = or_unknown e

  from_trace : Anchor → Bytes → Res (List Candidate) → Res Validity
  unfolding from_fingerprint or_unknown
  from_trace anchor at (ok (c ∷ candidates)) = ok valid
  from_trace anchor at (ok []) =
      if not (has_object anchor.identity.genesis_rev)
      then from_fingerprint (fingerprint_oracle repo anchor at)
      else ok stale
  from_trace anchor at (err e) = or_unknown e

  unfoldable pub position_validity : Anchor → Bytes → Res Validity
  unfolding from_trace
  position_validity anchor at = from_trace anchor at (diff_trace_oracle repo anchor at)

  unfoldable pub revalidate : ℕ → Binding → EvalState → Result Stop Validity
  revalidate fuel (commit_of identity hints) state = ok (commit_validity identity.commit state.at)
  revalidate fuel (tree_of identity hints) state =
      tree_validity fuel identity.tree hints.path state.at
  revalidate fuel (delta_of identity hints) state =
      ok (delta_validity identity.base_tree identity.head_tree state.delta)
  revalidate fuel (position anchor) state = map_err failed (position_validity anchor state.at)
  revalidate fuel (hybrid_of identity hints) state = do
    let commit_v = commit_validity identity.commit state.at
    tree_v ← tree_reachable fuel identity.tree state.at
    ok (combine commit_v tree_v)
