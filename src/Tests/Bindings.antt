-- ===== src/Tests/Bindings.antt =====
-- Identities of bindings, and their validity in the sample repository.
use git_anchor.Base.{
  ℕ, suc, zero, ◌≡◌, ◌↔◌, ◌⊎◌, ◌<◌, ◌+◌, inl, inr, refl, true, false, none, some, List, [], ◌∷◌,
  ◌++◌, In, length, get_elem?, arith, ◌==◌, Bool-cases, if◌then◌else◌,
}
use git_anchor.Base.Text.{Bytes, codes, same}
use git_anchor.Base.Result.{ok, err, ok_or}
use git_anchor.Error.{resolve}
use git_anchor.Lines.{line_boundaries, get_range}
use git_anchor.Repository.{Entry}
use git_anchor.Anchor.{resolve_commit, commit_at}
use git_anchor.Anchor.Capture.{anchored_text}
use git_anchor.Binding.{
  Binding, commit_of, tree_of, hybrid_of, position, NormalForms, IsFaithful, hash_identity,
  anchor_id, Codec, write_binding, read_binding, handle_anchor_id,
}
use git_anchor.Binding.Identity.{target_of, anchor_id_iff}
use git_anchor.Validity.{
  Validity, valid, stale, unknown, EvalState, combine, commit_validity, tree_contains,
  tree_validity, tree_reachable, is_at_path, revalidate,
}
use git_anchor.Validity.Trees.{IsAt, Within, ReadableTrees, tree_contains_iff, tree_validity_iff}
use git_anchor.Validity.Positions.{revalidate_recovered}
use git_anchor.Oracle.Match.{width}
use git_anchor.Tests.Sample.{
  sample, sample-IsLawful, split_lines, old_text, new_text, file_path, file_entry, tree_entry,
}
use git_anchor.Tests.Anchors.{line_two, sample_anchor, sample_is, next_is}

mutual
  pub data Form : Type 0 where
    struct_of : Fields → Form
    hash_of : ℕ → Form
    str_of : Bytes → Form
    list_of : Forms → Form
    u64_of : ℕ → Form

  pub data Fields : Type 0 where
    no_fields : Fields
    field : Bytes → Form → Fields → Fields

  pub data Forms : Type 0 where
    no_forms : Forms
    one_form : Form → Forms → Forms

abbrev pub fields_of : List (Bytes × Form) → Fields
fields_of [] = no_fields
fields_of ((k, f) ∷ rest) = field k f (fields_of rest)

abbrev pub forms_of : List Form → Forms
forms_of [] = no_forms
forms_of (f ∷ rest) = one_form f (forms_of rest)

fields_of_inj : (xs ys : List (Bytes × Form)) → fields_of xs ≡ fields_of ys → xs ≡ ys
fields_of_inj [] [] e = refl
fields_of_inj [] ((l, g) ∷ ys) e = cc
fields_of_inj ((k, f) ∷ xs) [] e = cc
fields_of_inj ((k, f) ∷ xs) ((l, g) ∷ ys) e =
    let rest : xs ≡ ys = fields_of_inj xs ys (ground arith) in ground arith

forms_of_inj : (xs ys : List Form) → forms_of xs ≡ forms_of ys → xs ≡ ys
forms_of_inj [] [] e = refl
forms_of_inj [] (g ∷ ys) e = cc
forms_of_inj (f ∷ xs) [] e = cc
forms_of_inj (f ∷ xs) (g ∷ ys) e =
    let rest : xs ≡ ys = forms_of_inj xs ys (ground arith) in ground arith

abbrev pub first_hash : Form → ℕ
first_hash (struct_of (field k (hash_of i) _)) = i
first_hash f = 0

abbrev pub sample_forms : NormalForms
sample_forms = record {
  Form = Form;
  struct_form = λ xs. struct_of (fields_of xs);
  hash_form = hash_of;
  str_form = str_of;
  list_form = λ xs. list_of (forms_of xs);
  u64_form = u64_of;
  hash = λ f. ok (first_hash f);
}

struct_of_inj :
    (xs ys : List (Bytes × Form)) → struct_of (fields_of xs) ≡ struct_of (fields_of ys) → xs ≡ ys
struct_of_inj xs ys e = fields_of_inj xs ys (ground arith)

list_of_inj : (xs ys : List Form) → list_of (forms_of xs) ≡ list_of (forms_of ys) → xs ≡ ys
list_of_inj xs ys e = forms_of_inj xs ys (ground arith)

sample_forms-IsFaithful : IsFaithful sample_forms
sample_forms-IsFaithful = record {
  struct_inj = struct_of_inj;
  hash_inj = λ a b e. ground arith;
  str_inj = λ a b e. ground arith;
  list_inj = list_of_inj;
  u64_inj = λ a b e. ground arith;
}

abbrev tree_at : Bytes → Binding
tree_at path = tree_of (record { tree = 13 }) (record { path = path; witness = 2 })

anchor_id_iff_example :
    (anchor_id sample_forms (tree_at (codes "b")) ≡ ok 13)
    ↔ (target_of (tree_at (codes "a")) ≡ target_of (tree_at (codes "b")))
anchor_id_iff_example =
    anchor_id_iff sample_forms sample_forms-IsFaithful (tree_at (codes "a")) (tree_at (codes "b"))
      13 (λ e. unfold target_of in refl)
      (unfold anchor_id git_anchor.Binding.tree_form hash_identity in refl)

-- A store that keeps every binding, its place for its id.
abbrev sample_codec : Codec
sample_codec = record {
  Store = List Binding;
  serialize_into = λ b s. ok (length s, s ++ (b ∷ []));
  deserialize = λ oid s. ok_or (get_elem? s oid) [];
}

get_elem?-append_last :
    (s : List Binding) (b : Binding) → get_elem? (s ++ (b ∷ [])) (length s) ≡ some b
get_elem?-append_last [] b = refl
get_elem?-append_last (x ∷ s) b = get_elem?-append_last s b

get_elem?-append_kept :
    (s : List Binding) (i : ℕ) (a b : Binding)
    → get_elem? s i ≡ some a
    → get_elem? (s ++ (b ∷ [])) i ≡ some a
get_elem?-append_kept [] i a b e = absurd (cc)
get_elem?-append_kept (x ∷ s) zero a b e = e
get_elem?-append_kept (x ∷ s) (suc i) a b e = get_elem?-append_kept s i a b e

contains_there : tree_contains (sample true) 2 13 12 ≡ ok true
unfolding tree_contains git_anchor.Validity.contains_loop sample
contains_there = refl

tree_contains_iff_example : (true ≡ true) ↔ Within (sample true) 13 12
tree_contains_iff_example = tree_contains_iff (sample true) 13 2 12 true contains_there

-- Every tree.
abbrev Any : ℕ → Type 0
Any tree = Unit

no_errors : (tree : ℕ) → Any tree → (e : Bytes) → In (err e) ((sample true).tree_iter tree) → ⊥
unfolding sample
no_errors tree h e i = elim (Bool-cases (tree == 12)) [
  | inl a ↦
      let i' : In (err e) (ok (file_entry 22) ∷ ok (tree_entry 13) ∷ []) = rw a at i in ground arith
  | inr a ↦ let i' : In (err e) (ok (file_entry 21) ∷ []) = rw a at i in ground arith
]

abbrev rank_of : ℕ → ℕ
rank_of id = if id == 12 then 1 else 0

subtrees_of :
    (tree : ℕ)
    → Any tree
    → (e : Entry) → In (ok e) ((sample true).tree_iter tree)
    → (sample true).is_tree e.mode ≡ true
    → (s : ℕ) × ((sample true).try_into_tree e.id ≡ ok s) × Any s × (rank_of s < rank_of tree)
unfolding sample
subtrees_of tree h e i m = elim (Bool-cases (tree == 12)) [
  | inl a ↦
      let i' : In (ok e) (ok (file_entry 22) ∷ ok (tree_entry 13) ∷ []) = rw a at i in
      (e.id, refl, tt, ground arith)
  | inr a ↦
      let i' : In (ok e) (ok (file_entry 21) ∷ []) = rw a at i in (e.id, refl, tt, ground arith)
]

sample-ReadableTrees : ReadableTrees (sample true)
sample-ReadableTrees = record {
  Holds = Any;
  rank = rank_of;
  decodes = no_errors;
  subtrees = subtrees_of;
}

tree_checked : tree_validity (sample true) 2 13 (codes "d") (codes "next") ≡ ok valid
unfolding tree_validity resolve_commit sample same is_at_path tree_contains
    git_anchor.Validity.contains_loop
tree_checked = refl

tree_validity_iff_example :
    ((valid ≡ valid) ↔ (IsAt (sample true) 13 12 (codes "d") ⊎ Within (sample true) 13 12))
    × ((valid ≡ valid) ⊎ (valid ≡ stale))
tree_validity_iff_example =
    tree_validity_iff (sample true) 2 13 2 12 (codes "d") (codes "next") valid (next_is true)
      (unfold sample in refl) tree_checked

abbrev state_at : Bytes → EvalState
state_at revision = record { at = revision; delta = none }

abbrev hybrid : Binding
hybrid = hybrid_of (record { commit = 1; tree = 13 }) (record {})

unresolved : resolve_commit (sample true) (codes "gone") ≡ err (resolve (codes "gone"))
unfolding resolve_commit sample same
unresolved = refl

hybrid_checked : revalidate (sample true) 2 hybrid (state_at (codes "next")) ≡ ok valid
unfolding revalidate tree_reachable resolve_commit sample same tree_contains
    git_anchor.Validity.contains_loop combine git_anchor.Validity.is_unknown commit_validity
    git_anchor.Validity.is_valid
hybrid_checked = refl

commit_one : commit_at (sample true) 1 ≡ ok 1
unfolding commit_at sample
commit_one = refl

boundary_two : get_elem? (line_boundaries (sample false).lines new_text) 1 ≡ some 2
unfolding line_boundaries git_anchor.Lines.push_boundaries sample split_lines
boundary_two = refl

line_there :
    get_range new_text 2 (2 + width sample_anchor)
    ≡ some (anchored_text (sample false).lines old_text (some line_two))
unfolding sample split_lines
line_there = refl

revalidate_recovered_example :
    revalidate (sample false) 2 (position sample_anchor) (state_at (codes "next")) ≡ ok valid
revalidate_recovered_example =
    revalidate_recovered (sample false) (sample-IsLawful false) 1 file_path old_text (some line_two)
      sample_anchor (sample_is false) 2 2 12 1 2 (file_entry 22) new_text (state_at (codes "next"))
      (unfold sample in refl) (next_is false) (unfold sample in refl) (unfold sample same in refl)
      (unfold sample in refl) (unfold sample in refl) (omega arith) boundary_two line_there
