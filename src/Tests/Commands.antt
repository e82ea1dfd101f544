-- ===== src/Tests/Commands.antt =====
-- Commands of git-anchor on a schema with a binding and a text, and on a store of names.
use git_anchor.Base.{
  ℕ, ◌≡◌, ◌↔◌, refl, sym, ap, ◌∙◌, subst, Bool, true, false, Option, none, some, List, [], ◌∷◌, any,
  inl, inr, arith, Bool-cases, if◌then◌else◌, ◌==◌,
}
use git_anchor.Base.Text.{Bytes, codes, same, same→eq, same_refl}
use git_anchor.Base.Result.{Result, ok, err}
use git_anchor.Documents.{Documents, Field, NodeCase, optional, struct_of, string, otherwise}
use git_anchor.AnchorArgs.{AnchorCliError}
use git_anchor.AnchorCli.{
  BindingDocs, takes_text, unique_string_field, struct_fields, canonical_root, holds_binding,
  binding_field,
}
use git_anchor.AnchorCli.Shapes.{IsBindingRoot, IsStruct, IsOnlyShaped, binding_field_iff}
use git_anchor.AnchorCommands.{DeleteResult, deleted, absent, EntityStore, RemoveArgs, cmd_remove}
use git_anchor.AnchorCommands.Removal.{
  DeletesOne, RemovedFrom, cmd_remove_missing, cmd_remove-RemovedFrom,
}

-- Node 0 is a struct of an optional binding and a text, 1 a binding, 2 a text, 3 an optional binding.
abbrev pub note_fields : List (Bytes × Field ℕ)
note_fields =
    (codes "binding", record { node = 3; has_default = false })
    ∷ (codes "body", record { node = 2; has_default = false })
    ∷ []

abbrev pub case_numbered : ℕ → NodeCase ℕ
case_numbered node =
    if node == 0
    then struct_of note_fields
    else if node == 2
    then string
    else if node == 3
    then optional 1
    else otherwise

abbrev pub note_docs : Documents
note_docs = record {
  Value = Bytes;
  Schema = ℕ;
  Node = ℕ;
  Builder = List (Bytes × Bytes);
  null = [];
  bool_value = λ b. [];
  string_value = λ text. text;
  object_value = λ pairs. [];
  as_object = λ value. none;
  from_json = λ text. ok text;
  to_json = λ value. ok value;
  to_json_pretty = λ value. ok value;
  root = λ schema. schema;
  def = λ schema name. none;
  cases = case_numbered;
  same_node = λ a b. a == b;
  for_schema = λ schema. ok [];
  fields = λ builder. [];
  set = λ builder name value. ok ((name, value) ∷ builder);
  build = λ builder. ok [];
}

abbrev note_bindings : BindingDocs note_docs
note_bindings = record {
  Objects = ℕ;
  no_objects = 0;
  serialize_into = λ binding objects. ok (1, 0);
  deserialize_value = λ oid schema objects. ok [];
  binding_schema = ok 1;
}

found : binding_field note_docs note_bindings 0 ≡ ok (codes "binding")
unfolding binding_field canonical_root git_anchor.Documents.resolve_node struct_fields
    git_anchor.AnchorCli.one_binding git_anchor.AnchorCli.names_where
    git_anchor.AnchorCli.shape_is_binding
found = refl

binding_field_iff_example :
    (binding_field note_docs note_bindings 0 ≡ ok (codes "binding"))
    ↔ (binding : ℕ) × (fields : List (Bytes × Field ℕ)) × IsBindingRoot note_docs note_bindings
        binding
      × IsStruct note_docs 0 fields
      × IsOnlyShaped note_docs 0 binding fields (codes "binding")
binding_field_iff_example = binding_field_iff note_docs note_bindings 0 (codes "binding")

abbrev without_name : Bytes → List Bytes → List Bytes
without_name name [] = []
without_name name (n ∷ names) =
    let rest = without_name name names in if same n name then rest else n ∷ rest

abbrev delete_if : List Bytes → Bytes → Bool → Result Bytes DeleteResult × List Bytes
delete_if s name true = (ok deleted, without_name name s)
delete_if s name false = (ok absent, s)

abbrev name_store : EntityStore note_docs (List Bytes)
name_store = record {
  kinds = λ s. ok [];
  get_schema = λ s kind. ok (some 0);
  list_names = λ s kind. ok s;
  read_value = λ s kind name. ok (if any (λ n. same name n) s then some name else none);
  delete_name = λ s kind name. delete_if s name (any (λ n. same name n) s);
  write_under = λ s kind value message group. (ok 1, s);
  entity_name_under = λ group commit. group;
  set_reference = λ s name handle. (ok tt, s);
  ref_segment = λ text. ok text;
  ref_path = λ text. ok text;
  put_blobs = λ blobs s. s;
  hex = λ id. id ∷ [];
}

abbrev AnyWithout : Bytes → Bytes → List Bytes → Type 0
AnyWithout name other s =
    any (λ n. same other n) (without_name name s)
    ≡ (if same other name then false else any (λ n. same other n) s)

abbrev listed : Bytes → List Bytes → Bool
listed other s = any (λ n. same other n) s

listed_cons :
    (other n : Bytes) (s : List Bytes) (b : Bool)
    → same other n ≡ b
    → listed other (n ∷ s) ≡ (elim b [ true ↦ true | false ↦ listed other s ])
listed_cons other n s b e = ap (λ c. elim c [ true ↦ true | false ↦ listed other s ]) e

without_cons :
    (name n : Bytes) (s : List Bytes) (b : Bool)
    → same n name ≡ b
    → without_name name (n ∷ s) ≡ (if b then without_name name s else n ∷ without_name name s)
without_cons name n s b e = ap (λ c. if c then without_name name s else n ∷ without_name name s) e

unless : (b c : Bool) (x : Bool) → b ≡ c → (if b then false else x) ≡ (if c then false else x)
unless b c x e = ap (λ d. if d then false else x) e

same-AnyWithout :
    (name other : Bytes) (s : List Bytes)
    → AnyWithout name other s
    → AnyWithout name other (name ∷ s)
same-AnyWithout name other s ih =
    ap (listed other) (without_cons name name s true (same_refl name))
    ∙ ih
    ∙ elim (Bool-cases (same other name)) [
      | inl e ↦
          unless (same other name) true (listed other s) e
          ∙ sym (unless (same other name) true (listed other (name ∷ s)) e)
      | inr e ↦
          unless (same other name) false (listed other s) e
          ∙ sym (listed_cons other name s false e)
          ∙ sym (unless (same other name) false (listed other (name ∷ s)) e)
    ]

other-AnyWithout :
    (name other n : Bytes) (s : List Bytes)
    → same n name ≡ false
    → AnyWithout name other s
    → AnyWithout name other (n ∷ s)
other-AnyWithout name other n s differs ih =
    ap (listed other) (without_cons name n s false differs) ∙ elim (Bool-cases (same other n)) [
      | inl e ↦
          let apart : same other name ≡ false =
            ap (λ m. same m name) (same→eq other n e) ∙ differs in
          listed_cons other n (without_name name s) true e
          ∙ sym (listed_cons other n s true e)
          ∙ sym (unless (same other name) false (listed other (n ∷ s)) apart)
      | inr e ↦
          listed_cons other n (without_name name s) false e
          ∙ ih
          ∙ ap (λ x. if same other name then false else x) (sym (listed_cons other n s false e))
    ]

without_name-AnyWithout : (name other : Bytes) (s : List Bytes) → AnyWithout name other s
without_name-AnyWithout name other [] = elim (Bool-cases (same other name)) [
  | inl e ↦ rw e refl
  | inr e ↦ rw e refl
]
without_name-AnyWithout name other (n ∷ s) = elim (Bool-cases (same n name)) [
  | inl it_is ↦
      subst (λ m. AnyWithout name other (m ∷ s)) (sym (same→eq n name it_is))
        (same-AnyWithout name other s (without_name-AnyWithout name other s))
  | inr it_is_not ↦ other-AnyWithout name other n s it_is_not (without_name-AnyWithout name other s)
]

some_or :
    (b : Bool) (there : Bool) (other : Bytes)
    → ◌≡◌ {A = Result Bytes (Option Bytes)}
        (ok (if (if b then false else there) then some other else none))
        (if b then ok none else ok (if there then some other else none))
some_or true there other = refl
some_or false there other = refl

delete_if_eq :
    (s s' : List Bytes) (name : Bytes) (there : Bool)
    → delete_if s name there ≡ (ok deleted, s')
    → without_name name s ≡ s'
delete_if_eq s s' name true e = ap (λ (o : Result Bytes DeleteResult × List Bytes). o.1) e
delete_if_eq s s' name false e = absurd (ground arith)

name_store-DeletesOne : DeletesOne note_docs name_store
name_store-DeletesOne s s' kind name e other =
    rw
      (
        sym (delete_if_eq s s' name (any (λ n. same name n) s) e),
        without_name-AnyWithout name other s,
      )
      (some_or (same other name) (any (λ n. same other n) s) other)

abbrev two_names : List Bytes
two_names = codes "a" ∷ codes "b" ∷ []

c_missing : name_store.read_value two_names (codes "note") (codes "c") ≡ ok none
unfolding same
c_missing = refl

removed :
    cmd_remove note_docs name_store
      (record { kind = codes "note"; names = codes "a" ∷ [] })
      two_names
    ≡ (ok tt, codes "b" ∷ [])
unfolding cmd_remove git_anchor.AnchorCommands.check_all same git_anchor.AnchorCommands.delete_all
removed = refl

cmd_remove_missing_example :
    (e : AnchorCliError) × (cmd_remove note_docs name_store
        (record { kind = codes "note"; names = codes "a" ∷ codes "c" ∷ [] })
        two_names
      ≡ (err e, two_names))
cmd_remove_missing_example =
    cmd_remove_missing note_docs name_store
      (record { kind = codes "note"; names = codes "a" ∷ codes "c" ∷ [] }) (codes "c") two_names
      (inr (inl refl)) c_missing

cmd_remove-RemovedFrom_example :
    RemovedFrom note_docs name_store (codes "note") (codes "a" ∷ []) two_names (codes "b" ∷ [])
cmd_remove-RemovedFrom_example =
    cmd_remove-RemovedFrom note_docs name_store
      (record { kind = codes "note"; names = codes "a" ∷ [] }) two_names (codes "b" ∷ []) tt
      name_store-DeletesOne removed
