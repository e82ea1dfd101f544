-- ===== src/Binding.antt =====
-- crates/git-anchor/src/binding.rs: `Binding`, its witnesses and its identity; the hash of an identity
-- and the two ids of crates/git-anchor/src/handle.rs. The normal form and the codec are
-- facet-git-tree's, parameters.
pub mod Identity
use git_anchor.Base.{ℕ, ◌≡◌, Option, List, [], ◌∷◌}
use git_anchor.Base.Text.{Bytes, codes}
use git_anchor.Base.Result.{Result, ok, map_err, ◌>>=◌}
use git_anchor.Error.{Error, Res, serialize, deserialize, normal_form}
use git_anchor.Lines.{Span}
use git_anchor.Anchor.{Anchor, AnchorIdentity}

pub record CommitIdentity : Type 0 where
  pub commit : ℕ

pub record HybridIdentity : Type 0 where
  pub commit : ℕ
  pub tree : ℕ

pub record NoHints : Type 0 where

pub record TreeIdentity : Type 0 where
  pub tree : ℕ

pub record TreeHints : Type 0 where
  pub path : Bytes
  pub witness : ℕ

pub record DeltaIdentity : Type 0 where
  pub base_tree : ℕ
  pub head_tree : ℕ

pub record DeltaHints : Type 0 where
  pub path : Bytes
  pub base_witness : ℕ
  pub head_witness : ℕ

pub data Binding : Type 0 where
  commit_of : CommitIdentity → NoHints → Binding
  tree_of : TreeIdentity → TreeHints → Binding
  delta_of : DeltaIdentity → DeltaHints → Binding
  position : Anchor → Binding
  hybrid_of : HybridIdentity → NoHints → Binding

unfoldable pub witnesses : Binding → List ℕ
witnesses (commit_of identity hints) = identity.commit ∷ []
witnesses (hybrid_of identity hints) = identity.commit ∷ []
witnesses (tree_of identity hints) = hints.witness ∷ []
witnesses (delta_of identity hints) = hints.base_witness ∷ hints.head_witness ∷ []
witnesses (position anchor) = anchor.identity.genesis_rev ∷ []

-- `facet_git_tree::normal_form`: the forms that identities are made of, and their hash. A `BTreeMap`
-- is its list of entries by ascending key.
pub record NormalForms : Type 1 where
  pub Form : Type 0
  pub struct_form : List (Bytes × Form) → Form
  pub hash_form : ℕ → Form
  pub str_form : Bytes → Form
  pub list_form : List Form → Form
  pub u64_form : ℕ → Form
  pub hash : Form → Result Bytes ℕ

-- A form keeps what it is made of.
pub record IsFaithful (forms : NormalForms) : Type 0 where
  pub struct_inj :
      (xs ys : List (Bytes × forms.Form)) → forms.struct_form xs ≡ forms.struct_form ys → xs ≡ ys
  pub hash_inj : (a b : ℕ) → forms.hash_form a ≡ forms.hash_form b → a ≡ b
  pub str_inj : (a b : Bytes) → forms.str_form a ≡ forms.str_form b → a ≡ b
  pub list_inj : (xs ys : List forms.Form) → forms.list_form xs ≡ forms.list_form ys → xs ≡ ys
  pub u64_inj : (a b : ℕ) → forms.u64_form a ≡ forms.u64_form b → a ≡ b

module _ (forms : NormalForms) where
  open forms use {Form, struct_form, hash_form, str_form, list_form, u64_form, hash}

  -- `to_normal_form` of each identity.
  unfoldable pub commit_form : CommitIdentity → Form
  commit_form identity = struct_form ((codes "commit", hash_form identity.commit) ∷ [])

  unfoldable pub hybrid_form : HybridIdentity → Form
  hybrid_form identity =
      struct_form
        ((codes "commit", hash_form identity.commit) ∷ (codes "tree", hash_form identity.tree) ∷ [])

  unfoldable pub tree_form : TreeIdentity → Form
  tree_form identity = struct_form ((codes "tree", hash_form identity.tree) ∷ [])

  unfoldable pub delta_form : DeltaIdentity → Form
  delta_form identity = struct_form (
      (codes "base_tree", hash_form identity.base_tree)
      ∷ (codes "head_tree", hash_form identity.head_tree)
      ∷ [])

  unfoldable pub anchor_form : AnchorIdentity → Form
  anchor_form identity = struct_form (
      (codes "genesis_rev", hash_form identity.genesis_rev)
      ∷ (codes "path", str_form identity.path)
      ∷ (codes "span", list_form (u64_form identity.span.start ∷ u64_form identity.span.end ∷ []))
      ∷ [])

  unfoldable pub hash_identity : Form → Res ℕ
  hash_identity form = do oid ← map_err normal_form (hash form); ok oid

  -- `Anchor::id`
  unfoldable pub id : Anchor → Res ℕ
  id anchor = hash_identity (anchor_form anchor.identity)

  unfoldable pub anchor_id : Binding → Res ℕ
  anchor_id (commit_of identity hints) = hash_identity (commit_form identity)
  anchor_id (hybrid_of identity hints) = hash_identity (hybrid_form identity)
  anchor_id (tree_of identity hints) = hash_identity (tree_form identity)
  anchor_id (delta_of identity hints) = hash_identity (delta_form identity)
  anchor_id (position anchor) = id anchor

-- `facet_git_tree::serialize_into` and `facet_git_tree::deserialize` over an object store.
pub record Codec : Type 1 where
  pub Store : Type 0
  pub serialize_into : Binding → Store → Result Bytes (ℕ × Store)
  pub deserialize : ℕ → Store → Result Bytes Binding

module _ (codec : Codec) where
  unfoldable pub write_binding : Binding → codec.Store → Res (ℕ × codec.Store)
  write_binding b store = do written ← map_err serialize (codec.serialize_into b store); ok written

  unfoldable pub read_binding : ℕ → codec.Store → Res Binding
  read_binding handle store = do b ← map_err deserialize (codec.deserialize handle store); ok b

  -- `CaptureHandle::anchor_id`
  unfoldable pub handle_anchor_id : NormalForms → ℕ → codec.Store → Res ℕ
  handle_anchor_id forms handle store = do b ← read_binding handle store; anchor_id forms b
