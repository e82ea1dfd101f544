-- ===== src/Binding/Identity.antt =====
-- Anchor ids: crates/git-anchor/src/binding.rs and handle.rs.
use git_anchor.Base.{ℕ, ◌≡◌, ◌↔◌, refl, sym, ap, ◌∙◌, List, [], ◌∷◌, arith}
use git_anchor.Base.Text.{Bytes, codes}
use git_anchor.Base.Result.{ok}
use git_anchor.Binding.{
  Binding, commit_of, tree_of, delta_of, position, hybrid_of, NormalForms, IsFaithful, commit_form,
  hybrid_form, tree_form, delta_form, anchor_form, hash_identity, id, anchor_id,
}

-- A binding without its hints.
pub data Target : Type 0 where
  commit_target : ℕ → Target
  tree_target : ℕ → Target
  delta_target : ℕ → ℕ → Target
  position_target : ℕ → Bytes → ℕ → ℕ → Target
  hybrid_target : ℕ → ℕ → Target

unfoldable pub target_of : Binding → Target
target_of (commit_of identity hints) = commit_target identity.commit
target_of (tree_of identity hints) = tree_target identity.tree
target_of (delta_of identity hints) = delta_target identity.base_tree identity.head_tree
target_of (position anchor) =
    position_target anchor.identity.genesis_rev anchor.identity.path anchor.identity.span.start
      anchor.identity.span.end
target_of (hybrid_of identity hints) = hybrid_target identity.commit identity.tree

module _ (forms : NormalForms) where
  open forms use {Form, struct_form, hash_form, str_form, list_form, u64_form, hash}

  abbrev target_fields : Target → List (Bytes × Form)
  target_fields (commit_target c) = (codes "commit", hash_form c) ∷ []
  target_fields (tree_target t) = (codes "tree", hash_form t) ∷ []
  target_fields (delta_target b h) =
      (codes "base_tree", hash_form b) ∷ (codes "head_tree", hash_form h) ∷ []
  target_fields (position_target g p s e) =
      (codes "genesis_rev", hash_form g)
      ∷ (codes "path", str_form p)
      ∷ (codes "span", list_form (u64_form s ∷ u64_form e ∷ []))
      ∷ []
  target_fields (hybrid_target c t) =
      (codes "commit", hash_form c) ∷ (codes "tree", hash_form t) ∷ []

  -- The normal form of an identity.
  abbrev pub form_of : Target → Form
  form_of t = struct_form (target_fields t)

  anchor_id-form_of :
      (b : Binding) → anchor_id forms b ≡ hash_identity forms (form_of (target_of b))
  unfolding anchor_id id commit_form hybrid_form tree_form delta_form anchor_form target_of
  anchor_id-form_of (commit_of identity hints) = refl
  anchor_id-form_of (tree_of identity hints) = refl
  anchor_id-form_of (delta_of identity hints) = refl
  anchor_id-form_of (position anchor) = refl
  anchor_id-form_of (hybrid_of identity hints) = refl

  hash_ok : (f : Form) (i : ℕ) → hash_identity forms f ≡ ok i → hash f ≡ ok i
  unfolding hash_identity
  hash_ok f i e = ground arith

  hash_eq :
      (a b : Binding) (i : ℕ)
      → hash_identity forms (form_of (target_of a)) ≡ ok i
      → hash_identity forms (form_of (target_of b)) ≡ ok i
      → hash (form_of (target_of a)) ≡ hash (form_of (target_of b))
  hash_eq a b i ha hb =
      hash_ok (form_of (target_of a)) i ha ∙ sym (hash_ok (form_of (target_of b)) i hb)

  module _ (faithful : IsFaithful forms) where
    target_fields_inj : (t u : Target) → target_fields t ≡ target_fields u → t ≡ u
    target_fields_inj (commit_target c) (commit_target d) e =
        ap commit_target (faithful.hash_inj c d (ground arith))
    target_fields_inj (tree_target c) (tree_target d) e =
        ap tree_target (faithful.hash_inj c d (ground arith))
    target_fields_inj (delta_target b h) (delta_target c k) e =
        let first : b ≡ c = faithful.hash_inj b c (ground arith) in
        let second : h ≡ k = faithful.hash_inj h k (ground arith) in cc
    target_fields_inj (position_target g p s n) (position_target h q t m) e =
        let commits : g ≡ h = faithful.hash_inj g h (ground arith) in
        let paths : p ≡ q = faithful.str_inj p q (ground arith) in
        let ends : (u64_form s ∷ u64_form n ∷ []) ≡ (u64_form t ∷ u64_form m ∷ []) =
          faithful.list_inj (u64_form s ∷ u64_form n ∷ []) (u64_form t ∷ u64_form m ∷ [])
            (ground arith) in
        let starts : s ≡ t = faithful.u64_inj s t (ground arith) in
        let lasts : n ≡ m = faithful.u64_inj n m (ground arith) in cc
    target_fields_inj (hybrid_target b h) (hybrid_target c k) e =
        let first : b ≡ c = faithful.hash_inj b c (ground arith) in
        let second : h ≡ k = faithful.hash_inj h k (ground arith) in cc
    -- Any other two kinds of target have other names for their fields.
    target_fields_inj t u e = cc

    form_of_inj : (t u : Target) → form_of t ≡ form_of u → t ≡ u
    form_of_inj t u e =
        target_fields_inj t u (faithful.struct_inj (target_fields t) (target_fields u) e)

    -- Where the first has an anchor id, two bindings have one anchor id exactly when they have the same target, hints left aside. The
    -- forms keep what they are made of, and the hash does not make these two forms collide.
    pub anchor_id_iff :
        (a b : Binding) (i : ℕ)
        → (hash (form_of (target_of a)) ≡ hash (form_of (target_of b))
            → form_of (target_of a) ≡ form_of (target_of b))
        → anchor_id forms a ≡ ok i
        → (anchor_id forms b ≡ ok i) ↔ (target_of a ≡ target_of b)
    anchor_id_iff a b i apart e =
        let ha : hash_identity forms (form_of (target_of a)) ≡ ok i =
          sym (anchor_id-form_of a) ∙ e in
        (
          λ eb.
              let hb : hash_identity forms (form_of (target_of b)) ≡ ok i =
                sym (anchor_id-form_of b) ∙ eb in
              form_of_inj (target_of a) (target_of b) (apart (hash_eq a b i ha hb)),
          λ t. anchor_id-form_of b ∙ rw (sym t) ha,
        )
