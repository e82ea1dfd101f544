-- ===== src/KeyWrites/Published.antt =====
-- `add_key` and `rotate_key` of crates/git-attest/src/key.rs: what they publish, and that it is read back.
use git_anchor.Base.{ℕ, ◌≡◌, refl, sym, ap, ◌∙◌, subst, none, some, [], ◌∷◌, arith}
use git_anchor.Base.Text.{Bytes}
use git_anchor.Base.Result.{Result, ok, map_err, bind-eq-ok}
use git_anchor.Base.Action.{after-eq-ok, fails_as, fails_as-eq-ok}
use git_anchor.Binding.{NormalForms}
use git_anchor.Claims.{
  Target, Envelope, ClaimStore, ClaimError, store, ref_name, stored_envelope, into_envelope,
  entity_name, envelope_at, read_claims, log, append,
}
use git_anchor.Claims.Append.{IsChained, Appended, append-Appended}
use git_anchor.Claims.Keeps.{IsKept, append_keeps}
use git_anchor.Verdict.{AttestKey, SshKey}
use git_anchor.Keys.{KeyStore, key_document, key_envelope, resolve_key, key_at}
use git_anchor.Keys.Chain.{Publishes, IsKeyChain, key_document_iff}
use git_anchor.Keys.Walk.{resolve_key_with_iff}
use git_anchor.KeyWrites.{null_id, write_key, key_target, key_claim_envelope, add_key, rotate_key}

module _ (forms : NormalForms) (claims : ClaimStore) (keys : KeyStore claims) where
  -- What git-store documents: a compiled key that is put as an entity is decoded from its tree.
  abbrev pub PutsKeys : Type 0
  PutsKeys =
      (s s1 s2 s3 : claims.State) (key : AttestKey) (tree commit : ℕ) (name : Bytes)
      → keys.compile_key s key ≡ (ok tree, s1)
      → keys.put_key s2 name key ≡ (ok commit, s3)
      → keys.decode_key s3 tree ≡ ok key

  -- Objects stay: what is decoded from a tree is decoded from it after any write.
  abbrev pub KeepsKeys : (ℕ → claims.State → claims.State) → Type 0
  KeepsKeys others =
      (tree : ℕ) (key : AttestKey) → IsKept claims others (λ s. keys.decode_key s tree ≡ ok key)

  -- `write_key` returns the tree that the key compiles to, and the key is decoded from it.
  write_key_lem :
      (s s' : claims.State) (key : AttestKey) (tree : ℕ)
      → PutsKeys
      → write_key claims keys key s ≡ (ok tree, s')
      → ((s1 : claims.State) × (keys.compile_key s key ≡ (ok tree, s1)))
        × (keys.decode_key s' tree ≡ ok key)
  unfolding write_key
  write_key_lem s s' key tree puts e =
      let (compiled, s1, e1, e2) =
        after-eq-ok (fails_as store (λ t. keys.compile_key t key) s) _ e in
      let (name, s2, e3, e4) =
        after-eq-ok (map_err ref_name (claims.ref_segment (claims.hex compiled)), s1) _ e2 in
      let (commit, s3, e5, e6) =
        after-eq-ok (fails_as store (λ t. keys.put_key t name key) s2) _ e4 in
      let was_compiled = fails_as-eq-ok store (keys.compile_key s key) compiled s1 e1 in
      let was_put = fails_as-eq-ok store (keys.put_key s2 name key) commit s3 e5 in
      let tree_is : compiled ≡ tree = ground arith in
      let state_is : s3 ≡ s' = ground arith in
      (
        (s1, was_compiled ∙ ap (λ (t : ℕ). (ok t, s1)) tree_is),
        rw (sym tree_is, sym state_is)
            (puts s s1 s2 s3 key compiled commit name was_compiled was_put),
      )

  -- A key that is written and claimed: the claim is the newest on the chain of its target, it names the
  -- key it is signed with, and it publishes the key.
  pub record IsPublished (s' : claims.State) (on : Target) (key : AttestKey)
      (payload signed_with id : ℕ) : Type 0 where
    pub name : Bytes
    pub named : entity_name forms claims on ≡ ok name
    pub appended : Appended forms claims s' name (key_claim_envelope on payload signed_with) id
    pub decoded : keys.decode_key s' payload ≡ ok key

  claim_key :
      (others : ℕ → claims.State → claims.State) (fuel : ℕ) (s s1 s' : claims.State) (on : Target)
      (key : AttestKey) (payload signed_with id : ℕ)
      → IsChained claims
      → PutsKeys
      → KeepsKeys others
      → write_key claims keys key s ≡ (ok payload, s1)
      → append forms claims others fuel s1 on (key_claim_envelope on payload signed_with)
        ≡ (ok id, s')
      → IsPublished s' on key payload signed_with id
  claim_key others fuel s s1 s' on key payload signed_with id chained puts keeps written e =
      let (name, named, appended) =
        append-Appended forms claims chained others fuel s1 s' on
          (key_claim_envelope on payload signed_with) id e in
      let kept =
        append_keeps forms claims others (λ t. keys.decode_key t payload ≡ ok key)
          (keeps payload key) fuel s1 on (key_claim_envelope on payload signed_with)
          (write_key_lem s s1 key payload puts written).1 in
      record {
        name = name;
        named = named;
        appended = appended;
        decoded =
            subst (λ (o : Result ClaimError ℕ × claims.State). keys.decode_key o.1 payload ≡ ok key)
              e kept;
      }

  -- A key claim that `add_key` reports, whatever other writers do, is the newest claim on the chain of
  -- the key's own content id, signed with the null id, and publishes the key.
  pub add_key-IsPublished :
      (others : ℕ → claims.State → claims.State) (fuel : ℕ) (s s' : claims.State) (key : AttestKey)
      (id : ℕ)
      → IsChained claims
      → PutsKeys
      → KeepsKeys others
      → add_key forms claims keys others fuel key s ≡ (ok id, s')
      → (tree : ℕ) × (s1 : claims.State) × (keys.compile_key s key ≡ (ok tree, s1))
        × IsPublished s' (key_target tree) key tree null_id id
  unfolding add_key
  add_key-IsPublished others fuel s s' key id chained puts keeps e =
      let (payload, s1, written, e1) = after-eq-ok (write_key claims keys key s) _ e in
      let ((s2, compiled), _) = write_key_lem s s1 key payload puts written in
      (
        payload,
        s2,
        compiled,
        claim_key others fuel s s1 s' (key_target payload) key payload null_id id chained puts keeps
            written e1,
      )

  -- A rotation that `rotate_key` reports names a claim that publishes a key itself, is the newest claim
  -- on the chain of that claim's target, names that claim as its signing key, and publishes the new key.
  pub rotate_key-IsPublished :
      (others : ℕ → claims.State → claims.State) (fuel : ℕ) (s s' : claims.State) (previous : ℕ)
      (key : AttestKey) (id : ℕ)
      → IsChained claims
      → PutsKeys
      → KeepsKeys others
      → rotate_key forms claims keys others fuel previous key s ≡ (ok id, s')
      → (envelope : Envelope) × (old : AttestKey) × (payload : ℕ) × (envelope_at forms claims s
            previous
          ≡ ok envelope)
        × Publishes claims keys s envelope old
        × IsPublished s' envelope.target key payload previous id
  unfolding rotate_key key_envelope
  rotate_key-IsPublished others fuel s s' previous key id chained puts keeps e =
      let (envelope, s1, r, e1) = after-eq-ok (key_envelope forms claims keys s previous, s) _ e in
      let read : key_envelope forms claims keys s previous ≡ ok envelope =
        ap (λ (o : Result ClaimError Envelope × claims.State). o.0) r in
      let (found, e2, e3) = bind-eq-ok (envelope_at forms claims s previous) _ read in
      let (old, e4, e5) = bind-eq-ok (key_document claims keys s previous found) _ e3 in
      let found_is : found ≡ envelope = ground arith in
      let (payload, s2, written, e6) = after-eq-ok (write_key claims keys key s1) _ e1 in
      (
        envelope,
        old,
        payload,
        e2 ∙ ap ok found_is,
        subst (λ v. Publishes claims keys s v old) found_is
            ((key_document_iff claims keys s previous found old).0 e4),
        claim_key others fuel s1 s2 s' envelope.target key payload previous id chained puts keeps
            written e6,
      )

  published_chain :
      (s' : claims.State) (key : AttestKey) (tree id : ℕ) (name : Bytes)
      → entity_name forms claims (key_target tree) ≡ ok name
      → claims.history s' name ≡ ok (id ∷ [])
      → IsPublished s' (key_target tree) key tree null_id id
      → IsKeyChain forms claims keys s' id (record { claim = id; key = key } ∷ [])
  unfolding envelope_at log read_claims into_envelope stored_envelope
  published_chain s' key tree id name named alone published =
      let envelope = key_claim_envelope (key_target tree) tree null_id in
      let same_name : published.name ≡ name = ground (arith, published.named) in
      let older : id ∷ published.appended.ids ≡ id ∷ [] =
        let after_is : claims.history s' name ≡ ok (id ∷ published.appended.ids) =
          ap (claims.history s') (sym same_name) ∙ published.appended.after_is in
        ground arith in
      let claim_is = published.appended.claim_is in
      let read : envelope_at forms claims s' id ≡ ok envelope = rw claim_is refl in
      record {
        envelope = envelope;
        key = key;
        chain = record { id = id; envelope = envelope; revoked_by = none } ∷ [];
        newest = record { id = id; envelope = envelope; revoked_by = none };
        older = [];
        envelope_is = read;
        published = (refl, refl, published.decoded);
        chain_is = rw (named, alone, claim_is) refl;
        reached = ([], refl, refl, tt);
        linked = (refl, (refl, refl, published.decoded), tt);
      }

  -- A key that `add_key` published as the first claim of its chain is the key that its claim resolves
  -- to, whatever other writers did.
  pub add_key-key_at :
      (ssh : SshKey) (others : ℕ → claims.State → claims.State) (fuel : ℕ) (s s1 s' : claims.State)
      (key : AttestKey) (tree id : ℕ) (name : Bytes)
      → IsChained claims
      → PutsKeys
      → KeepsKeys others
      → keys.compile_key s key ≡ (ok tree, s1)
      → entity_name forms claims (key_target tree) ≡ ok name
      → add_key forms claims keys others fuel key s ≡ (ok id, s')
      → claims.history s' name ≡ ok (id ∷ [])
      → key_at forms claims keys ssh s' id ≡ ok (some key)
  unfolding key_at resolve_key
  add_key-key_at ssh others fuel s s1 s' key tree id name chained puts keeps compiled named e
        alone =
      let (tree', s2, compiled', published) =
        add_key-IsPublished others fuel s s' key id chained puts keeps e in
      let tree_is : tree' ≡ tree = ground arith in
      let chain =
        published_chain s' key tree id name named alone
          (subst (λ t. IsPublished s' (key_target t) key t null_id id) tree_is published) in
      rw
        (((resolve_key_with_iff forms claims keys ssh s' id none).0 key).1
          (record { claim = id; key = key } ∷ [], chain, refl))
        refl
