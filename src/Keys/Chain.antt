-- ===== src/Keys/Chain.antt =====
-- `key_chain` of crates/git-attest/src/key.rs: which links it returns.
use git_anchor.Base.{
  ℕ, ◌≡◌, ◌≢◌, ◌↔◌, refl, sym, ap, ◌∙◌, subst, Bool, true, false, List, [], ◌∷◌, ◌++◌, All, arith,
  Bool-cases, inl, inr, ◌==◌, ==_iff, ==_refl,
}
use mathlib.Core.List.{reverse, reverse-reverse}
use git_anchor.Base.Text.{same, same_iff}
use git_anchor.Base.Result.{ok, map_err, bind-eq-ok, map_err-eq-ok}
use git_anchor.Binding.{NormalForms}
use git_anchor.Claims.{Envelope, Claim, ClaimStore, store, envelope_at, log}
use git_anchor.Verdict.{AttestKey}
use git_anchor.Keys.{
  key_kind, key_target_kind, Link, KeyStore, key_document, key_links, seen_links, key_envelope,
  key_chain,
}

-- An envelope that publishes a key: its two labels, and the document that its payload names.
abbrev pub Publishes :
    (claims : ClaimStore) → KeyStore claims → claims.State → Envelope → AttestKey → Type 0
Publishes claims keys s envelope key =
    (envelope.payload_kind ≡ key_kind)
    × (envelope.target.kind ≡ key_target_kind)
    × (keys.decode_key s envelope.payload ≡ ok key)

-- The links of claims that each publish a key, in order.
abbrev pub Linked :
    (claims : ClaimStore) → KeyStore claims → claims.State → List Claim → List Link → Type 0
Linked claims keys s [] [] = Unit
Linked claims keys s [] (l ∷ links) = ⊥
Linked claims keys s (c ∷ cs) [] = ⊥
Linked claims keys s (c ∷ cs) (l ∷ links) =
    (l.claim ≡ c.id) × Publishes claims keys s c.envelope l.key × Linked claims keys s cs links

module _ (claims : ClaimStore) (keys : KeyStore claims) where
  labelled_document :
      (s : claims.State) (claim : ℕ) (envelope : Envelope)
      → same envelope.payload_kind key_kind ≡ true
      → same envelope.target.kind key_target_kind ≡ true
      → key_document claims keys s claim envelope
        ≡ map_err store (keys.decode_key s envelope.payload)
  unfolding key_document
  labelled_document s claim envelope labelled aimed = rw (labelled, aimed) refl

  document_labels :
      (s : claims.State) (claim : ℕ) (envelope : Envelope) (key : AttestKey)
      → key_document claims keys s claim envelope ≡ ok key
      → (same envelope.payload_kind key_kind ≡ true)
        × (same envelope.target.kind key_target_kind ≡ true)
  unfolding key_document
  document_labels s claim envelope key e = ground arith

  pub key_document_iff :
      (s : claims.State) (claim : ℕ) (envelope : Envelope) (key : AttestKey)
      → (key_document claims keys s claim envelope ≡ ok key) ↔ Publishes claims keys s envelope key
  key_document_iff s claim envelope key = (
    λ e.
        let (labelled, aimed) = document_labels s claim envelope key e in
        (
          (same_iff envelope.payload_kind key_kind).0 labelled,
          (same_iff envelope.target.kind key_target_kind).0 aimed,
          map_err-eq-ok store (keys.decode_key s envelope.payload)
              (sym (labelled_document s claim envelope labelled aimed) ∙ e),
        ),
    λ h.
        labelled_document s claim envelope ((same_iff envelope.payload_kind key_kind).1 h.0)
          ((same_iff envelope.target.kind key_target_kind).1 h.1)
        ∙ ap (map_err store) h.2,
  )

  -- Once the claim is seen, the loop links every claim that is left.
  key_links_seen :
      (s : claims.State) (claim : ℕ) (cs : List Claim) (b : Bool) (links : List Link)
      → key_links claims keys s claim true cs ≡ ok (b, links)
      → (b ≡ true) × Linked claims keys s cs links
  unfolding key_links
  key_links_seen s claim [] b [] e = ground arith
  key_links_seen s claim [] b (l ∷ links) e = absurd (ground arith)
  key_links_seen s claim (c ∷ cs) b links e =
      let (key, e1, e2) = bind-eq-ok (key_document claims keys s c.id c.envelope) _ e in
      let (later, e3, e4) = bind-eq-ok (key_links claims keys s claim true cs) _ e2 in
      let (seen, linked) = key_links_seen s claim cs later.0 later.1 e3 in
      let b_is : later.0 ≡ b = ground arith in
      let links_are : record { claim = c.id; key = key } ∷ later.1 ≡ links = ground arith in
      (
        sym b_is ∙ seen,
        rw (sym links_are) (refl, (key_document_iff s c.id c.envelope key).0 e1, linked),
      )

  key_links-Linked :
      (s : claims.State) (claim : ℕ) (cs : List Claim) (links : List Link)
      → Linked claims keys s cs links
      → key_links claims keys s claim true cs ≡ ok (true, links)
  unfolding key_links
  key_links-Linked s claim [] [] h = refl
  key_links-Linked s claim [] (l ∷ links) h = absurd h
  key_links-Linked s claim (c ∷ cs) [] h = absurd h
  key_links-Linked s claim (c ∷ cs) (l ∷ links) (id_is, published, linked) =
      rw
        (
          (key_document_iff s c.id c.envelope l.key).1 published,
          key_links-Linked s claim cs links linked,
          sym id_is,
        )
        refl

  -- The newest claim with an id, and what is older than it.
  abbrev pub Reaches : ℕ → List Claim → Claim → List Claim → Type 0
  Reaches claim chain c older =
      (newer : List Claim) × (chain ≡ newer ++ (c ∷ older))
      × (c.id ≡ claim)
      × All (λ (other : Claim). other.id ≢ claim) newer

  key_links_at :
      (s : claims.State) (claim : ℕ) (c : Claim) (chain : List Claim)
      → (c.id == claim) ≡ true
      → key_links claims keys s claim false (c ∷ chain)
        ≡ key_links claims keys s claim true (c ∷ chain)
  unfolding key_links
  key_links_at s claim c chain it_is = rw it_is refl

  key_links_past :
      (s : claims.State) (claim : ℕ) (c : Claim) (chain : List Claim)
      → (c.id == claim) ≡ false
      → key_links claims keys s claim false (c ∷ chain) ≡ key_links claims keys s claim false chain
  unfolding key_links
  key_links_past s claim c chain it_is_not = rw it_is_not refl

  key_links_empty :
      (s : claims.State) (claim : ℕ) (links : List Link)
      → key_links claims keys s claim false [] ≡ ok (true, links)
      → ⊥
  unfolding key_links
  key_links_empty s claim links e = ground arith

  key_links_unseen :
      (s : claims.State) (claim : ℕ) (chain : List Claim) (links : List Link)
      → key_links claims keys s claim false chain ≡ ok (true, links)
      → (c : Claim) × (older : List Claim) × Reaches claim chain c older
        × Linked claims keys s (c ∷ older) links
  key_links_unseen s claim [] links e = absurd (key_links_empty s claim links e)
  key_links_unseen s claim (c ∷ chain) links e = elim (Bool-cases (c.id == claim)) [
    | inl it_is ↦
        let (_, linked) =
          key_links_seen s claim (c ∷ chain) true links
            (sym (key_links_at s claim c chain it_is) ∙ e) in
        (c, chain, ([], refl, (==_iff c.id claim).0 it_is, tt), linked)
    | inr it_is_not ↦
        let (d, older, (newer, chain_is, id_is, skipped), linked) =
          key_links_unseen s claim chain links
            (sym (key_links_past s claim c chain it_is_not) ∙ e) in
        (
          d,
          older,
          (
            c ∷ newer,
            ap (◌∷◌ c) chain_is,
            id_is,
            (λ same_id. absurd (ground (arith, same_id)), skipped),
          ),
          linked,
        )
  ]

  key_links_reached :
      (s : claims.State) (claim : ℕ) (newer : List Claim) (c : Claim) (older : List Claim)
      (links : List Link)
      → All (λ (other : Claim). other.id ≢ claim) newer
      → c.id ≡ claim
      → Linked claims keys s (c ∷ older) links
      → key_links claims keys s claim false (newer ++ (c ∷ older)) ≡ ok (true, links)
  key_links_reached s claim [] c older links skipped id_is linked =
      key_links_at s claim c older (rw id_is (==_refl claim))
      ∙ key_links-Linked s claim (c ∷ older) links linked
  key_links_reached s claim (n ∷ newer) c older links skipped id_is linked =
      key_links_past s claim n (newer ++ (c ∷ older)) (ground (arith, skipped.0))
      ∙ key_links_reached s claim newer c older links skipped.1 id_is linked

module _ (forms : NormalForms) (claims : ClaimStore) (keys : KeyStore claims) where
  -- The chain of a key claim, oldest link first: the claim publishes a key, the log of its target
  -- reaches it, and it and every older claim of the log publish the keys of the links.
  pub record IsKeyChain (s : claims.State) (claim : ℕ) (links : List Link) : Type 0 where
    pub envelope : Envelope
    pub key : AttestKey
    pub chain : List Claim
    pub newest : Claim
    pub older : List Claim
    pub envelope_is : envelope_at forms claims s claim ≡ ok envelope
    pub published : Publishes claims keys s envelope key
    pub chain_is : log forms claims s envelope.target ≡ ok chain
    pub reached : Reaches claims keys claim chain newest older
    pub linked : Linked claims keys s (newest ∷ older) (reverse links)

  seen_links-eq-ok :
      (claim : ℕ) (found : Bool × List Link) (links : List Link)
      → seen_links claims keys claim found ≡ ok links
      → (found ≡ (true, reverse links))
  unfolding seen_links
  seen_links-eq-ok claim (false, pushed) links e = absurd (ground arith)
  seen_links-eq-ok claim (true, pushed) links e =
      let links_are : reverse pushed ≡ links = ground arith in
      rw (sym links_are, reverse-reverse pushed) refl

  key_chain-IsKeyChain :
      (s : claims.State) (claim : ℕ) (links : List Link)
      → key_chain forms claims keys s claim ≡ ok links
      → IsKeyChain s claim links
  unfolding key_chain key_envelope
  key_chain-IsKeyChain s claim links e =
      let (envelope, e1, e2) = bind-eq-ok (key_envelope forms claims keys s claim) _ e in
      let (chain, e3, e4) = bind-eq-ok (log forms claims s envelope.target) _ e2 in
      let (found, e5, e6) = bind-eq-ok (key_links claims keys s claim false chain) _ e4 in
      let (read, e7, e8) = bind-eq-ok (envelope_at forms claims s claim) _ e1 in
      let (key, e9, e10) = bind-eq-ok (key_document claims keys s claim read) _ e8 in
      let read_is : read ≡ envelope = ground arith in
      let (newest, older, reached, linked) =
        key_links_unseen claims keys s claim chain (reverse links)
          (e5 ∙ ap ok (seen_links-eq-ok claim found links e6)) in
      record {
        envelope = envelope;
        key = key;
        chain = chain;
        newest = newest;
        older = older;
        envelope_is = e7 ∙ ap ok read_is;
        published =
            subst (λ v. Publishes claims keys s v key) read_is
              ((key_document_iff claims keys s claim read key).0 e9);
        chain_is = e3;
        reached = reached;
        linked = linked;
      }

  IsKeyChain-key_chain :
      (s : claims.State) (claim : ℕ) (links : List Link)
      → IsKeyChain s claim links
      → key_chain forms claims keys s claim ≡ ok links
  unfolding key_chain key_envelope seen_links
  IsKeyChain-key_chain s claim links h =
      let (newer, chain_is, id_is, skipped) = h.reached in
      let found : key_links claims keys s claim false h.chain ≡ ok (true, reverse links) =
        rw chain_is (
          key_links_reached claims keys s claim newer h.newest h.older (reverse links) skipped id_is
            h.linked) in
      rw
        (
          h.envelope_is,
          (key_document_iff claims keys s claim h.envelope h.key).1 h.published,
          h.chain_is,
          found,
          reverse-reverse links,
        )
        refl

  -- `key_chain` returns links exactly when the claim publishes a key, the log of its target has it,
  -- and it and every claim of the log older than the newest entry with its id publish a key; the links
  -- are those claims with their keys, oldest first.
  pub key_chain_iff :
      (s : claims.State) (claim : ℕ) (links : List Link)
      → (key_chain forms claims keys s claim ≡ ok links) ↔ IsKeyChain s claim links
  key_chain_iff s claim links =
      (key_chain-IsKeyChain s claim links, IsKeyChain-key_chain s claim links)
