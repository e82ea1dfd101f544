-- ===== src/AttestCli/KeyClaim.antt =====
-- `key_claim` of crates/git-attest/src/main.rs: which claim it names.
use git_anchor.Base.{
  ℕ, ◌≡◌, ◌≢◌, ◌↔◌, inl, inr, refl, sym, ap, ◌∙◌, subst, Bool, true, Option, none, some, List, [],
  ◌∷◌, ◌++◌, All, arith, ◌==◌, ==_iff, if◌then◌else◌, Option-cases,
}
use git_anchor.Base.Text.{Bytes}
use git_anchor.Base.Result.{ok, map_err}
use git_anchor.Base.Action.{after-eq-ok, fails_as, fails_as-eq-ok, returns-eq-ok}
use git_anchor.Binding.{NormalForms}
use git_anchor.Claims.{Claim, ClaimStore, log}
use git_anchor.Verdict.{AttestKey, SshKey, from_openssh}
use git_anchor.Keys.{KeyStore, key_at}
use git_anchor.KeyWrites.{key_target, add_key}
use git_anchor.AttestArgs.{of_claims, of_store, not_a_key_claim_arg, Revisions, object_named}
use git_anchor.AttestCli.{last_with, found_or_added, key_claim}

-- The oldest claim of a chain that carries a payload: it carries it, and no older claim does.
abbrev pub IsOldestWith : ℕ → List Claim → Claim → Type 0
IsOldestWith payload chain c =
    (newer : List Claim) × (older : List Claim) × (chain ≡ newer ++ (c ∷ older))
    × (c.envelope.payload ≡ payload)
    × All (λ (other : Claim). other.envelope.payload ≢ payload) older

module _ (payload : ℕ) where
  last_later :
      (c : Claim) (chain : List Claim) (found : Claim)
      → last_with payload chain ≡ some found
      → last_with payload (c ∷ chain) ≡ some found
  unfolding last_with
  last_later c chain found e = rw e refl

  last_here :
      (c : Claim) (chain : List Claim)
      → last_with payload chain ≡ none
      → last_with payload (c ∷ chain) ≡ (if c.envelope.payload == payload then some c else none)
  unfolding last_with
  last_here c chain e = rw e refl

  last_empty : last_with payload [] ≡ none
  unfolding last_with
  last_empty = refl

  pub last_with-none :
      (chain : List Claim)
      → last_with payload chain ≡ none
      → All (λ (other : Claim). other.envelope.payload ≢ payload) chain
  last_with-none [] e = tt
  last_with-none (c ∷ chain) e = elim (Option-cases (last_with payload chain)) [
    | inr (found, later) ↦ absurd (cc (last_later c chain found later))
    | inl later ↦
        let unmatched : (if c.envelope.payload == payload then some c else none) ≡ none =
          sym (last_here c chain later) ∙ e in
        (ground (arith, unmatched), last_with-none chain later)
  ]

  pub last_with-IsOldestWith :
      (chain : List Claim) (found : Claim)
      → last_with payload chain ≡ some found
      → IsOldestWith payload chain found
  last_with-IsOldestWith [] found e = absurd (cc last_empty)
  last_with-IsOldestWith (c ∷ chain) found e = elim (Option-cases (last_with payload chain)) [
    | inr (other, later) ↦
        let other_is : other ≡ found = ground (arith, last_later c chain other later) in
        let (newer, older, chain_is, carried, unmatched) =
          last_with-IsOldestWith chain found (later ∙ ap some other_is) in
        (c ∷ newer, older, ap (◌∷◌ c) chain_is, carried, unmatched)
    | inl later ↦
        let matched : (if c.envelope.payload == payload then some c else none) ≡ some found =
          sym (last_here c chain later) ∙ e in
        let (carries, c_is) : ((c.envelope.payload == payload) ≡ true) × (c ≡ found) =
          ground (arith, matched) in
        (
          [],
          chain,
          ap (λ d. d ∷ chain) c_is,
          ap (λ (d : Claim). d.envelope.payload) (sym c_is)
              ∙ (==_iff c.envelope.payload payload).0 carries,
          last_with-none chain later,
        )
  ]

module _ (forms : NormalForms) (claims : ClaimStore) (keys : KeyStore claims) (ssh : SshKey)
    (revisions : Revisions) (public : Bytes) where
  -- What `key_claim` does without a claim given, once the public key has been read and compiled: it
  -- names the oldest claim on the chain of the key whose payload is the key's document, and writes nothing
  -- more; or there is none, and it adds the key.
  pub data Names (others : ℕ → claims.State → claims.State) (fuel : ℕ) (key : AttestKey)
      (payload : ℕ) (chain : List Claim) (s : claims.State) : ℕ → claims.State → Type 0 where
    existing :
        (c : Claim) → IsOldestWith payload chain c → Names others fuel key payload chain s c.id s
    added :
        (id : ℕ) (s' : claims.State)
        → All (λ (other : Claim). other.envelope.payload ≢ payload) chain
        → add_key forms claims keys others fuel key s ≡ (ok id, s')
        → Names others fuel key payload chain s id s'

  found-Names :
      (others : ℕ → claims.State → claims.State) (fuel : ℕ) (key : AttestKey) (payload : ℕ)
      (chain : List Claim) (s s' : claims.State) (id : ℕ) (found : Option Claim)
      → last_with payload chain ≡ found
      → found_or_added forms claims keys ssh revisions public others fuel key found s ≡ (ok id, s')
      → Names others fuel key payload chain s id s'
  unfolding found_or_added
  found-Names others fuel key payload chain s s' id none f e =
      added id s' (last_with-none payload chain f)
        (fails_as-eq-ok of_claims (add_key forms claims keys others fuel key s) id s' e)
  found-Names others fuel key payload chain s s' id (some c) f e =
      let (id_is, s_is) : (c.id ≡ id) × (s ≡ s') = ground arith in
      subst (λ i. Names others fuel key payload chain s i s') id_is
        (subst (λ t. Names others fuel key payload chain s c.id t) s_is
          (existing c (last_with-IsOldestWith payload chain c f)))

  -- Without a claim given, `key_claim` names the oldest claim on the key's own chain whose payload is
  -- the key's document, leaving the store as compiling it left it, and adds the key where there is none.
  pub key_claim-Names :
      (others : ℕ → claims.State → claims.State) (fuel : ℕ) (machine : Bool) (s s' : claims.State)
      (id : ℕ)
      → key_claim forms claims keys ssh revisions public others fuel none machine s ≡ (ok id, s')
      → (key : AttestKey) × (payload : ℕ) × (s1 : claims.State) × (chain : List Claim)
        × (from_openssh ssh public machine ≡ ok key)
        × (keys.compile_key s key ≡ (ok payload, s1))
        × (log forms claims s1 (key_target payload) ≡ ok chain)
        × Names others fuel key payload chain s1 id s'
  unfolding key_claim
  key_claim-Names others fuel machine s s' id e =
      let (key, s1, e1, e2) =
        after-eq-ok (map_err of_claims (from_openssh ssh public machine), s) _ e in
      let (payload, s2, e3, e4) =
        after-eq-ok (fails_as of_store (λ t. keys.compile_key t key) s1) _ e2 in
      let (chain, s3, e5, e6) =
        after-eq-ok (map_err of_claims (log forms claims s2 (key_target payload)), s2) _ e4 in
      let (read, s_is) = returns-eq-ok of_claims (from_openssh ssh public machine) s key s1 e1 in
      let (logged, s2_is) =
        returns-eq-ok of_claims (log forms claims s2 (key_target payload)) s2 chain s3 e5 in
      let compiled : keys.compile_key s key ≡ (ok payload, s2) =
        ap (λ t. keys.compile_key t key) s_is
        ∙ fails_as-eq-ok of_store (keys.compile_key s1 key) payload s2 e3 in
      (
        key,
        payload,
        s2,
        chain,
        read,
        compiled,
        logged,
        found-Names others fuel key payload chain s2 s' id (last_with payload chain) refl
            (rw s2_is e6),
      )

  -- With a claim given, `key_claim` names exactly the object that the argument names, where a key
  -- claim is read there whose chain was walked to an end, and leaves the store as it is.
  pub key_claim_given :
      (others : ℕ → claims.State → claims.State) (fuel : ℕ) (given : Bytes) (machine : Bool)
      (s s' : claims.State) (id : ℕ)
      → (key_claim forms claims keys ssh revisions public others fuel (some given) machine s
          ≡ (ok id, s'))
        ↔ (object_named revisions given ≡ ok id)
          × (s ≡ s')
          × ((found : Option AttestKey) × (key_at forms claims keys ssh s id ≡ ok found))
  unfolding key_claim
  key_claim_given others fuel given machine s s' id = (
    λ e.
        let (claim, s1, e1, e2) = after-eq-ok (object_named revisions given, s) _ e in
        let (found, s2, e3, e4) =
          after-eq-ok
            (fails_as (not_a_key_claim_arg given) (λ t. (key_at forms claims keys ssh t claim, t))
              s1)
            _ e2 in
        let (named, s_is) : (object_named revisions given ≡ ok claim) × (s ≡ s1) = ground arith in
        let (read, s1_is) =
          returns-eq-ok (not_a_key_claim_arg given) (key_at forms claims keys ssh s1 claim) s1 found
            s2 e3 in
        let (claim_is, s2_is) : (claim ≡ id) × (s2 ≡ s') = ground arith in
        (
          named ∙ ap ok claim_is,
          s_is ∙ s1_is ∙ s2_is,
          (
            found,
            subst (λ c. key_at forms claims keys ssh s c ≡ ok found) claim_is
                (subst (λ t. key_at forms claims keys ssh t claim ≡ ok found) (sym s_is) read),
          ),
        ),
    λ (named, s_is, (found, read)). rw (named, read, s_is) refl,
  )
