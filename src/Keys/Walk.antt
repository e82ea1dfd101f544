-- ===== src/Keys/Walk.antt =====
-- `resolve_key_with` of crates/git-attest/src/key.rs and `verify_dispatched` of
-- crates/git-attest/src/verify.rs: the walk over a key chain, and the verdict on a claim.
use git_anchor.Base.{
  ℕ, ◌≡◌, ◌≢◌, ◌↔◌, ◌⊎◌, inl, inr, refl, sym, ap, ◌∙◌, Option, none, some, List, [], ◌∷◌, arith,
}
use git_anchor.Base.Result.{Result, ok, err, ◌>>=◌, bind-eq-ok}
use git_anchor.Binding.{NormalForms}
use git_anchor.Claims.{Claim, ClaimStore, ClaimError, panicked}
use git_anchor.Verdict.{
  AttestKey, Verdict, verified, bad_signature, unknown_key_format, Verifier, SshKey,
}
use git_anchor.Keys.{
  Link, Resolved, key_found, rejected, KeyStore, check_rotations, resolved_key, verify_commit,
  key_chain, resolve_key_with, verify_dispatched,
}
use git_anchor.Keys.Chain.{IsKeyChain, key_chain_iff}

abbrev pub Check : Type 0
Check = ℕ → AttestKey → Result ClaimError Verdict

-- Every rotation is verified with the key before it, and the last link has the key.
abbrev pub Trusted : Check → List Link → AttestKey → Type 0
Trusted check [] key = ⊥
Trusted check (l ∷ []) key = l.key ≡ key
Trusted check (previous ∷ rotation ∷ links) key =
    (check rotation.claim previous.key ≡ ok verified) × Trusted check (rotation ∷ links) key

-- The first rotation that is not verified with the key before it has the verdict.
abbrev pub Refused : Check → List Link → Verdict → Type 0
Refused check [] verdict = ⊥
Refused check (l ∷ []) verdict = ⊥
Refused check (previous ∷ rotation ∷ links) verdict =
    ((check rotation.claim previous.key ≡ ok verdict) × (verdict ≢ verified))
    ⊎ ((check rotation.claim previous.key ≡ ok verified) × Refused check (rotation ∷ links) verdict)

Refused-ne :
    (check : Check) (links : List Link) (verdict : Verdict)
    → Refused check links verdict
    → verdict ≢ verified
Refused-ne check [] verdict h = absurd h
Refused-ne check (l ∷ []) verdict h = absurd h
Refused-ne check (previous ∷ rotation ∷ links) verdict (inl (c, ne)) = ne
Refused-ne check (previous ∷ rotation ∷ links) verdict (inr (c, h)) =
    Refused-ne check (rotation ∷ links) verdict h

module _ (claims : ClaimStore) (keys : KeyStore claims) where
  -- The walk: its loop and what follows.
  abbrev walk : Check → List Link → Result ClaimError Resolved
  walk check links = do
    stopped ← check_rotations claims keys check links
    resolved_key claims keys links stopped

  walk_from :
      (previous rotation : Link) (links : List Link) (r : Result ClaimError (Option Verdict))
      → (r >>= resolved_key claims keys (previous ∷ rotation ∷ links))
        ≡ (r >>= resolved_key claims keys (rotation ∷ links))
  unfolding resolved_key
  walk_from previous rotation links (ok none) = refl
  walk_from previous rotation links (ok (some verdict)) = refl
  walk_from previous rotation links (err e) = refl

  walk_verified :
      (check : Check) (previous rotation : Link) (links : List Link)
      → check rotation.claim previous.key ≡ ok verified
      → walk check (previous ∷ rotation ∷ links) ≡ walk check (rotation ∷ links)
  unfolding check_rotations
  walk_verified check previous rotation links e =
      rw e
        (walk_from previous rotation links (check_rotations claims keys check (rotation ∷ links)))

  walk_stopped :
      (check : Check) (previous rotation : Link) (links : List Link) (verdict : Verdict)
      → check rotation.claim previous.key ≡ ok verdict
      → verdict ≢ verified
      → walk check (previous ∷ rotation ∷ links) ≡ ok (rejected verdict)
  unfolding check_rotations resolved_key
  walk_stopped check previous rotation links verified e ne = absurd (ne refl)
  walk_stopped check previous rotation links bad_signature e ne = rw e refl
  walk_stopped check previous rotation links unknown_key_format e ne = rw e refl

  walk_checked :
      (check : Check) (previous rotation : Link) (links : List Link) (resolved : Resolved)
      → walk check (previous ∷ rotation ∷ links) ≡ ok resolved
      → (verdict : Verdict) × (check rotation.claim previous.key ≡ ok verdict)
  unfolding check_rotations
  walk_checked check previous rotation links resolved e =
      let (stopped, e1, e2) =
        bind-eq-ok (check_rotations claims keys check (previous ∷ rotation ∷ links)) _ e in
      let (verdict, e3, e4) = bind-eq-ok (check rotation.claim previous.key) _ e1 in (verdict, e3)

  walk_alone : (check : Check) (l : Link) → walk check (l ∷ []) ≡ ok (key_found l.key)
  unfolding check_rotations resolved_key
  walk_alone check l = refl

  walk_empty : (check : Check) → walk check [] ≡ err panicked
  unfolding check_rotations resolved_key
  walk_empty check = refl

  verified_or : (verdict : Verdict) → (verdict ≡ verified) ⊎ (verdict ≢ verified)
  verified_or verified = inl refl
  verified_or bad_signature = inr (λ e. absurd (cc))
  verified_or unknown_key_format = inr (λ e. absurd (cc))

  walk-Trusted :
      (check : Check) (links : List Link) (key : AttestKey)
      → walk check links ≡ ok (key_found key)
      → Trusted check links key
  walk-Trusted check [] key e = absurd (cc (walk_empty check))
  walk-Trusted check (l ∷ []) key e = ground (arith, walk_alone check l)
  walk-Trusted check (previous ∷ rotation ∷ links) key e =
      let (verdict, c) = walk_checked check previous rotation links (key_found key) e in
      elim (verified_or verdict) [
        | inl it_is ↦
            let c' : check rotation.claim previous.key ≡ ok verified = c ∙ ap ok it_is in
            (
              c',
              walk-Trusted check (rotation ∷ links) key
                  (sym (walk_verified check previous rotation links c') ∙ e),
            )
        | inr it_is_not ↦
            absurd (cc (walk_stopped check previous rotation links verdict c it_is_not))
      ]

  Trusted-walk :
      (check : Check) (links : List Link) (key : AttestKey)
      → Trusted check links key
      → walk check links ≡ ok (key_found key)
  Trusted-walk check [] key h = absurd h
  Trusted-walk check (l ∷ []) key h = walk_alone check l ∙ ap (λ k. ok (key_found k)) h
  Trusted-walk check (previous ∷ rotation ∷ links) key (c, h) =
      walk_verified check previous rotation links c ∙ Trusted-walk check (rotation ∷ links) key h

  walk-Refused :
      (check : Check) (links : List Link) (verdict : Verdict)
      → walk check links ≡ ok (rejected verdict)
      → Refused check links verdict
  walk-Refused check [] verdict e = absurd (cc (walk_empty check))
  walk-Refused check (l ∷ []) verdict e = absurd (cc (walk_alone check l))
  walk-Refused check (previous ∷ rotation ∷ links) verdict e =
      let (v, c) = walk_checked check previous rotation links (rejected verdict) e in
      elim (verified_or v) [
        | inl it_is ↦
            let c' : check rotation.claim previous.key ≡ ok verified = c ∙ ap ok it_is in
            inr (
              c',
              walk-Refused check (rotation ∷ links) verdict
                  (sym (walk_verified check previous rotation links c') ∙ e),
            )
        | inr it_is_not ↦
            let v_is : v ≡ verdict =
              ground (arith, walk_stopped check previous rotation links v c it_is_not) in
            inl (c ∙ ap ok v_is, λ e'. it_is_not (v_is ∙ e'))
      ]

  Refused-walk :
      (check : Check) (links : List Link) (verdict : Verdict)
      → Refused check links verdict
      → walk check links ≡ ok (rejected verdict)
  Refused-walk check [] verdict h = absurd h
  Refused-walk check (l ∷ []) verdict h = absurd h
  Refused-walk check (previous ∷ rotation ∷ links) verdict (inl (c, ne)) =
      walk_stopped check previous rotation links verdict c ne
  Refused-walk check (previous ∷ rotation ∷ links) verdict (inr (c, h)) =
      walk_verified check previous rotation links c
      ∙ Refused-walk check (rotation ∷ links) verdict h

module _ (forms : NormalForms) (claims : ClaimStore) (keys : KeyStore claims) (ssh : SshKey) where
  -- The check of a rotation that the walk makes.
  abbrev pub rotation_check : claims.State → Option Verifier → Check
  rotation_check s verifier commit key = verify_commit claims keys ssh s commit key verifier

  -- `resolve_key_with` finds a key exactly when the claim has a key chain whose every rotation is
  -- verified with the key it rotates away from, and the last link has the key; it rejects with a
  -- verdict exactly when the first rotation of the chain that is not so verified has that verdict.
  pub resolve_key_with_iff :
      (s : claims.State) (claim : ℕ) (verifier : Option Verifier)
      → ((key : AttestKey)
          → (resolve_key_with forms claims keys ssh s claim verifier ≡ ok (key_found key))
            ↔ (links : List Link) × IsKeyChain forms claims keys s claim links
              × Trusted (rotation_check s verifier) links key)
        × ((verdict : Verdict)
            → (resolve_key_with forms claims keys ssh s claim verifier ≡ ok (rejected verdict))
              ↔ (links : List Link) × IsKeyChain forms claims keys s claim links
                × Refused (rotation_check s verifier) links verdict)
  unfolding resolve_key_with
  resolve_key_with_iff s claim verifier = (
    λ key. (
      λ e.
          let (links, chained, walked) = bind-eq-ok (key_chain forms claims keys s claim) _ e in
          (
            links,
            (key_chain_iff forms claims keys s claim links).0 chained,
            walk-Trusted claims keys (rotation_check s verifier) links key walked,
          ),
      λ (links, chained, trusted).
          rw ((key_chain_iff forms claims keys s claim links).1 chained)
            (Trusted-walk claims keys (rotation_check s verifier) links key trusted),
    ),
    λ verdict. (
      λ e.
          let (links, chained, walked) = bind-eq-ok (key_chain forms claims keys s claim) _ e in
          (
            links,
            (key_chain_iff forms claims keys s claim links).0 chained,
            walk-Refused claims keys (rotation_check s verifier) links verdict walked,
          ),
      λ (links, chained, refused).
          rw ((key_chain_iff forms claims keys s claim links).1 chained)
            (Refused-walk claims keys (rotation_check s verifier) links verdict refused),
    ),
  )

  verdict_of :
      (s : claims.State) (claim : Claim) (verifier : Option Verifier) (resolved : Resolved)
      → resolve_key_with forms claims keys ssh s claim.envelope.key verifier ≡ ok resolved
      → verify_dispatched forms claims keys ssh s claim verifier ≡ ok verified
      → (key : AttestKey) × (resolved ≡ key_found key)
        × (verify_commit claims keys ssh s claim.id key verifier ≡ ok verified)
  unfolding verify_dispatched
  verdict_of s claim verifier (key_found key) r e = (key, refl, sym (rw r refl) ∙ e)
  verdict_of s claim verifier (rejected verdict) r e =
      let (links, chained, refused) =
        ((resolve_key_with_iff s claim.envelope.key verifier).1 verdict).0 r in
      let stopped : verify_dispatched forms claims keys ssh s claim verifier ≡ ok verdict =
        rw r refl in
      absurd
        (Refused-ne (rotation_check s verifier) links verdict refused (ground (arith, stopped)))

  -- The verdict on a claim is `verified` exactly when the key that its envelope names has a key chain
  -- whose every rotation is verified with the key before it, and the claim's own commit is verified
  -- with the key of the last link.
  pub verify_dispatched_iff :
      (s : claims.State) (claim : Claim) (verifier : Option Verifier)
      → (verify_dispatched forms claims keys ssh s claim verifier ≡ ok verified)
        ↔ (links : List Link) × (key : AttestKey) × IsKeyChain forms claims keys s
            claim.envelope.key links
          × Trusted (rotation_check s verifier) links key
          × (verify_commit claims keys ssh s claim.id key verifier ≡ ok verified)
  unfolding verify_dispatched
  verify_dispatched_iff s claim verifier = (
    λ e.
        let (resolved, r, v) =
          bind-eq-ok (resolve_key_with forms claims keys ssh s claim.envelope.key verifier) _ e in
        let (key, resolved_is, own) = verdict_of s claim verifier resolved r e in
        let (links, chained, trusted) =
          ((resolve_key_with_iff s claim.envelope.key verifier).0 key).0 (r ∙ ap ok resolved_is) in
        (links, key, chained, trusted, own),
    λ (links, key, chained, trusted, own).
        rw
          (((resolve_key_with_iff s claim.envelope.key verifier).0 key).1 (links, chained, trusted))
          own,
  )
