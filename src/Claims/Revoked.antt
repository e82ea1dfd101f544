-- ===== src/Claims/Revoked.antt =====
-- `revoke` followed by `resolve`, of crates/git-attest/src/chain.rs.
use git_anchor.Base.{
  ℕ, ◌≡◌, refl, sym, ap, ◌∙◌, subst, some, List, [], ◌∷◌, map, All, In, inl, inr, arith, ==_refl,
}
use git_anchor.Base.Text.{Bytes, same}
use git_anchor.Base.Result.{ok, map_err, bind-eq-ok}
use git_anchor.Binding.{NormalForms}
use git_anchor.Claims.{
  Target, Envelope, Claim, ClaimStore, store, stored_envelope, into_envelope, is_revocation,
  entity_name, envelope_at, read_claims, log, resolve, revoke,
}
use git_anchor.Claims.Append.{IsChained, Appended}
use git_anchor.Claims.Resolve.{newest_revocation, marked, resolve_lem}
use git_anchor.Claims.Revocation.{revocation_of, revoke-Appended}

-- A claim with an id is marked with a revocation.
abbrev pub IsMarked : ℕ → ℕ → Claim → Type 0
IsMarked claim revocation c = c.id ≡ claim → c.revoked_by ≡ some revocation

All-map :
    (P : Claim → Type 0) (f : Claim → Claim) (cs : List Claim)
    → ((c : Claim) → P (f c))
    → All P (map f cs)
All-map P f [] h = tt
All-map P f (c ∷ cs) h = (h c, All-map P f cs h)

listed_claim :
    (claim : ℕ) (f : Claim → Claim) (cs : List Claim)
    → In claim (map (λ (c : Claim). c.id) cs)
    → (c : Claim) × In (f c) (map f cs) × (c.id ≡ claim)
listed_claim claim f [] i = absurd i
listed_claim claim f (c ∷ cs) (inl e) = (c, inl refl, sym e)
listed_claim claim f (c ∷ cs) (inr i) =
    let (d, listed, d_is) = listed_claim claim f cs i in (d, inr listed, d_is)

revocation_first :
    (claim key : ℕ) (c : Claim) (older : List Claim)
    → c.envelope ≡ revocation_of claim key
    → newest_revocation claim (c ∷ older) ≡ some c.id
unfolding newest_revocation is_revocation same
revocation_first claim key c older e = rw (e, ==_refl claim) refl

head_eq :
    (logged : List Claim) (id : ℕ) (ids : List ℕ)
    → map (λ (c : Claim). c.id) logged ≡ id ∷ ids
    → (c : Claim) × (older : List Claim) × (logged ≡ c ∷ older) × (c.id ≡ id)
head_eq [] id ids e = absurd (cc)
head_eq (c ∷ older) id ids e = (c, older, refl, ground arith)

module _ (forms : NormalForms) (claims : ClaimStore) where
  read_head :
      (s : claims.State) (ids : List ℕ) (c : Claim) (older : List Claim)
      → read_claims forms claims s ids ≡ ok (c ∷ older)
      → envelope_at forms claims s c.id ≡ ok c.envelope
  unfolding read_claims
  read_head s [] c older e = absurd (ground arith)
  read_head s (id ∷ ids) c older e =
      let (envelope, e1, e2) = bind-eq-ok (envelope_at forms claims s id) _ e in
      let (later, e3, e4) = bind-eq-ok (read_claims forms claims s ids) _ e2 in
      let (id_is, envelope_is) : (id ≡ c.id) × (envelope ≡ c.envelope) = ground arith in
      ap (envelope_at forms claims s) (sym id_is) ∙ e1 ∙ ap ok envelope_is

  log_head :
      (s : claims.State) (on : Target) (c : Claim) (older : List Claim)
      → log forms claims s on ≡ ok (c ∷ older)
      → envelope_at forms claims s c.id ≡ ok c.envelope
  unfolding log
  log_head s on c older e =
      let (name, e1, e2) = bind-eq-ok (entity_name forms claims on) _ e in
      let (ids, e3, e4) = bind-eq-ok (map_err store (claims.history s name)) _ e2 in
      read_head s ids c older e4

  Appended-envelope :
      (s : claims.State) (name : Bytes) (envelope : Envelope) (id : ℕ)
      → Appended forms claims s name envelope id
      → envelope_at forms claims s id ≡ ok envelope
  unfolding envelope_at into_envelope stored_envelope
  Appended-envelope s name envelope id appended =
      let claim_is = appended.claim_is in rw claim_is refl

  -- After `revoke` has reported a revocation, whatever other writers did, and where the revoked claim is on
  -- the chain of its own target, a `resolve` of that target that succeeds lists the claim, and marks every
  -- listed claim with its id with that revocation.
  pub revoke-resolve :
      (others : ℕ → claims.State → claims.State) (fuel : ℕ) (s s' : claims.State) (claim key id : ℕ)
      (revoked : Envelope) (name : Bytes) (ids : List ℕ) (cs : List Claim)
      → IsChained claims
      → envelope_at forms claims s claim ≡ ok revoked
      → entity_name forms claims revoked.target ≡ ok name
      → claims.history s' name ≡ ok ids
      → In claim ids
      → revoke forms claims others fuel s claim key ≡ (ok id, s')
      → resolve forms claims s' revoked.target ≡ ok cs
      → ((c : Claim) × In c cs × (c.id ≡ claim) × (c.revoked_by ≡ some id))
        × All (IsMarked claim id) cs
  revoke-resolve others fuel s s' claim key id revoked own ids cs chained read own_is ids_are
        on_chain e r =
      let (found, name, found_read, named, appended) =
        revoke-Appended forms claims others fuel s s' claim key id chained e in
      let (logged, name', is_log, named', history_is, cs_are) =
        resolve_lem forms claims s' revoked.target cs r in
      let found_is : found ≡ revoked = ground (arith, found_read, read) in
      let same_name : name' ≡ name =
        ground (arith, named', ap (λ (v : Envelope). entity_name forms claims v.target) found_is) in
      let logged_ids : map (λ (c : Claim). c.id) logged ≡ id ∷ appended.ids =
        ground (arith, ap (claims.history s') same_name, appended.after_is) in
      let (first, older, logged_is, first_is) = head_eq logged id appended.ids logged_ids in
      let first_read = log_head s' revoked.target first older (is_log ∙ ap ok logged_is) in
      let own_read = Appended-envelope s' name (revocation_of claim key) id appended in
      let envelope_is : first.envelope ≡ revocation_of claim key =
        ground (arith, sym first_read ∙ ap (envelope_at forms claims s') first_is ∙ own_read) in
      let marks : newest_revocation claim logged ≡ some id =
        ap (newest_revocation claim) logged_is
        ∙ revocation_first claim key first older envelope_is
        ∙ ap some first_is in
      let mark_of = λ (c : Claim). marked c (newest_revocation c.id logged) in
      let same_own : name' ≡ own = ground (arith, named', own_is) in
      let ids_logged : ids ≡ map (λ (c : Claim). c.id) logged =
        ground (arith, ap (claims.history s') same_own, history_is, ids_are) in
      let each : (c : Claim) → IsMarked claim id (mark_of c) =
        λ c id_is. ap (λ (i : ℕ). newest_revocation i logged) id_is ∙ marks in
      let (c, listed, c_is) =
        listed_claim claim mark_of logged (subst (In claim) ids_logged on_chain) in
      (
        (mark_of c, subst (In (mark_of c)) (sym cs_are) listed, c_is, each c c_is),
        subst (All (IsMarked claim id)) (sym cs_are)
            (All-map (IsMarked claim id) mark_of logged each),
      )
