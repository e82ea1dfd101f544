-- ===== src/Claims/Resolve.antt =====
-- `resolve` of crates/git-attest/src/chain.rs: the marks that it sets.
use git_anchor.Base.{
  ℕ, ◌≡◌, refl, sym, ap, ◌∙◌, ◌&&◌, Option, none, some, List, [], ◌∷◌, map, All, arith, Bool-cases,
  inl, inr, ◌==◌, if◌then◌else◌,
}
use git_anchor.Base.Text.{Bytes}
use git_anchor.Base.Result.{ok, map_err, bind-eq-ok}
use git_anchor.Binding.{NormalForms}
use git_anchor.Claims.{
  Target, Claim, ClaimStore, store, is_revocation, revocations, get_or_insert, mark, mark_all,
  entity_name, envelope_at, read_claims, log, resolve,
}

-- The first revocation in a list of claims that names a claim.
unfoldable pub newest_revocation : ℕ → List Claim → Option ℕ
newest_revocation id [] = none
newest_revocation id (c ∷ claims) =
    let rest = newest_revocation id claims in
    if is_revocation c.envelope && c.envelope.target.id == id then some c.id else rest

-- The claim with a given mark.
abbrev pub marked : Claim → Option ℕ → Claim
marked c by = record { id = c.id; envelope = c.envelope; revoked_by = by }

abbrev first_of : ℕ → List (ℕ × ℕ) → Option ℕ
first_of id [] = none
first_of id ((revoked, revocation) ∷ pairs) =
    let rest = first_of id pairs in if id == revoked then some revocation else rest

abbrev or_else : Option ℕ → Option ℕ → Option ℕ
or_else none o = o
or_else (some r) o = some r

first_of-revocations :
    (id : ℕ) (claims : List Claim) → first_of id (revocations claims) ≡ newest_revocation id claims
unfolding revocations newest_revocation
first_of-revocations id [] = refl
first_of-revocations id (c ∷ claims) = elim (Bool-cases (is_revocation c.envelope)) [
  | inr no_one ↦ rw no_one (first_of-revocations id claims)
  | inl it_is ↦ rw it_is (ground (arith, first_of-revocations id claims))
]

or_else-none : (o : Option ℕ) → or_else o none ≡ o
or_else-none none = refl
or_else-none (some r) = refl

or_else-get_or_insert :
    (o : Option ℕ) (r : ℕ) (p : Option ℕ) → or_else (get_or_insert o r) p ≡ or_else o (some r)
or_else-get_or_insert none r p = refl
or_else-get_or_insert (some q) r p = refl

mark_one :
    (revoked revocation : ℕ) (pairs : List (ℕ × ℕ)) (claims : List Claim)
    → map
        (λ c. marked c (or_else c.revoked_by (first_of c.id pairs)))
        (mark revoked revocation claims)
      ≡ map
          (λ c. marked c (or_else c.revoked_by (first_of c.id ((revoked, revocation) ∷ pairs))))
          claims
unfolding mark
mark_one revoked revocation pairs [] = refl
mark_one revoked revocation pairs (c ∷ claims) = elim (Bool-cases (c.id == revoked)) [
  | inl eq ↦
      rw (eq, or_else-get_or_insert c.revoked_by revocation (first_of c.id pairs))
        (ap (◌∷◌ (marked c (or_else c.revoked_by (some revocation))))
          (mark_one revoked revocation pairs claims))
  | inr ne ↦ rw ne (
      ap (◌∷◌ (marked c (or_else c.revoked_by (first_of c.id pairs))))
        (mark_one revoked revocation pairs claims))
]

unmarked : (claims : List Claim) → claims ≡ map (λ c. marked c (or_else c.revoked_by none)) claims
unmarked [] = refl
unmarked (c ∷ claims) = rw (or_else-none c.revoked_by) (ap (◌∷◌ c) (unmarked claims))

mark_all-map :
    (pairs : List (ℕ × ℕ)) (claims : List Claim)
    → mark_all pairs claims
      ≡ map (λ c. marked c (or_else c.revoked_by (first_of c.id pairs))) claims
unfolding mark_all
mark_all-map [] claims = unmarked claims
mark_all-map ((revoked, revocation) ∷ pairs) claims =
    mark_all-map pairs (mark revoked revocation claims) ∙ mark_one revoked revocation pairs claims

-- The chain as `log` reads it carries no mark.
abbrev pub Unmarked : List Claim → Type 0
Unmarked claims = All (λ c. c.revoked_by ≡ none) claims

mark-Unmarked :
    (all claims : List Claim)
    → Unmarked claims
    → map (λ c. marked c (or_else c.revoked_by (first_of c.id (revocations all)))) claims
      ≡ map (λ c. marked c (newest_revocation c.id all)) claims
mark-Unmarked all [] u = refl
mark-Unmarked all (c ∷ claims) (h, u) =
    rw (h, first_of-revocations c.id all, mark-Unmarked all claims u) refl

module _ (forms : NormalForms) (claims : ClaimStore) where
  read_claims-Unmarked :
      (s : claims.State) (ids : List ℕ) (cs : List Claim)
      → read_claims forms claims s ids ≡ ok cs
      → (Unmarked cs × (map (λ (c : Claim). c.id) cs ≡ ids))
  unfolding read_claims
  read_claims-Unmarked s [] cs e = let cs_is : [] ≡ cs = ground arith in rw (sym cs_is) (tt, refl)
  read_claims-Unmarked s (id ∷ ids) cs e =
      let (envelope, e1, e2) = bind-eq-ok (envelope_at forms claims s id) _ e in
      let (later, e3, e4) = bind-eq-ok (read_claims forms claims s ids) _ e2 in
      let (u, i) = read_claims-Unmarked s ids later e3 in
      let cs_is : record { id = id; envelope = envelope; revoked_by = none } ∷ later ≡ cs =
        ground arith in
      rw (sym cs_is) ((refl, u), ap (◌∷◌ id) i)

  -- `resolve` gives the chain as `log` reads it, every claim in its place with its envelope, each marked
  -- with the newest revocation on the chain that names it, or with none where there is none; its ids
  -- are the store's history of the ref.
  pub resolve_lem :
      (s : claims.State) (target : Target) (cs : List Claim)
      → resolve forms claims s target ≡ ok cs
      → (logged : List Claim) × (name : Bytes) × (log forms claims s target ≡ ok logged)
        × (entity_name forms claims target ≡ ok name)
        × (claims.history s name ≡ ok (map (λ (c : Claim). c.id) logged))
        × (cs ≡ map (λ c. marked c (newest_revocation c.id logged)) logged)
  unfolding resolve log
  resolve_lem s target cs e =
      let (logged, l, r) = bind-eq-ok (log forms claims s target) _ e in
      let (name, n, h) = bind-eq-ok (entity_name forms claims target) _ l in
      let (ids, i, read) = bind-eq-ok (map_err store (claims.history s name)) _ h in
      let (u, named) = read_claims-Unmarked s ids logged read in
      let history_is : claims.history s name ≡ ok ids = ground arith in
      let cs_is : mark_all (revocations logged) logged ≡ cs = ground arith in
      (
        logged,
        name,
        l,
        n,
        history_is ∙ ap ok (sym named),
        sym cs_is ∙ mark_all-map (revocations logged) logged ∙ mark-Unmarked logged logged u,
      )
