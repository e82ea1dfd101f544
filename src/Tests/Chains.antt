-- ===== src/Tests/Chains.antt =====
-- Claims in a store with one chain.
use git_anchor.Base.{
  ℕ, zero, suc, ◌≡◌, ◌⊎◌, inl, inr, refl, sym, ap, ◌∙◌, Bool, true, false, Option, none, some, List,
  [], ◌∷◌, map, length, arith, if◌then◌else◌, ◌==◌, ==_iff, ==_refl, All, In,
}
use git_anchor.Base.Text.{Bytes, codes, same}
use git_anchor.Base.Result.{Result, ok, err}
use git_anchor.Diff.{same_id}
use git_anchor.Claims.{
  Target, Envelope, StoredEnvelope, stored_envelope, Claim, StoreError, backend, other, ClaimStore,
  entity_name, log, resolve, append, sign, revoke, claim_target_kind, revocation_kind,
  empty_tree_id, envelope_at,
}
use git_anchor.Claims.Resolve.{marked, newest_revocation, resolve_lem}
use git_anchor.Claims.Append.{newest, IsChained, Appended, append-Appended}
use git_anchor.Claims.Numbered.{IsLater, NeverRewinds, append_sequence}
use git_anchor.Claims.Revoked.{IsMarked, revoke-resolve}
use git_anchor.Claims.Returns.{Works, append_total}
use git_anchor.Tests.Bindings.{sample_forms}

-- The ids of a chain of claims, newest first.
abbrev pub countdown : ℕ → List ℕ
countdown zero = []
countdown (suc n) = suc n ∷ countdown n

abbrev pub claim_at : List StoredEnvelope → ℕ → Option StoredEnvelope
claim_at [] id = none
claim_at (c ∷ older) id = if id == suc (length older) then some c else claim_at older id

abbrev pub publish_on :
    List StoredEnvelope
    → Option ℕ
    → StoredEnvelope
    → Bool
    → Result StoreError ℕ × List StoredEnvelope
publish_on s current document true = (ok (suc (length s)), document ∷ s)
publish_on s current document false = (err (backend []), s)

abbrev pub one_chain : ClaimStore
one_chain = record {
  State = List StoredEnvelope;
  Document = StoredEnvelope;
  hex = λ id. id ∷ [];
  ref_segment = λ text. ok text;
  read_ref = λ s name. ok (newest (countdown (length s)));
  history = λ s name. ok (countdown (length s));
  read_claim = λ s id. ok (claim_at s id);
  prepare = λ s stored. (ok stored, s);
  publish = λ s name current summary document.
      publish_on s current document (same_id (newest (countdown (length s))) current);
}

countdown-newest :
    (n m : ℕ) → newest (countdown n) ≡ newest (countdown m) → countdown n ≡ countdown m
countdown-newest zero zero e = refl
countdown-newest zero (suc m) e = cc
countdown-newest (suc n) zero e = cc
countdown-newest (suc n) (suc m) e = let same_length : n ≡ m = ground arith in rw same_length refl

same_id_eq : (a b : Option ℕ) → same_id a b ≡ true → a ≡ b
same_id_eq none none e = refl
same_id_eq none (some b) e = cc
same_id_eq (some a) none e = cc
same_id_eq (some a) (some b) e = ap some ((==_iff a b).0 e)

publish_on_eq :
    (s s' : List StoredEnvelope) (current : Option ℕ) (document : StoredEnvelope) (b : Bool)
    (id : ℕ)
    → publish_on s current document b ≡ (ok id, s')
    → (b ≡ true) × (suc (length s) ≡ id) × (document ∷ s ≡ s')
publish_on_eq s s' current document true id e =
    (refl, ground arith, ap (λ (o : Result StoreError ℕ × List StoredEnvelope). o.1) e)
publish_on_eq s s' current document false id e = absurd (ground arith)

one_chain_tip :
    (s : one_chain.State) (name : Bytes) (h : List ℕ) (current : Option ℕ)
    → one_chain.read_ref s name ≡ ok current
    → one_chain.history s name ≡ ok h
    → newest h ≡ current
one_chain_tip s name h current r i = ground arith

one_chain_history :
    (s s' : one_chain.State) (name : Bytes) (h h' : List ℕ)
    → one_chain.history s name ≡ ok h
    → one_chain.history s' name ≡ ok h'
    → newest h ≡ newest h'
    → h ≡ h'
one_chain_history s s' name h h' i i' n =
    let left : countdown (length s) ≡ h = ground arith in
    let right : countdown (length s') ≡ h' = ground arith in
    sym left ∙ countdown-newest (length s) (length s') (rw (left, right) n) ∙ right

one_chain_published :
    (s s' : one_chain.State) (name : Bytes) (current : Option ℕ) (summary : Bytes)
    (document : one_chain.Document) (id : ℕ)
    → one_chain.publish s name current summary document ≡ (ok id, s')
    → (h : List ℕ) × (one_chain.history s name ≡ ok h)
      × (newest h ≡ current)
      × (one_chain.history s' name ≡ ok (id ∷ h))
one_chain_published s s' name current summary document id e =
    let (same, id_is, s_is) =
      publish_on_eq s s' current document (same_id (newest (countdown (length s))) current) id e in
    (
      countdown (length s),
      refl,
      same_id_eq (newest (countdown (length s))) current same,
      rw (sym s_is, sym id_is) refl,
    )

one_chain_holds :
    (s s1 s2 s3 : one_chain.State) (name : Bytes) (current : Option ℕ) (summary : Bytes)
    (document : one_chain.Document) (id : ℕ) (stored : StoredEnvelope)
    → one_chain.prepare s stored ≡ (ok document, s1)
    → one_chain.publish s2 name current summary document ≡ (ok id, s3)
    → one_chain.read_claim s3 id ≡ ok (some stored)
one_chain_holds s s1 s2 s3 name current summary document id stored p e =
    let (same, id_is, s_is) =
      publish_on_eq s2 s3 current document (same_id (newest (countdown (length s2))) current) id
        e in
    let document_is : stored ≡ document = ground arith in
    rw (sym s_is, sym id_is, document_is, ==_refl (suc (length s2))) refl

pub one_chain-IsChained : IsChained one_chain
one_chain-IsChained = record {
  tip_names = one_chain_tip;
  one_history = one_chain_history;
  published = one_chain_published;
  holds = one_chain_holds;
}

abbrev blob_target : Target
blob_target = record { kind = codes "blob"; id = 7 }

abbrev first_claim : Envelope
first_claim = record { target = blob_target; payload = 8; payload_kind = codes "review"; key = 9 }

abbrev revoking : Envelope
revoking = record {
  target = record { kind = claim_target_kind; id = 1 };
  payload = empty_tree_id;
  payload_kind = revocation_kind;
  key = 9;
}

-- Another writer gets in between the two reads of the first of two attempts.
abbrev pub one_race : ℕ → one_chain.State → one_chain.State
one_race (suc (suc (suc n))) s = stored_envelope first_claim 0 ∷ s
one_race n s = s

raced :
    append sample_forms one_chain one_race 2 ([]) blob_target revoking
    ≡ (ok 2, (stored_envelope revoking 1 ∷ stored_envelope first_claim 0 ∷ []))
unfolding append entity_name git_anchor.Claims.target_key git_anchor.Claims.append_loop
    git_anchor.Claims.attempt git_anchor.Claims.read_tip git_anchor.Claims.sequence_at
    git_anchor.Claims.publish_prepared git_anchor.Claims.after_publish
raced = refl

append-Appended_example :
    (name : Bytes) × (entity_name sample_forms one_chain blob_target ≡ ok name)
    × Appended sample_forms one_chain
        ((stored_envelope revoking 1 ∷ stored_envelope first_claim 0 ∷ []))
        name
        revoking
        2
append-Appended_example =
    append-Appended sample_forms one_chain one_chain-IsChained one_race 2 ([])
      ((stored_envelope revoking 1 ∷ stored_envelope first_claim 0 ∷ [])) blob_target revoking 2
      raced

unmoved : (s : one_chain.State) → IsLater one_chain s s
unmoved s name h' is = (h', [], is, refl)

race-IsLater : (n : ℕ) (s : one_chain.State) → IsLater one_chain s (one_race n s)
race-IsLater zero s = unmoved s
race-IsLater (suc zero) s = unmoved s
race-IsLater (suc (suc zero)) s = unmoved s
race-IsLater (suc (suc (suc n))) s =
    λ name h' is. (countdown (length s), suc (length s) ∷ [], refl, ground arith)

one_race-NeverRewinds : NeverRewinds one_chain one_race
one_race-NeverRewinds = record { writers = race-IsLater; objects = λ s stored. unmoved s }

append_sequence_example :
    (name : Bytes) × (ids : List ℕ) × (entity_name sample_forms one_chain blob_target ≡ ok name)
    × (one_chain.history (stored_envelope revoking 1 ∷ stored_envelope first_claim 0 ∷ []) name
        ≡ ok (2 ∷ ids))
    × (one_chain.read_claim (stored_envelope revoking 1 ∷ stored_envelope first_claim 0 ∷ []) 2
        ≡ ok (some (stored_envelope revoking (length ids))))
append_sequence_example =
    append_sequence sample_forms one_chain one_chain-IsChained one_race one_race-NeverRewinds 2 []
      (stored_envelope revoking 1 ∷ stored_envelope first_claim 0 ∷ []) blob_target revoking 2 raced

abbrev revoked_chain : List StoredEnvelope
revoked_chain = stored_envelope revoking 1 ∷ stored_envelope first_claim 0 ∷ []

abbrev resolved : List Claim
resolved =
    record { id = 2; envelope = revoking; revoked_by = none }
    ∷ record { id = 1; envelope = first_claim; revoked_by = some 2 }
    ∷ []

resolved_is : resolve sample_forms one_chain revoked_chain blob_target ≡ ok resolved
unfolding resolve log entity_name git_anchor.Claims.target_key git_anchor.Claims.read_claims
    git_anchor.Claims.envelope_at git_anchor.Claims.mark_all git_anchor.Claims.revocations
    git_anchor.Claims.is_revocation same git_anchor.Claims.into_envelope stored_envelope
    git_anchor.Claims.mark
resolved_is = refl

resolve_lem_example :
    (logged : List Claim) × (name : Bytes) × (log sample_forms one_chain revoked_chain blob_target
      ≡ ok logged)
    × (entity_name sample_forms one_chain blob_target ≡ ok name)
    × (one_chain.history revoked_chain name ≡ ok (map (λ (c : Claim). c.id) logged))
    × (resolved ≡ map (λ c. marked c (newest_revocation c.id logged)) logged)
resolve_lem_example =
    resolve_lem sample_forms one_chain revoked_chain blob_target resolved resolved_is

same_id_refl : (o : Option ℕ) → same_id o o ≡ true
same_id_refl none = refl
same_id_refl (some a) = ==_refl a

one_chain_accepts :
    (s : one_chain.State) (name : Bytes) (current : Option ℕ) (summary : Bytes)
    (document : one_chain.Document)
    → one_chain.read_ref s name ≡ ok current
    → (id : ℕ) × (s' : one_chain.State) × (one_chain.publish s name current summary document
        ≡ (ok id, s'))
one_chain_accepts s name current summary document r =
    let tip : newest (countdown (length s)) ≡ current = ground arith in
    let same : same_id (newest (countdown (length s))) current ≡ true =
      rw tip (same_id_refl current) in
    (suc (length s), document ∷ s, ap (publish_on s current document) same)

publish_on_answers :
    (s : List StoredEnvelope) (current : Option ℕ) (document : StoredEnvelope) (b : Bool)
    → ((id : ℕ) × (s' : List StoredEnvelope) × (publish_on s current document b ≡ (ok id, s')))
      ⊎ ((message : Bytes) × (s' : List StoredEnvelope) × (publish_on s current document b
            ≡ (err (backend message), s')))
publish_on_answers s current document true = inl (suc (length s), document ∷ s, refl)
publish_on_answers s current document false = inr ([], s, refl)

one_chain-Works : Works one_chain
one_chain-Works = record {
  reads = λ s name. (newest (countdown (length s)), refl);
  lists = λ s name. (countdown (length s), refl);
  prepares = λ s stored. (stored, s, refl, λ name. refl);
  accepts = one_chain_accepts;
  answers = λ s name current summary document.
      publish_on_answers s current document (same_id (newest (countdown (length s))) current);
}

named : entity_name sample_forms one_chain blob_target ≡ ok (7 ∷ [])
unfolding entity_name git_anchor.Claims.target_key
named = refl

append_total_example :
    (id : ℕ) × (s' : one_chain.State) × (append sample_forms one_chain one_race 2 [] blob_target
        revoking
      ≡ (ok id, s'))
append_total_example =
    append_total sample_forms one_chain one_chain-Works one_race 1 [] blob_target revoking (7 ∷ [])
      (λ t. refl) (λ t. refl) named

first_read :
    envelope_at sample_forms one_chain (stored_envelope first_claim 0 ∷ []) 1 ≡ ok first_claim
unfolding envelope_at git_anchor.Claims.into_envelope stored_envelope
first_read = refl

first_revoked :
    revoke sample_forms one_chain (λ n s. s) 1 (stored_envelope first_claim 0 ∷ []) 1 9
    ≡ (ok 2, revoked_chain)
unfolding revoke envelope_at append git_anchor.Claims.append_named entity_name
    git_anchor.Claims.target_key git_anchor.Claims.append_loop git_anchor.Claims.attempt
    git_anchor.Claims.read_tip git_anchor.Claims.sequence_at git_anchor.Claims.publish_prepared
    git_anchor.Claims.after_publish git_anchor.Claims.into_envelope stored_envelope
first_revoked = refl

revoke-resolve_example :
    ((c : Claim) × In c resolved × (c.id ≡ 1) × (c.revoked_by ≡ some 2))
    × All (IsMarked 1 2) resolved
revoke-resolve_example =
    revoke-resolve sample_forms one_chain (λ n s. s) 1 (stored_envelope first_claim 0 ∷ [])
      revoked_chain 1 9 2 first_claim (7 ∷ []) (2 ∷ 1 ∷ []) resolved one_chain-IsChained first_read
      named refl (inr (inl refl)) first_revoked resolved_is
