-- ===== src/Claims/Numbered.antt =====
-- The sequence numbers that `append` of crates/git-attest/src/chain.rs gives.
use git_anchor.Base.{
  ℕ, ◌≤◌, ◌≡◌, sym, ap, ◌∙◌, Option, none, some, List, [], ◌∷◌, ◌++◌, length, append_assoc, subst,
  arith,
}
use git_anchor.Base.Text.{Bytes}
use git_anchor.Base.Result.{Result, ok, map_err, bind-eq-ok}
use git_anchor.Binding.{NormalForms}
use git_anchor.Claims.{
  Target, Envelope, StoredEnvelope, stored_envelope, StoreError, ClaimStore, store, entity_name,
  sequence_at, read_tip, append,
}
use git_anchor.Claims.Append.{newest, IsChained, append-Published}

-- From one state of a store to a later one no chain is rewound: what is on it later was on it before,
-- with newer claims put before it.
abbrev pub IsLater : (claims : ClaimStore) → claims.State → claims.State → Type 0
IsLater claims s s' =
    (name : Bytes) (h' : List ℕ)
    → claims.history s' name ≡ ok h'
    → (h : List ℕ) × (newer : List ℕ) × (claims.history s name ≡ ok h) × (h' ≡ newer ++ h)

-- Neither other writers nor the writing of objects rewind a chain.
pub record NeverRewinds (claims : ClaimStore) (others : ℕ → claims.State → claims.State)
    : Type 0 where
  pub writers : (n : ℕ) (s : claims.State) → IsLater claims s (others n s)
  pub objects :
      (s : claims.State) (stored : StoredEnvelope) → IsLater claims s (claims.prepare s stored).1

IsLater-trans :
    (claims : ClaimStore) (s s1 s2 : claims.State)
    → IsLater claims s s1
    → IsLater claims s1 s2
    → IsLater claims s s2
IsLater-trans claims s s1 s2 l1 l2 name h' is =
    let (h1, newer1, h1_is, h'_are) = l2 name h' is in
    let (h, newer, h_is, h1_are) = l1 name h1 h1_is in
    (h, newer1 ++ newer, h_is, h'_are ∙ ap (◌++◌ newer1) h1_are ∙ sym (append_assoc newer1 newer h))

length-later : (newer h : List ℕ) → length h ≤ length (newer ++ h)
length-later [] h = omega arith
length-later (x ∷ newer) h = omega (arith, length-later newer h)

module _ (forms : NormalForms) (claims : ClaimStore) (chained : IsChained claims)
    (others : ℕ → claims.State → claims.State) (kept : NeverRewinds claims others) where
  -- The histories at the moments of an attempt, when the last has the tip that was read first.
  sequence-length :
      (s s1 s2 : claims.State) (name : Bytes) (ids : List ℕ) (current : Option ℕ) (sequence : ℕ)
      → IsLater claims s s1
      → IsLater claims s1 s2
      → claims.history s2 name ≡ ok ids
      → claims.read_ref s name ≡ ok current
      → newest ids ≡ current
      → sequence_at forms claims s1 name current ≡ ok sequence
      → sequence ≡ length ids
  unfolding sequence_at
  sequence-length s s1 s2 name [] none sequence l1 l2 last tip n e = ground arith
  sequence-length s s1 s2 name (x ∷ ids) none sequence l1 l2 last tip n e = absurd (cc)
  sequence-length s s1 s2 name ids (some t) sequence l1 l2 last tip n e =
      let (h1, newer1, h1_is, ids_are) = l2 name ids last in
      let (h, newer, h_is, h1_are) = l1 name h1 h1_is in
      let h_eq : h ≡ ids =
        chained.one_history s s2 name h ids h_is last
          (chained.tip_names s name h (some t) tip h_is ∙ sym n) in
      let (read, e1, e2) = bind-eq-ok (map_err store (claims.history s1 name)) _ e in
      let read_is : read ≡ h1 = ground arith in
      let up : length h ≤ length h1 = rw h1_are (length-later newer h) in
      let down : length h1 ≤ length ids = rw ids_are (length-later newer1 h1) in
      let counted : length h1 ≡ sequence = rw (sym read_is) (ground arith) in
      let same : length h ≡ length ids = ap (λ (l : List ℕ). length l) h_eq in omega arith

  -- Where no chain is rewound, a claim that `append` reports has the number of the claims before it for
  -- its sequence number, whatever other writers add between its two reads and before each publication.
  pub append_sequence :
      (fuel : ℕ) (s s' : claims.State) (on : Target) (envelope : Envelope) (id : ℕ)
      → append forms claims others fuel s on envelope ≡ (ok id, s')
      → (name : Bytes) × (ids : List ℕ) × (entity_name forms claims on ≡ ok name)
        × (claims.history s' name ≡ ok (id ∷ ids))
        × (claims.read_claim s' id ≡ ok (some (stored_envelope envelope (length ids))))
  unfolding read_tip
  append_sequence fuel s s' on envelope id e =
      let (name, n, done) =
        append-Published forms claims chained others fuel s s' on envelope id e in
      let (current, e1, e2) =
        bind-eq-ok (map_err store (claims.read_ref done.start name)) _ done.read_is in
      let (sequence, e3, e4) =
        bind-eq-ok (sequence_at forms claims (others done.between done.start) name current) _ e2 in
      let tip : claims.read_ref done.start name ≡ ok current = ground arith in
      let (current_is, sequence_is) : (current ≡ newest done.ids) × (sequence ≡ done.sequence) =
        ground arith in
      let objects : IsLater claims (others done.between done.start) done.prepared =
        subst (λ (t : claims.State). IsLater claims (others done.between done.start) t)
          (ap (λ (o : Result StoreError claims.Document × claims.State). o.1) done.prepared_is)
          (kept.objects (others done.between done.start)
            (stored_envelope envelope done.sequence)) in
      let place : sequence ≡ length done.ids =
        sequence-length done.start (others done.between done.start) (others done.last done.prepared)
          name done.ids current sequence (kept.writers done.between done.start)
          (IsLater-trans claims (others done.between done.start) done.prepared
            (others done.last done.prepared) objects (kept.writers done.last done.prepared))
          done.before_is tip (sym current_is) e3 in
      (name, done.ids, n, done.after_is, rw (sym (sym sequence_is ∙ place)) done.claim_is)
