-- ===== src/Claims/Returns.antt =====
-- `append` of crates/git-attest/src/chain.rs: its attempts and its result.
use git_anchor.Base.{
  ℕ, zero, suc, ◌+◌, ◌≡◌, ◌⊎◌, inl, inr, refl, ap, ◌∙◌, Option, none, some, List, length, ◌++◌,
}
use git_anchor.Base.Text.{Bytes, codes}
use git_anchor.Base.Result.{ok, err}
use git_anchor.Binding.{NormalForms}
use git_anchor.Claims.{
  Target, Envelope, StoredEnvelope, stored_envelope, backend, ClaimStore, entity_name, Out,
  after_publish, sequence_at, read_tip, publish_prepared, attempt, append_loop, append,
}

-- A store that works: reads succeed, a document compiles and moves no ref, and a publication is
-- accepted on the tip that the ref has and may otherwise be refused as a lost race, but never fails.
pub record Works (claims : ClaimStore) : Type 0 where
  pub reads :
      (s : claims.State) (name : Bytes)
      → (current : Option ℕ) × (claims.read_ref s name ≡ ok current)
  pub lists : (s : claims.State) (name : Bytes) → (ids : List ℕ) × (claims.history s name ≡ ok ids)
  pub prepares :
      (s : claims.State) (stored : StoredEnvelope)
      → (document : claims.Document) × (s' : claims.State) × (claims.prepare s stored
          ≡ (ok document, s'))
        × ((name : Bytes) → claims.read_ref s' name ≡ claims.read_ref s name)
  pub accepts :
      (s : claims.State) (name : Bytes) (current : Option ℕ) (summary : Bytes)
      (document : claims.Document)
      → claims.read_ref s name ≡ ok current
      → (id : ℕ) × (s' : claims.State) × (claims.publish s name current summary document
          ≡ (ok id, s'))
  pub answers :
      (s : claims.State) (name : Bytes) (current : Option ℕ) (summary : Bytes)
      (document : claims.Document)
      → ((id : ℕ) × (s' : claims.State) × (claims.publish s name current summary document
            ≡ (ok id, s')))
        ⊎ ((message : Bytes) × (s' : claims.State) × (claims.publish s name current summary document
              ≡ (err (backend message), s')))

module _ (forms : NormalForms) (claims : ClaimStore) (works : Works claims) where
  sequence_at_total :
      (s : claims.State) (name : Bytes) (current : Option ℕ)
      → (n : ℕ) × (sequence_at forms claims s name current ≡ ok n)
  unfolding sequence_at
  sequence_at_total s name none = (0, refl)
  sequence_at_total s name (some tip) = let (ids, e) = works.lists s name in (length ids, rw e refl)

  -- An attempt comes to the publication on the tip that it read.
  attempt_publishes :
      (between others : claims.State → claims.State) (again : claims.State → Out forms claims)
      (s : claims.State) (name : Bytes) (envelope : Envelope)
      → (current : Option ℕ) × (document : claims.Document) × (s' : claims.State) × (claims.read_ref
            s name
          ≡ ok current)
        × (claims.read_ref s' name ≡ claims.read_ref (between s) name)
        × (attempt forms claims others again
              (between s)
              name
              envelope
              (read_tip forms claims between s name)
            ≡ after_publish forms claims again (
                claims.publish
                  (others s')
                  name
                  current
                  (codes "claim " ++ envelope.payload_kind)
                  document))
  unfolding attempt read_tip publish_prepared
  attempt_publishes between others again s name envelope =
      let (current, r) = works.reads s name in
      let (n, q) = sequence_at_total (between s) name current in
      let (document, s', p, same) = works.prepares (between s) (stored_envelope envelope n) in
      (current, document, s', r, same name, rw (r, q, p) refl)

  append_loop_total :
      (others : ℕ → claims.State → claims.State) (fuel : ℕ) (s : claims.State) (name : Bytes)
      (envelope : Envelope)
      → ((t : claims.State) → others 1 t ≡ t)
      → ((t : claims.State) → others 0 t ≡ t)
      → (id : ℕ) × (s' : claims.State) × (append_loop forms claims others (suc fuel) s name envelope
          ≡ (ok id, s'))
  unfolding append_loop after_publish
  append_loop_total others zero s name envelope still quiet =
      let (current, document, t, r, same, a) =
        attempt_publishes (others 1) (others 0)
          (λ u. append_loop forms claims others 0 u name envelope) s name envelope in
      let tip : claims.read_ref t name ≡ ok current =
        same ∙ ap (λ u. claims.read_ref u name) (still s) ∙ r in
      let (id, s', p) =
        works.accepts t name current (codes "claim " ++ envelope.payload_kind) document tip in
      (id, s', a ∙ rw (quiet t, p) refl)
  append_loop_total others (suc fuel) s name envelope still quiet =
      let (current, document, t, r, same, a) =
        attempt_publishes (others (suc (suc fuel + suc fuel))) (others (suc fuel + suc fuel))
          (λ u. append_loop forms claims others (suc fuel) u name envelope) s name envelope in
      elim (works.answers (others (suc fuel + suc fuel) t) name current
        (codes "claim " ++ envelope.payload_kind) document) [
          | inl (id, s', p) ↦ (id, s', a ∙ rw p refl)
          | inr (message, u, p) ↦
              let (id, s', e) = append_loop_total others fuel u name envelope still quiet in
              (id, s', a ∙ rw p e)
        ]

  -- On a store that works, `append` returns a claim within any number of attempts of which the last is
  -- disturbed by no other writer, neither between its two reads nor before the publication, whatever the
  -- others do before, once the target has a ref name.
  pub append_total :
      (others : ℕ → claims.State → claims.State) (fuel : ℕ) (s : claims.State) (on : Target)
      (envelope : Envelope) (name : Bytes)
      → ((t : claims.State) → others 1 t ≡ t)
      → ((t : claims.State) → others 0 t ≡ t)
      → entity_name forms claims on ≡ ok name
      → (id : ℕ) × (s' : claims.State) × (append forms claims others (suc fuel) s on envelope
          ≡ (ok id, s'))
  unfolding append
  append_total others fuel s on envelope name still quiet n =
      let (id, s', e) = append_loop_total others fuel s name envelope still quiet in
      (id, s', rw n e)
