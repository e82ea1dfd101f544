-- ===== src/Claims/Append.antt =====
-- `append` of crates/git-attest/src/chain.rs: what it adds to a chain.
use git_anchor.Base.{
  ℕ, zero, suc, ◌+◌, ◌≡◌, refl, sym, ap, Option, none, some, List, [], ◌∷◌, ◌++◌, arith, inl, inr,
}
use git_anchor.Base.Text.{Bytes, codes}
use git_anchor.Base.Result.{Result, ok, err, Result-cases}
use git_anchor.Binding.{NormalForms}
use git_anchor.Claims.{
  Target, Envelope, StoredEnvelope, stored_envelope, StoreError, backend, other, ClaimStore,
  entity_name, Out, after_publish, read_tip, publish_prepared, attempt, append_loop, append,
}

-- The newest claim of a chain.
abbrev pub newest : List ℕ → Option ℕ
newest [] = none
newest (id ∷ ids) = some id

-- What git-store documents: a ref names the newest claim of its history, and commits that are reached
-- from one tip are one history; a publication succeeds only on the expected tip, and then the new commit
-- stands before the history it was published on and holds the prepared envelope.
pub record IsChained (claims : ClaimStore) : Type 0 where
  pub tip_names :
      (s : claims.State) (name : Bytes) (h : List ℕ) (current : Option ℕ)
      → claims.read_ref s name ≡ ok current
      → claims.history s name ≡ ok h
      → newest h ≡ current
  pub one_history :
      (s s' : claims.State) (name : Bytes) (h h' : List ℕ)
      → claims.history s name ≡ ok h
      → claims.history s' name ≡ ok h'
      → newest h ≡ newest h'
      → h ≡ h'
  pub published :
      (s s' : claims.State) (name : Bytes) (current : Option ℕ) (summary : Bytes)
      (document : claims.Document) (id : ℕ)
      → claims.publish s name current summary document ≡ (ok id, s')
      → (h : List ℕ) × (claims.history s name ≡ ok h)
        × (newest h ≡ current)
        × (claims.history s' name ≡ ok (id ∷ h))
  pub holds :
      (s s1 s2 s3 : claims.State) (name : Bytes) (current : Option ℕ) (summary : Bytes)
      (document : claims.Document) (id : ℕ) (stored : StoredEnvelope)
      → claims.prepare s stored ≡ (ok document, s1)
      → claims.publish s2 name current summary document ≡ (ok id, s3)
      → claims.read_claim s3 id ≡ ok (some stored)

module _ (forms : NormalForms) (claims : ClaimStore) where
  -- A claim added to a chain: the state it was published on, the history it was put before, and the
  -- envelope that its commit holds, with a sequence number.
  pub record Appended (s' : claims.State) (name : Bytes) (envelope : Envelope) (id : ℕ)
      : Type 0 where
    pub before : claims.State
    pub ids : List ℕ
    pub before_is : claims.history before name ≡ ok ids
    pub after_is : claims.history s' name ≡ ok (id ∷ ids)
    pub sequence : ℕ
    pub claim_is : claims.read_claim s' id ≡ ok (some (stored_envelope envelope sequence))

  -- How a claim was published: the state that the tip was read in, what other writers did before the
  -- history was read and before the publication, the state that preparing the document left, and the
  -- history that the claim was put before.
  pub record Published (others : ℕ → claims.State → claims.State) (s' : claims.State) (name : Bytes)
      (envelope : Envelope) (id : ℕ) : Type 0 where
    pub start : claims.State
    pub between : ℕ
    pub prepared : claims.State
    pub last : ℕ
    pub ids : List ℕ
    pub sequence : ℕ
    pub document : claims.Document
    pub read_is : read_tip forms claims (others between) start name ≡ ok (newest ids, sequence)
    pub prepared_is :
        claims.prepare (others between start) (stored_envelope envelope sequence)
        ≡ (ok document, prepared)
    pub before_is : claims.history (others last prepared) name ≡ ok ids
    pub after_is : claims.history s' name ≡ ok (id ∷ ids)
    pub claim_is : claims.read_claim s' id ≡ ok (some (stored_envelope envelope sequence))

  module _ (chained : IsChained claims) where
    module _ (others : ℕ → claims.State → claims.State) where
      after_publish-Published :
          (again : claims.State → Out forms claims) (start prepared s' : claims.State)
          (between last : ℕ) (name summary : Bytes) (envelope : Envelope) (id : ℕ)
          (document : claims.Document) (current : Option ℕ) (sequence : ℕ)
          (out : Result StoreError ℕ × claims.State)
          → read_tip forms claims (others between) start name ≡ ok (current, sequence)
          → claims.prepare (others between start) (stored_envelope envelope sequence)
            ≡ (ok document, prepared)
          → claims.publish (others last prepared) name current summary document ≡ out
          → ((t : claims.State) → again t ≡ (ok id, s') → Published others s' name envelope id)
          → after_publish forms claims again out ≡ (ok id, s')
          → Published others s' name envelope id
      unfolding after_publish
      after_publish-Published again start prepared s' between last name summary envelope id document
            current sequence (ok i, t) tip p pub_is later e =
          let i_is : i ≡ id = ground arith in
          let t_is : t ≡ s' = ap (λ (o : Out forms claims). o.1) e in
          let done : claims.publish (others last prepared) name current summary document
              ≡ (ok id, s') =
            rw (sym i_is, sym t_is) pub_is in
          let (h, h_is, newest_is, after) =
            chained.published (others last prepared) s' name current summary document id done in
          record {
            start = start;
            between = between;
            prepared = prepared;
            last = last;
            ids = h;
            sequence = sequence;
            document = document;
            read_is = rw newest_is tip;
            prepared_is = p;
            before_is = h_is;
            after_is = after;
            claim_is =
                chained.holds (others between start) prepared (others last prepared) s' name current
                  summary document id (stored_envelope envelope sequence) p done;
          }
      after_publish-Published again start prepared s' between last name summary envelope id document
            current sequence (err (backend m), t) tip p pub_is later e =
          later t e
      after_publish-Published again start prepared s' between last name summary envelope id document
            current sequence (err (other m), t) tip p pub_is later e =
          absurd (ground arith)

      prepared-Published :
          (again : claims.State → Out forms claims) (start s' : claims.State) (between last : ℕ)
          (name : Bytes) (envelope : Envelope) (id : ℕ) (current : Option ℕ) (sequence : ℕ)
          (prepared : Result StoreError claims.Document × claims.State)
          → read_tip forms claims (others between) start name ≡ ok (current, sequence)
          → claims.prepare (others between start) (stored_envelope envelope sequence) ≡ prepared
          → ((t : claims.State) → again t ≡ (ok id, s') → Published others s' name envelope id)
          → publish_prepared forms claims
              (others last)
              again
              name
              (codes "claim " ++ envelope.payload_kind)
              current
              prepared
            ≡ (ok id, s')
          → Published others s' name envelope id
      unfolding publish_prepared
      prepared-Published again start s' between last name envelope id current sequence (err x, t)
            tip p later e =
          absurd (ground arith)
      prepared-Published again start s' between last name envelope id current sequence
            (ok document, t) tip p later e =
          after_publish-Published again start t s' between last name
            (codes "claim " ++ envelope.payload_kind) envelope id document current sequence
            (claims.publish (others last t) name current (codes "claim " ++ envelope.payload_kind)
              document)
            tip p refl later e

      attempt-Published :
          (again : claims.State → Out forms claims) (start s' : claims.State) (between last : ℕ)
          (name : Bytes) (envelope : Envelope) (id : ℕ)
          → ((t : claims.State) → again t ≡ (ok id, s') → Published others s' name envelope id)
          → attempt forms claims
              (others last)
              again
              (others between start)
              name
              envelope
              (read_tip forms claims (others between) start name)
            ≡ (ok id, s')
          → Published others s' name envelope id
      unfolding attempt
      attempt-Published again start s' between last name envelope id later e =
          elim (Result-cases (read_tip forms claims (others between) start name)) [
            | inr (x, bad) ↦
                absurd (
                  let e' : (err x, others between start) ≡ (ok id, s') = rw bad at e in
                  ground arith)
            | inl ((current, sequence), tip) ↦
                prepared-Published again start s' between last name envelope id current sequence
                  (claims.prepare (others between start) (stored_envelope envelope sequence)) tip
                  refl later (rw tip at e)
          ]

      append_loop-Published :
          (fuel : ℕ) (s s' : claims.State) (name : Bytes) (envelope : Envelope) (id : ℕ)
          → append_loop forms claims others fuel s name envelope ≡ (ok id, s')
          → Published others s' name envelope id
      unfolding append_loop
      append_loop-Published zero s s' name envelope id e = absurd (ground arith)
      append_loop-Published (suc fuel) s s' name envelope id e =
          attempt-Published (λ t. append_loop forms claims others fuel t name envelope) s s'
            (suc (fuel + fuel)) (fuel + fuel) name envelope id
            (λ t h. append_loop-Published fuel t s' name envelope id h) e

      pub append-Published :
          (fuel : ℕ) (s s' : claims.State) (on : Target) (envelope : Envelope) (id : ℕ)
          → append forms claims others fuel s on envelope ≡ (ok id, s')
          → (name : Bytes) × (entity_name forms claims on ≡ ok name)
            × Published others s' name envelope id
      unfolding append
      append-Published fuel s s' on envelope id e =
          elim (Result-cases (entity_name forms claims on)) [
            | inr (x, bad) ↦ absurd (ground arith)
            | inl (name, n) ↦
                (name, n, append_loop-Published fuel s s' name envelope id (rw n at e))
          ]

    -- A claim that `append` reports, whatever other writers do between its two reads and before each
    -- publication, and however often it is tried again, is the newest of its chain, put before the whole
    -- history it was published on, and its commit holds the envelope, with some sequence number.
    pub append-Appended :
        (others : ℕ → claims.State → claims.State) (fuel : ℕ) (s s' : claims.State) (on : Target)
        (envelope : Envelope) (id : ℕ)
        → append forms claims others fuel s on envelope ≡ (ok id, s')
        → (name : Bytes) × (entity_name forms claims on ≡ ok name) × Appended s' name envelope id
    append-Appended others fuel s s' on envelope id e =
        let (name, n, done) = append-Published others fuel s s' on envelope id e in
        (
          name,
          n,
          record {
            before = others done.last done.prepared;
            ids = done.ids;
            before_is = done.before_is;
            after_is = done.after_is;
            sequence = done.sequence;
            claim_is = done.claim_is;
          },
        )
