-- ===== src/Claims/Keeps.antt =====
-- `append` of crates/git-attest/src/chain.rs: what it leaves as it is.
use git_anchor.Base.{ℕ, zero, suc, ◌+◌, Option, ◌++◌}
use git_anchor.Base.Text.{Bytes, codes}
use git_anchor.Base.Result.{Result, ok, err}
use git_anchor.Binding.{NormalForms}
use git_anchor.Claims.{
  Target, Envelope, StoredEnvelope, stored_envelope, StoreError, backend, other, ClaimStore,
  ClaimError, entity_name, Out, after_publish, read_tip, publish_prepared, attempt, append_loop,
  append_named, append,
}

-- What the operations of the store that `append` calls, and the other writers, do not undo.
pub record IsKept (claims : ClaimStore) (others : ℕ → claims.State → claims.State)
    (P : claims.State → Type 0) : Type 0 where
  pub prepare_keeps :
      (s : claims.State) (stored : StoredEnvelope) → P s → P (claims.prepare s stored).1
  pub publish_keeps :
      (s : claims.State) (name : Bytes) (current : Option ℕ) (summary : Bytes)
      (document : claims.Document)
      → P s
      → P (claims.publish s name current summary document).1
  pub others_keep : (n : ℕ) (s : claims.State) → P s → P (others n s)

module _ (forms : NormalForms) (claims : ClaimStore) (others : ℕ → claims.State → claims.State)
    (P : claims.State → Type 0) (kept : IsKept claims others P) where
  after_publish_keeps :
      (again : claims.State → Out forms claims) (published : Result StoreError ℕ × claims.State)
      → ((s : claims.State) → P s → P (again s).1)
      → P published.1
      → P (after_publish forms claims again published).1
  unfolding after_publish
  after_publish_keeps again (ok commit, s) ih h = h
  after_publish_keeps again (err (backend message), s) ih h = ih s h
  after_publish_keeps again (err (other message), s) ih h = h

  publish_prepared_keeps :
      (n : ℕ) (again : claims.State → Out forms claims) (name summary : Bytes) (current : Option ℕ)
      (prepared : Result StoreError claims.Document × claims.State)
      → ((s : claims.State) → P s → P (again s).1)
      → P prepared.1
      → P (publish_prepared forms claims (others n) again name summary current prepared).1
  unfolding publish_prepared
  publish_prepared_keeps n again name summary current (err e, s) ih h = h
  publish_prepared_keeps n again name summary current (ok document, s) ih h =
      after_publish_keeps again (claims.publish (others n s) name current summary document) ih
        (kept.publish_keeps (others n s) name current summary document (kept.others_keep n s h))

  attempt_keeps :
      (n : ℕ) (again : claims.State → Out forms claims) (s : claims.State) (name : Bytes)
      (envelope : Envelope) (tip : Result ClaimError (Option ℕ × ℕ))
      → ((s' : claims.State) → P s' → P (again s').1)
      → P s
      → P (attempt forms claims (others n) again s name envelope tip).1
  unfolding attempt
  attempt_keeps n again s name envelope (err e) ih h = h
  attempt_keeps n again s name envelope (ok (current, sequence)) ih h =
      publish_prepared_keeps n again name (codes "claim " ++ envelope.payload_kind) current
        (claims.prepare s (stored_envelope envelope sequence)) ih
        (kept.prepare_keeps s (stored_envelope envelope sequence) h)

  append_loop_keeps :
      (fuel : ℕ) (s : claims.State) (name : Bytes) (envelope : Envelope)
      → P s
      → P (append_loop forms claims others fuel s name envelope).1
  unfolding append_loop
  append_loop_keeps zero s name envelope h = h
  append_loop_keeps (suc fuel) s name envelope h =
      attempt_keeps (fuel + fuel) (λ s'. append_loop forms claims others fuel s' name envelope)
        (others (suc (fuel + fuel)) s) name envelope
        (read_tip forms claims (others (suc (fuel + fuel))) s name)
        (λ s' h'. append_loop_keeps fuel s' name envelope h')
        (kept.others_keep (suc (fuel + fuel)) s h)

  append_named_keeps :
      (fuel : ℕ) (s : claims.State) (envelope : Envelope) (name : Result ClaimError Bytes)
      → P s
      → P (append_named forms claims others fuel s envelope name).1
  unfolding append_named
  append_named_keeps fuel s envelope (err e) h = h
  append_named_keeps fuel s envelope (ok name) h = append_loop_keeps fuel s name envelope h

  pub append_keeps :
      (fuel : ℕ) (s : claims.State) (on : Target) (envelope : Envelope)
      → P s
      → P (append forms claims others fuel s on envelope).1
  unfolding append
  append_keeps fuel s on envelope h =
      append_named_keeps fuel s envelope (entity_name forms claims on) h
