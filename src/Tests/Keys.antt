-- ===== src/Tests/Keys.antt =====
-- Keys and verdicts in a store with one chain, where ssh-key accepts what the key 7 signed.
use git_anchor.Base.{
  ℕ, zero, suc, ◌≡◌, ◌↔◌, ◌≢◌, refl, sym, ap, ◌∙◌, Bool, true, false, Option, none, some, List, [],
  ◌∷◌, arith, if◌then◌else◌, ◌==◌, ◌&&◌, not, Bool-cases, inl, inr,
}
use git_anchor.Base.Text.{Bytes, codes, same, same→eq}
use git_anchor.Base.Result.{Result, ok, err}
use git_anchor.Claims.{
  Envelope, StoredEnvelope, stored_envelope, Claim, StoreError, other, entity_name, envelope_at,
}
use git_anchor.Verdict.{
  AttestKey, Verdict, verified, bad_signature, unknown_key_format, SshKey, ssh_ed25519,
  sshsig_preamble, git_namespace, verify_ssh,
}
use git_anchor.Keys.{
  Link, key_found, rejected, KeyStore, key_chain, resolve_key_with, key_at, verify_commit,
  verify_dispatched,
}
use git_anchor.Keys.Chain.{Publishes, IsKeyChain, key_chain_iff}
use git_anchor.Keys.Walk.{Trusted, Refused, rotation_check, resolve_key_with_iff}
use git_anchor.Keys.Signed.{SignedBy, verify_commit_iff}
use git_anchor.KeyWrites.{null_id, key_target, key_claim_envelope, add_key, rotate_key}
use git_anchor.KeyWrites.Published.{
  PutsKeys, KeepsKeys, IsPublished, rotate_key-IsPublished, add_key-key_at,
}
use git_anchor.Tests.Bindings.{sample_forms}
use git_anchor.Tests.Chains.{one_chain, one_chain-IsChained, one_race}

abbrev pub key_numbered : ℕ → AttestKey
key_numbered n = record { format = ssh_ed25519; public_key = n ∷ []; machine = false }

abbrev compile_numbered :
    List StoredEnvelope → AttestKey → Bytes → Result StoreError ℕ × List StoredEnvelope
compile_numbered s key (n ∷ []) =
    if same key.format ssh_ed25519 && not key.machine then (ok n, s) else (err (other []), s)
compile_numbered s key bytes = (err (other []), s)

abbrev pub one_keys : KeyStore one_chain
one_keys = record {
  Schema = Bytes;
  decode_key = λ s tree. ok (key_numbered tree);
  compile_key = λ s key. compile_numbered s key key.public_key;
  put_key = λ s name key. (ok 1, s);
  signature = λ s id. ok (some sshsig_preamble);
  try_find = λ s id. ok (some (true, codes "tree 1\n\nclaim"));
  claim_schema = ok (codes "claim");
  key_schema = ok (codes "key");
  put_schema = λ s kind schema. (ok 1, s);
  kinds = λ s. ok [];
}

abbrev first_is_7 : Bytes → Bool
first_is_7 [] = false
first_is_7 (n ∷ rest) = n == 7

abbrev pub ssh_of_7 : SshKey
ssh_of_7 = record {
  PublicKey = Bytes;
  SshSig = Bytes;
  from_openssh = λ line. ok line;
  algorithm = λ public. ssh_ed25519;
  to_bytes = λ public. ok public;
  from_bytes = λ bytes. some bytes;
  parse_block = λ armor. some git_namespace;
  namespace = λ block. block;
  verify = λ public namespace signed block. first_is_7 public;
}

-- A key, a rotation that it signed, and a rotation that the second key did not sign.
abbrev pub rotated_chain : List StoredEnvelope
rotated_chain =
    stored_envelope (key_claim_envelope (key_target 7) 9 2) 2
    ∷ stored_envelope (key_claim_envelope (key_target 7) 8 1) 1
    ∷ stored_envelope (key_claim_envelope (key_target 7) 7 null_id) 0
    ∷ []

abbrev link_numbered : ℕ → ℕ → Link
link_numbered claim n = record { claim = claim; key = key_numbered n }

third_rejected :
    resolve_key_with sample_forms one_chain one_keys ssh_of_7 rotated_chain 3 none
    ≡ ok (rejected bad_signature)
unfolding resolve_key_with key_chain git_anchor.Keys.key_envelope envelope_at
    git_anchor.Keys.key_document same git_anchor.Claims.into_envelope stored_envelope
    git_anchor.Claims.log entity_name git_anchor.Claims.target_key git_anchor.Claims.read_claims
    git_anchor.Keys.key_links git_anchor.Keys.seen_links git_anchor.Keys.check_rotations
    verify_commit git_anchor.Keys.resolved_key git_anchor.Base.Strings.expects
    git_anchor.Base.Strings.from_utf8 git_anchor.Base.Strings.trim_start
    git_anchor.Base.Strings.white_start git_anchor.Keys.check_commit git_anchor.Keys.check_signature
    git_anchor.Keys.commit_data git_anchor.Keys.raw_commit git_anchor.Verdict.verifier_for
    verify_ssh git_anchor.Verdict.check_key git_anchor.Verdict.check_block
    git_anchor.SignedBytes.signed_bytes git_anchor.SignedBytes.signed_loop
    git_anchor.SignedBytes.drops git_anchor.SignedBytes.ends_header
    git_anchor.SignedBytes.first_line git_anchor.SignedBytes.starts_with
third_rejected = refl

second_found :
    resolve_key_with sample_forms one_chain one_keys ssh_of_7 rotated_chain 2 none
    ≡ ok (key_found (key_numbered 8))
unfolding resolve_key_with key_chain git_anchor.Keys.key_envelope envelope_at
    git_anchor.Keys.key_document same git_anchor.Claims.into_envelope stored_envelope
    git_anchor.Claims.log entity_name git_anchor.Claims.target_key git_anchor.Claims.read_claims
    git_anchor.Keys.key_links git_anchor.Keys.seen_links git_anchor.Keys.check_rotations
    verify_commit git_anchor.Keys.resolved_key git_anchor.Base.Strings.expects
    git_anchor.Base.Strings.from_utf8 git_anchor.Base.Strings.trim_start
    git_anchor.Base.Strings.white_start git_anchor.Keys.check_commit git_anchor.Keys.check_signature
    git_anchor.Keys.commit_data git_anchor.Keys.raw_commit git_anchor.Verdict.verifier_for
    verify_ssh git_anchor.Verdict.check_key git_anchor.Verdict.check_block
    git_anchor.SignedBytes.signed_bytes git_anchor.SignedBytes.signed_loop
    git_anchor.SignedBytes.drops git_anchor.SignedBytes.ends_header
    git_anchor.SignedBytes.first_line git_anchor.SignedBytes.starts_with
second_found = refl

rotated-Publishes :
    (n key : ℕ)
    → Publishes one_chain one_keys rotated_chain
        (key_claim_envelope (key_target 7) n key)
        (key_numbered n)
rotated-Publishes n key = (refl, refl, refl)

key_chain_iff_example :
    (key_chain sample_forms one_chain one_keys rotated_chain 2
      ≡ ok (link_numbered 1 7 ∷ link_numbered 2 8 ∷ []))
    ↔ IsKeyChain sample_forms one_chain one_keys rotated_chain 2
        (link_numbered 1 7 ∷ link_numbered 2 8 ∷ [])
key_chain_iff_example =
    key_chain_iff sample_forms one_chain one_keys rotated_chain 2
      (link_numbered 1 7 ∷ link_numbered 2 8 ∷ [])

resolve_key_with_iff_example :
    ((key : AttestKey)
      → (resolve_key_with sample_forms one_chain one_keys ssh_of_7 rotated_chain 3 none
          ≡ ok (key_found key))
        ↔ (links : List Link) × IsKeyChain sample_forms one_chain one_keys rotated_chain 3 links
          × Trusted
              (rotation_check sample_forms one_chain one_keys ssh_of_7 rotated_chain none)
              links
              key)
    × ((verdict : Verdict)
        → (resolve_key_with sample_forms one_chain one_keys ssh_of_7 rotated_chain 3 none
            ≡ ok (rejected verdict))
          ↔ (links : List Link) × IsKeyChain sample_forms one_chain one_keys rotated_chain 3 links
            × Refused
                (rotation_check sample_forms one_chain one_keys ssh_of_7 rotated_chain none)
                links
                verdict)
resolve_key_with_iff_example =
    resolve_key_with_iff sample_forms one_chain one_keys ssh_of_7 rotated_chain 3 none

abbrev claim_by : ℕ → Claim
claim_by key = record {
  id = 3;
  envelope = key_claim_envelope (key_target 7) 9 key;
  revoked_by = none;
}

by_root_verified :
    verify_dispatched sample_forms one_chain one_keys ssh_of_7 rotated_chain (claim_by 1) none
    ≡ ok verified
unfolding verify_dispatched resolve_key_with key_chain git_anchor.Keys.key_envelope envelope_at
    git_anchor.Keys.key_document same git_anchor.Claims.into_envelope stored_envelope
    git_anchor.Claims.log entity_name git_anchor.Claims.target_key git_anchor.Claims.read_claims
    git_anchor.Keys.key_links git_anchor.Keys.seen_links git_anchor.Keys.check_rotations
    verify_commit git_anchor.Keys.resolved_key git_anchor.Base.Strings.expects
    git_anchor.Base.Strings.from_utf8 git_anchor.Base.Strings.trim_start
    git_anchor.Base.Strings.white_start git_anchor.Keys.check_commit git_anchor.Keys.check_signature
    git_anchor.Keys.commit_data git_anchor.Keys.raw_commit git_anchor.Verdict.verifier_for
    verify_ssh git_anchor.Verdict.check_key git_anchor.Verdict.check_block
    git_anchor.SignedBytes.signed_bytes git_anchor.SignedBytes.signed_loop
    git_anchor.SignedBytes.drops git_anchor.SignedBytes.ends_header
    git_anchor.SignedBytes.first_line git_anchor.SignedBytes.starts_with
by_root_verified = refl

verify_commit_iff_example :
    ((verify_commit one_chain one_keys ssh_of_7 rotated_chain 2 (key_numbered 7) none ≡ ok verified)
      ↔ SignedBy one_chain one_keys ssh_of_7 rotated_chain 2 (key_numbered 7))
    × ((key_numbered 7).format ≢ ssh_ed25519
        → verify_commit one_chain one_keys ssh_of_7 rotated_chain 2 (key_numbered 7) none
          ≡ ok unknown_key_format)
verify_commit_iff_example =
    verify_commit_iff one_chain one_keys ssh_of_7 rotated_chain 2 (key_numbered 7)

compile_numbered_eq :
    (s s1 : List StoredEnvelope) (key : AttestKey) (bytes : Bytes) (tree : ℕ)
    → key.public_key ≡ bytes
    → compile_numbered s key bytes ≡ (ok tree, s1)
    → key_numbered tree ≡ key
compile_numbered_eq s s1 key [] tree p e = absurd (ground arith)
compile_numbered_eq s s1 key (n ∷ m ∷ rest) tree p e = absurd (ground arith)
compile_numbered_eq s s1 key (n ∷ []) tree p e =
    let (labelled, human, n_is) : (same key.format ssh_ed25519 ≡ true)
        × (key.machine ≡ false)
        × (n ≡ tree) =
      ground arith in
    rw (sym n_is, sym p, sym (same→eq key.format ssh_ed25519 labelled), sym human) refl

one_keys-PutsKeys : PutsKeys sample_forms one_chain one_keys
one_keys-PutsKeys s s1 s2 s3 key tree commit name c p =
    ap ok (compile_numbered_eq s s1 key key.public_key tree refl c)

one_keys-KeepsKeys :
    (others : ℕ → one_chain.State → one_chain.State)
    → KeepsKeys sample_forms one_chain one_keys others
one_keys-KeepsKeys others tree key = record {
  prepare_keeps = λ s stored h. h;
  publish_keeps = λ s name current summary document h. h;
  others_keep = λ n s h. h;
}

seven_named : entity_name sample_forms one_chain (key_target 7) ≡ ok (7 ∷ [])
unfolding entity_name git_anchor.Claims.target_key
seven_named = refl

added :
    add_key sample_forms one_chain one_keys (λ n s. s) 1 (key_numbered 7) []
    ≡ (ok 1, stored_envelope (key_claim_envelope (key_target 7) 7 null_id) 0 ∷ [])
unfolding add_key git_anchor.KeyWrites.write_key same git_anchor.Claims.append entity_name
    git_anchor.Claims.target_key git_anchor.Claims.append_loop git_anchor.Claims.attempt
    git_anchor.Claims.read_tip git_anchor.Claims.sequence_at git_anchor.Claims.publish_prepared
    git_anchor.Claims.after_publish
added = refl

add_key-key_at_example :
    key_at sample_forms one_chain one_keys ssh_of_7
      (stored_envelope (key_claim_envelope (key_target 7) 7 null_id) 0 ∷ [])
      1
    ≡ ok (some (key_numbered 7))
unfolding same
add_key-key_at_example =
    add_key-key_at sample_forms one_chain one_keys ssh_of_7 (λ n s. s) 1 [] []
      (stored_envelope (key_claim_envelope (key_target 7) 7 null_id) 0 ∷ []) (key_numbered 7) 7 1
      (7 ∷ []) one_chain-IsChained one_keys-PutsKeys (one_keys-KeepsKeys (λ n s. s)) refl
      seven_named added refl

rotated :
    rotate_key sample_forms one_chain one_keys one_race 1 1
      (key_numbered 8)
      (stored_envelope (key_claim_envelope (key_target 7) 7 null_id) 0 ∷ [])
    ≡ (
      ok 2,
      stored_envelope (key_claim_envelope (key_target 7) 8 1) 1
          ∷ stored_envelope (key_claim_envelope (key_target 7) 7 null_id) 0
          ∷ [],
    )
unfolding rotate_key git_anchor.Keys.key_envelope envelope_at git_anchor.Keys.key_document same
    git_anchor.Claims.into_envelope stored_envelope git_anchor.KeyWrites.write_key
    git_anchor.Claims.append git_anchor.Claims.append_named entity_name git_anchor.Claims.target_key
    git_anchor.Claims.append_loop git_anchor.Claims.attempt git_anchor.Claims.read_tip
    git_anchor.Claims.sequence_at git_anchor.Claims.publish_prepared git_anchor.Claims.after_publish
rotated = refl

rotate_key-IsPublished_example :
    (envelope : Envelope) × (old : AttestKey) × (payload : ℕ) × (envelope_at sample_forms one_chain
        (stored_envelope (key_claim_envelope (key_target 7) 7 null_id) 0 ∷ [])
        1
      ≡ ok envelope)
    × Publishes one_chain one_keys
        (stored_envelope (key_claim_envelope (key_target 7) 7 null_id) 0 ∷ [])
        envelope
        old
    × IsPublished sample_forms one_chain one_keys
        ((stored_envelope (key_claim_envelope (key_target 7) 8 1) 1
          ∷ stored_envelope (key_claim_envelope (key_target 7) 7 null_id) 0
          ∷ []))
        envelope.target
        (key_numbered 8)
        payload
        1
        2
rotate_key-IsPublished_example =
    rotate_key-IsPublished sample_forms one_chain one_keys one_race 1
      (stored_envelope (key_claim_envelope (key_target 7) 7 null_id) 0 ∷ [])
      ((stored_envelope (key_claim_envelope (key_target 7) 8 1) 1
        ∷ stored_envelope (key_claim_envelope (key_target 7) 7 null_id) 0
        ∷ []))
      1 (key_numbered 8) 2 one_chain-IsChained one_keys-PutsKeys (one_keys-KeepsKeys one_race)
      rotated
