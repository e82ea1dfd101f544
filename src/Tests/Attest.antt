-- ===== src/Tests/Attest.antt =====
-- Commands of git-attest in the store of Tests/Keys.
use git_anchor.Base.{ℕ, ◌≡◌, ◌↔◌, refl, Bool, true, false, Option, none, some, List, [], ◌∷◌, arith}
use git_anchor.Base.Text.{Bytes, codes}
use git_anchor.Base.Result.{ok, err}
use git_anchor.Claims.{
  Target, Envelope, StoredEnvelope, stored_envelope, Claim, entity_name, envelope_at, log,
}
use git_anchor.Claims.Append.{Appended}
use git_anchor.Claims.Revocation.{revocation_of}
use git_anchor.Verdict.{AttestKey, from_openssh}
use git_anchor.Keys.{key_at}
use git_anchor.KeyWrites.{null_id, key_target, key_claim_envelope}
use git_anchor.AttestArgs.{Revisions, object_named, target_of}
use git_anchor.AttestCli.{
  SignArgs, RevokeArgs, PayloadStore, payload_of, key_claim, cmd_verify, cmd_sign, cmd_revoke,
}
use git_anchor.AttestCli.KeyClaim.{Names, key_claim-Names}
use git_anchor.AttestCli.Exit.{IsSound, IsPrinted, cmd_verify-IsSound}
use git_anchor.AttestCli.Signing.{HasKey}
use git_anchor.AttestCli.Signed.{NamesObject, IsPayload, IsChosen, cmd_sign-IsPayload}
use git_anchor.AttestCli.Together.{ResolvesToSigner, cmd_sign-cmd_verify}
use git_anchor.Tests.Bindings.{sample_forms}
use git_anchor.Tests.Chains.{one_chain, one_chain-IsChained}
use git_anchor.Tests.Keys.{one_keys, ssh_of_7, rotated_chain}
use git_anchor.Tests.Commands.{note_docs}

-- A text of one byte is the id that the byte is.
abbrev first_byte : Bytes → Option ℕ
first_byte [] = none
first_byte (b ∷ bs) = some b

abbrev by_byte : Revisions
by_byte = record { from_hex = first_byte; rev_parse_single = λ text. err text }

abbrev payload_store : PayloadStore note_docs one_chain.State
payload_store = record {
  get_schema = λ s kind. ok (some 0);
  compile_value = λ s kind value. (ok 5, s);
  put_value = λ s kind name value. (ok 1, s);
}

cmd_verify-IsSound_example :
    ((out' : List Bytes) × (cmd_verify sample_forms one_chain one_keys ssh_of_7 by_byte note_docs
          rotated_chain
          (record { claim = 2 ∷ []; json = true })
          []
        ≡ (ok 0, out')))
    ↔ ((id : ℕ) × (object_named by_byte (2 ∷ []) ≡ ok id)
        × IsSound sample_forms one_chain one_keys ssh_of_7 by_byte note_docs rotated_chain id
        × IsPrinted sample_forms one_chain one_keys ssh_of_7 by_byte note_docs true id)
cmd_verify-IsSound_example =
    cmd_verify-IsSound sample_forms one_chain one_keys ssh_of_7 by_byte note_docs rotated_chain
      (record { claim = 2 ∷ []; json = true }) []

oldest_chosen :
    key_claim sample_forms one_chain one_keys ssh_of_7 by_byte
      (8 ∷ [])
      (λ n s. s)
      1
      none
      false
      rotated_chain
    ≡ (ok 2, rotated_chain)
unfolding key_claim from_openssh git_anchor.Base.Text.same log entity_name
    git_anchor.Claims.target_key git_anchor.Claims.read_claims envelope_at
    git_anchor.AttestCli.found_or_added git_anchor.AttestCli.last_with
    git_anchor.Claims.into_envelope stored_envelope
oldest_chosen = refl

key_claim-Names_example :
    (key : AttestKey) × (payload : ℕ) × (s1 : one_chain.State) × (chain : List Claim)
    × (from_openssh ssh_of_7 (8 ∷ []) false ≡ ok key)
    × (one_keys.compile_key rotated_chain key ≡ (ok payload, s1))
    × (log sample_forms one_chain s1 (key_target payload) ≡ ok chain)
    × Names sample_forms one_chain one_keys ssh_of_7 by_byte
        (8 ∷ [])
        (λ n s. s)
        1
        key
        payload
        chain
        s1
        2
        rotated_chain
key_claim-Names_example =
    key_claim-Names sample_forms one_chain one_keys ssh_of_7 by_byte (8 ∷ []) (λ n s. s) 1 false
      rotated_chain rotated_chain 2 oldest_chosen

abbrev sign_blob : SignArgs
sign_blob = record {
  target = record { kind = codes "blob"; id = 9 ∷ [] };
  payload_tree = some (6 ∷ []);
  kind = codes "review";
  json = none;
  interactive = false;
  key = some (2 ∷ []);
  machine = false;
}

abbrev signed_chain : List StoredEnvelope
signed_chain =
    stored_envelope
      (record {
        target = record { kind = codes "blob"; id = 9 };
        payload = 6;
        payload_kind = codes "review";
        key = 2;
      })
      3
    ∷ rotated_chain

blob_signed :
    cmd_sign sample_forms one_chain one_keys ssh_of_7 by_byte
      (8 ∷ [])
      note_docs
      payload_store
      (λ n m s. s)
      1
      []
      sign_blob
      rotated_chain
    ≡ (ok 4, signed_chain)
unfolding cmd_sign git_anchor.Keys.resolve_key_with git_anchor.Keys.key_chain
    git_anchor.Keys.key_envelope envelope_at git_anchor.Keys.key_document git_anchor.Base.Text.same
    git_anchor.Claims.into_envelope stored_envelope git_anchor.Claims.log entity_name
    git_anchor.Claims.target_key git_anchor.Claims.read_claims git_anchor.Keys.key_links
    git_anchor.Keys.seen_links git_anchor.Keys.check_rotations git_anchor.Keys.verify_commit
    git_anchor.Keys.resolved_key git_anchor.Base.Strings.expects git_anchor.Base.Strings.from_utf8
    git_anchor.Base.Strings.trim_start git_anchor.Base.Strings.white_start
    git_anchor.Keys.check_commit git_anchor.Keys.check_signature git_anchor.Keys.commit_data
    git_anchor.Keys.raw_commit git_anchor.Verdict.verifier_for git_anchor.Verdict.verify_ssh
    git_anchor.Verdict.check_key git_anchor.Verdict.check_block git_anchor.SignedBytes.signed_bytes
    git_anchor.SignedBytes.signed_loop git_anchor.SignedBytes.drops
    git_anchor.SignedBytes.ends_header git_anchor.SignedBytes.first_line
    git_anchor.SignedBytes.starts_with git_anchor.AttestCli.ensure_schemas
    git_anchor.KeyWrites.register_schemas git_anchor.KeyWrites.register_claim_schema
    git_anchor.KeyWrites.register_key_schema key_claim object_named key_at
    git_anchor.Keys.resolve_key payload_of target_of git_anchor.Claims.append
    git_anchor.Claims.append_named git_anchor.Claims.append_loop git_anchor.Claims.attempt
    git_anchor.Claims.read_tip git_anchor.Claims.sequence_at git_anchor.Claims.publish_prepared
    git_anchor.Claims.after_publish git_anchor.Claims.sign git_anchor.Claims.revoke
blob_signed = refl

cmd_sign-IsPayload_example :
    (s1 s2 s3 : one_chain.State) × (key payload : ℕ) × (on : Target) × (name : Bytes) × IsChosen
      sample_forms one_chain one_keys ssh_of_7 by_byte
      (8 ∷ [])
      (λ m s. s)
      1
      false
      s1
      (some (2 ∷ []))
      key
      s2
    × IsPayload one_chain note_docs payload_store by_byte []
        (codes "review")
        s2
        (some (6 ∷ []))
        none
        false
        payload
        s3
    × (NamesObject by_byte (9 ∷ []) on.id × (on.kind ≡ codes "blob"))
    × (entity_name sample_forms one_chain on ≡ ok name)
    × Appended sample_forms one_chain signed_chain name
        (record { target = on; payload = payload; payload_kind = codes "review"; key = key })
        4
cmd_sign-IsPayload_example =
    cmd_sign-IsPayload sample_forms one_chain one_keys ssh_of_7 by_byte (8 ∷ []) (λ n m s. s) 1
      note_docs payload_store rotated_chain signed_chain [] sign_blob 4 one_chain-IsChained
      blob_signed

abbrev revoke_first : RevokeArgs
revoke_first = record { claim = 1 ∷ []; key = some (2 ∷ []); machine = false }

first_revoked :
    cmd_revoke sample_forms one_chain one_keys ssh_of_7 by_byte
      (8 ∷ [])
      (λ n m s. s)
      1
      revoke_first
      rotated_chain
    ≡ (ok 4, stored_envelope (revocation_of 1 2) 3 ∷ rotated_chain)
unfolding cmd_revoke git_anchor.Keys.resolve_key_with git_anchor.Keys.key_chain
    git_anchor.Keys.key_envelope envelope_at git_anchor.Keys.key_document git_anchor.Base.Text.same
    git_anchor.Claims.into_envelope stored_envelope git_anchor.Claims.log entity_name
    git_anchor.Claims.target_key git_anchor.Claims.read_claims git_anchor.Keys.key_links
    git_anchor.Keys.seen_links git_anchor.Keys.check_rotations git_anchor.Keys.verify_commit
    git_anchor.Keys.resolved_key git_anchor.Base.Strings.expects git_anchor.Base.Strings.from_utf8
    git_anchor.Base.Strings.trim_start git_anchor.Base.Strings.white_start
    git_anchor.Keys.check_commit git_anchor.Keys.check_signature git_anchor.Keys.commit_data
    git_anchor.Keys.raw_commit git_anchor.Verdict.verifier_for git_anchor.Verdict.verify_ssh
    git_anchor.Verdict.check_key git_anchor.Verdict.check_block git_anchor.SignedBytes.signed_bytes
    git_anchor.SignedBytes.signed_loop git_anchor.SignedBytes.drops
    git_anchor.SignedBytes.ends_header git_anchor.SignedBytes.first_line
    git_anchor.SignedBytes.starts_with git_anchor.AttestCli.ensure_schemas
    git_anchor.KeyWrites.register_schemas git_anchor.KeyWrites.register_claim_schema
    git_anchor.KeyWrites.register_key_schema key_claim object_named key_at
    git_anchor.Keys.resolve_key payload_of target_of git_anchor.Claims.append
    git_anchor.Claims.append_named git_anchor.Claims.append_loop git_anchor.Claims.attempt
    git_anchor.Claims.read_tip git_anchor.Claims.sequence_at git_anchor.Claims.publish_prepared
    git_anchor.Claims.after_publish git_anchor.Claims.sign git_anchor.Claims.revoke
first_revoked = refl

cmd_sign-cmd_verify_example :
    (s2 : one_chain.State) × (key : ℕ) × HasKey sample_forms one_chain one_keys ssh_of_7 by_byte
      (8 ∷ [])
      (λ n m s. s)
      1
      rotated_chain
      s2
      (some (2 ∷ []))
      false
      key
    × (((out' : List Bytes) × (cmd_verify sample_forms one_chain one_keys ssh_of_7 by_byte note_docs
              signed_chain
              (record { claim = 4 ∷ []; json = false })
              []
            ≡ (ok 0, out')))
        ↔ ResolvesToSigner sample_forms one_chain one_keys ssh_of_7 by_byte note_docs signed_chain
            key 4
          × IsPrinted sample_forms one_chain one_keys ssh_of_7 by_byte note_docs false 4)
unfolding object_named
cmd_sign-cmd_verify_example =
    cmd_sign-cmd_verify sample_forms one_chain one_keys ssh_of_7 by_byte note_docs (8 ∷ [])
      (λ n m s. s) 1 payload_store rotated_chain signed_chain [] sign_blob 4
      (record { claim = 4 ∷ []; json = false }) [] one_chain-IsChained blob_signed refl
