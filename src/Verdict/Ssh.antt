-- ===== src/Verdict/Ssh.antt =====
-- `SshEd25519::verify` and `verifier_for` of crates/git-attest/src/verify.rs: when they accept.
use git_anchor.Base.{
  ◌≡◌, ◌↔◌, ◌⊎◌, inl, inr, refl, true, false, Option, none, some, arith, Bool-cases,
}
use git_anchor.Base.Text.{Bytes, same, same_iff}
use git_anchor.Base.Strings.{from_utf8, trim_start}
use git_anchor.SignedBytes.{starts_with}
use git_anchor.Verdict.{
  AttestKey, verified, SshKey, ssh_ed25519, git_namespace, sshsig_preamble, check_block, check_key,
  verify_ssh, verifier_for,
}

module _ (ssh : SshKey) where
  -- What makes a signature good: the key says ssh-ed25519 and parses, the signature is UTF-8 text that
  -- opens with the armor of SSHSIG after white space and parses to a block of git's namespace, and
  -- ssh-key verifies the block over the signed bytes.
  pub record IsGood (signed signature : Bytes) (key : AttestKey) : Type 0 where
    pub public : ssh.PublicKey
    pub block : ssh.SshSig
    pub format_is : key.format ≡ ssh_ed25519
    pub is_text : from_utf8 signature ≡ true
    pub armored : starts_with (trim_start signature) sshsig_preamble ≡ true
    pub public_is : ssh.from_bytes key.public_key ≡ some public
    pub block_is : ssh.parse_block signature ≡ some block
    pub namespace_is : ssh.namespace block ≡ git_namespace
    pub verifies : ssh.verify public git_namespace signed block ≡ true

  block_verified :
      (signed : Bytes) (public : ssh.PublicKey) (found : Option ssh.SshSig)
      → check_block ssh signed public found ≡ verified
      → (block : ssh.SshSig) × (found ≡ some block)
        × (same (ssh.namespace block) git_namespace ≡ true)
        × (ssh.verify public git_namespace signed block ≡ true)
  unfolding check_block
  block_verified signed public none e = absurd (cc)
  block_verified signed public (some block) e = (block, refl, ground arith, ground arith)

  key_verified :
      (signed armor : Bytes) (found : Option ssh.PublicKey)
      → check_key ssh signed armor found ≡ verified
      → (public : ssh.PublicKey) × (found ≡ some public)
        × (check_block ssh signed public (ssh.parse_block armor) ≡ verified)
  unfolding check_key
  key_verified signed armor none e = absurd (cc)
  key_verified signed armor (some public) e = (public, refl, e)

  ssh_verified :
      (signed signature : Bytes) (key : AttestKey)
      → verify_ssh ssh signed signature key ≡ verified
      → (same key.format ssh_ed25519 ≡ true)
        × (from_utf8 signature ≡ true)
        × (starts_with (trim_start signature) sshsig_preamble ≡ true)
        × (check_key ssh signed signature (ssh.from_bytes key.public_key) ≡ verified)
  unfolding verify_ssh
  ssh_verified signed signature key e = ground arith

  -- The shipped verifier says `verified` exactly for a good signature.
  pub verify_ssh_iff :
      (signed signature : Bytes) (key : AttestKey)
      → (verify_ssh ssh signed signature key ≡ verified) ↔ IsGood signed signature key
  unfolding verify_ssh check_key check_block
  verify_ssh_iff signed signature key = (
    λ e.
        let (format, is_text, armored, e1) = ssh_verified signed signature key e in
        let (public, public_is, e2) =
          key_verified signed signature (ssh.from_bytes key.public_key) e1 in
        let (block, block_is, namespace, verifies) =
          block_verified signed public (ssh.parse_block signature) e2 in
        record {
          public = public;
          block = block;
          format_is = (same_iff key.format ssh_ed25519).0 format;
          is_text = is_text;
          armored = armored;
          public_is = public_is;
          block_is = block_is;
          namespace_is = (same_iff (ssh.namespace block) git_namespace).0 namespace;
          verifies = verifies;
        },
    λ h.
        rw
          (
            (same_iff key.format ssh_ed25519).1 h.format_is,
            h.is_text,
            h.armored,
            h.public_is,
            h.block_is,
            (same_iff (ssh.namespace h.block) git_namespace).1 h.namespace_is,
            h.verifies,
          )
          refl,
  )

  -- The dispatch table: the shipped verifier for ssh-ed25519, none for any other format.
  pub verifier_for_cases :
      (format : Bytes)
      → ((format ≡ ssh_ed25519) × (verifier_for ssh format ≡ some (verify_ssh ssh)))
        ⊎ ((same format ssh_ed25519 ≡ false) × (verifier_for ssh format ≡ none))
  unfolding verifier_for
  verifier_for_cases format = elim (Bool-cases (same format ssh_ed25519)) [
    | inl it_is ↦ inl ((same_iff format ssh_ed25519).0 it_is, rw it_is refl)
    | inr it_is_not ↦ inr (it_is_not, rw it_is_not refl)
  ]
