-- ===== src/Verdict.antt =====
-- crates/git-attest/src/verify.rs: `Verdict`, `Verifier`, `SshEd25519` and `verifier_for`; `AttestKey` of
-- crates/git-attest/src/key.rs. The keys and signatures of ssh-key are a parameter.
pub mod Ssh
use git_anchor.Base.{Bool, true, false, not, Option, none, some, ◌≡◌, if◌then◌else◌}
use git_anchor.Base.Text.{Bytes, codes, same}
use git_anchor.Base.Strings.{from_utf8, trim_start}
use git_anchor.Base.Result.{Result, ok, err, map_err, ◌>>=◌}
use git_anchor.Claims.{ClaimError, key_material}
use git_anchor.SignedBytes.{starts_with}

pub record AttestKey : Type 0 where
  pub format : Bytes
  pub public_key : Bytes
  pub machine : Bool

pub data Verdict : Type 0 where
  verified bad_signature unknown_key_format : Verdict

-- The trait: a check of the signed bytes, a signature and a key.
abbrev pub Verifier : Type 0
Verifier = Bytes → Bytes → AttestKey → Verdict

-- What the code calls of ssh-key.
pub record SshKey : Type 1 where
  pub PublicKey : Type 0
  pub SshSig : Type 0
  pub from_openssh : Bytes → Result Bytes PublicKey
  pub algorithm : PublicKey → Bytes
  pub to_bytes : PublicKey → Result Bytes Bytes
  pub from_bytes : Bytes → Option PublicKey
  -- `armor.parse::<SshSig>()`
  pub parse_block : Bytes → Option SshSig
  pub namespace : SshSig → Bytes
  -- `public.verify(namespace, signed, &block).is_ok()`
  pub verify : PublicKey → Bytes → Bytes → SshSig → Bool

abbrev pub ssh_ed25519 : Bytes
ssh_ed25519 = codes "ssh-ed25519"

abbrev pub git_namespace : Bytes
git_namespace = codes "git"

abbrev pub sshsig_preamble : Bytes
sshsig_preamble = codes "-----BEGIN SSH SIGNATURE-----"

module _ (ssh : SshKey) where
  unfoldable pub from_openssh : Bytes → Bool → Result ClaimError AttestKey
  from_openssh openssh machine = do
    public ← map_err key_material (ssh.from_openssh openssh)
    bytes ← map_err key_material (ssh.to_bytes public)
    ok (record { format = ssh.algorithm public; public_key = bytes; machine = machine })

  -- From the block on.
  unfoldable pub check_block : Bytes → ssh.PublicKey → Option ssh.SshSig → Verdict
  check_block signed public none = bad_signature
  check_block signed public (some block) =
      if not (same (ssh.namespace block) git_namespace)
      then bad_signature
      else if ssh.verify public git_namespace signed block
      then verified
      else bad_signature

  -- From the public key on.
  unfoldable pub check_key : Bytes → Bytes → Option ssh.PublicKey → Verdict
  check_key signed armor none = unknown_key_format
  check_key signed armor (some public) = check_block signed public (ssh.parse_block armor)

  -- `SshEd25519::verify`
  unfoldable pub verify_ssh : Verifier
  verify_ssh signed signature key =
      if not (same key.format ssh_ed25519)
      then unknown_key_format
      else if not (from_utf8 signature)
      then unknown_key_format
      else if not (starts_with (trim_start signature) sshsig_preamble)
      then unknown_key_format
      else check_key signed signature (ssh.from_bytes key.public_key)

  unfoldable pub verifier_for : Bytes → Option Verifier
  verifier_for format = if same format ssh_ed25519 then some verify_ssh else none
