-- ===== src/Signer.antt =====
-- crates/git-attest/src/signer.rs: the key that a run of `git attest` signs with, and the signer over it.
-- Paths are texts in UTF-8, in Unix's syntax.
pub mod Halves
use git_anchor.Base.{
  ℕ, zero, suc, Bool, true, false, not, ◌&&◌, ◌||◌, Option, none, some, List, [], ◌∷◌, ◌++◌, ◌==◌,
  if◌then◌else◌,
}
use git_anchor.Base.Text.{Bytes, codes, same}
use git_anchor.Base.Result.{Result, ok, err, ok_or, ◌>>=◌}
use git_anchor.Base.Strings.{rsplit_once, is_empty, trim}
use git_anchor.Base.Strings.Lossy.{from_utf8_lossy}

-- Whether bytes that follow a file name, or its first `/`, add no component: `/` and `/.`.
unfoldable pub adds_none : Bool → Bytes → Bool
adds_none after_slash [] = true
adds_none after_slash (b ∷ bs) =
    let rest = adds_none (b == b'/') bs in (b == b'/' || after_slash && b == b'.') && rest

-- A path up to the end of its last component.
unfoldable pub up_to_name : Bytes → Bytes
up_to_name [] = []
up_to_name (b ∷ bs) =
    let rest = up_to_name bs in
    let is_tail = adds_none false (b ∷ bs) in if is_tail then [] else b ∷ rest

pub folder_of : Option (Bytes × Bytes) → Bytes
folder_of none = []
folder_of (some (folder, name)) = folder ++ (b'/' ∷ [])

pub name_of : Option (Bytes × Bytes) → Bytes → Bytes
name_of none path = path
name_of (some (folder, name)) path = name

-- `rsplit_file_at_dot` of std: the stem of a file name, and its extension if it has one. The dot that a
-- name starts with starts no extension, and `.` and `..` have none.
unfoldable pub at_dot : Bytes → Option (Bytes × Bytes) → Bytes × Option Bytes
at_dot name none = (name, none)
at_dot name (some (stem, extension)) =
    if is_empty stem || same name (codes "..") then (name, none) else (stem, some extension)

-- A path as what is before its file name, the stem of the file name, and the extension.
unfoldable pub parts : Bytes → Bytes × Bytes × Option Bytes
unfolding folder_of name_of
parts path =
    let whole = up_to_name path in
    let slash = rsplit_once b'/' whole in
    let name = name_of slash whole in
    let (stem, extension) = at_dot name (rsplit_once b'.' name) in
    (folder_of slash, stem, extension)

-- `Path::extension`
unfoldable pub extension : Bytes → Option Bytes
extension path = (parts path).2

-- `Path::with_extension("")`
unfoldable pub without_extension : Bytes → Bytes
without_extension path =
    let (folder, stem, extension) = parts path in if is_empty stem then path else folder ++ stem

-- `std::process::Output`
pub record Output : Type 0 where
  pub success : Bool
  pub stdout : Bytes
  pub stderr : Bytes

-- What a run asks of git's configuration, the file system and `ssh-keygen`. Its errors are texts.
pub record Host : Type 0 where
  -- `repo.config_snapshot().string(key)`
  pub config : Bytes → Option Bytes
  pub exists : Bytes → Bool
  pub read_to_string : Bytes → Result Bytes Bytes
  -- `ssh-keygen` with arguments and standard input, run to its end
  pub ssh_keygen : List Bytes → Bytes → Result Bytes Output

pub data SignerError : Type 0 where
  -- gpg.format is another one
  wrong_format : Bytes → SignerError
  no_signing_key : SignerError
  no_private_key : Bytes → SignerError
  -- `ssh-keygen` did not run, or failed with what it wrote
  did_not_run : Bytes → SignerError
  keygen_failed : Bytes → Bytes → SignerError

pub record SigningKey : Type 0 where
  pub private_key : Bytes
  pub public_key : Bytes

-- `unwrap_or_else` of the format
format_or_default : Option Bytes → Bytes
format_or_default none = codes "openpgp"
format_or_default (some format) = format

-- `path.extension().is_some_and(|ext| ext == "pub")`
unfoldable pub is_pub : Option Bytes → Bool
is_pub none = false
is_pub (some ext) = same ext (codes "pub")

-- The private half of the pair that a path names a half of.
unfoldable pub private_half : Bytes → Bytes
private_half path = if is_pub (extension path) then without_extension path else path

module _ (host : Host) where
  open host use {config, exists, read_to_string, ssh_keygen}

  unfoldable pub from_config : Result SignerError Bytes
  unfolding format_or_default
  from_config =
      let format = format_or_default (config (codes "gpg.format")) in
      if not (same format (codes "ssh"))
      then err (wrong_format format)
      else ok_or (config (codes "user.signingkey")) no_signing_key

  derived_line : Bytes → Result Bytes Output → Result SignerError Bytes
  derived_line private_key (err e) = err (did_not_run e)
  derived_line private_key (ok out) =
      if not out.success
      then err (keygen_failed private_key (trim (from_utf8_lossy out.stderr)))
      else ok (trim (from_utf8_lossy out.stdout))

  line_or_derived : Bytes → Result Bytes Bytes → Result SignerError Bytes
  unfolding derived_line
  line_or_derived private_key (ok line) = ok (trim line)
  line_or_derived private_key (err e) =
      derived_line private_key (ssh_keygen (codes "-y" ∷ codes "-f" ∷ private_key ∷ []) [])

  unfoldable pub public_line : Bytes → Result SignerError Bytes
  unfolding line_or_derived
  public_line private_key =
      line_or_derived private_key (read_to_string (private_key ++ codes ".pub"))

  key_at_half : Bytes → Result SignerError SigningKey
  key_at_half half =
      if not (exists half)
      then err (no_private_key half)
      else do line ← public_line half; ok (record { private_key = half; public_key = line })

  -- `SigningKey::at`
  unfoldable pub signing_key_at : Bytes → Result SignerError SigningKey
  unfolding key_at_half
  signing_key_at path = key_at_half (private_half path)

  -- `SigningKey::resolve`
  unfoldable pub resolve_signing_key : Option Bytes → Result SignerError SigningKey
  resolve_signing_key (some path) = signing_key_at path
  resolve_signing_key none = do path ← from_config; signing_key_at path

  signed_output : Result Bytes Output → Result Bytes Bytes
  signed_output (err e) = err e
  signed_output (ok out) =
      if not out.success
      then err (codes "ssh-keygen -Y sign failed: " ++ trim (from_utf8_lossy out.stderr))
      else ok out.stdout

  -- `SshKeygen::sign`, over the key of `signer`
  unfoldable pub ssh_keygen_sign : SigningKey → Bytes → Result Bytes Bytes
  unfolding signed_output
  ssh_keygen_sign key bytes = signed_output (
      ssh_keygen
        (codes "-Y"
          ∷ codes "sign"
          ∷ codes "-q"
          ∷ codes "-n"
          ∷ codes "git"
          ∷ codes "-f"
          ∷ key.private_key
          ∷ [])
        bytes)
