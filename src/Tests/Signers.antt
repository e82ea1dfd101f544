-- ===== src/Tests/Signers.antt =====
-- Key pairs on concrete inputs.
use git_anchor.Base.{◌≡◌, ◌≢◌, refl, true, false, none, some, List, [], ◌∷◌}
use git_anchor.Base.Text.{Bytes, codes, same}
use git_anchor.Base.Strings.{
  rsplit_once, trim, trim_end, trim_start, expects, white_start, white_end,
}
use git_anchor.Base.Strings.Lossy.{from_utf8_lossy}
use git_anchor.Base.Result.{Result, ok, err}
use git_anchor.Signer.{
  adds_none, up_to_name, at_dot, is_pub, private_half, public_line, from_config, signing_key_at,
  parts, extension, without_extension, Output, Host, wrong_format, resolve_signing_key,
  ssh_keygen_sign,
}
use git_anchor.Signer.Halves.{ends_in_slash, resolve_signing_key-half}

abbrev key_path : Bytes
key_path = codes "keys.d/id"

abbrev keygen : List Bytes → Bytes → Result Bytes Output
keygen arguments [] =
    ok (record { success = true; stdout = codes "ssh-ed25519 AAAA me\n"; stderr = [] })
keygen arguments (b ∷ bs) = ok (record { success = false; stdout = []; stderr = codes " no key\n" })

abbrev one_key : Host
one_key = record {
  config = λ name. none;
  exists = λ path. same path key_path;
  read_to_string = λ path. err (codes "not found");
  ssh_keygen = keygen;
}

other_half :
    resolve_signing_key one_key (some (codes "keys.d/id.pub"))
    ≡ ok (record { private_key = key_path; public_key = codes "ssh-ed25519 AAAA me" })
unfolding resolve_signing_key signing_key_at same private_half is_pub extension parts at_dot
    rsplit_once up_to_name adds_none without_extension public_line trim trim_end trim_start
    from_utf8_lossy expects white_end white_start
other_half = refl

unset_format : resolve_signing_key one_key none ≡ err (wrong_format (codes "openpgp"))
unfolding resolve_signing_key from_config same
unset_format = refl

hidden_file : extension (codes "a/.pub") ≡ none
unfolding extension parts at_dot rsplit_once up_to_name adds_none
hidden_file = refl

slash_after : without_extension (codes "a/id.pub/./") ≡ codes "a/id"
unfolding without_extension parts at_dot rsplit_once up_to_name adds_none same
slash_after = refl

lossy :
    from_utf8_lossy (0x61 ∷ 0xe2 ∷ 0x82 ∷ 0x62 ∷ 0xff ∷ [])
    ≡ 0x61 ∷ 0xef ∷ 0xbf ∷ 0xbd ∷ 0x62 ∷ 0xef ∷ 0xbf ∷ 0xbd ∷ []
unfolding from_utf8_lossy expects
lossy = refl

failed_signature :
    (key : Bytes)
    → ssh_keygen_sign one_key (record { private_key = key; public_key = [] }) (codes "x")
      ≡ err (codes "ssh-keygen -Y sign failed: no key")
unfolding ssh_keygen_sign trim trim_end trim_start from_utf8_lossy expects white_start white_end
failed_signature key = refl

no_extension : extension key_path ≡ none
unfolding extension parts at_dot rsplit_once up_to_name adds_none
no_extension = refl

key_path_other : extension key_path ≢ some (codes "pub")
key_path_other e = cc no_extension

resolve_signing_key-half_example :
    resolve_signing_key one_key (some (codes "keys.d/id.pub"))
    ≡ resolve_signing_key one_key (some key_path)
unfolding ends_in_slash
resolve_signing_key-half_example =
    resolve_signing_key-half one_key key_path (refl, refl) key_path_other
