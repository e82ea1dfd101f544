-- ===== src/AttestOutput.antt =====
-- crates/git-attest/src/main.rs: what `verify`, `log` and `resolve` print, and the exit code of a verdict.
use git_anchor.Base.{ℕ, Bool, true, false, Option, none, some, List, [], ◌∷◌, ◌++◌}
use git_anchor.Base.Text.{Bytes, codes}
use git_anchor.Base.Result.{Result, ok, err, map_err}
use git_anchor.Base.Action.{Action, Done, pure, returns, ◌>>=◌}
use git_anchor.Claims.{Claim}
use git_anchor.Verdict.{Verdict, verified, bad_signature, unknown_key_format}
use git_anchor.Documents.{Documents}
use git_anchor.AttestArgs.{CliError, of_documents}

abbrev pub dash : Bytes
dash = codes " " ++ (0xe2 ∷ 0x80 ∷ 0x94 ∷ []) ++ codes " "

-- The word, the note and the exit code for a verdict.
unfoldable pub report : Verdict → Bytes × Bytes × ℕ
report verified = (
  codes "Verified",
  codes "the signature is the signing key's over these commit bytes. "
      ++ codes "This is cryptography only: it does not say the claim is valid, "
      ++ codes "unrevoked, or admissible"
      ++ dash
      ++ codes "see `git attest resolve` for revocation "
      ++ codes "and a query rule for validity.",
  0,
)
report bad_signature = (
  codes "BadSignature",
  codes "the signature is not the signing key's over these commit bytes"
      ++ dash
      ++ codes "a forgery, a tampered commit, an unparsable signature, or no "
      ++ codes "signature at all. Cryptography distinguishes none of those.",
  1,
)
report unknown_key_format = (
  codes "UnknownKeyFormat",
  codes "no shipped verifier claims the key's format, or the stored "
      ++ codes "block's armor disagrees with it. Nothing was checked, and nothing "
      ++ codes "is asserted.",
  2,
)

module _ (docs : Documents) (hex : ℕ → Bytes) where
  open docs use {Value}

  -- The line that `verify` prints.
  unfoldable pub verdict_line : ℕ → Bool → Bytes × Bytes × ℕ → Result CliError Bytes
  verdict_line id false (word, note, code) = ok (word ++ codes ": " ++ note)
  verdict_line id true (word, note, code) = map_err of_documents (
      docs.to_json (
        docs.object_value (
          (codes "claim", docs.string_value (hex id))
          ∷ (codes "verdict", docs.string_value word)
          ∷ (codes "cryptographic_only", docs.bool_value true)
          ∷ [])))

  abbrev pub revoked_value : Option ℕ → Value
  revoked_value none = docs.null
  revoked_value (some id) = docs.string_value (hex id)

  abbrev pub revoked_lines : Option ℕ → List Bytes
  revoked_lines none = []
  revoked_lines (some id) = (codes "revoked-by: " ++ hex id) ∷ []

  abbrev pub one_line : Result Bytes Bytes → Result CliError (List Bytes)
  one_line (ok line) = ok (line ∷ [])
  one_line (err e) = err (of_documents e)

  -- The lines that `print_claims` prints of one claim.
  unfoldable pub claim_lines : Bool → Claim → Result CliError (List Bytes)
  claim_lines true c = one_line (
      docs.to_json (
        docs.object_value (
          (codes "claim", docs.string_value (hex c.id))
          ∷ (codes "target_kind", docs.string_value c.envelope.target.kind)
          ∷ (codes "target_id", docs.string_value (hex c.envelope.target.id))
          ∷ (codes "payload", docs.string_value (hex c.envelope.payload))
          ∷ (codes "payload_kind", docs.string_value c.envelope.payload_kind)
          ∷ (codes "key", docs.string_value (hex c.envelope.key))
          ∷ (codes "revoked_by", revoked_value c.revoked_by)
          ∷ [])))
  claim_lines false c = ok (
      (codes "claim " ++ hex c.id)
      ∷ (codes "target: " ++ c.envelope.target.kind ++ codes ":" ++ hex c.envelope.target.id)
      ∷ (codes "payload: "
          ++ hex c.envelope.payload
          ++ codes " ("
          ++ c.envelope.payload_kind
          ++ codes ")")
      ∷ (codes "key: " ++ hex c.envelope.key)
      ∷ (revoked_lines c.revoked_by ++ ([] ∷ [])))

  -- What is printed comes back with an error too.
  unfoldable pub print_claims : List Claim → Bool → Action (List Bytes) CliError Done
  print_claims [] json = pure tt
  print_claims (c ∷ claims) json = do
    lines ← returns (claim_lines json c)
    printed ← (λ out. (ok tt, out ++ lines))
    print_claims claims json
