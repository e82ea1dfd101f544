-- ===== src/AttestCli/Together.antt =====
-- `cmd_sign` followed by `cmd_verify`, of crates/git-attest/src/main.rs.
use git_anchor.Base.{ℕ, ◌≡◌, ◌↔◌, refl, subst, none, List, arith}
use git_anchor.Base.Text.{Bytes}
use git_anchor.Base.Result.{Result, ok}
use git_anchor.Binding.{NormalForms}
use git_anchor.Claims.{Envelope, ClaimStore, envelope_at, into_envelope, stored_envelope}
use git_anchor.Claims.Append.{IsChained, Appended}
use git_anchor.Verdict.{AttestKey, SshKey}
use git_anchor.Keys.{Link, KeyStore}
use git_anchor.Keys.Chain.{IsKeyChain}
use git_anchor.Keys.Walk.{Trusted, rotation_check}
use git_anchor.Keys.Signed.{SignedBy}
use git_anchor.Documents.{Documents}
use git_anchor.AttestArgs.{Revisions, object_named}
use git_anchor.AttestCli.{SignArgs, VerifyArgs, PayloadStore, cmd_sign, cmd_verify}
use git_anchor.AttestCli.Exit.{IsSound, IsPrinted, cmd_verify-IsSound}
use git_anchor.AttestCli.Signing.{HasKey, cmd_sign-Appended}

module _ (forms : NormalForms) (claims : ClaimStore) (keys : KeyStore claims) (ssh : SshKey)
    (revisions : Revisions) (docs : Documents) where
  -- A key claim resolves to a key that signed a commit.
  abbrev pub ResolvesToSigner : claims.State → ℕ → ℕ → Type 0
  ResolvesToSigner s key id =
      (links : List Link) × (k : AttestKey) × IsKeyChain forms claims keys s key links
      × Trusted (rotation_check forms claims keys ssh s none) links k
      × SignedBy claims keys ssh s id k

  IsSound-iff :
      (s : claims.State) (id : ℕ) (envelope : Envelope)
      → envelope_at forms claims s id ≡ ok envelope
      → IsSound forms claims keys ssh revisions docs s id ↔ ResolvesToSigner s envelope.key id
  IsSound-iff s id envelope read = (
    λ h.
        let same_envelope : h.envelope ≡ envelope = ground (arith, h.envelope_is) in
        (
          h.links,
          h.key,
          subst (λ (v : Envelope). IsKeyChain forms claims keys s v.key h.links) same_envelope
              h.chained,
          h.trusted,
          h.signed,
        ),
    λ (links, k, chained, trusted, signed). record {
      envelope = envelope;
      links = links;
      key = k;
      envelope_is = read;
      chained = chained;
      trusted = trusted;
      signed = signed;
    },
  )

  Appended-read :
      (s : claims.State) (name : Bytes) (envelope : Envelope) (id : ℕ)
      → Appended forms claims s name envelope id
      → envelope_at forms claims s id ≡ ok envelope
  unfolding envelope_at into_envelope stored_envelope
  Appended-read s name envelope id appended = let claim_is = appended.claim_is in rw claim_is refl

  module _ (public : Bytes) (others : ℕ → ℕ → claims.State → claims.State) (fuel : ℕ)
      (payloads : PayloadStore docs claims.State) where
    -- After `git attest sign` has reported a claim, `git attest verify` of that claim, with `--json` or
    -- without, exits with 0 exactly when the key claim that was chosen has a key chain, signed link by
    -- link, to a key that the new commit's signature is good for, and what is printed can be printed.
    pub cmd_sign-cmd_verify :
        (s s' : claims.State) (lines : List (Result Bytes Bytes)) (args : SignArgs) (id : ℕ)
        (asked : VerifyArgs) (out : List Bytes)
        → IsChained claims
        → cmd_sign forms claims keys ssh revisions public docs payloads others fuel lines args s
          ≡ (ok id, s')
        → object_named revisions asked.claim ≡ ok id
        → (s2 : claims.State) × (key : ℕ) × HasKey forms claims keys ssh revisions public others
            fuel s s2 args.key args.machine key
          × (((out' : List Bytes) × (cmd_verify forms claims keys ssh revisions docs s' asked out
                  ≡ (ok 0, out')))
              ↔ ResolvesToSigner s' key id
                × IsPrinted forms claims keys ssh revisions docs asked.json id)
    cmd_sign-cmd_verify s s' lines args id asked out chained e named =
        let (s2, s3, key, payload, on, name, has_key, _, _, _, appended) =
          cmd_sign-Appended forms claims keys ssh revisions public others fuel docs payloads s s'
            lines args id chained e in
        let envelope : Envelope = record {
          target = on;
          payload = payload;
          payload_kind = args.kind;
          key = key;
        } in
        let read = Appended-read s' name envelope id appended in
        let exits = cmd_verify-IsSound forms claims keys ssh revisions docs s' asked out in
        (
          s2,
          key,
          has_key,
          (
            λ exit.
                let (id', named', sound, printed) = exits.0 exit in
                let same_id : id' ≡ id = ground (arith, named', named) in
                (
                  (IsSound-iff s' id envelope read).0
                      (subst (IsSound forms claims keys ssh revisions docs s') same_id sound),
                  subst (IsPrinted forms claims keys ssh revisions docs asked.json) same_id printed,
                ),
            λ (resolves, printed).
                exits.1 (id, named, (IsSound-iff s' id envelope read).1 resolves, printed),
          ),
        )
