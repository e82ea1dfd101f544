-- ===== src/AttestCli/Signed.antt =====
-- `cmd_sign` of crates/git-attest/src/main.rs: what the new claim's envelope holds.
use git_anchor.Base.{
  ℕ, ◌≡◌, inl, inr, sym, ap, ◌∙◌, subst, Bool, true, false, Option, none, some, List, arith,
  Option-cases,
}
use git_anchor.Base.Text.{Bytes}
use git_anchor.Base.Result.{Result, ok, map_err, ok_or, map_err-eq-ok, bind-eq-ok, ok_or-eq-ok}
use git_anchor.Base.Action.{after-eq-ok, fails_as, fails_as-eq-ok, returns-eq-ok}
use git_anchor.Binding.{NormalForms}
use git_anchor.Claims.{Target, Claim, ClaimStore, entity_name, log, panicked}
use git_anchor.Claims.Append.{IsChained, Appended}
use git_anchor.Verdict.{AttestKey, SshKey, from_openssh}
use git_anchor.Keys.{KeyStore, key_at}
use git_anchor.KeyWrites.{key_target}
use git_anchor.Documents.{Documents}
use git_anchor.AttestArgs.{
  of_claims, of_store, not_compiled, not_an_object_id, json_unread, json_not_an_object, TargetArg,
  Revisions, object_named, target_of, parse_json, prompt_document,
}
use git_anchor.AttestCli.{SignArgs, PayloadStore, write_payload, payload_of, key_claim, cmd_sign}
use git_anchor.AttestCli.KeyClaim.{Names, key_claim-Names, key_claim_given}
use git_anchor.AttestCli.Signing.{cmd_sign-Appended}

-- What an argument that names an object stands for: the id that it spells, or else the revision.
pub data NamesObject (revisions : Revisions) (text : Bytes) (id : ℕ) : Type 0 where
  by_id : revisions.from_hex text ≡ some id → NamesObject revisions text id
  by_revision :
      revisions.from_hex text ≡ none
      → revisions.rev_parse_single text ≡ ok id
      → NamesObject revisions text id

object_named-NamesObject :
    (revisions : Revisions) (text : Bytes) (id : ℕ)
    → object_named revisions text ≡ ok id
    → NamesObject revisions text id
unfolding object_named
object_named-NamesObject revisions text id e = elim (Option-cases (revisions.from_hex text)) [
  | inl unspelled ↦ by_revision unspelled (
      map_err-eq-ok (not_an_object_id text) (revisions.rev_parse_single text)
        (rw (unspelled, object_named) at e))
  | inr (found, spelled) ↦
      let e' : ok found ≡ ok id = rw (spelled, object_named) at e in
      by_id (spelled ∙ ap some (let same : found ≡ id = ground arith in same))
]

module _ (claims : ClaimStore) (docs : Documents) (payloads : PayloadStore docs claims.State) where
  -- A document of a kind is written: compiled to the tree that is its id, and put under that name.
  pub record IsWritten (s : claims.State) (kind : Bytes) (value : docs.Value) (tree : ℕ)
      (s' : claims.State) : Type 0 where
    pub compiled : claims.State
    pub name : Bytes
    pub commit : ℕ
    pub tree_is : payloads.compile_value s kind value ≡ (ok tree, compiled)
    pub name_is : claims.ref_segment (claims.hex tree) ≡ ok name
    pub put_is : payloads.put_value compiled kind name value ≡ (ok commit, s')

  -- The payload of a claim: the tree that is named; else the JSON object that is given, read and
  -- written; else, when it is asked for, the document that the answers make by the kind's schema.
  pub data IsPayload (revisions : Revisions) (lines : List (Result Bytes Bytes)) (kind : Bytes)
      (s : claims.State) : Option Bytes → Option Bytes → Bool → ℕ → claims.State → Type 0 where
    named :
        {tree : Bytes} {json : Option Bytes} {interactive : Bool} {id : ℕ}
        → NamesObject revisions tree id
        → IsPayload revisions lines kind s (some tree) json interactive id s
    given :
        {raw : Bytes} {interactive : Bool} {id : ℕ} {s' : claims.State} (value : docs.Value)
        (pairs : List (Bytes × docs.Value))
        → docs.from_json raw ≡ ok value
        → docs.as_object value ≡ some pairs
        → IsWritten s kind value id s'
        → IsPayload revisions lines kind s none (some raw) interactive id s'
    prompted :
        {id : ℕ} {s' : claims.State} (schema : Option docs.Schema) (value : docs.Value)
        → payloads.get_schema s kind ≡ ok schema
        → prompt_document docs kind schema lines ≡ ok value
        → IsWritten s kind value id s'
        → IsPayload revisions lines kind s none none true id s'

parse_json-object :
    (docs : Documents) (raw : Bytes) (value : docs.Value)
    → parse_json docs raw ≡ ok value
    → (pairs : List (Bytes × docs.Value)) × (docs.from_json raw ≡ ok value)
      × (docs.as_object value ≡ some pairs)
unfolding parse_json
parse_json-object docs raw value e =
    let (read, e1, e2) = bind-eq-ok (map_err json_unread (docs.from_json raw)) _ e in
    let (pairs, e3, e4) = bind-eq-ok (ok_or (docs.as_object read) json_not_an_object) _ e2 in
    let read_is : read ≡ value = ground arith in
    (
      pairs,
      map_err-eq-ok json_unread (docs.from_json raw) e1 ∙ ap ok read_is,
      ap docs.as_object (sym read_is) ∙ ok_or-eq-ok (docs.as_object read) json_not_an_object e3,
    )

module _ (claims : ClaimStore) (keys : KeyStore claims) (docs : Documents)
    (payloads : PayloadStore docs claims.State) where
  write_payload-IsWritten :
      (kind : Bytes) (value : docs.Value) (s s' : claims.State) (id : ℕ)
      → write_payload claims keys docs payloads kind value s ≡ (ok id, s')
      → IsWritten claims docs payloads s kind value id s'
  unfolding write_payload
  write_payload-IsWritten kind value s s' id e =
      let (tree, s1, e1, e2) =
        after-eq-ok (fails_as (not_compiled kind) (λ t. payloads.compile_value t kind value) s) _
          e in
      let named = map_err (λ x. of_claims panicked) (claims.ref_segment (claims.hex tree)) in
      let (name, s2, e3, e4) = after-eq-ok (named, s1) _ e2 in
      let (commit, s3, e5, e6) =
        after-eq-ok (fails_as of_store (λ t. payloads.put_value t kind name value) s2) _ e4 in
      let compiled =
        fails_as-eq-ok (not_compiled kind) (payloads.compile_value s kind value) tree s1 e1 in
      let (name_is, s1_is) =
        returns-eq-ok (λ x. of_claims panicked) (claims.ref_segment (claims.hex tree)) s1 name s2
          e3 in
      let put = fails_as-eq-ok of_store (payloads.put_value s2 kind name value) commit s3 e5 in
      let (tree_is, s3_is) : (tree ≡ id) × (s3 ≡ s') = ground arith in
      let done : IsWritten claims docs payloads s kind value tree s3 = record {
        compiled = s1;
        name = name;
        commit = commit;
        tree_is = compiled;
        name_is = name_is;
        put_is =
            subst (λ (t : claims.State). payloads.put_value t kind name value ≡ (ok commit, s3))
              (sym s1_is) put;
      } in
      subst (λ t. IsWritten claims docs payloads s kind value t s') tree_is
        (subst (λ (t : claims.State). IsWritten claims docs payloads s kind value tree t) s3_is
          done)

  payload_of-IsPayload :
      (revisions : Revisions) (lines : List (Result Bytes Bytes)) (kind : Bytes)
      (tree json : Option Bytes) (interactive : Bool) (s s' : claims.State) (id : ℕ)
      → payload_of claims keys docs payloads revisions lines kind tree json interactive s
        ≡ (ok id, s')
      → IsPayload claims docs payloads revisions lines kind s tree json interactive id s'
  unfolding payload_of
  payload_of-IsPayload revisions lines kind (some tree) json interactive s s' id e =
      let (named_is, s_is) : (object_named revisions tree ≡ ok id) × (s ≡ s') = ground arith in
      subst (IsPayload claims docs payloads revisions lines kind s (some tree) json interactive id)
        s_is (named (object_named-NamesObject revisions tree id named_is))
  payload_of-IsPayload revisions lines kind none (some raw) interactive s s' id e =
      let (value, s1, e1, e2) = after-eq-ok (parse_json docs raw, s) _ e in
      let (read, s_is) : (parse_json docs raw ≡ ok value) × (s ≡ s1) = ground arith in
      let (pairs, from, object) = parse_json-object docs raw value read in
      given value pairs from object (write_payload-IsWritten kind value s s' id (rw s_is e2))
  payload_of-IsPayload revisions lines kind none none true s s' id e =
      let (schema, s1, e1, e2) =
        after-eq-ok (map_err of_store (payloads.get_schema s kind), s) _ e in
      let (schema_is, s_is) = returns-eq-ok of_store (payloads.get_schema s kind) s schema s1 e1 in
      let (value, s2, e3, e4) = after-eq-ok (prompt_document docs kind schema lines, s1) _ e2 in
      let (value_is, s1_is) : (prompt_document docs kind schema lines ≡ ok value) × (s1 ≡ s2) =
        ground arith in
      prompted schema value schema_is value_is
        (write_payload-IsWritten kind value s s' id (rw (s_is, s1_is) e4))
  payload_of-IsPayload revisions lines kind none none false s s' id e = absurd (ground arith)

module _ (forms : NormalForms) (claims : ClaimStore) (keys : KeyStore claims) (ssh : SshKey)
    (revisions : Revisions) (public : Bytes) where
  -- The key claim that a command signs with: the object that is named, where a key claim is read; else
  -- what the chain of the public key gives, or the key that is added to it.
  abbrev pub IsChosen :
      (ℕ → claims.State → claims.State)
      → ℕ
      → Bool
      → claims.State
      → Option Bytes
      → ℕ
      → claims.State
      → Type 0
  IsChosen others fuel machine s (some text) key s' =
      NamesObject revisions text key
      × (s ≡ s')
      × ((found : Option AttestKey) × (key_at forms claims keys ssh s key ≡ ok found))
  IsChosen others fuel machine s none key s' =
      (k : AttestKey) × (document : ℕ) × (s1 : claims.State) × (chain : List Claim) × (from_openssh
          ssh public machine
        ≡ ok k)
      × (keys.compile_key s k ≡ (ok document, s1))
      × (log forms claims s1 (key_target document) ≡ ok chain)
      × Names forms claims keys ssh revisions public others fuel k document chain s1 key s'

  key_claim-IsChosen :
      (others : ℕ → claims.State → claims.State) (fuel : ℕ) (machine : Bool) (s s' : claims.State)
      (text : Option Bytes) (key : ℕ)
      → key_claim forms claims keys ssh revisions public others fuel text machine s ≡ (ok key, s')
      → IsChosen others fuel machine s text key s'
  key_claim-IsChosen others fuel machine s s' none key e =
      key_claim-Names forms claims keys ssh revisions public others fuel machine s s' key e
  key_claim-IsChosen others fuel machine s s' (some text) key e =
      let (named_is, s_is, found) =
        (key_claim_given forms claims keys ssh revisions public others fuel text machine s s' key).0
          e in
      (object_named-NamesObject revisions text key named_is, s_is, found)

  target_of-NamesObject :
      (arg : TargetArg) (on : Target)
      → target_of revisions arg ≡ ok on
      → NamesObject revisions arg.id on.id × (on.kind ≡ arg.kind)
  unfolding target_of
  target_of-NamesObject arg on e =
      let (id, e1, e2) = bind-eq-ok (object_named revisions arg.id) _ e in
      let (kind_is, id_is) : (arg.kind ≡ on.kind) × (id ≡ on.id) = ground arith in
      (object_named-NamesObject revisions arg.id on.id (e1 ∙ ap ok id_is), sym kind_is)

  module _ (others : ℕ → ℕ → claims.State → claims.State) (fuel : ℕ) (docs : Documents)
      (payloads : PayloadStore docs claims.State) where
    -- A claim that `git attest sign` reports is the newest claim on the chain of the target with the
    -- given kind and the object that is named. Its envelope holds that target, the given kind of payload,
    -- the payload that is named, or read from the given JSON, or what `prompt_document` makes of the
    -- answers, and then written; and for its key the claim that `--key` names, or the one of the public
    -- key's own chain.
    pub cmd_sign-IsPayload :
        (s s' : claims.State) (lines : List (Result Bytes Bytes)) (args : SignArgs) (id : ℕ)
        → IsChained claims
        → cmd_sign forms claims keys ssh revisions public docs payloads others fuel lines args s
          ≡ (ok id, s')
        → (s1 s2 s3 : claims.State) × (key payload : ℕ) × (on : Target) × (name : Bytes) × IsChosen
            (others 0)
            fuel
            args.machine
            s1
            args.key
            key
            s2
          × IsPayload claims docs payloads revisions lines args.kind s2 args.payload_tree args.json
              args.interactive payload s3
          × (NamesObject revisions args.target.id on.id × (on.kind ≡ args.target.kind))
          × (entity_name forms claims on ≡ ok name)
          × Appended forms claims s' name
              (record { target = on; payload = payload; payload_kind = args.kind; key = key })
              id
    cmd_sign-IsPayload s s' lines args id chained e =
        let (s2, s3, key, payload, on, name, has_key, built, target_is, name_is, appended) =
          cmd_sign-Appended forms claims keys ssh revisions public others fuel docs payloads s s'
            lines args id chained e in
        (
          has_key.s1,
          s2,
          s3,
          key,
          payload,
          on,
          name,
          key_claim-IsChosen (others 0) fuel args.machine has_key.s1 s2 args.key key has_key.chosen,
          payload_of-IsPayload claims keys docs payloads revisions lines args.kind args.payload_tree
              args.json args.interactive s2 s3 payload built,
          target_of-NamesObject args.target on target_is,
          name_is,
          appended,
        )
