-- ===== src/Pin.antt =====
-- crates/git-anchor/src/pin.rs: pin records, and the registration of their schema. What the code asks of
-- git-store and of the derivation of schemas is a parameter.
use git_anchor.Base.{ℕ, ◌≡◌, Option, some}
use git_anchor.Base.Text.{Bytes, codes}
use git_anchor.Base.Result.{Result, ok, map_err}
use git_anchor.Base.Action.{
  Action, returns, fails_as, ◌>>=◌, after-eq-ok, returns-eq-ok, fails_as-eq-ok,
}
use git_anchor.Error.{Error, schema_registration}

abbrev pub rebind_pin_kind : Bytes
rebind_pin_kind = codes "rebind-pin"

pub record RebindPin : Type 0 where
  pub rev : ℕ
  pub path : Bytes
  pub span : ℕ × ℕ

-- The schemas of a store. Errors are texts.
pub record SchemaStore : Type 1 where
  pub State : Type 0
  pub Segment : Type 0
  pub Schema : Type 0
  -- `RefSegment::new`
  pub ref_segment : Bytes → Result Bytes Segment
  -- `schema_of::<RebindPin>()`
  pub pin_schema : Result Bytes Schema
  -- `dynamic(segment).schema().put` and `get`
  pub put_schema : Segment → Schema → State → Result Bytes ℕ × State
  pub get_schema : State → Segment → Option Schema

module _ (schemas : SchemaStore) where
  open schemas use {State}

  unfoldable pub register_rebind_pin_schema : Action State Error ℕ
  register_rebind_pin_schema = do
    segment ← returns (map_err schema_registration (schemas.ref_segment rebind_pin_kind))
    schema ← returns (map_err schema_registration schemas.pin_schema)
    fails_as schema_registration (schemas.put_schema segment schema)

  -- The documented promise of git-store: a schema that was put is the one that is read.
  abbrev pub IsReadBack : Type 0
  IsReadBack =
      (segment : schemas.Segment) (schema : schemas.Schema) (s : State) (id : ℕ) (s' : State)
      → schemas.put_schema segment schema s ≡ (ok id, s')
      → schemas.get_schema s' segment ≡ some schema

  -- A registration that succeeds publishes the derived schema under its kind, whatever was there before.
  register_rebind_pin_schema_published :
      IsReadBack
      → (s : State) (id : ℕ) (s' : State) → register_rebind_pin_schema s ≡ (ok id, s')
      → (segment : schemas.Segment) × (schema : schemas.Schema) × (schemas.ref_segment
            rebind_pin_kind
          ≡ ok segment)
        × (schemas.pin_schema ≡ ok schema)
        × (schemas.get_schema s' segment ≡ some schema)
  unfolding register_rebind_pin_schema
  register_rebind_pin_schema_published back s id s' e =
      let (segment, s1, named, e1) = after-eq-ok _ _ e in
      let (segment_is, s_is) = returns-eq-ok _ _ _ _ _ named in
      let (schema, s2, derived, e2) = after-eq-ok _ _ e1 in
      let (schema_is, s1_is) = returns-eq-ok _ _ _ _ _ derived in
      (
        segment,
        schema,
        segment_is,
        schema_is,
        back segment schema s2 id s' (fails_as-eq-ok _ _ _ _ e2),
      )
