-- ===== src/AttestArgs/Targets.antt =====
-- `TargetArg::from_str` of crates/git-attest/src/main.rs: which texts it reads, and as what.
use git_anchor.Base.{
  ◌≡◌, ◌≢◌, ◌↔◌, refl, sym, ap, ◌∙◌, false, Option, none, some, [], ◌∷◌, ◌++◌, arith,
}
use git_anchor.Base.Text.{Bytes}
use git_anchor.Base.Strings.{is_empty, rsplit_once}
use git_anchor.Base.Strings.Splits.{Without, rsplit_once_iff}
use git_anchor.Base.Result.{ok}
use git_anchor.AttestArgs.{TargetArg, split_target, from_str}

-- A target as it is written: a kind and an id that are not empty, a colon between them, and no colon
-- in the id.
abbrev pub IsWritten : Bytes → TargetArg → Type 0
IsWritten raw arg =
    (raw ≡ arg.kind ++ (b':' ∷ arg.id)) × (arg.kind ≢ []) × (arg.id ≢ []) × Without b':' arg.id

full : (text : Bytes) → is_empty text ≡ false → text ≢ []
full [] e = absurd (cc)
full (b ∷ bs) e = λ e'. absurd (cc)

full_is : (text : Bytes) → text ≢ [] → is_empty text ≡ false
full_is [] ne = absurd (ne refl)
full_is (b ∷ bs) ne = refl

split_full :
    (raw : Bytes) (parts : Option (Bytes × Bytes)) (arg : TargetArg)
    → split_target raw parts ≡ ok arg
    → (parts ≡ some (arg.kind, arg.id)) × (is_empty arg.kind ≡ false) × (is_empty arg.id ≡ false)
unfolding split_target
split_full raw none arg e = absurd (cc)
split_full raw (some (kind, id)) arg e =
    let (kind_full, id_full, kind_is, id_is) : (is_empty kind ≡ false)
        × (is_empty id ≡ false)
        × (kind ≡ arg.kind)
        × (id ≡ arg.id) =
      ground arith in
    rw (sym kind_is, sym id_is) (refl, kind_full, id_full)

split_of :
    (raw : Bytes) (arg : TargetArg)
    → is_empty arg.kind ≡ false
    → is_empty arg.id ≡ false
    → split_target raw (some (arg.kind, arg.id)) ≡ ok arg
unfolding split_target
split_of raw arg kind_full id_full = rw (kind_full, id_full) refl

-- A text is read as a target exactly when it is the target as it is written, `<kind>:<id>` with both
-- parts there and no colon in the id; the kind may have colons.
pub from_str_iff : (raw : Bytes) (arg : TargetArg) → (from_str raw ≡ ok arg) ↔ IsWritten raw arg
unfolding from_str
from_str_iff raw arg = (
  λ e.
      let (split, kind_full, id_full) = split_full raw (rsplit_once b':' raw) arg e in
      let (raw_is, no_colon) = (rsplit_once_iff b':' raw arg.kind arg.id).0 split in
      (raw_is, full arg.kind kind_full, full arg.id id_full, no_colon),
  λ (raw_is, kind_full, id_full, no_colon).
      ap (split_target raw) ((rsplit_once_iff b':' raw arg.kind arg.id).1 (raw_is, no_colon))
      ∙ split_of raw arg (full_is arg.kind kind_full) (full_is arg.id id_full),
)
