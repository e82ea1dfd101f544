-- ===== src/Error.antt =====
-- crates/git-anchor/src/error.rs: the error type of every git-anchor operation. A message of a
-- library underneath is carried as its text. `panic` stands for an index out of bounds.
use git_anchor.Base.{ℕ}
use git_anchor.Base.Text.{Bytes}
use git_anchor.Base.Result.{Result}

pub data Error : Type 0 where
  resolve : Bytes → Error
  object : Bytes → Error
  diff : Bytes → Error
  missing_path : ℕ → Bytes → Error
  lines_out_of_range : Bytes → ℕ → ℕ → ℕ → Error
  no_working_tree : Error
  serialize : Bytes → Error
  deserialize : Bytes → Error
  normal_form : Bytes → Error
  schema_registration : Bytes → Error
  panic : Error

abbrev pub Res : Type 0 → Type 0
Res A = Result Error A

-- Why a recursion on fuel returned no result: an error of the code, or no fuel left.
pub data Stop : Type 0 where
  failed : Error → Stop
  exhausted : Stop
