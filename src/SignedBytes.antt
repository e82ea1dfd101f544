-- ===== src/SignedBytes.antt =====
-- crates/git-attest/src/verify.rs: `signed_bytes`, the bytes of a commit object that its signature
-- covers. The loop takes fuel; `none` is fuel that ran out.
pub mod Header
use git_anchor.Base.{
  ℕ, zero, suc, ◌≡◌, Bool, true, false, not, ◌&&◌, ◌||◌, Option, none, some, List, [], ◌∷◌, ◌++◌,
  length, ◌==◌, if◌then◌else◌,
}
use git_anchor.Base.Text.{Bytes, codes, same}

-- The line up to and with the first line feed, and what follows it.
unfoldable pub first_line : Bytes → Bytes × Bytes
first_line [] = ([], [])
first_line (b ∷ rest) =
    let after = first_line rest in if b == 10 then (b ∷ [], rest) else (b ∷ after.0, after.1)

-- `<[u8]>::starts_with`
unfoldable pub starts_with : Bytes → Bytes → Bool
starts_with line [] = true
starts_with [] (y ∷ ys) = false
starts_with (x ∷ xs) (y ∷ ys) = x == y && starts_with xs ys

-- `line == b"\n" || line.is_empty()`
unfoldable pub ends_header : Bytes → Bool
ends_header [] = true
ends_header (b ∷ rest) = same (b ∷ rest) (codes "\n")

-- Whether a line that starts no header continues to be dropped, or a header line starts to be.
unfoldable pub drops : Bool → Bytes → Bool
drops dropping line =
    if starts_with line (codes " ")
    then dropping
    else starts_with line (codes "gpgsig ") || same line (codes "gpgsig\n")

abbrev pub prepend : Bytes → Option Bytes → Option Bytes
prepend line none = none
prepend line (some out) = some (line ++ out)

-- The loop; its result is what it still adds to `out`.
unfoldable pub signed_loop : ℕ → Bool → Bytes → Option Bytes
signed_loop zero dropping rest = none
signed_loop (suc fuel) dropping rest =
    let (line, next) = first_line rest in
    let later = signed_loop fuel (drops dropping line) next in
    if ends_header line
    then some (line ++ next)
    else if drops dropping line
    then later
    else prepend line later

unfoldable pub signed_bytes : Bytes → Option Bytes
signed_bytes commit = signed_loop (suc (length commit)) false commit
