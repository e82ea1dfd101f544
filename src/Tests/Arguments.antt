-- ===== src/Tests/Arguments.antt =====
-- Arguments of the two command lines.
use git_anchor.Base.{
  ℕ, ◌≡◌, ◌≢◌, ◌↔◌, refl, sym, Bool, true, false, Option, none, some, List, [], ◌∷◌, ◌++◌, All,
  arith,
}
use git_anchor.Base.Text.{codes}
use git_anchor.Base.Strings.{from_utf8, trim, parse_u64}
use git_anchor.Base.Result.{ok}
use git_anchor.AttestArgs.{TargetArg, from_str}
use git_anchor.AttestArgs.Targets.{IsWritten, from_str_iff}
use git_anchor.AnchorArgs.{
  LinesArg, parse_lines_arg, path_components, Surroundings, prefix_parts, cwd_relative_path,
  CreateArgs,
}
use git_anchor.AnchorArgs.LineRanges.{counted, last_line, write_lines, parse_lines_arg-write_lines}
use git_anchor.Tests.Sample.{sample, file_path}
use git_anchor.Tests.Anchors.{line_two}

bom_is_text : from_utf8 (0xef ∷ 0xbb ∷ 0xbf ∷ []) ≡ true
unfolding from_utf8 git_anchor.Base.Strings.expects
bom_is_text = refl

surrogate_is_not : from_utf8 (0xed ∷ 0xa0 ∷ 0x80 ∷ []) ≡ false
unfolding from_utf8 git_anchor.Base.Strings.expects
surrogate_is_not = refl

trims_wide : trim (0xe2 ∷ 0x80 ∷ 0x83 ∷ codes "a b" ++ (0xc2 ∷ 0xa0 ∷ [])) ≡ codes "a b"
unfolding trim git_anchor.Base.Strings.trim_end git_anchor.Base.Strings.trim_start
    git_anchor.Base.Strings.white_start git_anchor.Base.Strings.white_end
trims_wide = refl

too_large : parse_u64 (codes "18446744073709551616") ≡ none
unfolding parse_u64 git_anchor.Base.Strings.strip_prefix
too_large = refl

abbrev review : TargetArg
review = record { kind = codes "a:b"; id = codes "0f" }

from_str_iff_example : (from_str (codes "a:b:0f") ≡ ok review) ↔ IsWritten (codes "a:b:0f") review
from_str_iff_example = from_str_iff (codes "a:b:0f") review

written :
    parse_lines_arg (codes " 3 , +4:a:b")
    ≡ ok (record { range = record { start = 3; end = 6 }; path = some (codes "a:b") })
unfolding parse_lines_arg git_anchor.AnchorArgs.parse_range parse_u64
    git_anchor.Base.Strings.strip_prefix trim git_anchor.Base.Strings.trim_end
    git_anchor.Base.Strings.trim_start git_anchor.Base.Strings.split_once
    git_anchor.Base.Strings.white_start git_anchor.Base.Strings.white_end
    git_anchor.AnchorArgs.parse_end git_anchor.AnchorArgs.parse_end_text
written = refl

parse_lines_arg-write_lines_example :
    parse_lines_arg (write_lines 3 (counted 4) (some (codes "a:b")))
    ≡ ok (record {
      range = record { start = 3; end = last_line 3 (counted 4) };
      path = some (codes "a:b");
    })
parse_lines_arg-write_lines_example =
    parse_lines_arg-write_lines 3 (counted 4) (some (codes "a:b")) (omega arith) (omega arith)

abbrev three_on : LinesArg
three_on = record { range = record { start = 3; end = 6 }; path = some (codes "a:b") }

abbrev in_src : Surroundings
in_src = record { prefix = ok (some (codes "src/")); exists_file = λ path. false }

abbrev at_root : Surroundings
at_root = record { prefix = ok none; exists_file = λ path. false }

joined_path : cwd_relative_path (sample true) in_src (codes "./a//b/") ≡ ok (codes "src/a/b")
unfolding cwd_relative_path git_anchor.Base.Strings.join_with path_components
    git_anchor.AnchorArgs.components git_anchor.Base.Strings.Lossy.from_utf8_lossy
    git_anchor.Base.Strings.expects git_anchor.Base.Text.same git_anchor.AnchorArgs.kept_parts
    git_anchor.Base.Strings.split_at
joined_path = refl

abbrev create_lines : CreateArgs
create_lines = record {
  at_revision = none;
  path = none;
  lines = some (record { range = line_two; path = some file_path });
  worktree = false;
}
