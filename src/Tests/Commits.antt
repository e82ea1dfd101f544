-- ===== src/Tests/Commits.antt =====
-- The signed bytes of small commits.
use git_anchor.Base.{◌≡◌, refl, some, [], ◌∷◌, ◌++◌, arith}
use git_anchor.Base.Text.{codes}
use git_anchor.SignedBytes.{signed_bytes}
use git_anchor.SignedBytes.Header.{
  line_of, lines_of, IsPlain, IsContinued, IsSignature, signed_bytes-signature,
}

header_line : IsPlain (codes "tree 00")
header_line = (
  (λ e. cc, (refl, (refl, (refl, (refl, (refl, (refl, (refl, tt)))))))),
  λ rest e. ground arith,
  λ e. ground arith,
)

-- The signature of the commit for the other hash is a header of its own.
other_line : IsPlain (codes "gpgsig-sha256 C")
other_line = (
  (
    λ e. cc,
    (
      refl,
      (
        refl,
        (
          refl,
          (
            refl,
            (
              refl,
              (refl, (refl, (refl, (refl, (refl, (refl, (refl, (refl, (refl, (refl, tt)))))))))),
            ),
          ),
        ),
      ),
    ),
  ),
  λ rest e. ground arith,
  λ e. ground arith,
)

first_line_signed : IsSignature (codes "gpgsig A")
first_line_signed = (
  (λ e. cc, (refl, (refl, (refl, (refl, (refl, (refl, (refl, (refl, tt))))))))),
  (codes "A", refl),
)

indented_line : IsContinued (codes " B")
indented_line = ((λ e. cc, (refl, (refl, tt))), (codes "B", refl))

signed_bytes-signature_example :
    signed_bytes (
      lines_of (codes "tree 00" ∷ [])
      ++ (line_of (codes "gpgsig A")
          ++ (lines_of (codes " B" ∷ [])
              ++ (lines_of (codes "gpgsig-sha256 C" ∷ []) ++ (10 ∷ codes "gpgsig text\n")))))
    ≡ some (
        lines_of (codes "tree 00" ∷ [])
        ++ (lines_of (codes "gpgsig-sha256 C" ∷ []) ++ (10 ∷ codes "gpgsig text\n")))
signed_bytes-signature_example =
    signed_bytes-signature (codes "tree 00" ∷ []) (codes "gpgsig A") (codes " B" ∷ [])
      (codes "gpgsig-sha256 C" ∷ []) (codes "gpgsig text\n") (header_line, tt) first_line_signed
      (indented_line, tt) (λ rest e. ground arith, (other_line, tt))
