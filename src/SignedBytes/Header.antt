-- ===== src/SignedBytes/Header.antt =====
-- The header lines of a commit in `signed_bytes` of crates/git-attest/src/verify.rs.
use git_anchor.Base.{
  ℕ, zero, suc, ◌+◌, ◌≤◌, ◌<◌, ◌≡◌, ◌≢◌, refl, sym, ap, ◌∙◌, Bool, true, false, some, List, [], ◌∷◌,
  ◌++◌, append_assoc, length, All, arith, ◌==◌, ==_refl, Bool-cases, Option-cases, inl, inr,
}
use git_anchor.Base.Text.{Bytes, codes, same}
use git_anchor.SignedBytes.{
  first_line, starts_with, ends_header, drops, prepend, signed_loop, signed_bytes,
}

first_line-le : (rest : Bytes) → length (first_line rest).1 ≤ length rest
unfolding first_line
first_line-le [] = omega arith
first_line-le (b ∷ rest) = ground (arith, first_line-le rest)

first_line-lt :
    (rest : Bytes)
    → ends_header (first_line rest).0 ≡ false
    → length (first_line rest).1 < length rest
unfolding first_line ends_header
first_line-lt [] h = absurd (cc)
first_line-lt (b ∷ rest) h = ground (arith, first_line-le rest)

signed_loop_total :
    (fuel : ℕ) (dropping : Bool) (rest : Bytes)
    → length rest < fuel
    → (out : Bytes) × (signed_loop fuel dropping rest ≡ some out)
unfolding signed_loop
signed_loop_total zero dropping rest h = absurd (omega arith)
signed_loop_total (suc fuel) dropping rest h = elim (Bool-cases (ends_header (first_line rest).0)) [
  | inl end ↦ ((first_line rest).0 ++ (first_line rest).1, rw end refl)
  | inr more ↦
      let (out, e) =
        signed_loop_total fuel (drops dropping (first_line rest).0) (first_line rest).1
          (omega (arith, first_line-lt rest more)) in
      elim (Bool-cases (drops dropping (first_line rest).0)) [
        | inl dropped ↦ (out, rw (more, dropped) (rw dropped at e))
        | inr kept ↦ (
          (first_line rest).0 ++ out,
          rw (more, kept) (ap (prepend (first_line rest).0) (rw kept at e)),
        )
      ]
]

-- Every commit has signed bytes: the fuel is enough.
pub signed_bytes_total : (commit : Bytes) → (out : Bytes) × (signed_bytes commit ≡ some out)
unfolding signed_bytes
signed_bytes_total commit = signed_loop_total (suc (length commit)) false commit (omega arith)

-- More fuel gives the same bytes.
signed_loop_more :
    (fuel more : ℕ) (dropping : Bool) (rest out : Bytes)
    → fuel ≤ more
    → signed_loop fuel dropping rest ≡ some out
    → signed_loop more dropping rest ≡ some out
unfolding signed_loop
signed_loop_more zero more dropping rest out h e = absurd (cc)
signed_loop_more (suc fuel) zero dropping rest out h e = absurd (omega arith)
signed_loop_more (suc fuel) (suc more) dropping rest out h e =
    elim (Bool-cases (ends_header (first_line rest).0)) [
      | inl end ↦ rw end (rw end at e)
      | inr go ↦
          elim (Option-cases
            (signed_loop fuel (drops dropping (first_line rest).0) (first_line rest).1)) [
              | inl stuck ↦ absurd (ground arith)
              | inr (later, l) ↦
                  let l' =
                    signed_loop_more fuel more (drops dropping (first_line rest).0)
                      (first_line rest).1 later (omega arith) l in
                  rw (go, l') (rw (go, l) at e)
            ]
    ]

-- A line of a commit's header: some bytes, none of them a line feed, and its line feed.
abbrev pub Content : Bytes → Type 0
Content c = (c ≢ []) × All (λ b. (b == 10) ≡ false) c

abbrev pub line_of : Bytes → Bytes
line_of c = c ++ (10 ∷ [])

abbrev pub lines_of : List Bytes → Bytes
lines_of [] = []
lines_of (c ∷ cs) = line_of c ++ lines_of cs

first_line-line_of :
    (c rest : Bytes)
    → All (λ b. (b == 10) ≡ false) c
    → first_line (line_of c ++ rest) ≡ (line_of c, rest)
unfolding first_line
first_line-line_of [] rest a = refl
first_line-line_of (b ∷ c) rest (n, a) = rw (n, first_line-line_of c rest a) refl

ends_header-line_of : (c : Bytes) → Content c → ends_header (line_of c) ≡ false
unfolding ends_header same
ends_header-line_of [] (n, a) = absurd (n refl)
ends_header-line_of (b ∷ c) (n, (h, a)) = ground arith

-- A line that starts no signature: its key is not `gpgsig`, whatever else it starts with.
abbrev pub IsPlain : Bytes → Type 0
IsPlain c = Content c × ((rest : Bytes) → c ≢ codes "gpgsig " ++ rest) × (c ≢ codes "gpgsig")

-- A line that continues the header before it.
abbrev pub IsContinued : Bytes → Type 0
IsContinued c = Content c × ((rest : Bytes) × (c ≡ codes " " ++ rest))

-- A line that starts a header.
abbrev pub IsStart : Bytes → Type 0
IsStart c = (rest : Bytes) → c ≢ codes " " ++ rest

starts_with-append : (p rest : Bytes) → starts_with (p ++ rest) p ≡ true
unfolding starts_with
starts_with-append [] rest = refl
starts_with-append (b ∷ p) rest = rw (==_refl b, starts_with-append p rest) refl

-- A prefix without a line feed that a line starts with is one of its content.
starts_with-line_of :
    (c p : Bytes)
    → All (λ b. (b == 10) ≡ false) p
    → starts_with (line_of c) p ≡ true
    → (rest : Bytes) × (c ≡ p ++ rest)
unfolding starts_with
starts_with-line_of c [] a e = (c, refl)
starts_with-line_of [] (x ∷ p) (n, a) e = absurd (ground arith)
starts_with-line_of (b ∷ c) (x ∷ p) (n, a) e =
    let (b_is, e') : (b ≡ x) × (starts_with (line_of c) p ≡ true) = ground arith in
    let (rest, c_is) = starts_with-line_of c p a e' in (rest, rw (b_is, c_is) refl)

same-line_of : (c d : Bytes) → same (line_of c) (line_of d) ≡ true → c ≡ d
unfolding same
same-line_of [] [] e = refl
same-line_of [] (y ∷ []) e = absurd (ground arith)
same-line_of [] (y ∷ z ∷ d) e = absurd (ground arith)
same-line_of (x ∷ []) [] e = absurd (ground arith)
same-line_of (x ∷ z ∷ c) [] e = absurd (ground arith)
same-line_of (x ∷ c) (y ∷ d) e =
    let (x_is, e') : (x ≡ y) × (same (line_of c) (line_of d) ≡ true) = ground arith in
    rw (x_is, same-line_of c d e') refl

no_feed : All (λ b. (b == 10) ≡ false) (codes "gpgsig ")
no_feed = ground arith

no_feed_blank : All (λ b. (b == 10) ≡ false) (codes " ")
no_feed_blank = ground arith

drops_plain :
    (line : Bytes)
    → starts_with line (codes "gpgsig ") ≡ false
    → same line (codes "gpgsig\n") ≡ false
    → drops false line ≡ false
unfolding drops
drops_plain line s e = ground arith

drops-IsPlain : (c : Bytes) → IsPlain c → drops false (line_of c) ≡ false
drops-IsPlain c (content, other, ne) =
    elim (Bool-cases (starts_with (line_of c) (codes "gpgsig "))) [
      | inl signs ↦
          let (rest, c_is) = starts_with-line_of c (codes "gpgsig ") no_feed signs in
          absurd (other rest c_is)
      | inr signs_not ↦ elim (Bool-cases (same (line_of c) (codes "gpgsig\n"))) [
        | inl bare ↦ absurd (ne (same-line_of c (codes "gpgsig") bare))
        | inr bare_not ↦ drops_plain (line_of c) signs_not bare_not
      ]
    ]

starts_blank : (c rest : Bytes) → c ≡ codes " " ++ rest → starts_with (line_of c) (codes " ") ≡ true
starts_blank c rest e = rw e (starts_with-append (codes " ") (line_of rest))

starts_not_blank : (c : Bytes) → IsStart c → starts_with (line_of c) (codes " ") ≡ false
starts_not_blank c start = elim (Bool-cases (starts_with (line_of c) (codes " "))) [
  | inr blank_not ↦ blank_not
  | inl blank ↦
      let (rest, c_is) = starts_with-line_of c (codes " ") no_feed_blank blank in
      absurd (start rest c_is)
]

-- One more step for each line.
abbrev steps : List Bytes → ℕ → ℕ
steps [] fuel = fuel
steps (c ∷ cs) fuel = suc (steps cs fuel)

signed_loop-keep :
    (fuel : ℕ) (c rest : Bytes)
    → IsPlain c
    → signed_loop (suc fuel) false (line_of c ++ rest)
      ≡ prepend (line_of c) (signed_loop fuel false rest)
unfolding signed_loop
signed_loop-keep fuel c rest p =
    let (n, a) = p.0 in
    rw (first_line-line_of c rest a, ends_header-line_of c (n, a), drops-IsPlain c p) refl

keep_lines :
    (fuel : ℕ) (cs : List Bytes) (rest out : Bytes)
    → All IsPlain cs
    → signed_loop fuel false rest ≡ some out
    → signed_loop (steps cs fuel) false (lines_of cs ++ rest) ≡ some (lines_of cs ++ out)
keep_lines fuel [] rest out a e = e
keep_lines fuel (c ∷ cs) rest out (p, a) e =
    ap (λ t. signed_loop (suc (steps cs fuel)) false t)
      (append_assoc (line_of c) (lines_of cs) rest)
    ∙ signed_loop-keep (steps cs fuel) c (lines_of cs ++ rest) p
    ∙ ap (prepend (line_of c)) (keep_lines fuel cs rest out a e)
    ∙ ap some (sym (append_assoc (line_of c) (lines_of cs) out))

signed_loop-drop :
    (fuel : ℕ) (c rest : Bytes)
    → IsContinued c
    → signed_loop (suc fuel) true (line_of c ++ rest) ≡ signed_loop fuel true rest
unfolding signed_loop drops
signed_loop-drop fuel c rest ((n, a), (more, c_is)) =
    rw (first_line-line_of c rest a, ends_header-line_of c (n, a), starts_blank c more c_is) refl

drop_lines :
    (fuel : ℕ) (cs : List Bytes) (rest : Bytes)
    → All IsContinued cs
    → signed_loop (steps cs fuel) true (lines_of cs ++ rest) ≡ signed_loop fuel true rest
drop_lines fuel [] rest a = refl
drop_lines fuel (c ∷ cs) rest (p, a) =
    ap (λ t. signed_loop (suc (steps cs fuel)) true t) (append_assoc (line_of c) (lines_of cs) rest)
    ∙ signed_loop-drop (steps cs fuel) c (lines_of cs ++ rest) p
    ∙ drop_lines fuel cs rest a

-- The lines after a signature: the first starts a header of its own.
abbrev pub AreAfter : List Bytes → Type 0
AreAfter [] = Unit
AreAfter (c ∷ cs) = IsStart c × All IsPlain (c ∷ cs)

same_step :
    (fuel : ℕ) (c rest : Bytes)
    → IsPlain c
    → IsStart c
    → signed_loop (suc fuel) true (line_of c ++ rest)
      ≡ signed_loop (suc fuel) false (line_of c ++ rest)
unfolding signed_loop drops
same_step fuel c rest ((n, a), _, _) s =
    rw (first_line-line_of c rest a, ends_header-line_of c (n, a), starts_not_blank c s) refl

after_signature :
    (fuel : ℕ) (cs : List Bytes) (body : Bytes)
    → AreAfter cs
    → signed_loop (suc fuel) true (lines_of cs ++ (10 ∷ body))
      ≡ signed_loop (suc fuel) false (lines_of cs ++ (10 ∷ body))
after_signature fuel [] body a = unfold signed_loop first_line ends_header same in refl
after_signature fuel (c ∷ cs) body (s, (p, a)) =
    ap (λ t. signed_loop (suc fuel) true t) (append_assoc (line_of c) (lines_of cs) (10 ∷ body))
    ∙ same_step fuel c (lines_of cs ++ (10 ∷ body)) p s
    ∙ ap (λ t. signed_loop (suc fuel) false t)
        (sym (append_assoc (line_of c) (lines_of cs) (10 ∷ body)))

-- The first line of a signature.
abbrev pub IsSignature : Bytes → Type 0
IsSignature c = Content c × ((rest : Bytes) × (c ≡ codes "gpgsig " ++ rest))

starts_signature :
    (rest : Bytes) → starts_with (line_of (codes "gpgsig " ++ rest)) (codes "gpgsig ") ≡ true
starts_signature rest = starts_with-append (codes "gpgsig ") (line_of rest)

drops_signature :
    (b : ℕ) (line : Bytes)
    → (b == b' ') ≡ false
    → starts_with (b ∷ line) (codes "gpgsig ") ≡ true
    → drops false (b ∷ line) ≡ true
unfolding drops starts_with
drops_signature b line n e = ground arith

drops-IsSignature : (c : Bytes) → IsSignature c → drops false (line_of c) ≡ true
drops-IsSignature c (content, (rest, c_is)) =
    rw c_is (drops_signature b'g' (line_of (codes "pgsig " ++ rest)) refl (starts_signature rest))

drop_signature :
    (fuel : ℕ) (c rest : Bytes)
    → IsSignature c
    → signed_loop (suc fuel) false (line_of c ++ rest) ≡ signed_loop fuel true rest
unfolding signed_loop
drop_signature fuel c rest ((n, a), g) =
    rw (first_line-line_of c rest a, ends_header-line_of c (n, a), drops-IsSignature c ((n, a), g))
      refl

body_bytes : (fuel : ℕ) (body : Bytes) → signed_loop (suc fuel) false (10 ∷ body) ≡ some (10 ∷ body)
unfolding signed_loop first_line ends_header same
body_bytes fuel body = refl

AreAfter-IsPlain : (cs : List Bytes) → AreAfter cs → All IsPlain cs
AreAfter-IsPlain [] a = tt
AreAfter-IsPlain (c ∷ cs) (s, a) = a

-- Fuel that is enough for one run is no matter for the result.
signed_bytes_of :
    (fuel : ℕ) (commit out : Bytes)
    → signed_loop fuel false commit ≡ some out
    → signed_bytes commit ≡ some out
unfolding signed_bytes
signed_bytes_of fuel commit out e =
    let (made, m) = signed_loop_total (suc (length commit)) false commit (omega arith) in
    let more =
      signed_loop_more fuel (fuel + suc (length commit)) false commit out (omega arith) e in
    let more' =
      signed_loop_more (suc (length commit)) (fuel + suc (length commit)) false commit made
        (omega arith) m in
    let one : made ≡ out = ground arith in m ∙ ap some one

-- Taking a signature out: where the header lines of a commit, none of them a signature, have a
-- signature with its continuation lines inserted before the blank line or before a line that starts a
-- header, the signed bytes are the commit without it, its message untouched.
pub signed_bytes-signature :
    (before : List Bytes) (signature : Bytes) (continued after : List Bytes) (body : Bytes)
    → All IsPlain before
    → IsSignature signature
    → All IsContinued continued
    → AreAfter after
    → signed_bytes (
        lines_of before
        ++ (line_of signature ++ (lines_of continued ++ (lines_of after ++ (10 ∷ body)))))
      ≡ some (lines_of before ++ (lines_of after ++ (10 ∷ body)))
signed_bytes-signature before signature continued after body p g c a =
    let rest =
      keep_lines 1 after (10 ∷ body) (10 ∷ body) (AreAfter-IsPlain after a) (body_bytes 0 body) in
    let last =
      signed_loop_more (steps after 1) (suc (steps after 1)) false (lines_of after ++ (10 ∷ body))
        (lines_of after ++ (10 ∷ body)) (omega arith) rest in
    let inner =
      drop_signature (steps continued (suc (steps after 1))) signature
        (lines_of continued ++ (lines_of after ++ (10 ∷ body))) g
      ∙ drop_lines (suc (steps after 1)) continued (lines_of after ++ (10 ∷ body)) c
      ∙ after_signature (steps after 1) after body a
      ∙ last in
    signed_bytes_of (steps before (suc (steps continued (suc (steps after 1)))))
      (lines_of before
        ++ (line_of signature ++ (lines_of continued ++ (lines_of after ++ (10 ∷ body)))))
      (lines_of before ++ (lines_of after ++ (10 ∷ body)))
      (keep_lines (suc (steps continued (suc (steps after 1)))) before
        (line_of signature ++ (lines_of continued ++ (lines_of after ++ (10 ∷ body))))
        (lines_of after ++ (10 ∷ body)) p inner)

-- A commit whose header lines hold no signature is its own signed form, whatever its message says.
pub signed_bytes_unsigned :
    (headers : List Bytes) (body : Bytes)
    → All IsPlain headers
    → signed_bytes (lines_of headers ++ (10 ∷ body)) ≡ some (lines_of headers ++ (10 ∷ body))
signed_bytes_unsigned headers body p =
    signed_bytes_of (steps headers 1) (lines_of headers ++ (10 ∷ body))
      (lines_of headers ++ (10 ∷ body))
      (keep_lines 1 headers (10 ∷ body) (10 ∷ body) p (body_bytes 0 body))
