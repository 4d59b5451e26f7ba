-- ===== src/Tasks/Counting.antt =====
-- The number of tests that a run reports (xtask/src/runner.rs).
use truetop.Common.{
  ℕ, ◌<◌, ◌≡◌, refl, ap, ◌∙◌, true, false, Option, some, List, [], ◌∷◌, ◌++◌, arith, u64_mod,
}
use truetop.Common.Text.{
  Text, codes, is_whitespace, is_digit, split_whitespace, print_unsigned, text_eq,
}
use truetop.Common.Text.Laws.{parse-print_unsigned, StartsWithDigit, print_unsigned_digit}
use truetop.Common.Text.Fields.{
  IsWord, print_unsigned-IsWord, split_whitespace_word, split_whitespace_skip,
}
use truetop.Tasks.Runner.{
  before, trim_end_matches, position_passed, word_before, count_of, tests_passed, Artifact, Child,
  Message, suite_args,
}

digit_before :
    (c : ℕ) (s : Text) → is_digit c ≡ true → text_eq (before b';' c s) (codes "passed") ≡ false
digit_before c [] h = ground arith
digit_before c (d ∷ s) h = ground arith

digits_differ :
    (s : Text) → StartsWithDigit s → text_eq (trim_end_matches b';' s) (codes "passed") ≡ false
unfolding trim_end_matches
digits_differ [] h = absurd h
digits_differ (c ∷ s) h = digit_before c (trim_end_matches b';' s) h

-- libtest's summary: a word, and then the number of tests passed.
pub tests_passed_lem :
    (status : Text) (n : ℕ) (rest : Text)
    → IsWord status
    → text_eq (trim_end_matches b';' status) (codes "passed") ≡ false
    → n < u64_mod
    → tests_passed
        (b' ' ∷ (status ++ b' ' ∷ (print_unsigned n ++ b' ' ∷ (codes "passed;" ++ b' ' ∷ rest))))
      ≡ n
unfolding tests_passed is_whitespace
tests_passed_lem status n rest word other fits =
    let behind = codes "passed;" ++ b' ' ∷ rest in
    let counted = print_unsigned n ++ b' ' ∷ behind in
    let words : split_whitespace (b' ' ∷ (status ++ b' ' ∷ counted))
        ≡ status ∷ print_unsigned n ∷ codes "passed;" ∷ split_whitespace rest =
      split_whitespace_skip b' ' (status ++ b' ' ∷ counted) refl
      ∙ split_whitespace_word status b' ' counted word refl
      ∙ ap (λ ws. status ∷ ws)
          (split_whitespace_word (print_unsigned n) b' ' behind (print_unsigned-IsWord n) refl
            ∙ ap (λ ws. print_unsigned n ∷ ws)
                (split_whitespace_word (codes "passed;") b' ' rest
                  (refl, (refl, (refl, (refl, (refl, (refl, (refl, tt))))))) refl)) in
    rw
      (
        words,
        tests_passed,
        position_passed,
        other,
        digits_differ (print_unsigned n) (print_unsigned_digit n),
      )
      (rw (parse-print_unsigned u64_mod n fits, word_before, count_of) refl)

module _ (cargo : List Text → Option (Child Message))
    (spawn : Text → List Text → Option (Child Text)) (color : Text) where
  -- The suite was spawned and exited with success.
  pub record IsPassed (suite : Artifact) : Type 0 where
    pub child : Child Text
    pub spawned : spawn suite.path (suite_args cargo spawn color) ≡ some child
    pub success : child.success ≡ some true
