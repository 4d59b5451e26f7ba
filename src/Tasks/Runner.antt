-- ===== src/Tasks/Runner.antt =====
-- xtask/src/runner.rs and main.rs: building the program and running it, or its integration tests, as
-- root. What cargo and the programs answer is a parameter.
use truetop.Common.{
  ℕ, zero, suc, ◌+◌, ◌%◌, Bool, true, false, ◌&&◌, ◌||◌, Option, none, some, List, [], ◌∷◌, ◌++◌,
  ◌==◌, if◌then◌else◌, get_elem?, u64_mod,
}
use truetop.Common.Text.{Text, codes, text_eq, split_whitespace, parse_unsigned}

-- A character stays unless it is trimmed and nothing stands behind it.
abbrev pub before : ℕ → ℕ → Text → Text
before sep c [] = if c == sep then [] else c ∷ []
before sep c (d ∷ s) = c ∷ d ∷ s

-- `word.trim_end_matches(sep)`.
unfoldable pub trim_end_matches : ℕ → Text → Text
trim_end_matches sep [] = []
trim_end_matches sep (c ∷ s) = before sep c (trim_end_matches sep s)

unfoldable pub position_passed : List Text → Option ℕ
unfolding trim_end_matches
position_passed [] = none
position_passed (word ∷ words) =
    let rest = position_passed words in
    if text_eq (trim_end_matches b';' word) (codes "passed")
    then some 0
    else elim rest [ none ↦ none | some at ↦ some (suc at) ]

-- `words.get(at.checked_sub(1)?)`.
unfoldable pub word_before : Option ℕ → List Text → Option Text
word_before none words = none
word_before (some zero) words = none
word_before (some (suc at)) words = get_elem? words at

unfoldable pub count_of : Option Text → ℕ
count_of none = 0
count_of (some count) = elim (parse_unsigned u64_mod count) [ none ↦ 0 | some n ↦ n ]

unfoldable pub tests_passed : Text → ℕ
unfolding position_passed word_before count_of
tests_passed summary =
    let words = split_whitespace summary in count_of (word_before (position_passed words) words)

unfoldable pub strip_prefix : Text → Text → Option Text
strip_prefix [] s = some s
strip_prefix (p ∷ ps) [] = none
strip_prefix (p ∷ ps) (c ∷ s) = if p == c then strip_prefix ps s else none

pub record Artifact : Type 0 where
  pub target : Text
  pub path : Text

pub data RunError : Type 0 where
  spawning_cargo reading_cargo waiting_for_cargo cargo_failed : RunError
  no_test_binaries not_produced : RunError
  spawning reading waiting failed : Text → RunError

pub data Ran (A : Type 0) : Type 0 where
  ok : A → Ran A
  err : RunError → Ran A

infixl 5 ◌>>=◌
abbrev pub ◌>>=◌ : {A B : Type 0} → Ran A → (A → Ran B) → Ran B
ok a >>= f = f a
err e >>= f = err e

-- A program that was spawned: the lines of its output, `none` for one that cannot be read, and whether
-- it succeeds, `none` where waiting for it fails.
pub record Child (Line : Type 0) : Type 0 where
  pub lines : List (Option Line)
  pub success : Option Bool

abbrev pub succeeded : Option Bool → RunError → RunError → Ran (Unit {0})
succeeded none waits fails = err waits
succeeded (some true) waits fails = ok tt
succeeded (some false) waits fails = err fails

unfoldable pub passed_in : Text → ℕ
unfolding strip_prefix tests_passed
passed_in line = elim (strip_prefix (codes "test result:") line) [
  | none ↦ 0
  | some summary ↦ tests_passed summary
]

unfoldable pub count_lines : Text → ℕ → List (Option Text) → Ran ℕ
unfolding passed_in
count_lines target passed [] = ok passed
count_lines target passed (none ∷ lines) = err (reading target)
count_lines target passed (some line ∷ lines) =
    count_lines target ((passed + passed_in line) % u64_mod) lines

unfoldable pub run_suite : Artifact → Option (Child Text) → Ran ℕ
unfolding count_lines
run_suite suite none = err (spawning suite.target)
run_suite suite (some child) = do
  passed ← count_lines suite.target 0 child.lines
  ended ← succeeded child.success (waiting suite.target) (failed suite.target)
  ok passed

-- A message of cargo: an artifact with its target's kinds and name, and its executable if any.
pub data Message : Type 0 where
  compiler_artifact : List Text → Text → Option Text → Message
  other_message : Message

abbrev any_eq : Text → List Text → Bool
any_eq kind [] = false
any_eq kind (k ∷ kinds) = text_eq k kind || any_eq kind kinds

abbrev name_ok : Option Text → Text → Bool
name_ok none name = true
name_ok (some n) name = text_eq name n

abbrev wanted : Text → Option Text → Message → List Artifact
wanted kind name (compiler_artifact kinds target (some exe)) =
    if any_eq kind kinds && name_ok name target
    then record { target = target; path = exe } ∷ []
    else []
wanted kind name (compiler_artifact kinds target none) = []
wanted kind name other_message = []

unfoldable pub collect_artifacts : Text → Option Text → List (Option Message) → Ran (List Artifact)
collect_artifacts kind name [] = ok []
collect_artifacts kind name (none ∷ messages) = err reading_cargo
collect_artifacts kind name (some message ∷ messages) = do
  rest ← collect_artifacts kind name messages
  ok (wanted kind name message ++ rest)

-- `cargo` answers a command line, `spawn` runs a program as root.
module _ (cargo : List Text → Option (Child Message))
    (spawn : Text → List Text → Option (Child Text)) where
  unfoldable pub executables : List Text → Text → Option Text → Ran (List Artifact)
  unfolding collect_artifacts
  executables args kind name =
      elim (cargo (args ++ codes "--message-format=json-render-diagnostics" ∷ [])) [
        | none ↦ err spawning_cargo
        | some child ↦ do
          artifacts ← collect_artifacts kind name child.lines
          ended ← succeeded child.success waiting_for_cargo cargo_failed
          ok artifacts
      ]

  abbrev pub suite_args : Text → List Text
  suite_args color = codes "--ignored" ∷ codes "--test-threads=1" ∷ codes "--color" ∷ color ∷ []

  unfoldable pub run_suites : Text → ℕ → List Artifact → Ran ℕ
  unfolding run_suite
  run_suites color passed [] = ok passed
  run_suites color passed (suite ∷ suites) = do
    more ← run_suite suite (spawn suite.path (suite_args color))
    run_suites color ((passed + more) % u64_mod) suites

  abbrev pub test_args : List Text → List Text
  test_args [] = codes "test" ∷ codes "-p" ∷ codes "truetop" ∷ codes "--no-run" ∷ []
  test_args (target ∷ more) =
      codes "test" ∷ codes "-p" ∷ codes "truetop" ∷ codes "--test" ∷ target ∷ codes "--no-run" ∷ []

  abbrev pub not_empty : List Artifact → Ran (List Artifact)
  not_empty [] = err no_test_binaries
  not_empty (suite ∷ suites) = ok (suite ∷ suites)

  -- The number of tests passed that the last line reports.
  unfoldable pub test : Text → List Text → Ran ℕ
  unfolding executables run_suites
  test color filter = do
    built ← executables (test_args filter) (codes "test") none
    suites ← not_empty built
    run_suites color 0 suites

  abbrev first_path : List Artifact → Ran Text
  first_path [] = err not_produced
  first_path (artifact ∷ more) = ok artifact.path

  unfoldable pub build_bin : Ran Text
  unfolding executables
  build_bin = do
    built ←
        executables
          (codes "build" ∷ codes "-p" ∷ codes "truetop" ∷ codes "--bin" ∷ codes "truetop" ∷ [])
          (codes "bin") (some (codes "truetop"))
    first_path built

  unfoldable pub run_as_root : Text → List Text → Ran (Unit {0})
  run_as_root bin args = elim (spawn bin args) [
    | none ↦ err (spawning bin)
    | some child ↦ succeeded child.success (spawning bin) (failed bin)
  ]

  unfoldable pub run : List Text → Ran (Unit {0})
  unfolding build_bin run_as_root
  run extra = do bin ← build_bin; run_as_root bin extra
