-- ===== src/Tasks/Env.antt =====
-- xtask/src/bench/env.rs: the provenance that is written next to the numbers. The files and the answers
-- of the commands are parameters.
use truetop.Common.{
  ℕ, ◌-◌, Bool, true, false, ◌&&◌, ◌||◌, Option, none, some, List, [], ◌∷◌, ◌++◌, ltb, ◌==◌,
  if◌then◌else◌, replicate, length,
}
use truetop.Common.Text.{Text, codes, trim, text_eq, is_empty, lines, print_unsigned}
use truetop.Tasks.Tuning.{Sysfs, current_governor, current_turbo}

abbrev pub or_empty : Option Text → Text
or_empty none = []
or_empty (some s) = s

-- `{label:<10} {value}`, for a value that is not blank.
unfoldable pub env_line : Text → Text → Text
env_line label value =
    if is_empty (trim value)
    then []
    else label ++ replicate (10 - length label) b' ' ++ codes " " ++ trim value ++ codes "\n"

-- Strings are ordered by their bytes, which is the order of their code points.
abbrev pub text_le : Text → Text → Bool
text_le [] t = true
text_le (c ∷ s) [] = false
text_le (c ∷ s) (d ∷ t) = ltb c d || c == d && text_le s t

abbrev pub insert_text : Text → List Text → List Text
insert_text x [] = x ∷ []
insert_text x (y ∷ ys) = let rest = insert_text x ys in if text_le x y then x ∷ y ∷ ys else y ∷ rest

-- `sort_unstable`: equal strings are not told apart.
unfoldable pub sort_texts : List Text → List Text
sort_texts [] = []
sort_texts (x ∷ xs) = insert_text x (sort_texts xs)

unfoldable pub join : Text → List Text → Text
join sep [] = []
join sep (s ∷ []) = s
join sep (s ∷ t ∷ ss) = s ++ sep ++ join sep (t ∷ ss)

-- An entry of a directory: its name where it is UTF-8, and its contents where they can be read.
pub record DirEntry : Type 0 where
  pub name : Option Text
  pub status : Option Text

abbrev pub mitigation : Option Text → Option Text → List Text
mitigation none status = []
mitigation (some name) none = []
mitigation (some name) (some status) = (name ++ codes "=" ++ trim status) ∷ []

-- An entry that cannot be read is left out.
unfoldable pub mitigation_lines : List (Option DirEntry) → List Text
mitigation_lines [] = []
mitigation_lines (none ∷ entries) = mitigation_lines entries
mitigation_lines (some e ∷ entries) = mitigation e.name e.status ++ mitigation_lines entries

unfoldable pub mitigations : Option (List (Option DirEntry)) → Text
unfolding sort_texts mitigation_lines join
mitigations none = []
mitigations (some entries) = join (codes ", ") (sort_texts (mitigation_lines entries))

unfoldable pub clocksource : Option Text → Text
clocksource none = []
clocksource (some s) = trim s

-- `line.split_once(':')`.
unfoldable pub split_once : ℕ → Text → Option (Text × Text)
split_once sep [] = none
split_once sep (c ∷ s) =
    let rest = split_once sep s in
    if c == sep
    then some ([], s)
    else elim rest [ none ↦ none | some (key, value) ↦ some (c ∷ key, value) ]

abbrev pub find_model : List Text → Option Text
find_model [] = none
find_model (l ∷ ls) =
    let rest = find_model ls in
    elim (split_once b':' l) [
      | none ↦ rest
      | some (key, value) ↦ if text_eq (trim key) (codes "model name") then some value else rest
    ]

abbrev pub trim_or_empty : Option Text → Text
trim_or_empty none = []
trim_or_empty (some s) = trim s

unfoldable pub cpu_model : Option Text → Text
unfolding split_once
cpu_model none = []
cpu_model (some info) = trim_or_empty (find_model (lines info))

-- What a command answers: whether it succeeds, and its output; `none` where it cannot be run.
unfoldable pub cmd_stdout : (List ℕ → Text) → Option (Bool × List ℕ) → Text
cmd_stdout from_utf8_lossy none = []
cmd_stdout from_utf8_lossy (some (true, stdout)) = trim (from_utf8_lossy stdout)
cmd_stdout from_utf8_lossy (some (false, stdout)) = []

-- What the machine answers.
pub record Provenance : Type 0 where
  pub date : Option (Bool × List ℕ)
  pub commit : Option (Bool × List ℕ)
  pub kernel : Option (Bool × List ℕ)
  pub cpuinfo : Option Text
  pub parallelism : Option ℕ
  pub fs : Sysfs
  pub clocksource : Option Text
  pub vulnerabilities : Option (List (Option DirEntry))

abbrev pub cores : Option ℕ → Text
cores none = []
cores (some n) = print_unsigned n ++ codes " logical"

abbrev pub turbo : Option (Text × Text) → Text
turbo none = []
turbo (some (path, value)) = value ++ codes " (" ++ path ++ codes ")"

-- The contents of `env.txt`.
unfoldable pub env_text : (List ℕ → Text) → Provenance → Text
unfolding env_line cmd_stdout cpu_model clocksource mitigations
env_text from_utf8_lossy p =
    codes "truetop benchmark environment\n\n"
    ++ env_line (codes "date:") (cmd_stdout from_utf8_lossy p.date)
    ++ env_line (codes "commit:") (cmd_stdout from_utf8_lossy p.commit)
    ++ env_line (codes "kernel:") (cmd_stdout from_utf8_lossy p.kernel)
    ++ env_line (codes "cpu:") (cpu_model p.cpuinfo)
    ++ env_line (codes "cores:") (cores p.parallelism)
    ++ env_line (codes "governor:") (or_empty (current_governor p.fs))
    ++ env_line (codes "turbo:") (turbo (current_turbo p.fs))
    ++ env_line (codes "clock:") (clocksource p.clocksource)
    ++ env_line (codes "mitigations:") (mitigations p.vulnerabilities)
