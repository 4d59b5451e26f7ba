-- ===== src/Tasks/Examples.antt =====
-- The developer's tasks at concrete inputs.
use truetop.Common.{
  ℕ, zero, suc, ◌≡◌, refl, ◌≢◌, inl, Bool, true, false, ◌||◌, Option, some, List, [], ◌∷◌, ◌++◌,
  if◌then◌else◌, All, contains, replicate, arith, map,
}
use truetop.Common.Text.{Text, codes, text_eq, print_unsigned, is_whitespace}
use truetop.Common.Text.Fields.{IsWord}
use truetop.Tasks.Tuning.{Sysfs, Script, echo_to, echo_tee, governor0, governor_glob, read_trim}
use truetop.Tasks.Shell.{put, put_all, IsShell}
use truetop.Tasks.Bench.{
  Bench, micro, switch, Step, create_results, build_release, write_env, runs, bench, arg_of,
  pick_args, has_pick,
}
use truetop.Tasks.Restoring.{IsMachine, bench-restores}
use truetop.Tasks.Reverting.{IsUniform}
use truetop.Tasks.Picking.{AreOnce, is_named, pick_args_lem}
use truetop.Tasks.Runner.{Child, Message, compiler_artifact}
use truetop.Tasks.Fixtures.{Fixture}
use truetop.Tasks.Scaling.{read_self_cpu_ns}
use truetop.Tasks.Stat.{spaced, read_self_cpu_ns_lem}

-- Two CPUs.
abbrev matches : Text → Text → Bool
matches glob path =
    text_eq path governor0
    || text_eq path (codes "/sys/devices/system/cpu/cpu1/cpufreq/scaling_governor")

abbrev root_shell : Script → Sysfs → Bool × Sysfs
root_shell (echo_to val path) fs = (true, put path val fs)
root_shell (echo_tee val glob) fs = (true, put_all (matches glob) val fs)

root_shell-IsShell : IsShell matches true root_shell
root_shell-IsShell = record {
  one = λ val path fs may. refl;
  many = λ val glob fs may. refl;
  refuses = λ script fs h. absurd (ground arith);
}

-- The benchmark of the switch fails.
abbrev steps : Step → Sysfs → Bool × Sysfs
steps create_results fs = (true, fs)
steps build_release fs = (true, fs)
steps write_env fs = (true, fs)
steps (runs micro) fs = (true, fs)
steps (runs b) fs = (false, fs)

steps_leave : (step : Step) (fs : Sysfs) (path : Text) → (steps step fs).1 path ≡ fs path
steps_leave create_results fs path = refl
steps_leave build_release fs path = refl
steps_leave write_env fs path = refl
steps_leave (runs micro) fs path = refl
steps_leave (runs Bench.macro) fs path = refl
steps_leave (runs Bench.hotpath) fs path = refl
steps_leave (runs Bench.selfcpu) fs path = refl
steps_leave (runs switch) fs path = refl

machine : IsMachine matches true root_shell steps root_shell-IsShell
machine = record {
  first = refl;
  apart = (refl, (refl, tt));
  leaves = λ step fs path setting. steps_leave step fs path;
}

abbrev settings : Sysfs
settings path =
    if matches governor_glob path then some (codes "powersave\n") else some (codes "0\n")

settings-IsUniform : IsUniform matches true root_shell root_shell-IsShell settings
settings-IsUniform path s s0 match at at0 = ground (arith, match, at, at0)

bench-restores_example :
    read_trim governor0 (bench root_shell steps (codes "micro" ∷ codes "switch" ∷ []) settings).1
    ≡ read_trim governor0 settings
bench-restores_example =
    bench-restores matches true root_shell steps root_shell-IsShell governor0
      (codes "micro" ∷ codes "switch" ∷ []) settings machine (inl refl) settings-IsUniform

pick_args_lem_example :
    AreOnce (micro ∷ switch ∷ [])
    × ((b : Bench)
        → has_pick b (micro ∷ switch ∷ [])
          ≡ is_named b (
              map arg_of (codes "micro" ∷ codes "--no-prep" ∷ codes "switch" ∷ codes "micro" ∷ [])))
pick_args_lem_example =
    pick_args_lem (codes "micro" ∷ codes "--no-prep" ∷ codes "switch" ∷ codes "micro" ∷ []) false
      (micro ∷ switch ∷ []) (unfold pick_args in refl)

abbrev suite_file : Text
suite_file = codes "/target/attach"

-- One suite is built, of two tests.
abbrev built : List Text → Option (Child Message)
built args = some (record {
  lines = some (compiler_artifact (codes "test" ∷ []) (codes "attach") (some suite_file)) ∷ [];
  success = some true;
})

abbrev ran : Text → List Text → Option (Child Text)
ran program args = some (record {
  lines = some (codes "test result: ok. 2 passed; 0 failed") ∷ [];
  success = some true;
})

abbrev fixtures : List Fixture
fixtures =
    record { name = codes "a"; path = codes "old"; sha256 = codes "0aff" }
    ∷ record { name = codes "b"; path = codes "new"; sha256 = codes "0aff" }
    ∷ []

abbrev fetched : Text → Option (List ℕ)
fetched path = some (if text_eq path (codes "old") then 10 ∷ 255 ∷ [] else 7 ∷ [])

no_separator : (sep : ℕ) (s : Text) → contains sep s ≡ false → All (λ c. c ≢ sep) s
no_separator sep [] h = tt
no_separator sep (c ∷ s) h = (ground (arith, h), no_separator sep s (ground (arith, h)))

zeros : (n : ℕ) → All IsWord (replicate n (codes "0"))
unfolding is_whitespace
zeros zero = tt
zeros (suc n) = ((refl, tt), zeros n)

abbrev fields : Text
fields =
    spaced (replicate 11 (codes "0") ++ print_unsigned 30 ∷ print_unsigned 4 ∷ [])
      (b' ' ∷ codes "0 0")

no_parenthesis : All (λ c. c ≢ b')') fields
unfolding print_unsigned
no_parenthesis = no_separator b')' fields refl

-- A program whose name holds a parenthesis and a space.
read_self_cpu_ns_lem_example : read_self_cpu_ns (some (codes "42 (a) b" ++ b')' ∷ fields)) ≡ 34
read_self_cpu_ns_lem_example =
    read_self_cpu_ns_lem (codes "42 (a) b") (replicate 11 (codes "0")) 30 4 (codes "0 0") refl
      (zeros 11) no_parenthesis (omega arith)
