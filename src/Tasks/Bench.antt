-- ===== src/Tasks/Bench.antt =====
-- xtask/src/bench/mod.rs: the command `cargo xtask bench`. What its steps run is a parameter; `_perf` is
-- dropped at the end of the function, errors included.
use truetop.Common.{
  ℕ, ◌==◌, Bool, true, false, not, ◌||◌, Option, none, List, [], ◌∷◌, ◌++◌, map, if◌then◌else◌,
}
use truetop.Common.Text.{Text, codes, text_eq}
use truetop.Tasks.Tuning.{Sysfs, Script, CpuPerf, engage, drop_some}

pub data Bench : Type 0 where
  micro macro hotpath selfcpu switch : Bench

pub data Arg : Type 0 where
  no_prep help : Arg
  pick : Bench → Arg
  unknown : Text → Arg

unfoldable pub arg_of : Text → Arg
arg_of arg =
    if text_eq arg (codes "--no-prep")
    then no_prep
    else if text_eq arg (codes "-h") || text_eq arg (codes "--help")
    then help
    else if text_eq arg (codes "micro")
    then pick micro
    else if text_eq arg (codes "macro")
    then pick macro
    else if text_eq arg (codes "hotpath")
    then pick hotpath
    else if text_eq arg (codes "selfcpu")
    then pick selfcpu
    else if text_eq arg (codes "switch")
    then pick switch
    else unknown arg

abbrev discriminant : Bench → ℕ
discriminant micro = 0
discriminant macro = 1
discriminant hotpath = 2
discriminant selfcpu = 3
discriminant switch = 4

abbrev pub bench_eq : Bench → Bench → Bool
bench_eq a b = discriminant a == discriminant b

abbrev pub has_pick : Bench → List Bench → Bool
has_pick b [] = false
has_pick b (p ∷ picks) = bench_eq b p || has_pick b picks

unfoldable pub push_unique : List Bench → Bench → List Bench
push_unique picks b = if has_pick b picks then picks else picks ++ b ∷ []

pub data Picked : Type 0 where
  usage : Picked
  unknown_argument : Text → Picked
  picked : Bool → List Bench → Picked

unfoldable pub pick_loop : Bool → List Bench → List Arg → Picked
unfolding push_unique
pick_loop prep picks [] = picked prep picks
pick_loop prep picks (no_prep ∷ args) = pick_loop false picks args
pick_loop prep picks (help ∷ args) = usage
pick_loop prep picks (pick b ∷ args) = pick_loop prep (push_unique picks b) args
pick_loop prep picks (unknown other ∷ args) = unknown_argument other

unfoldable pub pick_args : List Text → Picked
unfolding pick_loop arg_of
pick_args args = pick_loop true [] (map arg_of args)

unfoldable pub or_default : List Bench → List Bench
or_default [] = micro ∷ macro ∷ hotpath ∷ []
or_default (b ∷ picks) = b ∷ picks

abbrev pub needs_release : List Bench → Bool
needs_release [] = false
needs_release (b ∷ picks) = not (bench_eq b micro) || needs_release picks

pub data Step : Type 0 where
  create_results build_release write_env : Step
  runs : Bench → Step

pub data Ended : Type 0 where
  finished printed_usage : Ended
  refused : Text → Ended
  failed : Step → Ended

module _ (sudo_sh : Script → Sysfs → Bool × Sysfs) (perform : Step → Sysfs → Bool × Sysfs) where
  unfoldable pub run_picks : List Bench → Sysfs → Ended × Sysfs
  run_picks [] fs = (finished, fs)
  run_picks (b ∷ picks) fs =
      let (ok, fs') = perform (runs b) fs in
      let rest = run_picks picks fs' in if ok then rest else (failed (runs b), fs')

  -- From the tuning to the end of the scope.
  unfoldable pub tuned_run : Bool → List Bench → Sysfs → Ended × Sysfs
  unfolding run_picks engage
  tuned_run prep picks fs =
      let (perf, tuned) : Option CpuPerf × Sysfs = if prep then engage sudo_sh fs else (none, fs) in
      let (ended, left) = run_picks picks (perform write_env tuned).1 in
      (ended, drop_some sudo_sh perf left)

  unfoldable pub built_run : Bool → List Bench → Sysfs → Ended × Sysfs
  unfolding tuned_run
  built_run prep picks fs =
      let (built, fs') : Bool × Sysfs =
        if needs_release picks then perform build_release fs else (true, fs) in
      let run = tuned_run prep picks fs' in if built then run else (failed build_release, fs')

  unfoldable pub run_bench : Bool → List Bench → Sysfs → Ended × Sysfs
  unfolding built_run
  run_bench prep picks fs =
      let (created, fs') = perform create_results fs in
      let run = built_run prep picks fs' in if created then run else (failed create_results, fs')

  unfoldable pub bench_picked : Picked → Sysfs → Ended × Sysfs
  unfolding or_default run_bench
  bench_picked usage fs = (printed_usage, fs)
  bench_picked (unknown_argument other) fs = (refused other, fs)
  bench_picked (picked prep picks) fs = run_bench prep (or_default picks) fs

  unfoldable pub bench : List Text → Sysfs → Ended × Sysfs
  unfolding pick_args bench_picked
  bench args fs = bench_picked (pick_args args) fs
