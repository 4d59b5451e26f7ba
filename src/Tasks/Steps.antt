-- ===== src/Tasks/Steps.antt =====
-- xtask/src/bench: what each benchmark runs (micro.rs, macro_bench.rs, hotpath.rs, selfcpu.rs, switch.rs, and
-- `exec`, `have` and `root_script` of mod.rs). What a command answers is a parameter.
use truetop.Common.{ℕ, Bool, false, Option, none, some, List, [], ◌∷◌, ◌++◌, if◌then◌else◌}
use truetop.Common.Text.{Text, codes}
use truetop.Tasks.Bench.{Bench, micro, macro, hotpath, selfcpu, switch}
use truetop.Tasks.Entry.{as_root}

-- A program with its arguments and the variables that are set for it.
pub record Command : Type 0 where
  pub program : Text
  pub args : List Text
  pub env : List (Text × Text)

pub data Exec : Type 0 where
  done : Exec
  spawning command_failed : Command → Exec

-- `succeeds` is a command's status, `none` where it cannot be spawned; `root` is the workspace's, `cargo` the
-- program of that name, `euid` the user's.
module _ (succeeds : Command → Option Bool) (root cargo : Text) (euid : ℕ) where
  unfoldable pub exec : Command → Exec
  exec cmd = elim (succeeds cmd) [
    | none ↦ spawning cmd
    | some ok ↦ if ok then done else command_failed cmd
  ]

  -- `sh -c "command -v {bin}"`.
  unfoldable pub have : Text → Bool
  have bin =
      elim (succeeds (record {
        program = codes "sh";
        args = codes "-c" ∷ (codes "command -v " ++ bin) ∷ [];
        env = [];
      })) [ none ↦ false | some ok ↦ ok ]

  abbrev pub below : Text → Text
  below rel = root ++ codes "/" ++ rel

  unfoldable pub root_script : Text → Exec
  unfolding exec as_root
  root_script rel =
      let (program, args) = as_root euid (codes "bash") in
      exec (record { program = program; args = args ++ below rel ∷ []; env = [] })

  abbrev pub criterion : List (Text × Text)
  criterion = (codes "CRITERION_HOME", below (codes "bench/results/criterion")) ∷ []

  -- Pinned to one core where that can be done. The old results are removed first, where they are there.
  unfoldable pub micro_command : Bool → Command
  micro_command pinned =
      if pinned
      then record {
        program = codes "taskset";
        args =
            codes "-c"
            ∷ codes "1"
            ∷ cargo
            ∷ codes "bench"
            ∷ codes "-p"
            ∷ codes "truetop-bench"
            ∷ [];
        env = criterion;
      }
      else record {
        program = cargo;
        args = codes "bench" ∷ codes "-p" ∷ codes "truetop-bench" ∷ [];
        env = criterion;
      }

  -- A script, and then a plot, which may fail: the command of the plot is run only after the script.
  abbrev pub plotted : Exec → Text → List Command
  plotted done plot = record { program = below plot; args = []; env = [] } ∷ []
  plotted (spawning cmd) plot = []
  plotted (command_failed cmd) plot = []

  -- How a benchmark ends, and the plots that it tries.
  unfoldable pub run_benchmark : Bench → Exec × List Command
  unfolding exec have root_script micro_command
  run_benchmark micro = (exec (micro_command (have (codes "taskset"))), [])
  run_benchmark macro =
      let ended = root_script (codes "bench/macro/run.sh") in
      (ended, plotted ended (codes "bench/macro/plot.py"))
  run_benchmark hotpath = (root_script (codes "bench/hotpath/run.sh"), [])
  run_benchmark selfcpu =
      let ended = root_script (codes "bench/selfcpu/run.sh") in
      (ended, plotted ended (codes "bench/selfcpu/plot.py"))
  run_benchmark switch = (root_script (codes "bench/switch/run.sh"), [])
