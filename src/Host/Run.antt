-- ===== src/Host/Run.antt =====
-- truetop/src/lib.rs: `run` and `run_ui`, from the command line to the end. What the terminal, the loader
-- and the kernel answer is a parameter.
use truetop.Common.{ℕ, Bool, Option, none, some, List}
use truetop.Common.Text.{Text}
use truetop.Host.Cli.{Background, Command, Printed, Args, CliError, Parsed, parse}
use truetop.Host.System.{
  CpuCounts, Topology, counted, unreadable_possible, unreadable_online, implausible, detect,
}
use truetop.Host.Startup.{ErrorKind, needs_privilege, Join, cause}
use truetop.Host.Attach.{AttachError, Built, collector, fails, SetUp}
use truetop.Ui.Loop.{Exit, requested_quit, collector_gone, terminal_failed}
use truetop.Ui.Theme.{resolve}

pub data RunEnd : Type 0 where
  ended : RunEnd
  printed : Printed → RunEnd
  refused : CliError → RunEnd
  no_topology : RunEnd
  -- The error, and whether the hint about privilege stands in front of it.
  not_attached : AttachError → Bool → RunEnd
  collection_stopped : Text → RunEnd
  terminal_error : RunEnd

-- What is run over the collector.
pub data Shown : Type 0 where
  headless : ℕ → Shown
  interface : Background → Shown

pub record Outcome : Type 0 where
  pub finish : RunEnd
  pub set_up : Option SetUp
  pub shown : Option Shown

-- How the interface ended: the renderer's answer, and that of the collector's task.
unfoldable pub run_ui : Exit → Join → RunEnd
unfolding cause
run_ui requested_quit join = ended
run_ui collector_gone join = collection_stopped (cause join)
run_ui terminal_failed join = terminal_error

-- `attach` attaches for the topology and the capacity that was asked for; `chain_of` is an error's chain of
-- causes.
module _ (attach : CpuCounts → Option ℕ → SetUp) (chain_of : AttachError → List (Option ErrorKind))
    (possible online : Option ℕ) (detected : Option Background) (exit : Exit) (join : Join) where
  -- `ticks` are those of `--bench`.
  abbrev pub show : Option ℕ → Option Background → SetUp → Outcome
  show (some ticks) background s = record {
    finish = ended;
    set_up = some s;
    shown = some (headless ticks);
  }
  show none background s = record {
    finish = run_ui exit join;
    set_up = some s;
    shown = some (interface (resolve background detected));
  }

  abbrev pub run_set_up : Args → Option ℕ → SetUp → Built → Outcome
  run_set_up args ticks s (fails e) = record {
    finish = not_attached e (needs_privilege (chain_of e));
    set_up = some s;
    shown = none;
  }
  run_set_up args ticks s (collector capacity) = show ticks args.background s

  abbrev pub run_detected : Args → Option ℕ → Topology → Outcome
  run_detected args ticks (counted cpus) =
      let s = attach cpus args.max_processes in run_set_up args ticks s s.built
  run_detected args ticks unreadable_possible = record {
    finish = no_topology;
    set_up = none;
    shown = none;
  }
  run_detected args ticks unreadable_online = record {
    finish = no_topology;
    set_up = none;
    shown = none;
  }
  run_detected args ticks implausible = record { finish = no_topology; set_up = none; shown = none }

  abbrev pub run_command : Args → Command → Outcome
  run_command args (Command.print text) = record {
    finish = printed text;
    set_up = none;
    shown = none;
  }
  run_command args (Command.bench ticks) = run_detected args (some ticks) (detect possible online)
  run_command args Command.ui = run_detected args none (detect possible online)

  abbrev pub run_parsed : Parsed Args → Outcome
  run_parsed (Parsed.err e) = record { finish = refused e; set_up = none; shown = none }
  run_parsed (Parsed.ok args) = run_command args args.command

  unfoldable pub run : List Text → Outcome
  unfolding parse detect run_ui needs_privilege resolve
  run args = run_parsed (parse args)
