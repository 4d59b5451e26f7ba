-- ===== src/Host/Examples.antt =====
-- Sizes, offsets and topologies at concrete inputs.
use truetop.Common.{ℕ, ◌*◌, ◌≤◌, ◌≡◌, refl, ◌⊎◌, true, false, Option, some, arith, if◌then◌else◌}
use truetop.Common.{not, ◌||◌, none}
use truetop.Host.System.{CpuCounts}
use truetop.Host.Attach.{
  Ebpf, raw_tracepoint, fentry, per_cpu_lru_hash_map, other_map, commit_creds, collector,
  attach_with,
}
use truetop.Host.Attached.{IsAttached, attach_with-IsAttached}
use truetop.Host.Run.{headless, run}
use truetop.Host.Started.{IsReady, asked, run-IsReady}
use truetop.Host.Startup.{returned}
use truetop.Ui.Loop.{requested_quit}
use truetop.Common.Text.{Text, codes, text_eq, print_unsigned, parse_unsigned}
use truetop.Kernel.Task.{Globals, pid, tgid, pid_and_tgid}
use truetop.Kernel.Examples.{memory, memory-Halves}
use truetop.Common.{[], ◌∷◌}
use truetop.Host.Cli.{Args, light, bench, parse, ok}
use truetop.Host.CliLaws.{parse-render}
use truetop.Host.CliAccepted.{parse-IsAccepted, IsAccepted}
use truetop.Host.Startup.{floor, budget_per_map, default_max_processes, resolve_globals}
use truetop.Host.Limits.{default_max_processes_bounds, resolved_pid_and_tgid}

default_max_processes_bounds_example :
    (16384 ≤ default_max_processes 128)
    × (default_max_processes 128 ≤ 65536)
    × ((default_max_processes 128 ≡ floor) ⊎ (default_max_processes 128 * 1024 ≤ budget_per_map))
default_max_processes_bounds_example = default_max_processes_bounds 128

-- A kernel with the fields of a task in the order pid, tgid.
abbrev offsets : Text → Text → Option ℕ
offsets struct field =
    some
      (if text_eq field (codes "tgid") then 12 else if text_eq field (codes "pid") then 8 else 16)

abbrev globals : Globals
globals = record {
  pid_offset = 8;
  tgid_offset = 12;
  state_offset = 16;
  signal_offset = 16;
  live_offset = 16;
  cred_uid_offset = 16;
  has_prev_state = 1;
  is_big_endian = false;
}

resolved_pid_and_tgid_example : pid_and_tgid memory globals 1000 ≡ (11, 10)
unfolding pid tgid
resolved_pid_and_tgid_example =
    resolved_pid_and_tgid offsets false true (some true) globals memory 1000 42949672971
      (unfold resolve_globals in refl) (omega arith) memory-Halves refl

parse-render_example :
    parse (
      codes "--background"
      ∷ codes "light"
      ∷ codes "--max-processes"
      ∷ print_unsigned 65536
      ∷ codes "--bench"
      ∷ print_unsigned 600
      ∷ [])
    ≡ ok (record { command = bench 600; background = some light; max_processes = some 65536 })
parse-render_example =
    parse-render
      (record { command = bench 600; background = some light; max_processes = some 65536 })
      (omega arith, omega arith) (omega arith)

parse-IsAccepted_example :
    IsAccepted (record { command = bench 600; background = some light; max_processes = some 65536 })
parse-IsAccepted_example =
    parse-IsAccepted
      (codes "--background"
        ∷ codes "light"
        ∷ codes "--max-processes"
        ∷ print_unsigned 65536
        ∷ codes "--bench"
        ∷ print_unsigned 600
        ∷ [])
      (record { command = bench 600; background = some light; max_processes = some 65536 })
      (parse-render
        (record { command = bench 600; background = some light; max_processes = some 65536 })
        (omega arith, omega arith) (omega arith))

-- An object with all programs and maps, whose attachment to the credentials the kernel refuses.
abbrev object : Ebpf
object = record {
  program = λ name. if text_eq name commit_creds then some fentry else some raw_tracepoint;
  map_of = λ name.
      if text_eq name (codes "CPU_NS") || text_eq name (codes "IOWAIT_NS")
      then some per_cpu_lru_hash_map
      else some (other_map 1);
  converts = λ target kind. true;
  loads = λ name. true;
  attaches = λ name. not (text_eq name commit_creds);
  has_btf = true;
  capacity = some 16384;
}

abbrev counts : CpuCounts
counts = record { possible = 4; online = 2 }

attached_capacity :
    (attach_with offsets false true (some true) (λ req. some object) counts (some 500)).built
    ≡ collector 16384
unfolding attach_with
attached_capacity = refl

attach_with-IsAttached_example :
    IsAttached offsets false true
      (some true)
      (λ req. some object)
      500
      16384
      (attach_with offsets false true (some true) (λ req. some object) counts (some 500))
attach_with-IsAttached_example =
    attach_with-IsAttached offsets false true (some true) (λ req. some object) counts (some 500)
      16384 attached_capacity

bench_shown :
    (run
      (attach_with offsets false true (some true) (λ req. some object))
      (λ e. [])
      (some 4)
      (some 2)
      none
      requested_quit
      returned
      (codes "--bench" ∷ codes "3" ∷ [])).shown
    ≡ some (headless 3)
unfolding run attach_with parse_unsigned
bench_shown = refl

run-IsReady_example :
    (a : Args) × (parse (codes "--bench" ∷ codes "3" ∷ []) ≡ ok a)
    × IsReady offsets false true
        (some true)
        (λ req. some object)
        (λ e. [])
        (some 4)
        (some 2)
        none
        requested_quit
        returned
        a
        (run
          (attach_with offsets false true (some true) (λ req. some object))
          (λ e. [])
          (some 4)
          (some 2)
          none
          requested_quit
          returned
          (codes "--bench" ∷ codes "3" ∷ []))
    × (asked
          (attach_with offsets false true (some true) (λ req. some object))
          (λ e. [])
          (some 4)
          (some 2)
          none
          requested_quit
          returned
          a.background
          a.command
        ≡ some (headless 3))
run-IsReady_example =
    run-IsReady offsets false true (some true) (λ req. some object) (λ e. []) (some 4) (some 2) none
      requested_quit returned (codes "--bench" ∷ codes "3" ∷ []) (headless 3) bench_shown
