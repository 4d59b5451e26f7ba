-- ===== src/Host/Started.antt =====
-- What a run has seen to before it shows anything (truetop/src/lib.rs).
use truetop.Common.{ℕ, ◌≡◌, ◌≤◌, Bool, refl, sym, ap, Option, none, some, List, arith}
use truetop.Common.Text.{Text}
use truetop.Host.Cli.{Background, Command, Args, Parsed, parse}
use truetop.Host.System.{
  CpuCounts, Topology, counted, unreadable_possible, unreadable_online, implausible, detect,
}
use truetop.Host.Startup.{ErrorKind, Join}
use truetop.Host.Attach.{
  AttachError, Built, collector, fails, SetUp, LoadRequest, Ebpf, attach_with,
}
use truetop.Host.Attached.{IsAttached, wanted, attach_with-IsAttached}
use truetop.Host.CliAccepted.{IsAccepted, parse-IsAccepted}
use truetop.Host.Run.{
  Shown, headless, interface, Outcome, run_set_up, run_detected, run_command, run_parsed, run,
}
use truetop.Ui.Loop.{Exit}
use truetop.Ui.Theme.{resolve}

module _ (attach : CpuCounts → Option ℕ → SetUp) (chain_of : AttachError → List (Option ErrorKind))
    (possible online : Option ℕ) (detected : Option Background) (exit : Exit) (join : Join) where
  -- What the command asks for.
  abbrev pub asked : Option Background → Command → Option Shown
  asked background (Command.print text) = none
  asked background (Command.bench ticks) = some (headless ticks)
  asked background Command.ui = some (interface (resolve background detected))

  abbrev shows : Option Background → Option ℕ → Shown
  shows background (some ticks) = headless ticks
  shows background none = interface (resolve background detected)

  record IsStarted (args : Args) (o : Outcome) : Type 0 where
    pub cpus : CpuCounts
    pub capacity : ℕ
    pub topology : detect possible online ≡ counted cpus
    pub set_up : o.set_up ≡ some (attach cpus args.max_processes)
    pub built : (attach cpus args.max_processes).built ≡ collector capacity

  run_set_up-IsStarted :
      (args : Args) (ticks : Option ℕ) (cpus : CpuCounts) (built : Built) (shown : Shown)
      → detect possible online ≡ counted cpus
      → (attach cpus args.max_processes).built ≡ built
      → let o =
          run_set_up attach chain_of possible online detected exit join args ticks
            (attach cpus args.max_processes)
            built in
        o.shown ≡ some shown → IsStarted args o × (shown ≡ shows args.background ticks)
  run_set_up-IsStarted args ticks cpus (fails e) shown topology at h = absurd (ground (arith, h))
  run_set_up-IsStarted args (some ticks) cpus (collector capacity) shown topology at h = (
    record { cpus = cpus; capacity = capacity; topology = topology; set_up = refl; built = at },
    ground (arith, h),
  )
  run_set_up-IsStarted args none cpus (collector capacity) shown topology at h = (
    record { cpus = cpus; capacity = capacity; topology = topology; set_up = refl; built = at },
    ground (arith, h),
  )

  run_detected-IsStarted :
      (args : Args) (ticks : Option ℕ) (topology : Topology) (shown : Shown)
      → detect possible online ≡ topology
      → let o =
          run_detected attach chain_of possible online detected exit join args ticks topology in
        o.shown ≡ some shown → IsStarted args o × (shown ≡ shows args.background ticks)
  run_detected-IsStarted args ticks (counted cpus) shown at h =
      run_set_up-IsStarted args ticks cpus (attach cpus args.max_processes).built shown at refl h
  run_detected-IsStarted args ticks unreadable_possible shown at h = absurd (ground (arith, h))
  run_detected-IsStarted args ticks unreadable_online shown at h = absurd (ground (arith, h))
  run_detected-IsStarted args ticks implausible shown at h = absurd (ground (arith, h))

  run_command-IsStarted :
      (args : Args) (command : Command) (shown : Shown)
      → let o = run_command attach chain_of possible online detected exit join args command in
        o.shown ≡ some shown → IsStarted args o × (asked args.background command ≡ some shown)
  run_command-IsStarted args (Command.print text) shown h = absurd (ground (arith, h))
  run_command-IsStarted args (Command.bench ticks) shown h =
      let (started, same) =
        run_detected-IsStarted args (some ticks) (detect possible online) shown refl h in
      (started, ap some (sym same))
  run_command-IsStarted args Command.ui shown h =
      let (started, same) =
        run_detected-IsStarted args none (detect possible online) shown refl h in
      (started, ap some (sym same))

  run_parsed-IsStarted :
      (parsed : Parsed Args) (shown : Shown)
      → (run_parsed attach chain_of possible online detected exit join parsed).shown ≡ some shown
      → (a : Args) × (parsed ≡ Parsed.ok a)
        × IsStarted a (run_parsed attach chain_of possible online detected exit join parsed)
        × (asked a.background a.command ≡ some shown)
  run_parsed-IsStarted (Parsed.err e) shown h = absurd (ground (arith, h))
  run_parsed-IsStarted (Parsed.ok a) shown h =
      let (started, same) = run_command-IsStarted a a.command shown h in (a, refl, started, same)

-- What a topology that is accepted says: both counts can be read, some CPU is online, and no more than
-- are possible.
pub record IsPlausible (possible online : Option ℕ) (cpus : CpuCounts) : Type 0 where
  pub possible_eq : possible ≡ some cpus.possible
  pub online_eq : online ≡ some cpus.online
  pub one : 1 ≤ cpus.online
  pub within : cpus.online ≤ cpus.possible

detect-IsPlausible :
    (possible online : Option ℕ) (cpus : CpuCounts)
    → detect possible online ≡ counted cpus
    → IsPlausible possible online cpus
unfolding detect
detect-IsPlausible none online cpus h = absurd (ground (arith, h))
detect-IsPlausible (some p) none cpus h = absurd (ground (arith, h))
detect-IsPlausible (some p) (some n) cpus h = record {
  possible_eq = ground (arith, h);
  online_eq = ground (arith, h);
  one = ground (arith, h);
  within = ground (arith, h);
}

module _ (field_byte_offset : Text → Text → Option ℕ) (is_big_endian is_64_bit : Bool)
    (has_prev_state : Option Bool) (loader : LoadRequest → Option Ebpf)
    (chain_of : AttachError → List (Option ErrorKind)) (possible online : Option ℕ)
    (detected : Option Background) (exit : Exit) (join : Join) where
  abbrev attach : CpuCounts → Option ℕ → SetUp
  attach = attach_with field_byte_offset is_big_endian is_64_bit has_prev_state loader

  -- What has happened before anything is shown: the set-up that is recorded is one for the topology and
  -- the capacity that the arguments ask for.
  pub record IsReady (args : Args) (o : Outcome) : Type 0 where
    pub cpus : CpuCounts
    pub capacity : ℕ
    pub plausible : IsPlausible possible online cpus
    pub accepted : IsAccepted args
    pub set_up : SetUp
    pub recorded : o.set_up ≡ some set_up
    pub attached :
        IsAttached field_byte_offset is_big_endian is_64_bit has_prev_state loader
          (wanted args.max_processes cpus)
          capacity
          set_up

  -- A run that shows anything has accepted its command line, with numbers that fit 32 bits and no
  -- capacity of 0, and found at least one CPU online and no more than are possible; it has loaded
  -- the object with the capacity that was asked for, or the default for those CPUs, and attached
  -- its programs; and it shows what the command asks for.
  pub run-IsReady :
      (args : List Text) (shown : Shown)
      → (run attach chain_of possible online detected exit join args).shown ≡ some shown
      → (a : Args) × (parse args ≡ Parsed.ok a)
        × IsReady a (run attach chain_of possible online detected exit join args)
        × (asked attach chain_of possible online detected exit join a.background a.command
            ≡ some shown)
  unfolding run
  run-IsReady args shown h =
      let (a, parsed, started, same) =
        run_parsed-IsStarted attach chain_of possible online detected exit join (parse args) shown
          h in
      (
        a,
        parsed,
        record {
          cpus = started.cpus;
          capacity = started.capacity;
          plausible = detect-IsPlausible possible online started.cpus started.topology;
          accepted = parse-IsAccepted args a parsed;
          set_up = attach started.cpus a.max_processes;
          recorded = started.set_up;
          attached =
              attach_with-IsAttached field_byte_offset is_big_endian is_64_bit has_prev_state loader
                started.cpus a.max_processes started.capacity started.built;
        },
        same,
      )
