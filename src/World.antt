-- ===== src/World.antt =====
-- The running program: the kernel's programs on their maps, and the collector that reads and reaps them
-- (truetop/src/lib.rs `setup_collector` ties them together, truetop/src/backend.rs `collector_loop`
-- drives the collector). What happens, and in which order, is a list of events.
use truetop.Common.{ℕ, Bool, Option, none, some, List, [], ◌∷◌, Dict, map}
use truetop.Common.Text.{Text}
use truetop.Common.Float.{F64}
use truetop.Kernel.Maps.{Policy}
use truetop.Kernel.Task.{Memory, Globals}
use truetop.Kernel.Maps.{Slots}
use truetop.Kernel.Comm.{Identity, Helpers, sched_process_exec, sched_process_fork, commit_creds}
use truetop.Kernel.Sched.{
  ExitEvent, Kernel, Limits, SwitchContext, sched_switch, sched_process_exit,
}
use truetop.Metrics.Counters.{Snapshot}
use truetop.Collector.Reaper.{Ring, from_bytes}
use truetop.Collector.Reaping.{to_ne_bytes}
use truetop.Collector.Backend.{SelectNth, SystemState, Collector, Moment, tick}
pub mod Waits
pub mod Queue
pub mod Reaped
pub mod Examples

-- What does not change while the program runs: what is not in the source, the sizes and eviction
-- policies of the maps, and the globals that were injected.
pub record Setting : Type 1 where
  pub f64 : F64
  pub select_nth : SelectNth f64.F
  pub from_utf8_lossy : List ℕ → Text
  pub parse_f64 : Text → Option f64.F
  pub limits : Limits
  pub comm_room : Policy Identity
  pub globals : Globals

-- What a tick meets: the reads of the two counters with their times, each of a map as it stands, and
-- the files.
pub record Readings : Type 0 where
  pub read_cpu : Dict Slots → Snapshot
  pub read_io : Dict Slots → Snapshot
  pub statm : ℕ → Option Text
  pub meminfo : Option Text
  pub loadavg : Option Text

-- A run of one of the five programs, over the memory that it finds, or a tick.
pub data Event : Type 0 where
  switches : Memory → SwitchContext → Event
  exits : Memory → ℕ → Event
  execs : Memory → Helpers → ℕ → Event
  forks : Memory → Helpers → ℕ → Event
  changes_creds : Memory → Helpers → ℕ → Event
  ticks : Readings → Event

-- A record as it stands on the ring, and the records that a ring holds.
abbrev pub to_ring : Bool → List ExitEvent → Ring
to_ring big [] = []
to_ring big (e ∷ es) = to_ne_bytes big e.tgid ∷ to_ring big es

unfoldable pub events_of : Bool → Ring → List ExitEvent
unfolding from_bytes
events_of big [] = []
events_of big (bytes ∷ ring) =
    let rest = events_of big ring in
    elim (from_bytes big bytes) [ none ↦ rest | some tgid ↦ record { tgid = tgid } ∷ rest ]

-- `published` is what the interface loads.
pub record World (F : Type 0) : Type 0 where
  pub kernel : Kernel
  pub collector : Collector F
  pub published : SystemState F

module _ (s : Setting) where
  open s use {f64, select_nth, from_utf8_lossy, parse_f64, limits, comm_room, globals}
  open f64 use {F}

  abbrev pub moment : Readings → World F → Moment
  moment r w = record {
    read_cpu = r.read_cpu;
    read_io = r.read_io;
    statm = r.statm;
    meminfo = r.meminfo;
    loadavg = r.loadavg;
    cpu_ns = w.kernel.clocks.cpu_ns;
    iowait_ns = w.kernel.sleeps.iowait_ns;
    exits = to_ring globals.is_big_endian w.kernel.exits;
    is_big_endian = globals.is_big_endian;
  }

  abbrev pub with_comm : Dict Identity → World F → World F
  with_comm comm w = record w {
    collector = record w.collector { names = record w.collector.names { comm = comm } };
  }

  -- `shared.store(Arc::new(collector.tick()))`.
  unfoldable pub collect : Readings → World F → World F
  unfolding tick events_of
  collect r w =
      let (state, collector, books) =
        tick f64 select_nth from_utf8_lossy parse_f64 w.collector (moment r w) in
      record {
        kernel = record {
          clocks = record w.kernel.clocks { cpu_ns = books.cpu_ns };
          sleeps = record w.kernel.sleeps { iowait_ns = books.iowait_ns };
          exits = events_of globals.is_big_endian books.exits;
        };
        collector = collector;
        published = state;
      }

  unfoldable pub advance : Event → World F → World F
  unfolding sched_switch sched_process_exit sched_process_exec sched_process_fork commit_creds
      collect
  advance (switches mem ctx) w = record w { kernel = sched_switch limits mem globals ctx w.kernel }
  advance (exits mem task) w = record w {
    kernel = sched_process_exit limits mem globals task w.kernel;
  }
  advance (execs mem h task) w =
      with_comm (sched_process_exec comm_room mem globals h task w.collector.names.comm) w
  advance (forks mem h child) w =
      with_comm (sched_process_fork comm_room mem globals h child w.collector.names.comm) w
  advance (changes_creds mem h creds) w =
      with_comm (commit_creds comm_room mem globals h creds w.collector.names.comm) w
  advance (ticks r) w = collect r w

  unfoldable pub run : List Event → World F → World F
  unfolding advance
  run [] w = w
  run (e ∷ es) w = run es (advance e w)
