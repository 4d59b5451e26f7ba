-- ===== src/Collector/Backend.antt =====
-- truetop/src/backend.rs: one tick of the collector. `HashMap` and `HashSet` iterate in an order that
-- is not specified; here it is that of insertion.
use truetop.Common.{
  ℕ, Bool, Option, none, some, List, [], ◌∷◌, ◌++◌, Dict, lookup, keys, length, take, drop,
  replicate, contains, ltb, leb, if◌then◌else◌, map,
}
use truetop.Common.Text.{Text}
use truetop.Common.Float.{F64, zero_f, sum_f}
use truetop.Metrics.Counters.{
  IoMetrics, ProcessMetrics, Snapshot, CpuCollector, IoWaitCollector, new_cpu, new_iowait,
  cpu_deltas, iowait_deltas,
}
use truetop.Metrics.Identity.{Resolver, named}
use truetop.Metrics.Memory.{for_pid}
use truetop.Host.System.{CpuCounts, memory_total_bytes, memory_used_bytes, load_average}
use truetop.Collector.Reaper.{Books, Ring, reap}
use truetop.Kernel.Maps.{Slots}

abbrev pub max_rows : ℕ
max_rows = 256

abbrev pub history : ℕ
history = 120

-- `HashSet::extend`.
unfoldable pub extend : List ℕ → List ℕ → List ℕ
extend set [] = set
extend set (pid ∷ pids) = extend (if contains pid set then set else set ++ pid ∷ []) pids

-- `select_nth_unstable_by` of the standard library, from an index and a comparator: whether that does not
-- answer `Greater`.
abbrev pub SelectNth : Type 0 → Type 0
SelectNth F = ℕ → (ℕ × F → ℕ × F → Bool) → Dict F → Dict F

module _ {F : Type 0} (total_le : F → F → Bool) (select_nth : SelectNth F) where
  unfoldable pub top_pids : Dict F → ℕ → List ℕ
  top_pids values cap = keys (
      if ltb cap (length values)
      then take cap (select_nth cap (λ a b. total_le b.1 a.1) values)
      else values)

  unfoldable pub select_candidates : Dict F → Dict F → ℕ → List ℕ
  unfolding extend top_pids
  select_candidates cpu io cap = extend (extend [] (top_pids cpu cap)) (top_pids io cap)

unfoldable pub push_capped : {F : Type 0} → List F → F → List F
push_capped buf value = (if leb history (length buf) then drop 1 buf else buf) ++ value ∷ []

pub record SystemState (F : Type 0) : Type 0 where
  pub processes : List (ProcessMetrics F)
  pub cpu_history : List F
  pub io_history : List F
  pub total_cpu_percent : F
  pub total_io_percent : F
  pub memory_used_bytes : ℕ
  pub memory_total_bytes : ℕ
  pub load_average : F
  pub tracked : ℕ
  pub at_capacity : Bool

-- The collector. The maps that it reads and reaps stand in `Moment`, but for the name map.
pub record Collector (F : Type 0) : Type 0 where
  pub cpu : CpuCollector
  pub iowait : IoWaitCollector
  pub names : Resolver
  pub page_size : ℕ
  pub online_cpus : ℕ
  pub capacity : ℕ
  pub memory_total_bytes : ℕ
  pub cpu_history : List F
  pub io_history : List F

-- What a tick meets: the two reads (`CpuMaps::read`, `read_counter`) with their times, each of a map as
-- it stands at the call, the files, the counter maps and the ring.
pub record Moment : Type 0 where
  pub read_cpu : Dict Slots → Snapshot
  pub read_io : Dict Slots → Snapshot
  pub statm : ℕ → Option Text
  pub meminfo : Option Text
  pub loadavg : Option Text
  pub cpu_ns : Dict Slots
  pub iowait_ns : Dict Slots
  pub exits : Ring
  pub is_big_endian : Bool

-- What the reads give of the maps that the tick meets.
abbrev pub cpu_snap : Moment → Snapshot
cpu_snap m = m.read_cpu m.cpu_ns

abbrev pub io_snap : Moment → Snapshot
io_snap m = m.read_io m.iowait_ns

-- What is not in the source: `f64`, and the standard library's selection and its readings of bytes
-- and floats.
module _ (f64 : F64) (select_nth : SelectNth f64.F) (from_utf8_lossy : List ℕ → Text)
    (parse_f64 : Text → Option f64.F) where
  open f64 use {F, of_nat, div, total_le}

  abbrev pub or_zero_f : Option F → F
  or_zero_f none = zero_f f64
  or_zero_f (some v) = v

  abbrev pub io_metrics : Option F → Option (IoMetrics F)
  io_metrics none = none
  io_metrics (some percent) = some (record { io_wait_percent = percent })

  unfoldable pub enrich : Collector F → Moment → Dict F → Dict F → ℕ → ProcessMetrics F
  enrich c m cpu io pid =
      let n = named from_utf8_lossy c.names pid in
      record {
        pid = pid;
        name = n.name;
        user = n.user;
        cpu = record { cpu_percent = or_zero_f (lookup pid cpu) };
        mem = for_pid c.page_size (m.statm pid);
        io = io_metrics (lookup pid io);
      }

  abbrev pub values : Dict F → List F
  values [] = []
  values ((pid, v) ∷ rows) = v ∷ values rows

  -- The maps as the tick leaves them are the last component.
  unfoldable pub tick : Collector F → Moment → SystemState F × Collector F × Books
  unfolding enrich select_candidates push_capped
  tick c m =
      let maps : Books = record {
        cpu_ns = m.cpu_ns;
        iowait_ns = m.iowait_ns;
        names = c.names;
        exits = m.exits;
      } in
      let counted = m.read_cpu maps.cpu_ns in
      let tracked = length counted.by_pid in
      let (cpu, cpu') = cpu_deltas f64 c.cpu counted in
      let (io, iowait') = iowait_deltas f64 c.iowait (m.read_io maps.iowait_ns) in
      let processes =
        map (enrich c m cpu io) (select_candidates total_le select_nth cpu io max_rows) in
      let total_cpu = div (sum_f f64 (values cpu)) (of_nat c.online_cpus) in
      let total_io = sum_f f64 (values io) in
      let cpu_history' = push_capped c.cpu_history total_cpu in
      let io_history' = push_capped c.io_history total_io in
      let books = reap m.is_big_endian maps in
      (
        record {
          processes = processes;
          cpu_history = cpu_history';
          io_history = io_history';
          total_cpu_percent = total_cpu;
          total_io_percent = total_io;
          memory_used_bytes = memory_used_bytes m.meminfo c.memory_total_bytes;
          memory_total_bytes = c.memory_total_bytes;
          load_average = load_average (zero_f f64) parse_f64 m.loadavg;
          tracked = tracked;
          at_capacity = leb c.capacity tracked;
        },
        record c {
          cpu = cpu';
          iowait = iowait';
          names = books.names;
          cpu_history = cpu_history';
          io_history = io_history';
        },
        books,
      )

  -- `Collector::new`, over the names and the page size that are read then.
  unfoldable pub new_collector : Resolver → ℕ → CpuCounts → ℕ → Option Text → Collector F
  new_collector names page_size cpus capacity meminfo = record {
    cpu = new_cpu;
    iowait = new_iowait;
    names = names;
    page_size = page_size;
    online_cpus = cpus.online;
    capacity = capacity;
    memory_total_bytes = memory_total_bytes meminfo;
    cpu_history = replicate history (zero_f f64);
    io_history = replicate history (zero_f f64);
  }
