-- ===== src/World/Examples.antt =====
-- What holds of the program, at concrete runs.
use truetop.Common.{ℕ, refl, false, none, List, [], ◌∷◌, arith, length, drop, if◌then◌else◌, ltb}
use truetop.Kernel.Maps.{Policy}
use truetop.Kernel.Examples.{memory, earlier, globals, limits, kernel, context}
use truetop.Metrics.Examples.{whole, before, now}
use truetop.Collector.Selection.{by_sorting}
use truetop.Collector.Examples.{collector}
use truetop.World.{Setting, Readings, World, Event, switches, exits, ticks}
use truetop.World.Queue.{HasWords}
use truetop.World.Reaped.{IsReaped, announced-IsReaped}
use truetop.Kernel.Task.{pid, tgid}

-- A policy that drops the first entry of a map of two.
abbrev drop_first : {V : Type 0} → Policy V
drop_first k m = if ltb (length m) 2 then m else drop 1 m

abbrev setting : Setting
setting = record {
  f64 = whole;
  select_nth = by_sorting;
  from_utf8_lossy = λ s. s;
  parse_f64 = λ s. none;
  limits = limits;
  comm_room = drop_first;
  globals = globals;
}

abbrev readings : Readings
readings = record {
  read_cpu = λ maps. now;
  read_io = λ maps. before;
  statm = λ pid. none;
  meminfo = none;
  loadavg = none;
}

-- The ring holds a departure of process 7.
abbrev world : World ℕ
world = record {
  kernel = kernel;
  collector = collector;
  published = record {
    processes = [];
    cpu_history = [];
    io_history = [];
    total_cpu_percent = 0;
    total_io_percent = 0;
    memory_used_bytes = 0;
    memory_total_bytes = 1024;
    load_average = 0;
    tracked = 0;
    at_capacity = false;
  };
}

memory-HasWords : HasWords memory
memory-HasWords = record { u32 = λ a v h. ground arith }

announced-IsReaped_example :
    IsReaped setting 7 (switches memory context ∷ exits memory 1000 ∷ ticks readings ∷ []) world
announced-IsReaped_example =
    announced-IsReaped setting (switches memory context ∷ exits memory 1000 ∷ ticks readings ∷ [])
      world [] [] (record { tgid = 7 }) (omega arith, tt) (tt, (memory-HasWords, (tt, tt))) refl
      (omega arith)

-- Nobody sleeps; thread 12 of process 10 leaves CPU 0 in D state at 50 and enters it at 90.
abbrev resting : World ℕ
resting = record world {
  kernel = record kernel { sleeps = record { sleep_since = []; iowait_ns = [] } };
}

abbrev nap : List (Event)
nap =
    switches earlier
      (record { cpu = 0; now = 50; pid_tgid = 42949672972; prev = 0; next = 0; prev_state = 2 })
    ∷ ticks readings
    ∷ switches earlier
        (record { cpu = 0; now = 90; pid_tgid = 0; prev = 0; next = 1000; prev_state = 0 })
    ∷ []
