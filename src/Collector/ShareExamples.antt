-- ===== src/Collector/ShareExamples.antt =====
-- Two ticks at concrete inputs: one CPU, which runs process 10 until between them.
use truetop.Common.{
  ℕ, ◌≡◌, refl, true, false, none, some, List, [], ◌∷◌, arith, lookup, insert, remove, has,
  saturating_add,
}
use truetop.Common.Text.{codes, trim}
use truetop.Kernel.Maps.{lru_insert, hash_insert}
use truetop.Kernel.Iowait.{Sleeps, is_uninterruptible, sleep_out, wake_in}
use truetop.Kernel.Sleep.{Edge, leaves, enters, step, steps}
use truetop.Collector.WaitShares.{published_wait}
use truetop.Kernel.Cpu.{Clocks, cpu_switch, charge_out, mark_in, bill}
use truetop.Kernel.Charge.{Switch, Schedule, run}
use truetop.Kernel.Examples.{keep_all, keep_all-Keeps}
use truetop.Metrics.Counters.{
  ProcessMetrics, cpu_deltas, iowait_deltas, elapsed_ns_since, default_snapshot,
}
use truetop.Metrics.Identity.{named}
use truetop.Metrics.Examples.{whole}
use truetop.Collector.Batch.{LookupBatch, BatchReader, fold, sum_per_cpu}
use truetop.Metrics.Memory.{for_pid}
use truetop.Collector.Totals.{Walk, last, Entry}
use truetop.Collector.CpuMaps.{read}
use truetop.Collector.Known.{Service}
use truetop.Collector.Shares.{published_share}
use truetop.Collector.Reaper.{reap}
use truetop.Collector.Backend.{Moment, tick}
use truetop.Collector.Selection.{by_sorting}
use truetop.Collector.Examples.{collector}

abbrev busy : Schedule
busy c = record { tid = 12; tgid = 10; since = 120 }

abbrev clocks : Clocks
clocks = record { start_time = λ c. 120; cpu_ns = (10, λ c. 50) ∷ []; current_tgid = λ c. 10 }

abbrev to_idle : List Switch
to_idle = record { cpu = 0; next_tid = 0; next_tgid = 0; now = 200 } ∷ []

-- A kernel that has `total` for process 10.
abbrev pub answers : ℕ → LookupBatch
answers total in_batch keys values = record {
  succeeds = false;
  is_enoent = true;
  count = 1;
  token = 0;
  keys = 10 ∷ [];
  values = total ∷ [];
}

abbrev pub one_cpu : BatchReader
one_cpu = record { nr_cpus = 1; keys = 0 ∷ []; values = 0 ∷ [] }

abbrev pub entries : ℕ → List (List Entry)
entries total = ((10, total ∷ []) ∷ []) ∷ []

pub entries-Walk : (total : ℕ) → Walk (answers total) 1 none (entries total)
entries-Walk total = last λ ks vs. record {
  succeeds_eq = refl;
  enoent = λ h. refl;
  count_eq = refl;
  filled = record {
    stale_keys = [];
    stale_values = [];
    keys_eq = refl;
    values_eq = refl;
    strides = (refl, tt);
  };
}

abbrev pub at_tick : ℕ → ℕ → Moment
at_tick time total = record {
  read_cpu = λ maps. record { at = some time; by_pid = (10, total) ∷ [] };
  read_io = λ maps. default_snapshot;
  statm = λ pid. none;
  meminfo = none;
  loadavg = none;
  cpu_ns = (10, λ c. 50) ∷ [];
  iowait_ns = [];
  exits = [];
  is_big_endian = false;
}

abbrev pub row : ProcessMetrics ℕ
row = record {
  pid = 10;
  name = codes "sh";
  user = some (codes "root");
  cpu = record { cpu_percent = 30 };
  mem = none;
  io = none;
}

abbrev reaped : Clocks
reaped = record clocks {
  cpu_ns = (tick whole by_sorting (λ s. s) (λ s. none) collector (at_tick 1000 100)).2.cpu_ns;
}

first_service : Service 1 clocks.cpu_ns
unfolding lookup
first_service = record {
  fuel = 1;
  sys = answers 50;
  reader = one_cpu;
  chunks = entries 50;
  walk = entries-Walk 50;
  enough = omega arith;
  serves = record { distinct = (refl, tt); contents = λ k. ground arith };
}

second_service : Service 1 (run keep_all busy to_idle reaped).cpu_ns
unfolding run cpu_switch charge_out mark_in bill lru_insert lookup insert saturating_add has tick
    reap
second_service = record {
  fuel = 1;
  sys = answers 130;
  reader = one_cpu;
  chunks = entries 130;
  walk = entries-Walk 130;
  enough = omega arith;
  serves = record { distinct = (refl, tt); contents = λ k. ground arith };
}

published_share_example : row.cpu.cpu_percent ≡ 30
unfolding run cpu_switch charge_out mark_in bill lru_insert lookup insert saturating_add has tick
    reap read first_service second_service cpu_deltas iowait_deltas elapsed_ns_since named trim
    sum_per_cpu fold for_pid
published_share_example =
    published_share whole by_sorting (λ s. s) (λ s. none) collector (at_tick 1000 100)
      (at_tick 1080 130) row keep_all busy to_idle clocks 1 10 170 250 1000 1080 first_service
      second_service refl refl refl refl refl refl (omega arith) keep_all-Keeps
      (record { start = λ c ne. refl; current = λ c. refl })
      (record {
        idle = λ c h. absurd (omega arith);
        idle_later = λ c h. ground arith;
        started = λ c. omega arith;
        order = omega arith;
        last = omega arith;
      })
      (λ j. ground arith) (omega arith) (omega arith) refl

-- Thread 11 of process 10 sleeps from 40 to 70.
abbrev nap : List Edge
nap = leaves 2 11 40 ∷ enters 0 10 11 70 ∷ []

abbrev sleeps : Sleeps
sleeps = record { sleep_since = []; iowait_ns = (10, λ c. 50) ∷ [] }

abbrev at_io_tick : ℕ → ℕ → Moment
at_io_tick time total = record {
  read_cpu = λ maps. default_snapshot;
  read_io = λ maps. record { at = some time; by_pid = (10, total) ∷ [] };
  statm = λ pid. none;
  meminfo = none;
  loadavg = none;
  cpu_ns = [];
  iowait_ns = (10, λ c. 50) ∷ [];
  exits = [];
  is_big_endian = false;
}

abbrev waiting_row : ProcessMetrics ℕ
waiting_row = record {
  pid = 10;
  name = codes "sh";
  user = some (codes "root");
  cpu = record { cpu_percent = 0 };
  mem = none;
  io = some (record { io_wait_percent = 30 });
}

abbrev reaped_sleeps : Sleeps
reaped_sleeps = record sleeps {
  iowait_ns =
      (tick whole by_sorting (λ s. s) (λ s. none) collector (at_io_tick 1000 50)).2.iowait_ns;
}

first_counter : Service 1 sleeps.iowait_ns
unfolding lookup
first_counter = record {
  fuel = 1;
  sys = answers 50;
  reader = one_cpu;
  chunks = entries 50;
  walk = entries-Walk 50;
  enough = omega arith;
  serves = record { distinct = (refl, tt); contents = λ k. ground arith };
}

second_counter : Service 1 (steps keep_all 8 nap reaped_sleeps).iowait_ns
unfolding steps step sleep_out is_uninterruptible wake_in hash_insert bill lru_insert lookup insert
    saturating_add has tick reap
second_counter = record {
  fuel = 1;
  sys = answers 80;
  reader = one_cpu;
  chunks = entries 80;
  walk = entries-Walk 80;
  enough = omega arith;
  serves = record { distinct = (refl, tt); contents = λ k. ground arith };
}

published_wait_example : waiting_row.io ≡ some (record { io_wait_percent = 30 })
unfolding steps step sleep_out is_uninterruptible wake_in hash_insert lookup insert remove has tick
    reap first_counter second_counter cpu_deltas iowait_deltas elapsed_ns_since named trim
    sum_per_cpu fold for_pid
published_wait_example =
    published_wait whole by_sorting (λ s. s) (λ s. none) collector (at_io_tick 1000 50)
      (at_io_tick 1080 80) waiting_row keep_all 8 (λ t. none) nap sleeps 1 10 1000 1080
      first_counter second_counter refl refl refl refl refl refl (omega arith) keep_all-Keeps
      (λ t. refl) (omega arith) (λ j. ground arith) (omega arith) (omega arith) refl
