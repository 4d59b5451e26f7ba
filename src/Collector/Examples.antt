-- ===== src/Collector/Examples.antt =====
-- Reads, ticks and departures at concrete inputs.
use mathlib.Core.List.Perm
use truetop.Common.{
  ℕ, ◌≤◌, ◌≡◌, refl, Bool, true, false, not, ◌||◌, ◌==◌, if◌then◌else◌, none, some, List, [], ◌∷◌,
  ◌++◌, arith, Dict, lookup, insert, has, saturating_add, contains, length, take, drop, replicate,
  leb,
}
use truetop.Kernel.Maps.{lru_insert}
use truetop.Kernel.Cpu.{cpu_switch, charge_out, mark_in, bill}
use truetop.Kernel.Charge.{run}
use truetop.Kernel.Examples.{keep_all, keep_all-Keeps, idle, attached, attached-IsStamped, switches}
use truetop.Metrics.Identity.{named, unknown}
use truetop.Common.Text.{codes, trim}
use truetop.Metrics.Memory.{for_pid}
use truetop.Metrics.Rates.{cpu_reading}
use truetop.Metrics.Counters.{
  ProcessMetrics, default_snapshot, elapsed_ns_since, cpu_deltas, iowait_deltas, new_cpu,
  new_iowait,
}
use truetop.Metrics.Examples.{whole, before, now, resolver}
use truetop.Collector.Batch.{LookupBatch, Reply, BatchReader, done, sum_per_cpu}
use truetop.Collector.Totals.{Walk, last, more, Answers, Entry, sum_per_cpu-Walk}
use truetop.Collector.Orders.{sum_per_cpu-perm}
use truetop.Collector.CpuMaps.{read}
use truetop.Collector.Reading.{Serves, read_exact, total_of}
use truetop.Collector.Reaper.{Books, from_bytes, reap, budget}
use truetop.Collector.Reaping.{AreDropped, announced, to_ne_bytes, reap_lem}
use truetop.Collector.Backend.{
  Collector, Moment, top_pids, select_candidates, history, or_zero_f, tick,
}
use truetop.Collector.Candidates.{AllDifferent, top_pids_greatest, select_candidates_lem}
use truetop.Collector.Selection.{by_sorting, by_sorting-Selects}
use truetop.Collector.Ticks.{ticks, cpu_totals, io_totals, ticks-history, tick_charges_then_reaps}

-- The kernel's answer after `switches`: process 10 has 50 ns on CPU 0, in one chunk.
abbrev lookup_batch : LookupBatch
lookup_batch in_batch keys values = record {
  succeeds = false;
  is_enoent = true;
  count = 1;
  token = 0;
  keys = 10 ∷ 0 ∷ [];
  values = 50 ∷ 0 ∷ 0 ∷ 0 ∷ [];
}

abbrev reader : BatchReader
reader = record { nr_cpus = 2; keys = 0 ∷ 0 ∷ []; values = 0 ∷ 0 ∷ 0 ∷ 0 ∷ [] }

abbrev chunks : List (List Entry)
chunks = ((10, 50 ∷ 0 ∷ []) ∷ []) ∷ []

walk : Walk lookup_batch 2 none chunks
walk = last λ ks vs. record {
  succeeds_eq = refl;
  enoent = λ h. refl;
  count_eq = refl;
  filled = record {
    stale_keys = 0 ∷ [];
    stale_values = 0 ∷ 0 ∷ [];
    keys_eq = refl;
    values_eq = refl;
    strides = (refl, tt);
  };
}

-- One CPU, and two processes in either order, in a chunk each: the second is served at token 5 only. The
-- kernel writes over the front of the buffers.
abbrev one_entry : Bool → ℕ → List ℕ → List ℕ → Reply
one_entry is_last pid keys values = record {
  succeeds = not is_last;
  is_enoent = is_last;
  count = 1;
  token = 5;
  keys = pid ∷ drop 1 keys;
  values = pid ∷ drop 1 values;
}

abbrev refusal : List ℕ → List ℕ → Reply
refusal keys values = record {
  succeeds = false;
  is_enoent = false;
  count = 0;
  token = 0;
  keys = keys;
  values = values;
}

abbrev in_two : ℕ → ℕ → LookupBatch
in_two first second none keys values = one_entry false first keys values
in_two first second (some token) keys values =
    if token == 5 then one_entry true second keys values else refusal keys values

abbrev two_chunks : ℕ → ℕ → List (List Entry)
two_chunks first second = ((first, first ∷ []) ∷ []) ∷ ((second, second ∷ []) ∷ []) ∷ []

abbrev pair_reader : BatchReader
pair_reader = record { nr_cpus = 1; keys = 0 ∷ 0 ∷ []; values = 0 ∷ 0 ∷ [] }

one_entry-Answers :
    (is_last : Bool) (pid : ℕ) (ks vs : List ℕ)
    → Answers 1 ((pid, pid ∷ []) ∷ []) is_last (one_entry is_last pid ks vs)
one_entry-Answers is_last pid ks vs = record {
  succeeds_eq = refl;
  enoent = λ h. h;
  count_eq = refl;
  filled = record {
    stale_keys = drop 1 ks;
    stale_values = drop 1 vs;
    keys_eq = refl;
    values_eq = refl;
    strides = (refl, tt);
  };
}

in_two-Walk : (first second : ℕ) → Walk (in_two first second) 1 none (two_chunks first second)
in_two-Walk first second =
    more 5 (omega arith) (one_entry-Answers false first) (λ ks vs. refl)
      (last (one_entry-Answers true second))

sum_per_cpu-Walk_example :
    sum_per_cpu 2 (in_two 10 11) pair_reader ≡ done ((10, 10) ∷ (11, 11) ∷ [])
unfolding insert
sum_per_cpu-Walk_example = sum_per_cpu-Walk pair_reader 2 (in_two-Walk 10 11) (omega arith)

served : Serves 2 ((10, 50 ∷ 0 ∷ []) ∷ []) (run keep_all idle switches attached).cpu_ns
unfolding run cpu_switch charge_out mark_in bill lru_insert lookup insert saturating_add has
served = record { distinct = (refl, tt); contents = λ k. ground arith }

read_exact_example :
    (by_pid : Dict ℕ) × (read 1 lookup_batch reader (some (0 ∷ 10 ∷ [])) (some (100 ∷ 120 ∷ [])) 170
      ≡ done by_pid)
    × (total_of 10 by_pid ≡ 100)
unfolding run cpu_switch charge_out mark_in
read_exact_example =
    read_exact keep_all idle switches attached 2 10 170 1 lookup_batch reader chunks keep_all-Keeps
      attached-IsStamped refl (λ c h. ground arith) (omega arith) (omega arith) (λ c. ground arith)
      walk (omega arith) served

abbrev books : Books
books = record {
  cpu_ns = (10, λ c. 5) ∷ (11, λ c. 6) ∷ [];
  iowait_ns = (10, λ c. 1) ∷ [];
  names = resolver;
  exits = to_ne_bytes false 10 ∷ (7 ∷ []) ∷ [];
}

reap_lem_example :
    AreDropped (announced false (take budget books.exits)) 10 books (reap false books)
    × ((reap false books).exits ≡ [])
reap_lem_example = reap_lem false 10 books

abbrev percents : Dict ℕ
percents = (1, 3) ∷ (20, 90) ∷ (21, 7) ∷ []

top_pids_greatest_example : (leb 3 90 ≡ true) × (length (top_pids leb by_sorting percents 2) ≡ 2)
unfolding lookup top_pids
top_pids_greatest_example =
    top_pids_greatest leb by_sorting percents 2 20 1 90 3 by_sorting-Selects
      (record { total = λ x y h. ground arith; trans = λ x y z h k. ground arith })
      (refl, (refl, (refl, tt))) refl refl refl refl

select_candidates_lem_example :
    AllDifferent (select_candidates leb by_sorting percents percents 2)
    × (length (select_candidates leb by_sorting percents percents 2) ≤ 4)
    × ((k : ℕ)
        → contains k (select_candidates leb by_sorting percents percents 2) ≡ (
            contains k (top_pids leb by_sorting percents 2)
            || contains k (top_pids leb by_sorting percents 2)))
select_candidates_lem_example = select_candidates_lem leb by_sorting percents percents 2

abbrev pub collector : Collector ℕ
collector = record {
  cpu = new_cpu;
  iowait = new_iowait;
  names = resolver;
  page_size = 4096;
  online_cpus = 2;
  capacity = 16384;
  memory_total_bytes = 1024;
  cpu_history = replicate history 0;
  io_history = replicate history 0;
}

abbrev moment : Moment
moment = record {
  read_cpu = λ maps. now;
  read_io = λ maps. before;
  statm = λ pid. none;
  meminfo = none;
  loadavg = none;
  cpu_ns = books.cpu_ns;
  iowait_ns = books.iowait_ns;
  exits = books.exits;
  is_big_endian = false;
}

ticks-history_example :
    let totals =
      cpu_totals whole by_sorting (λ s. s) (λ s. none) collector (moment ∷ moment ∷ []) in
    let io = io_totals whole by_sorting (λ s. s) (λ s. none) collector (moment ∷ moment ∷ []) in
    ((ticks whole by_sorting (λ s. s) (λ s. none) collector (moment ∷ moment ∷ [])).cpu_history
      ≡ drop 2 (collector.cpu_history ++ totals))
    × ((ticks whole by_sorting (λ s. s) (λ s. none) collector (moment ∷ moment ∷ [])).io_history
        ≡ drop 2 (collector.io_history ++ io))
ticks-history_example =
    ticks-history whole by_sorting (λ s. s) (λ s. none) collector (moment ∷ moment ∷ []) refl refl

-- The row of the process that departs.
abbrev departing : ProcessMetrics ℕ
departing = record {
  pid = 10;
  name = codes "sh";
  user = some (codes "root");
  cpu = record { cpu_percent = 0 };
  mem = none;
  io = none;
}

tick_charges_then_reaps_example :
    let (state, after, left) = tick whole by_sorting (λ s. s) (λ s. none) collector moment in
    (departing.name ≡ (named (λ s. s) collector.names 10).name)
    × (departing.cpu.cpu_percent
        ≡ or_zero_f whole by_sorting
            (λ s. s)
            (λ s. none)
            (cpu_reading whole (some 300) none (elapsed_ns_since whole now default_snapshot)))
    × (lookup 10 left.cpu_ns ≡ none)
    × (lookup 10 left.iowait_ns ≡ none)
    × (named (λ s. s) after.names 10 ≡ record { name = unknown; user = none })
unfolding tick lookup cpu_deltas iowait_deltas elapsed_ns_since named trim for_pid
tick_charges_then_reaps_example =
    tick_charges_then_reaps whole by_sorting (λ s. s) (λ s. none) collector moment 10 departing
      (unfold from_bytes in refl) refl

-- The same two processes in one chunk.
abbrev in_one : ℕ → ℕ → LookupBatch
in_one first second in_batch keys values = record {
  succeeds = false;
  is_enoent = true;
  count = 2;
  token = 0;
  keys = first ∷ second ∷ [];
  values = first ∷ second ∷ [];
}

abbrev one_chunk : ℕ → ℕ → List (List Entry)
one_chunk first second = ((first, first ∷ []) ∷ (second, second ∷ []) ∷ []) ∷ []

in_one-Walk : (first second : ℕ) → Walk (in_one first second) 1 none (one_chunk first second)
in_one-Walk first second = last λ ks vs. record {
  succeeds_eq = refl;
  enoent = λ h. refl;
  count_eq = refl;
  filled = record {
    stale_keys = [];
    stale_values = [];
    keys_eq = refl;
    values_eq = refl;
    strides = (refl, (refl, tt));
  };
}

sum_per_cpu-perm_example :
    (m : Dict ℕ) × (m' : Dict ℕ) × (sum_per_cpu 2 (in_two 10 11) pair_reader ≡ done m)
    × (sum_per_cpu 2 (in_one 11 10) pair_reader ≡ done m')
    × ((k : ℕ) → lookup k m ≡ lookup k m')
unfolding lookup
sum_per_cpu-perm_example =
    sum_per_cpu-perm pair_reader pair_reader (two_chunks 10 11) (one_chunk 11 10) 2
      (in_two-Walk 10 11) (in_one-Walk 11 10) (omega arith) (omega arith) (Perm.swap _ _ [])
      (refl, (refl, tt))
