-- ===== src/Collector/RecycledExamples.antt =====
-- A process id that is used again, at concrete inputs.
use truetop.Common.{
  ℕ, ◌≡◌, refl, none, List, [], ◌∷◌, arith, lookup, insert, remove, has, saturating_add,
}
use truetop.Common.Text.{codes, trim}
use truetop.Kernel.Maps.{lru_insert}
use truetop.Kernel.Cpu.{Clocks, cpu_switch, charge_out, mark_in, bill}
use truetop.Kernel.Charge.{Switch, Schedule, run}
use truetop.Kernel.Examples.{keep_all, keep_all-Keeps}
use truetop.Metrics.Counters.{ProcessMetrics, cpu_deltas, iowait_deltas, elapsed_ns_since}
use truetop.Metrics.Identity.{named}
use truetop.Metrics.Examples.{whole}
use truetop.Collector.Batch.{fold, sum_per_cpu}
use truetop.Metrics.Memory.{for_pid}
use truetop.Collector.CpuMaps.{read}
use truetop.Collector.Known.{Service}
use truetop.Collector.Recycled.{recycled_share}
use truetop.Collector.Reaper.{reap, reap_rounds, from_bytes, close}
use truetop.Collector.Backend.{Moment, tick}
use truetop.Collector.Selection.{by_sorting}
use truetop.Collector.Examples.{collector}
use truetop.Collector.ShareExamples.{answers, one_cpu, entries, entries-Walk, at_tick, row}

-- The process has ended, and another runs under its id from 180 to 280.
abbrev idle_cpu : Schedule
idle_cpu c = record { tid = 0; tgid = 0; since = 150 }

abbrev last_clocks : Clocks
last_clocks = record { start_time = λ c. 150; cpu_ns = (10, λ c. 50) ∷ []; current_tgid = λ c. 0 }

abbrev again : List Switch
again =
    record { cpu = 0; next_tid = 14; next_tgid = 10; now = 180 }
    ∷ record { cpu = 0; next_tid = 0; next_tgid = 0; now = 280 }
    ∷ []

abbrev at_exit : Moment
at_exit = record (at_tick 1000 50) { exits = (10 ∷ 0 ∷ 0 ∷ 0 ∷ []) ∷ [] }

abbrev dropped : Clocks
dropped = record last_clocks {
  cpu_ns = (tick whole by_sorting (λ s. s) (λ s. none) collector at_exit).2.cpu_ns;
}

last_service : Service 1 last_clocks.cpu_ns
unfolding lookup
last_service = record {
  fuel = 1;
  sys = answers 50;
  reader = one_cpu;
  chunks = entries 50;
  walk = entries-Walk 50;
  enough = omega arith;
  serves = record { distinct = (refl, tt); contents = λ k. ground arith };
}

again_service : Service 1 (run keep_all idle_cpu again dropped).cpu_ns
unfolding run cpu_switch charge_out mark_in bill lru_insert lookup insert saturating_add has tick
    reap reap_rounds from_bytes close remove
again_service = record {
  fuel = 1;
  sys = answers 100;
  reader = one_cpu;
  chunks = entries 100;
  walk = entries-Walk 100;
  enough = omega arith;
  serves = record { distinct = (refl, tt); contents = λ k. ground arith };
}

-- The name went with the process that was reaped.
abbrev recycled_row : ProcessMetrics ℕ
recycled_row = record row {
  name = codes "<unknown>";
  user = none;
  cpu = record { cpu_percent = 50 };
}

recycled_share_example : recycled_row.cpu.cpu_percent ≡ 50
unfolding run cpu_switch charge_out mark_in bill lru_insert lookup insert saturating_add has tick
    reap reap_rounds from_bytes close remove read last_service again_service cpu_deltas
    iowait_deltas elapsed_ns_since named trim sum_per_cpu fold for_pid
recycled_share_example =
    recycled_share whole by_sorting (λ s. s) (λ s. none) collector at_exit (at_tick 1130 100)
      recycled_row keep_all idle_cpu again last_clocks 1 10 170 300 1000 1130 last_service
      again_service refl refl refl refl refl (omega arith) keep_all-Keeps
      (record { start = λ c ne. refl; current = λ c. refl })
      (record {
        idle = λ c h. refl;
        idle_later = λ c h. ground arith;
        started = λ c. omega arith;
        order = omega arith;
        last = omega arith;
      })
      (λ j. ground arith) (omega arith) (omega arith) (omega arith) refl
