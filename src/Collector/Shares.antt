-- ===== src/Collector/Shares.antt =====
-- From the scheduler to the screen's rows: two reads of the CPU counter (truetop/src/cpu_maps.rs), the
-- tick at each (truetop/src/backend.rs), and the programs between them (truetop-ebpf/src/cpu.rs).
use truetop.Common.{
  ℕ, ◌+◌, ◌-◌, ◌<◌, ◌≡◌, ◌≢◌, refl, ap, ◌∙◌, false, Option, some, List, arith, lookup, take, sum,
  contains, if◌then◌else◌, u64_mod, Bool-cases, inl, inr,
}
use truetop.Common.Text.{Text}
use truetop.Common.Float.{F64, zero_f}
use truetop.Kernel.Maps.{Slots, Policy}
use truetop.Kernel.Cpu.{Clocks}
use truetop.Kernel.Charge.{Switch, Schedule, ran, run, ends, IsStamped, run-IsStamped, slot, Keeps}
use truetop.Metrics.Counters.{ProcessMetrics, elapsed_ns_since, cpu_deltas}
use truetop.Metrics.Rates.{cpu_reading, lookup-cpu_rows}
use truetop.Collector.Batch.{done}
use truetop.Collector.Reading.{tabulate}
use truetop.Collector.Intervals.{ran_between}
use truetop.Collector.Reaper.{budget}
use truetop.Collector.Reaping.{announced}
use truetop.Collector.Backend.{cpu_snap, SelectNth, Collector, Moment, enrich, or_zero_f, tick}
use truetop.Collector.Known.{
  Service, read_of, known, lookup-total_of, read_of_total, IsTimed, known_later,
}
use truetop.Collector.Rows.{
  row_of, published, next, row_of-tick, kept-tick, prev-tick, elapsed_between,
}

module _ (f64 : F64) (select_nth : SelectNth f64.F) (from_utf8_lossy : List ℕ → Text)
    (parse_f64 : Text → Option f64.F) where
  open f64 use {F, of_nat, literal, mul, div, lt}

  -- A share of an interval, in percent.
  abbrev pub share : ℕ → ℕ → F
  share ran_ns elapsed_ns =
      if lt (zero_f f64) (of_nat elapsed_ns)
      then mul (div (of_nat ran_ns) (of_nat elapsed_ns)) (literal 100 0)
      else zero_f f64

  -- The CPU figure of a row, from the counts of this tick's read and of the last.
  pub row_cpu :
      (c : Collector F) (m : Moment) (g : ℕ) (p : ProcessMetrics F)
      → row_of g (published f64 select_nth from_utf8_lossy parse_f64 c m).processes ≡ some p
      → p.cpu.cpu_percent
        ≡ or_zero_f f64 select_nth from_utf8_lossy parse_f64 (
            cpu_reading f64
              (lookup g (cpu_snap m).by_pid)
              (lookup g c.cpu.prev.by_pid)
              (elapsed_ns_since f64 (cpu_snap m) c.cpu.prev))
  unfolding enrich cpu_deltas
  row_cpu c m g p h =
      let e = elapsed_ns_since f64 (cpu_snap m) c.cpu.prev in
      ap (λ (q : ProcessMetrics F). q.cpu.cpu_percent)
        (row_of-tick f64 select_nth from_utf8_lossy parse_f64 c m g p h)
      ∙ ap (or_zero_f f64 select_nth from_utf8_lossy parse_f64)
          (lookup-cpu_rows f64 g c.cpu.prev.by_pid e (cpu_snap m).by_pid)

  reading_share :
      (was total elapsed : ℕ)
      → or_zero_f f64 select_nth from_utf8_lossy parse_f64
          (cpu_reading f64 (some total) (some was) (of_nat elapsed))
        ≡ share (total - was) elapsed
  reading_share was total elapsed = elim (Bool-cases (lt (zero_f f64) (of_nat elapsed))) [
    | inl p ↦ rw p refl
    | inr p ↦ rw p refl
  ]

  -- A row of the second of two ticks, from the counts of both.
  pub row_between :
      (c : Collector F) (m1 m2 : Moment) (p : ProcessMetrics F) (g was total t1 t2 : ℕ)
      → lookup g (cpu_snap m1).by_pid ≡ some was
      → lookup g (cpu_snap m2).by_pid ≡ some total
      → (cpu_snap m1).at ≡ some t1
      → (cpu_snap m2).at ≡ some t2
      → row_of g
          (published f64 select_nth from_utf8_lossy parse_f64
            (next f64 select_nth from_utf8_lossy parse_f64 c m1)
            m2).processes
        ≡ some p
      → p.cpu.cpu_percent ≡ share (total - was) (t2 - t1)
  row_between c m1 m2 p g was total t1 t2 before after at1 at2 shown =
      row_cpu (next f64 select_nth from_utf8_lossy parse_f64 c m1) m2 g p shown
      ∙ (rw
          (
            (prev-tick f64 select_nth from_utf8_lossy parse_f64 c m1).0,
            before,
            after,
            elapsed_between f64 select_nth from_utf8_lossy parse_f64 (cpu_snap m1) (cpu_snap m2) t1
                t2 at1 at2,
          )
          (reading_share was total (t2 - t1)))

  -- Between two ticks that read the CPU counter, with stamps that agree with the schedule at the
  -- first read, counters that are neither evicted nor wrap, only the idle thread under process 0,
  -- slices that began before the first read, switches that come between the reads, and a kernel
  -- that serves each key once: where the second snapshot has a row for a process but 0 that the
  -- first read knows of and the first tick does not reap, the CPU figure of the row is the share
  -- of the time between the ticks for which the process's threads ran on the possible CPUs between
  -- the two reads.
  pub published_share :
      (c : Collector F) (m1 m2 : Moment) (p : ProcessMetrics F) (room : Policy Slots) (w : Schedule)
      (es : List Switch) (s : Clocks) (n g now later t1 t2 : ℕ)
      → let s' = record s {
        cpu_ns = (tick f64 select_nth from_utf8_lossy parse_f64 c m1).2.cpu_ns;
      } in
        let k = run room w es s' in
        (v1 : Service n s.cpu_ns) (v2 : Service n k.cpu_ns)
        → m1.cpu_ns ≡ s.cpu_ns
        → read_of n s v1 now ≡ done (cpu_snap m1).by_pid
        → read_of n k v2 later ≡ done (cpu_snap m2).by_pid
        → (cpu_snap m1).at ≡ some t1
        → (cpu_snap m2).at ≡ some t2
        → contains g (announced m1.is_big_endian (take budget m1.exits)) ≡ false
        → g ≢ 0
        → Keeps room
        → IsStamped w s
        → IsTimed w es now later
        → ((j : ℕ) → slot j g s.cpu_ns + ran w j g es < u64_mod)
        → known n w s g now + sum (tabulate 0 n (ran_between w g now later es)) < u64_mod
        → 0 < known n w s g now
        → row_of g
            (published f64 select_nth from_utf8_lossy parse_f64
              (next f64 select_nth from_utf8_lossy parse_f64 c m1)
              m2).processes
          ≡ some p
        → p.cpu.cpu_percent ≡ share (sum (tabulate 0 n (ran_between w g now later es))) (t2 - t1)
  published_share c m1 m2 p room w es s n g now later t1 t2 v1 v2 books read1 read2 at1 at2 alive gz
        keeps stamped timed each fits seen shown =
      let s' : Clocks = record s {
        cpu_ns = (tick f64 select_nth from_utf8_lossy parse_f64 c m1).2.cpu_ns;
      } in
      let stamped' : IsStamped w s' = record { start = stamped.start; current = stamped.current } in
      let was =
        read_of_total n w s v1 g now (cpu_snap m1).by_pid stamped timed.idle gz
          (omega (arith, fits)) read1 in
      let grown =
        known_later room n w s s' es g now later keeps stamped'
          ((kept-tick f64 select_nth from_utf8_lossy parse_f64 c m1 g alive).0
            ∙ ap (lookup g) books)
          timed each in
      let total =
        read_of_total n (ends w es) (run room w es s') v2 g later (cpu_snap m2).by_pid
          (run-IsStamped room w es s' stamped') timed.idle_later gz (omega (arith, fits, grown))
          read2 in
      let before : lookup g (cpu_snap m1).by_pid ≡ some (known n w s g now) =
        lookup-total_of g _ (omega (arith, was, seen)) ∙ ap some was in
      let after : lookup g (cpu_snap m2).by_pid
          ≡ some (known n w s g now + sum (tabulate 0 n (ran_between w g now later es))) =
        lookup-total_of g _ (omega (arith, total, grown, seen)) ∙ ap some (total ∙ grown) in
      row_between c m1 m2 p g _ _ t1 t2 before after at1 at2 shown
      ∙ ap (λ d. share d (t2 - t1)) (omega arith)
