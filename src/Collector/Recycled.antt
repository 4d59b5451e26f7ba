-- ===== src/Collector/Recycled.antt =====
-- A process id that is used again after its process was reaped (truetop/src/metrics/cpu.rs, `deltas`,
-- and truetop/src/reaper.rs).
use truetop.Common.{
  ℕ, ◌+◌, ◌-◌, ◌<◌, ◌≡◌, ◌≢◌, refl, ap, ◌∙◌, true, Option, none, some, List, arith, Dict, lookup,
  take, sum, contains, u64_mod,
}
use truetop.Common.Text.{Text}
use truetop.Common.Float.{F64}
use truetop.Kernel.Maps.{Slots, Policy}
use truetop.Kernel.Cpu.{Clocks}
use truetop.Kernel.Charge.{Switch, Schedule, ran, run, ends, IsStamped, run-IsStamped, slot, Keeps}
use truetop.Metrics.Counters.{ProcessMetrics}
use truetop.Collector.Batch.{done}
use truetop.Collector.Reading.{tabulate, inflight, sum-tabulate_cong, sum-tabulate-add}
use truetop.Collector.Intervals.{ran_between}
use truetop.Collector.Reaper.{budget}
use truetop.Collector.Reaping.{announced}
use truetop.Collector.Backend.{cpu_snap, SelectNth, Collector, Moment, tick}
use truetop.Collector.Known.{
  Service, read_of, known, lookup-total_of, read_of_total, IsTimed, known_later,
}
use truetop.Collector.Rows.{row_of, published, next, dropped-tick}
use truetop.Collector.Shares.{share, row_between}

slot_gone : (c g : ℕ) (m : Dict Slots) → lookup g m ≡ none → slot c g m ≡ 0
slot_gone c g m h = ap (λ (o : Option Slots). elim o [ some total ↦ total c | none ↦ 0 ]) h

-- Of a process without a counter the maps know what runs.
known_gone :
    (n : ℕ) (w : Schedule) (s : Clocks) (g now : ℕ)
    → lookup g s.cpu_ns ≡ none
    → known n w s g now ≡ sum (tabulate 0 n (inflight w g now))
known_gone n w s g now gone = omega (
  arith,
  sum-tabulate_cong n 0 (λ c. slot c g s.cpu_ns) (λ c. 0) (λ c. slot_gone c g s.cpu_ns gone),
  sum-tabulate-add n 0 (λ c. 0) (λ c. 0),
)

module _ (f64 : F64) (select_nth : SelectNth f64.F) (from_utf8_lossy : List ℕ → Text)
    (parse_f64 : Text → Option f64.F) where
  -- Between two ticks that read the CPU counter, with stamps that agree with the schedule at the
  -- first read, counters that are neither evicted nor wrap, only the idle thread under process 0,
  -- slices that began before the first read, switches that come between the reads, and a kernel
  -- that serves each key once: where the second snapshot has a row for a process id but 0 that the
  -- first read knows of, that the first tick reaps and that runs again before the second read, the
  -- CPU figure of the row is the share of the time for which it ran on the possible CPUs between
  -- the two reads, less what its counter held at the first, and no less than nothing.
  pub recycled_share :
      (c : Collector f64.F) (m1 m2 : Moment) (p : ProcessMetrics f64.F) (room : Policy Slots)
      (w : Schedule) (es : List Switch) (s : Clocks) (n g now later t1 t2 : ℕ)
      → let s' = record s {
        cpu_ns = (tick f64 select_nth from_utf8_lossy parse_f64 c m1).2.cpu_ns;
      } in
        let k = run room w es s' in
        (v1 : Service n s.cpu_ns) (v2 : Service n k.cpu_ns)
        → read_of n s v1 now ≡ done (cpu_snap m1).by_pid
        → read_of n k v2 later ≡ done (cpu_snap m2).by_pid
        → (cpu_snap m1).at ≡ some t1
        → (cpu_snap m2).at ≡ some t2
        → contains g (announced m1.is_big_endian (take budget m1.exits)) ≡ true
        → g ≢ 0
        → Keeps room
        → IsStamped w s
        → IsTimed w es now later
        → ((j : ℕ) → ran w j g es < u64_mod)
        → known n w s g now + sum (tabulate 0 n (ran_between w g now later es)) < u64_mod
        → 0 < known n w s g now
        → 0 < sum (tabulate 0 n (ran_between w g now later es))
        → row_of g
            (published f64 select_nth from_utf8_lossy parse_f64
              (next f64 select_nth from_utf8_lossy parse_f64 c m1)
              m2).processes
          ≡ some p
        → p.cpu.cpu_percent
          ≡ share f64 select_nth from_utf8_lossy parse_f64
              (sum (tabulate 0 n (ran_between w g now later es))
                - sum (tabulate 0 n (λ j. slot j g s.cpu_ns)))
              (t2 - t1)
  recycled_share c m1 m2 p room w es s n g now later t1 t2 v1 v2 read1 read2 at1 at2 gone gz keeps
        stamped timed each fits seen runs shown =
      let s' : Clocks = record s {
        cpu_ns = (tick f64 select_nth from_utf8_lossy parse_f64 c m1).2.cpu_ns;
      } in
      let stamped' : IsStamped w s' = record { start = stamped.start; current = stamped.current } in
      let dropped : lookup g s'.cpu_ns ≡ none =
        dropped-tick f64 select_nth from_utf8_lossy parse_f64 c m1 g gone in
      let was =
        read_of_total n w s v1 g now (cpu_snap m1).by_pid stamped timed.idle gz
          (omega (arith, fits)) read1 in
      let grown =
        known_later room n w s' s' es g now later keeps stamped' refl timed
          (λ j. omega (arith, each j, slot_gone j g s'.cpu_ns dropped)) in
      let left = known_gone n w s' g now dropped in
      let total =
        read_of_total n (ends w es) (run room w es s') v2 g later (cpu_snap m2).by_pid
          (run-IsStamped room w es s' stamped') timed.idle_later gz
          (omega (arith, fits, grown, left)) read2 in
      let before = lookup-total_of g (cpu_snap m1).by_pid (omega (arith, was, seen)) in
      let after = lookup-total_of g (cpu_snap m2).by_pid (omega (arith, total, grown, runs)) in
      row_between f64 select_nth from_utf8_lossy parse_f64 c m1 m2 p g _ _ t1 t2 before after at1
        at2 shown
      ∙ ap (λ d. share f64 select_nth from_utf8_lossy parse_f64 d (t2 - t1))
          (omega (arith, was, total, grown, left))
