-- ===== src/Collector/WaitShares.antt =====
-- From the scheduler's edges to the screen's rows: two reads of the I/O-wait counter (truetop/src/batch.rs),
-- the tick at each (truetop/src/backend.rs), and the programs between them (truetop-ebpf/src/iowait.rs).
use truetop.Common.{
  ℕ, ◌+◌, ◌-◌, ◌<◌, ◌≡◌, ◌≢◌, refl, ap, sym, ◌∙◌, false, Option, none, some, List, [], ◌∷◌, arith,
  Dict, lookup, take, sum, contains, if◌then◌else◌, u64_mod, Bool-cases, inl, inr, IsDistinct,
  insert-IsDistinct,
}
use truetop.Common.Text.{Text}
use truetop.Common.Float.{F64, zero_f}
use truetop.Kernel.Maps.{Slots, Policy}
use truetop.Kernel.Charge.{slot, Keeps}
use truetop.Kernel.Iowait.{Sleeps}
use truetop.Kernel.Sleep.{Edge, steps}
use truetop.Kernel.Waits.{Asleep, waited, Agrees, HasRoom, slot-steps}
use truetop.Metrics.Counters.{IoMetrics, ProcessMetrics, elapsed_ns_since}
use truetop.Metrics.Rates.{iowait_reading, iowait_deltas_lem}
use truetop.Collector.Batch.{Outcome, done, sum_per_cpu}
use truetop.Collector.Totals.{
  Entry, totals_of, totals_of_all, sum_per_cpu-Walk, totals_of_all-concat, concat,
}
use truetop.Collector.Reading.{
  tabulate, total_of, total_of_served, sum-tabulate_cong, sum-tabulate-add,
}
use truetop.Collector.Reaper.{budget}
use truetop.Collector.Reaping.{announced}
use truetop.Collector.Backend.{io_snap, SelectNth, Collector, Moment, enrich, io_metrics, tick}
use truetop.Collector.Known.{Service, lookup-total_of, done-injective, slot_kept}
use truetop.Collector.Rows.{
  row_of, published, next, row_of-tick, kept-tick, prev-tick, elapsed_between,
}

-- The read of a counter.
abbrev pub counter_of : {n : ℕ} {m : Dict Slots} → Service n m → Outcome (Dict ℕ)
counter_of v = sum_per_cpu v.fuel v.sys v.reader

totals_of-IsDistinct :
    (es : List Entry) (totals : Dict ℕ) → IsDistinct totals → IsDistinct (totals_of es totals)
totals_of-IsDistinct [] totals d = d
totals_of-IsDistinct ((k, slots) ∷ es) totals d =
    totals_of-IsDistinct es _ (insert-IsDistinct k _ totals d)

-- What a read says of a process, and that it names none twice.
counter_total :
    {n : ℕ} {m : Dict Slots} (v : Service n m) (g : ℕ) (by_pid : Dict ℕ)
    → sum (tabulate 0 n (λ c. slot c g m)) < u64_mod
    → counter_of v ≡ done by_pid
    → (total_of g by_pid ≡ sum (tabulate 0 n (λ c. slot c g m))) × IsDistinct by_pid
counter_total {n} {m} v g by_pid b answer =
    let same : totals_of_all v.chunks [] ≡ by_pid =
      done-injective (sym (sum_per_cpu-Walk v.reader v.fuel v.walk v.enough) ∙ answer) in
    let flat : totals_of (concat v.chunks) [] ≡ by_pid =
      sym (totals_of_all-concat v.chunks []) ∙ same in
    rw (← flat) (
      total_of_served n g (concat v.chunks) m v.serves b,
      totals_of-IsDistinct (concat v.chunks) [] tt,
    )

module _ (f64 : F64) (select_nth : SelectNth f64.F) (from_utf8_lossy : List ℕ → Text)
    (parse_f64 : Text → Option f64.F) where
  open f64 use {F, of_nat, literal, mul, div, lt}

  -- A share of an interval in which time has passed, in percent.
  abbrev pub wait_share : ℕ → ℕ → Option (IoMetrics F)
  wait_share waited_ns elapsed_ns =
      if lt (zero_f f64) (of_nat elapsed_ns)
      then some (record {
        io_wait_percent = mul (div (of_nat waited_ns) (of_nat elapsed_ns)) (literal 100 0);
      })
      else none

  row_io :
      (c : Collector F) (m : Moment) (g : ℕ) (p : ProcessMetrics F)
      → row_of g (published f64 select_nth from_utf8_lossy parse_f64 c m).processes ≡ some p
      → IsDistinct (io_snap m).by_pid
      → let e = elapsed_ns_since f64 (io_snap m) c.iowait.prev in
        p.io
        ≡ io_metrics f64 select_nth from_utf8_lossy parse_f64 (
            if lt (zero_f f64) e
            then iowait_reading f64 (lookup g (io_snap m).by_pid) (lookup g c.iowait.prev.by_pid) e
            else none)
  unfolding enrich
  row_io c m g p h d =
      ap (λ (q : ProcessMetrics F). q.io)
        (row_of-tick f64 select_nth from_utf8_lossy parse_f64 c m g p h)
      ∙ ap (io_metrics f64 select_nth from_utf8_lossy parse_f64)
          (iowait_deltas_lem f64 c.iowait (io_snap m) g d)

  reading_wait :
      (was waited_ns elapsed : ℕ)
      → io_metrics f64 select_nth from_utf8_lossy parse_f64 (
          if lt (zero_f f64) (of_nat elapsed)
          then iowait_reading f64 (some (was + waited_ns)) (some was) (of_nat elapsed)
          else none)
        ≡ wait_share waited_ns elapsed
  reading_wait was waited_ns elapsed =
      let grown : was + waited_ns - was ≡ waited_ns = omega arith in
      elim (Bool-cases (lt (zero_f f64) (of_nat elapsed))) [
        | inl p ↦ rw p (
            ap
              (λ d. some (record {
                io_wait_percent = mul (div (of_nat d) (of_nat elapsed)) (literal 100 0);
              }))
              grown)
        | inr p ↦ rw p refl
      ]

  -- Between two ticks that read the I/O-wait counter, with sleep stamps that agree with the
  -- sleepers at the first, maps that are not full, sums that fit 64 bits and a kernel that serves
  -- each key once: where the second snapshot has a row for a process but 0 that the first read
  -- knows of and the first tick does not reap, the I/O figure of the row is the share of the time
  -- between the ticks for which the process's threads slept that have woken on the possible CPUs
  -- since, if time has passed, and else there is none.
  pub published_wait :
      (c : Collector F) (m1 m2 : Moment) (p : ProcessMetrics F) (room : Policy Slots) (capacity : ℕ)
      (a : Asleep) (es : List Edge) (s : Sleeps) (n g t1 t2 : ℕ)
      → let books = (tick f64 select_nth from_utf8_lossy parse_f64 c m1).2 in
        let s' = record s { iowait_ns = books.iowait_ns } in
        (v1 : Service n s.iowait_ns) (v2 : Service n (steps room capacity es s').iowait_ns)
        → m1.iowait_ns ≡ s.iowait_ns
        → counter_of v1 ≡ done (io_snap m1).by_pid
        → counter_of v2 ≡ done (io_snap m2).by_pid
        → (io_snap m1).at ≡ some t1
        → (io_snap m2).at ≡ some t2
        → contains g (announced m1.is_big_endian (take budget m1.exits)) ≡ false
        → g ≢ 0
        → Keeps room
        → Agrees a s
        → HasRoom room capacity es s'
        → ((j : ℕ) → slot j g s.iowait_ns + waited j g a es < u64_mod)
        → sum (tabulate 0 n (λ j. slot j g s.iowait_ns)) + sum (tabulate 0 n (λ j. waited j g a es))
          < u64_mod
        → 0 < sum (tabulate 0 n (λ j. slot j g s.iowait_ns))
        → row_of g
            (published f64 select_nth from_utf8_lossy parse_f64
              (next f64 select_nth from_utf8_lossy parse_f64 c m1)
              m2).processes
          ≡ some p
        → p.io ≡ wait_share (sum (tabulate 0 n (λ j. waited j g a es))) (t2 - t1)
  published_wait c m1 m2 p room capacity a es s n g t1 t2 v1 v2 books read1 read2 at1 at2 alive gz
        keeps agrees free each fits seen shown =
      let s' : Sleeps = record s {
        iowait_ns = (tick f64 select_nth from_utf8_lossy parse_f64 c m1).2.iowait_ns;
      } in
      let kept : lookup g s'.iowait_ns ≡ lookup g s.iowait_ns =
        (kept-tick f64 select_nth from_utf8_lossy parse_f64 c m1 g alive).1 ∙ ap (lookup g) books in
      let grown : sum (tabulate 0 n (λ j. slot j g (steps room capacity es s').iowait_ns))
          ≡ sum (tabulate 0 n (λ j. slot j g s.iowait_ns))
            + sum (tabulate 0 n (λ j. waited j g a es)) =
        sum-tabulate_cong n 0 _ _ (λ j.
          let same = slot_kept j g s.iowait_ns s'.iowait_ns kept in
          slot-steps room capacity keeps j g gz a es s' agrees free (omega (arith, same, each j))
          ∙ ap (λ k. k + waited j g a es) same)
        ∙ sum-tabulate-add n 0 (λ j. slot j g s.iowait_ns) (λ j. waited j g a es) in
      let (was, distinct) = counter_total v1 g (io_snap m1).by_pid (omega (arith, fits)) read1 in
      let (total, distinct') =
        counter_total v2 g (io_snap m2).by_pid (omega (arith, fits, grown)) read2 in
      let before : lookup g (io_snap m1).by_pid
          ≡ some (sum (tabulate 0 n (λ j. slot j g s.iowait_ns))) =
        lookup-total_of g _ (omega (arith, was, seen)) ∙ ap some was in
      let after : lookup g (io_snap m2).by_pid
          ≡ some (
              sum (tabulate 0 n (λ j. slot j g s.iowait_ns))
              + sum (tabulate 0 n (λ j. waited j g a es))) =
        lookup-total_of g _ (omega (arith, total, grown, seen)) ∙ ap some (total ∙ grown) in
      row_io (next f64 select_nth from_utf8_lossy parse_f64 c m1) m2 g p shown distinct'
      ∙ (rw
          (
            (prev-tick f64 select_nth from_utf8_lossy parse_f64 c m1).1,
            before,
            after,
            elapsed_between f64 select_nth from_utf8_lossy parse_f64 (io_snap m1) (io_snap m2) t1 t2
                at1 at2,
          )
          (reading_wait (sum (tabulate 0 n (λ j. slot j g s.iowait_ns))) _ (t2 - t1)))
