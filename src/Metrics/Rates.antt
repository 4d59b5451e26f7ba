-- ===== src/Metrics/Rates.antt =====
-- What the rates say (truetop/src/metrics/cpu.rs, iowait.rs): which processes have one, and when it
-- is zero.
use truetop.Common.{
  ℕ, ◌-◌, ◌≤◌, ◌≡◌, refl, ap, ◌∙◌, true, Option, none, some, [], ◌∷◌, arith, Dict, lookup, ◌==◌,
  ==_iff, IsDistinct, if◌then◌else◌, Bool-cases, inl, inr,
}
use truetop.Common.Float.{F64, zero_f}
use truetop.Metrics.Counters.{
  Snapshot, CpuCollector, IoWaitCollector, elapsed_ns_since, cpu_percent_of, cpu_rows, cpu_deltas,
  prepend, iowait_percent_of, iowait_rows, iowait_deltas,
}

module _ (f64 : F64) where
  open f64 use {F, of_nat, literal, mul, div, lt}

  -- The reading of a process: its counter, its counter a tick before, and the time between.
  abbrev pub cpu_reading : Option ℕ → Option ℕ → F → Option F
  cpu_reading none was elapsed_ns = none
  cpu_reading (some total) was elapsed_ns = some (cpu_percent_of f64 was total elapsed_ns)

  abbrev pub iowait_reading : Option ℕ → Option ℕ → F → Option F
  iowait_reading none was elapsed_ns = none
  iowait_reading (some now) was elapsed_ns = iowait_percent_of f64 was now elapsed_ns

  pub lookup-cpu_rows :
      (k : ℕ) (prev : Dict ℕ) (elapsed_ns : F) (rows : Dict ℕ)
      → lookup k (cpu_rows f64 prev elapsed_ns rows)
        ≡ cpu_reading (lookup k rows) (lookup k prev) elapsed_ns
  unfolding lookup cpu_rows
  lookup-cpu_rows k prev elapsed_ns [] = refl
  lookup-cpu_rows k prev elapsed_ns ((j, total) ∷ rows) = elim (Bool-cases (k == j)) [
    | inl e ↦ rw e (rw ((==_iff k j).0 e))
    | inr e ↦ rw e (lookup-cpu_rows k prev elapsed_ns rows)
  ]

  lookup-prepend :
      (k j : ℕ) (v : Option F) (rows : Dict F)
      → lookup j rows ≡ none
      → lookup k (prepend f64 j v rows) ≡ (if k == j then v else lookup k rows)
  unfolding lookup
  lookup-prepend k j none rows h = elim (Bool-cases (k == j)) [
    | inl e ↦ rw e (rw ((==_iff k j).0 e) h)
    | inr e ↦ rw e
  ]
  lookup-prepend k j (some v) rows h = refl

  pub lookup-iowait_rows :
      (k : ℕ) (prev : Dict ℕ) (elapsed_ns : F) (rows : Dict ℕ)
      → IsDistinct rows
      → lookup k (iowait_rows f64 prev elapsed_ns rows)
        ≡ iowait_reading (lookup k rows) (lookup k prev) elapsed_ns
  unfolding lookup iowait_rows
  lookup-iowait_rows k prev elapsed_ns [] d = refl
  lookup-iowait_rows k prev elapsed_ns ((j, now) ∷ rows) d =
      let absent : lookup j (iowait_rows f64 prev elapsed_ns rows) ≡ none =
        lookup-iowait_rows j prev elapsed_ns rows d.1
        ∙ ap (λ r. iowait_reading r (lookup j prev) elapsed_ns) d.0 in
      lookup-prepend k j (iowait_percent_of f64 (lookup j prev) now elapsed_ns) _ absent
      ∙ elim (Bool-cases (k == j)) [
        | inl e ↦ rw e (rw ((==_iff k j).0 e))
        | inr e ↦ rw e (lookup-iowait_rows k prev elapsed_ns rows d.1)
      ]

  -- Nothing over a positive time is nothing: in IEEE 754 it is, for a finite divisor.
  abbrev pub ZeroRate : Type 0
  ZeroRate =
      (e : F) → lt (zero_f f64) e ≡ true → mul (div (of_nat 0) e) (literal 100 0) ≡ zero_f f64

  -- A process whose CPU counter is new, or has not grown since the last tick, reads as 0, given
  -- that zero over a positive time is zero.
  cpu_reading_zero :
      (c : CpuCollector) (current : Snapshot) (k total : ℕ)
      → ZeroRate
      → lookup k current.by_pid ≡ some total
      → ((was : ℕ) → lookup k c.prev.by_pid ≡ some was → total ≤ was)
      → lookup k (cpu_deltas f64 c current).0 ≡ some (zero_f f64)
  unfolding cpu_deltas
  cpu_reading_zero c current k total zero_rate now back =
      let e = elapsed_ns_since f64 current c.prev in
      lookup-cpu_rows k c.prev.by_pid e current.by_pid
      ∙ ap (λ t. cpu_reading t (lookup k c.prev.by_pid) e) now
      ∙ ap some (reading (lookup k c.prev.by_pid) refl)
    where
      reading :
          (was : Option ℕ)
          → lookup k c.prev.by_pid ≡ was
          → cpu_percent_of f64 was total (elapsed_ns_since f64 current c.prev) ≡ zero_f f64
      reading none h = refl
      reading (some was) h =
          let none_left : total - was ≡ 0 = omega (arith, back was h) in
          elim (Bool-cases (lt (zero_f f64) (elapsed_ns_since f64 current c.prev))) [
            | inl p ↦
                let e = elapsed_ns_since f64 current c.prev in
                rw p (ap (λ d. mul (div (of_nat d) e) (literal 100 0)) none_left ∙ zero_rate e p)
            | inr p ↦ rw p
          ]

  -- For counters with distinct keys, a process has an I/O-wait reading exactly if time has passed
  -- and it has a counter in both ticks; the reading is its share of the interval.
  pub iowait_deltas_lem :
      (c : IoWaitCollector) (current : Snapshot) (k : ℕ)
      → IsDistinct current.by_pid
      → let e = elapsed_ns_since f64 current c.prev in
        lookup k (iowait_deltas f64 c current).0 ≡ (
          if lt (zero_f f64) e
          then iowait_reading (lookup k current.by_pid) (lookup k c.prev.by_pid) e
          else none)
  unfolding iowait_deltas
  iowait_deltas_lem c current k d =
      let e = elapsed_ns_since f64 current c.prev in
      elim (Bool-cases (lt (zero_f f64) e)) [
        | inl p ↦ rw p (lookup-iowait_rows k c.prev.by_pid e current.by_pid d)
        | inr p ↦ rw p (unfold lookup in refl)
      ]
