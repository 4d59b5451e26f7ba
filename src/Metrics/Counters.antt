-- ===== src/Metrics/Counters.antt =====
-- truetop/src/metrics/mod.rs, cpu.rs and iowait.rs: snapshots of a counter and their differences.
use truetop.Common.{ℕ, ◌-◌, Option, none, some, [], ◌∷◌, Dict, lookup, if◌then◌else◌}
use truetop.Common.Text.{Text}
use truetop.Common.Float.{F64, zero_f}

pub record CpuMetrics (F : Type 0) : Type 0 where
  pub cpu_percent : F

pub record MemMetrics : Type 0 where
  pub rss_bytes : ℕ

pub record IoMetrics (F : Type 0) : Type 0 where
  pub io_wait_percent : F

pub record ProcessMetrics (F : Type 0) : Type 0 where
  pub pid : ℕ
  pub name : Text
  pub user : Option Text
  pub cpu : CpuMetrics F
  pub mem : Option MemMetrics
  pub io : Option (IoMetrics F)

-- An `Instant` is in nanoseconds.
pub record Snapshot : Type 0 where
  pub at : Option ℕ
  pub by_pid : Dict ℕ

abbrev pub default_snapshot : Snapshot
default_snapshot = record { at = none; by_pid = [] }

pub record CpuCollector : Type 0 where
  pub prev : Snapshot

pub record IoWaitCollector : Type 0 where
  pub prev : Snapshot

abbrev pub new_cpu : CpuCollector
new_cpu = record { prev = default_snapshot }

abbrev pub new_iowait : IoWaitCollector
new_iowait = record { prev = default_snapshot }

module _ (f64 : F64) where
  open f64 use {F, of_nat, literal, mul, div, lt}

  -- `duration_since` saturates at zero.
  unfoldable pub elapsed_ns_since : Snapshot → Snapshot → F
  elapsed_ns_since current prev = elim current.at [
    | none ↦ zero_f f64
    | some now ↦ elim prev.at [ none ↦ zero_f f64 | some was ↦ of_nat (now - was) ]
  ]

  -- `total.saturating_sub(was) as f64 / elapsed_ns * 100.0`.
  abbrev pub percent : ℕ → ℕ → F → F
  percent total was elapsed_ns = mul (div (of_nat (total - was)) elapsed_ns) (literal 100 0)

  abbrev pub cpu_percent_of : Option ℕ → ℕ → F → F
  cpu_percent_of none total elapsed_ns = zero_f f64
  cpu_percent_of (some was) total elapsed_ns =
      if lt (zero_f f64) elapsed_ns then percent total was elapsed_ns else zero_f f64

  unfoldable pub cpu_rows : Dict ℕ → F → Dict ℕ → Dict F
  cpu_rows prev elapsed_ns [] = []
  cpu_rows prev elapsed_ns ((pid, total) ∷ rows) =
      (pid, cpu_percent_of (lookup pid prev) total elapsed_ns) ∷ cpu_rows prev elapsed_ns rows

  -- `CpuCollector::deltas`, with the collector that it leaves.
  unfoldable pub cpu_deltas : CpuCollector → Snapshot → Dict F × CpuCollector
  unfolding elapsed_ns_since cpu_rows
  cpu_deltas c current = (
    cpu_rows c.prev.by_pid (elapsed_ns_since current c.prev) current.by_pid,
    record { prev = current },
  )

  abbrev pub prepend : ℕ → Option F → Dict F → Dict F
  prepend pid none rows = rows
  prepend pid (some v) rows = (pid, v) ∷ rows

  abbrev pub iowait_percent_of : Option ℕ → ℕ → F → Option F
  iowait_percent_of none now elapsed_ns = none
  iowait_percent_of (some was) now elapsed_ns = some (percent now was elapsed_ns)

  unfoldable pub iowait_rows : Dict ℕ → F → Dict ℕ → Dict F
  iowait_rows prev elapsed_ns [] = []
  iowait_rows prev elapsed_ns ((pid, now) ∷ rows) =
      prepend pid (iowait_percent_of (lookup pid prev) now elapsed_ns)
        (iowait_rows prev elapsed_ns rows)

  -- `IoWaitCollector::deltas`.
  unfoldable pub iowait_deltas : IoWaitCollector → Snapshot → Dict F × IoWaitCollector
  unfolding elapsed_ns_since iowait_rows
  iowait_deltas c current =
      let elapsed_ns = elapsed_ns_since current c.prev in
      (
        if lt (zero_f f64) elapsed_ns
            then iowait_rows c.prev.by_pid elapsed_ns current.by_pid
            else [],
        record { prev = current },
      )
