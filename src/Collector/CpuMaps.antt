-- ===== src/Collector/CpuMaps.antt =====
-- truetop/src/cpu_maps.rs: the CPU counter, corrected for the threads that run when it is read.
use truetop.Common.{
  ℕ, ◌+◌, ◌-◌, ◌*◌, ◌%◌, ◌&&◌, not, List, [], ◌∷◌, Dict, lookup, insert, Option, none, some, ltb,
  ◌==◌, if◌then◌else◌, u64_mod,
}
use truetop.Collector.Batch.{
  LookupBatch, BatchReader, Outcome, done, panics, out_of_fuel, sum_per_cpu,
}

-- `CLOCK_MONOTONIC` in nanoseconds.
unfoldable pub monotonic_ns : (tv_sec tv_nsec : ℕ) → ℕ
monotonic_ns tv_sec tv_nsec = (tv_sec * 1000000000 + tv_nsec) % u64_mod

-- `*by_pid.entry(tgid).or_insert(0) += slice`, wrapping as a release build does.
unfoldable pub add_entry : ℕ → ℕ → Dict ℕ → Dict ℕ
add_entry tgid slice by_pid = elim (lookup tgid by_pid) [
  | some total ↦ insert tgid ((total + slice) % u64_mod) by_pid
  | none ↦ insert tgid slice by_pid
]

-- The loop over `tgids.iter().zip(starts.iter())`.
unfoldable pub add_slices : ℕ → List ℕ → List ℕ → Dict ℕ → Dict ℕ
unfolding add_entry
add_slices now [] starts by_pid = by_pid
add_slices now (tgid ∷ tgids) [] by_pid = by_pid
add_slices now (tgid ∷ tgids) (start ∷ starts) by_pid = add_slices now tgids starts (
    if not (tgid == 0) && (not (start == 0) && ltb start now)
    then add_entry tgid (now - start) by_pid
    else by_pid)

-- `none` is a failed read of the array, for which nothing is corrected.
unfoldable pub add_inflight : Option (List ℕ) → Option (List ℕ) → ℕ → Dict ℕ → Dict ℕ
unfolding add_slices
add_inflight (some tgids) (some starts) now by_pid = add_slices now tgids starts by_pid
add_inflight (some tgids) none now by_pid = by_pid
add_inflight none starts now by_pid = by_pid

-- `CpuMaps::read` without its time stamp: the batched counter, then the correction.
unfoldable pub read :
    ℕ → LookupBatch → BatchReader → Option (List ℕ) → Option (List ℕ) → ℕ → Outcome (Dict ℕ)
unfolding sum_per_cpu add_inflight
read fuel sys r tgids starts now = elim (sum_per_cpu fuel sys r) [
  | done by_pid ↦ done (add_inflight tgids starts now by_pid)
  | panics ↦ panics
  | out_of_fuel ↦ out_of_fuel
]
