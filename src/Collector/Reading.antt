-- ===== src/Collector/Reading.antt =====
-- A read of the CPU counter (truetop/src/cpu_maps.rs) against the time for which the scheduler ran
-- each process, from the programs (truetop-ebpf/src/cpu.rs) to the collector.
use truetop.Common.{
  ℕ, zero, suc, ◌+◌, ◌-◌, ◌%◌, ◌≤◌, ◌<◌, ◌≡◌, refl, ap, ◌∙◌, ◌≢◌, ◌&&◌, not, Option, none, some,
  List, [], ◌∷◌, arith, Dict, lookup, lookup-insert, IsDistinct, length, sum, ◌==◌, if◌then◌else◌,
  u64_mod, Option-cases, inl, inr,
}
use truetop.Kernel.Maps.{Slots, Policy}
use truetop.Kernel.Cpu.{Clocks}
use truetop.Kernel.Charge.{
  Switch, Schedule, ran, run, ends, IsStamped, run-IsStamped, slot, Keeps, slot-run,
}
use truetop.Collector.Batch.{LookupBatch, BatchReader, done}
use truetop.Collector.Totals.{
  Entry, Walk, concat, totals_of, totals_of_all, sum_per_cpu-Walk, lookup-totals_of,
  totals_of_all-concat,
}
use truetop.Collector.CpuMaps.{add_entry, add_slices, read}

-- The values of `f` at `i`, ..., `i + n - 1`.
abbrev pub tabulate : ℕ → ℕ → (ℕ → ℕ) → List ℕ
tabulate i zero f = []
tabulate i (suc n) f = f i ∷ tabulate (i + 1) n f

abbrev pub total_of : ℕ → Dict ℕ → ℕ
total_of g m = elim (lookup g m) [ some total ↦ total | none ↦ 0 ]

-- How long the thread on CPU `c` has run by `now`, if it is one of process `g`.
abbrev pub inflight : Schedule → ℕ → ℕ → ℕ → ℕ
inflight w g now c =
    let r = w c in
    if r.tgid == g && (not (r.tid == 0) && not (r.since == 0)) then now - r.since else 0

-- Only the idle thread has process id 0.
abbrev pub IdleIsZero : Schedule → Type 0
IdleIsZero w = (c : ℕ) → (w c).tid ≡ 0 → (w c).tgid ≡ 0

add_entry_total :
    (tgid t g : ℕ) (m : Dict ℕ)
    → total_of g m + (if tgid == g then t else 0) < u64_mod
    → total_of g (add_entry tgid t m) ≡ total_of g m + (if tgid == g then t else 0)
unfolding add_entry
add_entry_total tgid t g m b =
    ground
      (arith, lookup-insert tgid g t m, lookup-insert tgid g ((total_of tgid m + t) % u64_mod) m)

module _ (w : Schedule) (s : Clocks) (g now : ℕ) (stamped : IsStamped w s) (idle : IdleIsZero w)
    (gz : g ≢ 0) where
  add_slices_total :
      (n i : ℕ) (m : Dict ℕ)
      → total_of g m + sum (tabulate i n (inflight w g now)) < u64_mod
      → total_of g (add_slices now (tabulate i n s.current_tgid) (tabulate i n s.start_time) m)
        ≡ total_of g m + sum (tabulate i n (inflight w g now))
  unfolding add_slices
  add_slices_total zero i m b = omega arith
  add_slices_total (suc n) i m b = ground (
    arith,
    stamped.start i,
    stamped.current i,
    idle i,
    add_entry_total (s.current_tgid i) (now - s.start_time i) g m,
    add_slices_total n (i + 1) m,
    add_slices_total n (i + 1) (add_entry (s.current_tgid i) (now - s.start_time i) m),
  )

pub sum-tabulate_cong :
    (n i : ℕ) (f h : ℕ → ℕ) → ((c : ℕ) → f c ≡ h c) → sum (tabulate i n f) ≡ sum (tabulate i n h)
sum-tabulate_cong zero i f h e = refl
sum-tabulate_cong (suc n) i f h e = omega (arith, e i, sum-tabulate_cong n (i + 1) f h e)

pub sum-tabulate-add :
    (n i : ℕ) (f h : ℕ → ℕ)
    → sum (tabulate i n (λ c. f c + h c)) ≡ sum (tabulate i n f) + sum (tabulate i n h)
sum-tabulate-add zero i f h = omega arith
sum-tabulate-add (suc n) i f h = omega (arith, sum-tabulate-add n (i + 1) f h)

sum-tabulate_zero : (n i : ℕ) → sum (tabulate i n (λ c. 0)) ≡ 0
sum-tabulate_zero zero i = refl
sum-tabulate_zero (suc n) i = omega (arith, sum-tabulate_zero n (i + 1))

abbrev pub rows : ℕ → Option Slots → Option (List ℕ)
rows n none = none
rows n (some slots) = some (tabulate 0 n slots)

-- The kernel serves each key once, with its slot for every possible CPU.
pub record Serves (n : ℕ) (es : List Entry) (m : Dict Slots) : Type 0 where
  pub distinct : IsDistinct es
  pub contents : (k : ℕ) → lookup k es ≡ rows n (lookup k m)

pub total_of_served :
    (n g : ℕ) (es : List Entry) (m : Dict Slots)
    → Serves n es m
    → sum (tabulate 0 n (λ c. slot c g m)) < u64_mod
    → total_of g (totals_of es []) ≡ sum (tabulate 0 n (λ c. slot c g m))
total_of_served n g es m h b = elim (Option-cases (lookup g m)) [
  | inl e ↦
      let zeros : sum (tabulate 0 n (λ c. slot c g m)) ≡ sum (tabulate 0 n (λ c. 0)) =
        sum-tabulate_cong n 0 _ _ (λ c. rw (e, slot)) in
      let missing : lookup g es ≡ none = h.contents g ∙ ap (rows n) e in
      let found : lookup g (totals_of es []) ≡ none =
        lookup-totals_of g es [] h.distinct ∙ (rw missing (unfold lookup in refl)) in
      rw (found, total_of) (omega (arith, zeros, sum-tabulate_zero n 0))
  | inr (slots, e) ↦
      let same : sum (tabulate 0 n (λ c. slot c g m)) ≡ sum (tabulate 0 n slots) =
        sum-tabulate_cong n 0 _ _ (λ c. rw (e, slot)) in
      let present : lookup g es ≡ some (tabulate 0 n slots) = h.contents g ∙ ap (rows n) e in
      let found : lookup g (totals_of es []) ≡ some (sum (tabulate 0 n slots) % u64_mod) =
        lookup-totals_of g es [] h.distinct ∙ (rw present) in
      rw (found, total_of) (omega (arith, same))
]

-- From stamps that agree with the schedule, a read gives for a process what the slots hold and what
-- is still running.
pub read_total :
    (w : Schedule) (s : Clocks) (n g now fuel : ℕ) (sys : LookupBatch) (r : BatchReader)
    (chunks : List (List Entry))
    → IsStamped w s
    → IdleIsZero w
    → g ≢ 0
    → sum (tabulate 0 n (λ c. slot c g s.cpu_ns)) + sum (tabulate 0 n (inflight w g now)) < u64_mod
    → Walk sys r.nr_cpus none chunks
    → length chunks ≤ fuel
    → Serves n (concat chunks) s.cpu_ns
    → (by_pid : Dict ℕ) × (read fuel sys r
          (some (tabulate 0 n s.current_tgid))
          (some (tabulate 0 n s.start_time))
          now
        ≡ done by_pid)
      × (total_of g by_pid
          ≡ sum (tabulate 0 n (λ c. slot c g s.cpu_ns)) + sum (tabulate 0 n (inflight w g now)))
unfolding read
read_total w s n g now fuel sys r chunks stamped idle gz b walk enough served =
    let totals = totals_of_all chunks [] in
    let accumulated : total_of g totals ≡ sum (tabulate 0 n (λ c. slot c g s.cpu_ns)) =
      rw (totals_of_all-concat chunks [])
        (total_of_served n g (concat chunks) s.cpu_ns served (omega (arith, b))) in
    (
      add_slices now (tabulate 0 n s.current_tgid) (tabulate 0 n s.start_time) totals,
      rw (sum_per_cpu-Walk r fuel walk enough, read) refl,
      add_slices_total w s g now stamped idle gz n 0 totals (omega (arith, accumulated, b))
          ∙ omega (arith, accumulated),
    )

-- From an empty counter and stamps that agree with the schedule, with counters that are not
-- evicted and fit 64 bits, only the idle thread under process 0, and a kernel that serves each key
-- once, a read of the CPU counter ends, and gives for each process but 0 exactly the time that its
-- threads have run on all possible CPUs, the slices that are still running included.
pub read_exact :
    (room : Policy Slots) (w : Schedule) (es : List Switch) (s : Clocks) (n g now fuel : ℕ)
    (sys : LookupBatch) (r : BatchReader) (chunks : List (List Entry))
    → Keeps room
    → IsStamped w s
    → s.cpu_ns ≡ []
    → IdleIsZero (ends w es)
    → g ≢ 0
    → sum (tabulate 0 n (λ c. ran w c g es + inflight (ends w es) g now c)) < u64_mod
    → ((c : ℕ) → ran w c g es < u64_mod)
    → Walk sys r.nr_cpus none chunks
    → length chunks ≤ fuel
    → Serves n (concat chunks) (run room w es s).cpu_ns
    → (by_pid : Dict ℕ) × (read fuel sys r
          (some (tabulate 0 n (run room w es s).current_tgid))
          (some (tabulate 0 n (run room w es s).start_time))
          now
        ≡ done by_pid)
      × (total_of g by_pid ≡ sum (tabulate 0 n (λ c. ran w c g es + inflight (ends w es) g now c)))
read_exact room w es s n g now fuel sys r chunks keeps stamped empty idle gz b each walk enough
      served =
    let k = run room w es s in
    let split = sum-tabulate-add n 0 (λ c. ran w c g es) (inflight (ends w es) g now) in
    let zero_slot : (c : ℕ) → slot c g s.cpu_ns ≡ 0 = λ c. rw empty (unfold lookup in refl) in
    let charged : sum (tabulate 0 n (λ c. slot c g k.cpu_ns))
        ≡ sum (tabulate 0 n (λ c. ran w c g es)) =
      sum-tabulate_cong n 0 _ _ (λ c. omega (
        arith,
        slot-run room keeps w es s c g stamped (omega (arith, zero_slot c, each c)),
        zero_slot c,
      )) in
    let (by_pid, answer, total) =
      read_total (ends w es) k n g now fuel sys r chunks (run-IsStamped room w es s stamped) idle gz
        (omega (arith, charged, split, b)) walk enough served in
    (by_pid, answer, total ∙ omega (arith, charged, split))
