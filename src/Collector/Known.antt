-- ===== src/Collector/Known.antt =====
-- What two reads of the CPU counter (truetop/src/cpu_maps.rs) say of a process, with the programs between
-- them (truetop-ebpf/src/cpu.rs).
use truetop.Common.{
  ℕ, ◌+◌, ◌≤◌, ◌<◌, ◌≡◌, ◌≢◌, refl, ap, sym, ◌∙◌, Option, none, some, List, All, arith, Dict,
  lookup, length, sum, u64_mod, Option-cases, inl, inr,
}
use truetop.Kernel.Maps.{Slots, Policy}
use truetop.Kernel.Cpu.{Clocks}
use truetop.Kernel.Charge.{Switch, Schedule, ran, run, ends, IsStamped, slot, Keeps, slot-run}
use truetop.Collector.Batch.{LookupBatch, BatchReader, Outcome, done}
use truetop.Collector.Totals.{Entry, Walk, concat}
use truetop.Collector.CpuMaps.{read}
use truetop.Collector.Reading.{
  tabulate, total_of, inflight, IdleIsZero, Serves, read_total, sum-tabulate_cong, sum-tabulate-add,
}
use truetop.Collector.Intervals.{ran_between, sum-ran_between}

-- How the kernel serves a map to one batched read, on `n` possible CPUs.
pub record Service (n : ℕ) (m : Dict Slots) : Type 0 where
  pub fuel : ℕ
  pub sys : LookupBatch
  pub reader : BatchReader
  pub chunks : List (List Entry)
  pub walk : Walk sys reader.nr_cpus none chunks
  pub enough : length chunks ≤ fuel
  pub serves : Serves n (concat chunks) m

-- The read of a state of the maps.
abbrev pub read_of : (n : ℕ) (s : Clocks) → Service n s.cpu_ns → ℕ → Outcome (Dict ℕ)
read_of n s v now =
    read v.fuel v.sys v.reader (some (tabulate 0 n s.current_tgid))
      (some (tabulate 0 n s.start_time)) now

-- The time of a process that the maps know of at `now`.
abbrev pub known : ℕ → Schedule → Clocks → ℕ → ℕ → ℕ
known n w s g now =
    sum (tabulate 0 n (λ c. slot c g s.cpu_ns)) + sum (tabulate 0 n (inflight w g now))

pub lookup-total_of : (g : ℕ) (m : Dict ℕ) → 0 < total_of g m → lookup g m ≡ some (total_of g m)
lookup-total_of g m h = elim (Option-cases (lookup g m)) [
  | inl e ↦ absurd (omega (arith, rw (e, total_of) at h))
  | inr (total, e) ↦ rw (e, total_of) refl
]

pub done-injective : {a b : Dict ℕ} → done a ≡ done b → a ≡ b
done-injective h = cc

pub slot_kept : (c g : ℕ) (m m' : Dict Slots) → lookup g m' ≡ lookup g m → slot c g m' ≡ slot c g m
slot_kept c g m m' h = ap (λ (o : Option Slots). elim o [ some total ↦ total c | none ↦ 0 ]) h

pub read_of_total :
    (n : ℕ) (w : Schedule) (s : Clocks) (v : Service n s.cpu_ns) (g now : ℕ) (by_pid : Dict ℕ)
    → IsStamped w s
    → IdleIsZero w
    → g ≢ 0
    → known n w s g now < u64_mod
    → read_of n s v now ≡ done by_pid
    → total_of g by_pid ≡ known n w s g now
read_of_total n w s v g now by_pid stamped idle gz b answer =
    let (by_pid', answer', total) =
      read_total w s n g now v.fuel v.sys v.reader v.chunks stamped idle gz b v.walk v.enough
        v.serves in
    ap (total_of g) (done-injective (sym answer ∙ answer')) ∙ total

-- The two reads in time: slices began before the first, and the switches between them are in between.
pub record IsTimed (w : Schedule) (es : List Switch) (now later : ℕ) : Type 0 where
  pub idle : IdleIsZero w
  pub idle_later : IdleIsZero (ends w es)
  pub started : (c : ℕ) → (w c).since ≤ now
  pub order : All (λ (e : Switch). now ≤ e.now) es
  pub last : now ≤ later

-- Time that passes between two states of the maps, of which the second is reached from the first, less
-- what it has reaped, by the switches between.
pub known_later :
    (room : Policy Slots) (n : ℕ) (w : Schedule) (s s' : Clocks) (es : List Switch)
    (g now later : ℕ)
    → Keeps room
    → IsStamped w s'
    → lookup g s'.cpu_ns ≡ lookup g s.cpu_ns
    → IsTimed w es now later
    → ((c : ℕ) → slot c g s.cpu_ns + ran w c g es < u64_mod)
    → known n (ends w es) (run room w es s') g later
      ≡ known n w s g now + sum (tabulate 0 n (ran_between w g now later es))
known_later room n w s s' es g now later keeps stamped kept timed each =
    let charged =
      sum-tabulate_cong n 0 (λ c. slot c g (run room w es s').cpu_ns)
        (λ c. slot c g s.cpu_ns + ran w c g es)
        (λ c.
          let same = slot_kept c g s.cpu_ns s'.cpu_ns kept in
          slot-run room keeps w es s' c g stamped (omega (arith, same, each c))
          ∙ omega (arith, same)) in
    omega (
      arith,
      charged,
      sum-tabulate-add n 0 (λ c. slot c g s.cpu_ns) (λ c. ran w c g es),
      sum-tabulate-add n 0 (λ c. ran w c g es) (inflight (ends w es) g later),
      sum-ran_between g n w es now later timed.started timed.order timed.last,
    )
