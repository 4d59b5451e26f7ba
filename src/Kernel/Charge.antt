-- ===== src/Kernel/Charge.antt =====
-- What the CPU counters hold, against the time for which the scheduler ran each process.
use truetop.Common.{
  ℕ, ◌+◌, ◌-◌, ◌≤◌, ◌<◌, ◌≡◌, ◌≢◌, inl, inr, none, some, List, [], ◌∷◌, arith, Dict, lookup,
  lookup-insert, saturating_add, saturating_add-le, saturating_add_exact, u64_mod, ◌==◌, not, ◌&&◌,
  if◌then◌else◌, Option-cases,
}
use truetop.Kernel.Maps.{
  Slots, write_slot, fresh_slots, Policy, Evicts, lru_insert, lookup-lru_insert,
}
use truetop.Kernel.Cpu.{Clocks, bill, charge_out, mark_in, cpu_switch}

-- The thread that a CPU runs, and since when; 0 if it ran before the program was attached.
pub record Running : Type 0 where
  pub tid : ℕ
  pub tgid : ℕ
  pub since : ℕ

-- A context switch on one CPU.
pub record Switch : Type 0 where
  pub cpu : ℕ
  pub next_tid : ℕ
  pub next_tgid : ℕ
  pub now : ℕ

-- What each CPU runs.
abbrev pub Schedule : Type 0
Schedule = ℕ → Running

abbrev pub after : Schedule → Switch → Schedule
after w e c =
    if e.cpu == c then record { tid = e.next_tid; tgid = e.next_tgid; since = e.now } else w c

-- Time that a switch adds to process `g` on CPU `c`.
abbrev pub slice : Schedule → ℕ → ℕ → Switch → ℕ
slice w c g e =
    let r = w e.cpu in
    if e.cpu == c && (r.tgid == g && (not (r.tid == 0) && not (r.since == 0)))
    then e.now - r.since
    else 0

-- The time that process `g` has run on CPU `c`, over a history.
abbrev pub ran : Schedule → ℕ → ℕ → List Switch → ℕ
ran w c g [] = 0
ran w c g (e ∷ es) = slice w c g e + ran (after w e) c g es

-- The program over the same history: at each switch `prev` is what the CPU ran.
unfoldable pub run : Policy Slots → Schedule → List Switch → Clocks → Clocks
run room w [] s = s
run room w (e ∷ es) s =
    let r = w e.cpu in
    run room (after w e) es (cpu_switch room e.cpu r.tid r.tgid e.next_tid e.next_tgid e.now s)

abbrev pub ends : Schedule → List Switch → Schedule
ends w [] = w
ends w (e ∷ es) = ends (after w e) es

-- The stamps agree with the schedule.
pub record IsStamped (w : Schedule) (s : Clocks) : Type 0 where
  pub start : (c : ℕ) → (w c).tid ≢ 0 → s.start_time c ≡ (w c).since
  pub current : (c : ℕ) → s.current_tgid c ≡ (w c).tgid

-- What CPU `c` holds for process `g`.
abbrev pub slot : ℕ → ℕ → Dict Slots → ℕ
slot c g m = elim (lookup g m) [ some total ↦ total c | none ↦ 0 ]

switch-IsStamped :
    (room : Policy Slots) (w : Schedule) (e : Switch) (s : Clocks)
    → IsStamped w s
    → IsStamped
        (after w e)
        (cpu_switch room e.cpu (w e.cpu).tid (w e.cpu).tgid e.next_tid e.next_tgid e.now s)
unfolding cpu_switch charge_out mark_in
switch-IsStamped room w e s h = record {
  start = λ c. ground (arith, h.start c);
  current = λ c. ground (arith, h.current c);
}

pub run-IsStamped :
    (room : Policy Slots) (w : Schedule) (es : List Switch) (s : Clocks)
    → IsStamped w s
    → IsStamped (ends w es) (run room w es s)
unfolding run
run-IsStamped room w [] s h = h
run-IsStamped room w (e ∷ es) s h =
    run-IsStamped room (after w e) es _ (switch-IsStamped room w e s h)

module _ (room : Policy Slots) (evicts : Evicts room) where
  pub bill-le :
      (cpu tgid t c g : ℕ) (m : Dict Slots)
      → slot c g (bill room cpu tgid t m) ≤ slot c g m + (if cpu == c && tgid == g then t else 0)
  unfolding bill
  bill-le cpu tgid t c g m = elim (Option-cases (lookup tgid m)) [
    | inl e ↦
        rw (e, bill) (ground (arith, e, lookup-lru_insert room evicts tgid g (fresh_slots cpu t) m))
    | inr (total, e) ↦
        rw (e, bill)
          (ground (
            arith,
            e,
            lookup-insert tgid g (write_slot cpu (saturating_add (total cpu) t) total) m,
            saturating_add-le (total cpu) t,
          ))
  ]

  switch-le :
      (w : Schedule) (e : Switch) (s : Clocks) (c g : ℕ)
      → IsStamped w s
      → slot c g
          (cpu_switch room e.cpu (w e.cpu).tid (w e.cpu).tgid e.next_tid e.next_tgid e.now s).cpu_ns
        ≤ slot c g s.cpu_ns + slice w c g e
  unfolding cpu_switch charge_out mark_in
  switch-le w e s c g h =
      ground (
        arith,
        h.start e.cpu,
        bill-le e.cpu (w e.cpu).tgid (e.now - s.start_time e.cpu) c g s.cpu_ns,
      )

  -- Over any history of context switches and whatever the kernel evicts, from stamps that agree
  -- with the schedule, a CPU's slot for a process gains no more than the time for which the
  -- process ran there.
  pub run-le :
      (w : Schedule) (es : List Switch) (s : Clocks) (c g : ℕ)
      → IsStamped w s
      → slot c g (run room w es s).cpu_ns ≤ slot c g s.cpu_ns + ran w c g es
  unfolding run
  run-le w [] s c g h = omega arith
  run-le w (e ∷ es) s c g h =
      omega
        (arith, switch-le w e s c g h, run-le (after w e) es _ c g (switch-IsStamped room w e s h))

-- The policy of a map that is not full.
abbrev pub Keeps : Policy Slots → Type 0
Keeps room = (k j : ℕ) (m : Dict Slots) → lookup j (room k m) ≡ lookup j m

module _ (room : Policy Slots) (keeps : Keeps room) where
  pub slot-bill :
      (cpu tgid t c g : ℕ) (m : Dict Slots)
      → slot c g m + (if cpu == c && tgid == g then t else 0) < u64_mod
      → slot c g (bill room cpu tgid t m) ≡ slot c g m + (if cpu == c && tgid == g then t else 0)
  unfolding bill lru_insert
  slot-bill cpu tgid t c g m b = elim (Option-cases (lookup tgid m)) [
    | inl e ↦
        rw (e, bill)
          (ground (
            arith,
            e,
            keeps tgid g m,
            lookup-insert tgid g (fresh_slots cpu t) m,
            lookup-insert tgid g (fresh_slots cpu t) (room tgid m),
          ))
    | inr (total, e) ↦
        rw (e, bill)
          (ground (
            arith,
            e,
            lookup-insert tgid g (write_slot cpu (saturating_add (total cpu) t) total) m,
            saturating_add_exact (total cpu) t,
          ))
  ]

  switch_slot :
      (w : Schedule) (e : Switch) (s : Clocks) (c g : ℕ)
      → IsStamped w s
      → slot c g s.cpu_ns + slice w c g e < u64_mod
      → slot c g
          (cpu_switch room e.cpu (w e.cpu).tid (w e.cpu).tgid e.next_tid e.next_tgid e.now s).cpu_ns
        ≡ slot c g s.cpu_ns + slice w c g e
  unfolding cpu_switch charge_out mark_in
  switch_slot w e s c g h b = ground (
    arith,
    h.start e.cpu,
    slot-bill e.cpu (w e.cpu).tgid (e.now - s.start_time e.cpu) c g s.cpu_ns,
  )

  -- Over any history of context switches from stamps that agree with the schedule, while the map
  -- is not full and the sum fits 64 bits, a CPU's slot for a process grows by exactly the time for
  -- which the process ran there.
  pub slot-run :
      (w : Schedule) (es : List Switch) (s : Clocks) (c g : ℕ)
      → IsStamped w s
      → slot c g s.cpu_ns + ran w c g es < u64_mod
      → slot c g (run room w es s).cpu_ns ≡ slot c g s.cpu_ns + ran w c g es
  unfolding run
  slot-run w [] s c g h b = omega arith
  slot-run w (e ∷ es) s c g h b =
      let step = switch_slot w e s c g h (omega arith) in
      omega
        (arith, step, slot-run (after w e) es _ c g (switch-IsStamped room w e s h) (omega arith))
