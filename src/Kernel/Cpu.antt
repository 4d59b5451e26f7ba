-- ===== src/Kernel/Cpu.antt =====
-- truetop-ebpf/src/cpu.rs: on-CPU time, charged by thread and accumulated by process.
use truetop.Common.{ℕ, ◌-◌, ◌==◌, if◌then◌else◌, none, some, Dict, lookup, insert, saturating_add}
use truetop.Kernel.Maps.{Slots, write_slot, fresh_slots, Policy, lru_insert}

-- The three maps; a slot of 0 in `start_time` means that nothing is stamped.
pub record Clocks : Type 0 where
  pub start_time : Slots
  pub cpu_ns : Dict Slots
  pub current_tgid : Slots

-- `match CPU_NS.get_ptr_mut(tgid)`: add in place on this CPU's slot, or insert.
unfoldable pub bill : Policy Slots → ℕ → ℕ → ℕ → Dict Slots → Dict Slots
bill room cpu tgid slice m = elim (lookup tgid m) [
  | some total ↦ insert tgid (write_slot cpu (saturating_add (total cpu) slice) total) m
  | none ↦ lru_insert room tgid (fresh_slots cpu slice) m
]

unfoldable pub charge_out : Policy Slots → ℕ → ℕ → ℕ → ℕ → Clocks → Clocks
charge_out room cpu tid tgid now s =
    let start = s.start_time cpu in
    if tid == 0
    then s
    else if start == 0
    then s
    else record s { cpu_ns = bill room cpu tgid (now - start) s.cpu_ns }

unfoldable pub mark_in : ℕ → ℕ → ℕ → ℕ → Clocks → Clocks
mark_in cpu tid tgid now s =
    let stamped : Slots = if tid == 0 then s.start_time else write_slot cpu now s.start_time in
    record s { start_time = stamped; current_tgid = write_slot cpu tgid s.current_tgid }

-- The two calls that `sched_switch` makes.
unfoldable pub cpu_switch : Policy Slots → ℕ → ℕ → ℕ → ℕ → ℕ → ℕ → Clocks → Clocks
cpu_switch room cpu prev_tid prev_tgid next_tid next_tgid now s =
    mark_in cpu next_tid next_tgid now (charge_out room cpu prev_tid prev_tgid now s)
