-- ===== src/Kernel/Iowait.antt =====
-- truetop-ebpf/src/iowait.rs: time in uninterruptible (D-state) sleep, stamped at the switch-out
-- and charged to the process at the next switch-in. `capacity` is that of `SLEEP_SINCE`.
use Prim.Native.Nat.{bit_and}
use truetop.Common.{ℕ, ◌+◌, ◌-◌, ◌==◌, if◌then◌else◌, none, some, Bool, Dict, lookup, remove}
use truetop.Kernel.Maps.{Slots, Policy, hash_insert}
use truetop.Kernel.Cpu.{bill}

pub record Sleeps : Type 0 where
  pub sleep_since : Dict ℕ
  pub iowait_ns : Dict Slots

-- `state & (TASK_UNINTERRUPTIBLE | TASK_NOLOAD) == TASK_UNINTERRUPTIBLE`.
abbrev pub task_uninterruptible : ℕ
task_uninterruptible = 0x2

abbrev pub task_noload : ℕ
task_noload = 0x400

unfoldable pub is_uninterruptible : ℕ → Bool
is_uninterruptible state =
    bit_and state (task_uninterruptible + task_noload) == task_uninterruptible

unfoldable pub sleep_out : ℕ → ℕ → ℕ → ℕ → Sleeps → Sleeps
sleep_out capacity state tid now s =
    if tid == 0
    then s
    else if is_uninterruptible state
    then record s { sleep_since = hash_insert capacity tid now s.sleep_since }
    else s

-- `let Some(since) = SLEEP_SINCE.get(tid) else { return }`, then the removal and the charge. The
-- charge is the in-place add or insert of `cpu.rs`.
unfoldable pub wake_in : Policy Slots → ℕ → ℕ → ℕ → ℕ → Sleeps → Sleeps
wake_in room cpu tgid tid now s = if tid == 0 then s else elim (lookup tid s.sleep_since) [
  | none ↦ s
  | some since ↦
      let awake : Sleeps = record s { sleep_since = remove tid s.sleep_since } in
      if tgid == 0
      then awake
      else record awake { iowait_ns = bill room cpu tgid (now - since) s.iowait_ns }
]

unfoldable pub forget_thread : ℕ → Sleeps → Sleeps
forget_thread tid s = record s { sleep_since = remove tid s.sleep_since }
