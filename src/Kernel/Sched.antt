-- ===== src/Kernel/Sched.antt =====
-- truetop-ebpf/src/sched.rs, lifecycle.rs and exit_notify.rs: the programs on the scheduler's
-- tracepoints over the whole of the programs' state.
use truetop.Common.{ℕ, ◌==◌, if◌then◌else◌, ltb, List, [], ◌∷◌, ◌++◌, length, low_u32, high_u32}
use truetop.Kernel.Maps.{Slots, Policy}
use truetop.Kernel.Cpu.{Clocks, charge_out, mark_in}
use truetop.Kernel.Iowait.{Sleeps, sleep_out, wake_in, forget_thread}
use truetop.Kernel.Task.{Memory, Globals, pid, tgid, state, pid_and_tgid, group_is_dead}

-- truetop-common/src/lib.rs: `ExitEvent`.
pub record ExitEvent : Type 0 where
  pub tgid : ℕ

pub record Kernel : Type 0 where
  pub clocks : Clocks
  pub sleeps : Sleeps
  pub exits : List ExitEvent  -- the ring, oldest first

-- The maps' sizes and eviction policies. `ring_room` is how many records the ring holds.
pub record Limits : Type 0 where
  pub cpu_room : Policy Slots
  pub iowait_room : Policy Slots
  pub max_sleepers : ℕ
  pub ring_room : ℕ

-- The arguments of one `sched_switch`: the helpers' answers, the task pointers `prev` and `next`,
-- and the fourth argument, which kernels from 5.18 on pass.
pub record SwitchContext : Type 0 where
  pub cpu : ℕ
  pub now : ℕ
  pub pid_tgid : ℕ
  pub prev : ℕ
  pub next : ℕ
  pub prev_state : ℕ

unfoldable pub prev_state_of : Memory → Globals → SwitchContext → ℕ
unfolding state
prev_state_of mem g ctx = if g.has_prev_state == 0 then state mem g ctx.prev else ctx.prev_state

unfoldable pub sched_switch : Limits → Memory → Globals → SwitchContext → Kernel → Kernel
unfolding prev_state_of
sched_switch limits mem g ctx k =
    let prev_tid = low_u32 ctx.pid_tgid in
    let prev_tgid = high_u32 ctx.pid_tgid in
    let (next_tid, next_tgid) = pid_and_tgid mem g ctx.next in
    let charged = charge_out limits.cpu_room ctx.cpu prev_tid prev_tgid ctx.now k.clocks in
    let slept = sleep_out limits.max_sleepers (prev_state_of mem g ctx) prev_tid ctx.now k.sleeps in
    record k {
      clocks = mark_in ctx.cpu next_tid next_tgid ctx.now charged;
      sleeps = wake_in limits.iowait_room ctx.cpu next_tgid next_tid ctx.now slept;
    }

-- A full ring drops the record.
unfoldable pub announce : ℕ → ℕ → List ExitEvent → List ExitEvent
announce ring_room tgid exits =
    if ltb (length exits) ring_room then exits ++ record { tgid = tgid } ∷ [] else exits

unfoldable pub sched_process_exit : Limits → Memory → Globals → ℕ → Kernel → Kernel
unfolding announce
sched_process_exit limits mem g task k =
    let tid = pid mem g task in
    let forgotten : Kernel = record k { sleeps = forget_thread tid k.sleeps } in
    if tid == 0
    then k
    else if group_is_dead mem g task
    then record forgotten { exits = announce limits.ring_room (tgid mem g task) k.exits }
    else forgotten
