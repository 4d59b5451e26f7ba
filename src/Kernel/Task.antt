-- ===== src/Kernel/Task.antt =====
-- truetop-ebpf/src/task.rs: reads of a `task_struct` through offsets that user space injects.
use truetop.Common.{ℕ, ◌+◌, ◌==◌, if◌then◌else◌, none, some, Bool, false, Option, low_u32, high_u32}

-- `bpf_probe_read_kernel` at the three widths that the programs read; `none` is a fault.
pub record Memory : Type 0 where
  pub read_u32 : ℕ → Option ℕ
  pub read_u64 : ℕ → Option ℕ
  pub read_ptr : ℕ → Option ℕ

-- The globals, and `cfg!(target_endian = "big")`.
pub record Globals : Type 0 where
  pub pid_offset : ℕ
  pub tgid_offset : ℕ
  pub state_offset : ℕ
  pub signal_offset : ℕ
  pub live_offset : ℕ
  pub cred_uid_offset : ℕ
  pub has_prev_state : ℕ
  pub is_big_endian : Bool

-- `unwrap_or(0)`.
abbrev pub or_zero : Option ℕ → ℕ
or_zero none = 0
or_zero (some v) = v

-- A task is its address, 0 for null.
unfoldable pub read_u32 : Memory → ℕ → ℕ → ℕ
read_u32 mem task offset = if task == 0 then 0 else or_zero (mem.read_u32 (task + offset))

unfoldable pub pid : Memory → Globals → ℕ → ℕ
unfolding read_u32
pid mem g task = read_u32 mem task g.pid_offset

unfoldable pub tgid : Memory → Globals → ℕ → ℕ
unfolding read_u32
tgid mem g task = read_u32 mem task g.tgid_offset

unfoldable pub state : Memory → Globals → ℕ → ℕ
unfolding read_u32
state mem g task = read_u32 mem task g.state_offset

unfoldable pub pid_and_tgid : Memory → Globals → ℕ → ℕ × ℕ
pid_and_tgid mem g task =
    let word = or_zero (mem.read_u64 (task + g.pid_offset)) in
    if task == 0
    then (0, 0)
    else if g.is_big_endian
    then (high_u32 word, low_u32 word)
    else (low_u32 word, high_u32 word)

-- The two reads behind `signal->live`; a fault or a null pointer answers `false`.
live_is_zero : Option ℕ → Bool
live_is_zero none = false
live_is_zero (some live) = live == 0

unfoldable pub group_is_dead : Memory → Globals → ℕ → Bool
unfolding live_is_zero
group_is_dead mem g task =
    if task == 0 then false else elim (mem.read_ptr (task + g.signal_offset)) [
      | none ↦ false
      | some signal ↦
          if signal == 0 then false else live_is_zero (mem.read_u32 (signal + g.live_offset))
    ]
