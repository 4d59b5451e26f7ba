-- ===== src/Kernel/Reads.antt =====
-- Reads of task fields (truetop-ebpf/src/task.rs): the single 8-byte load, and the liveness test.
use truetop.Common.{
  ℕ, ◌+◌, ◌≡◌, ◌≢◌, ◌↔◌, Bool, true, some, arith, if◌then◌else◌, low_u32, high_u32,
}
use truetop.Kernel.Task.{Memory, Globals, pid, tgid, pid_and_tgid, group_is_dead}

-- An 8-byte read is two 4-byte reads of the machine's byte order.
abbrev pub Halves : Bool → Memory → Type 0
Halves big mem =
    (a w : ℕ)
    → mem.read_u64 a ≡ some w
    → (mem.read_u32 a ≡ some (if big then high_u32 w else low_u32 w))
      × (mem.read_u32 (a + 4) ≡ some (if big then low_u32 w else high_u32 w))

-- Where the offsets are adjacent and the load succeeds, it gives what the two reads give.
pub pid_and_tgid_lem :
    (mem : Memory) (g : Globals) (task word : ℕ)
    → Halves g.is_big_endian mem
    → g.tgid_offset ≡ g.pid_offset + 4
    → mem.read_u64 (task + g.pid_offset) ≡ some word
    → pid_and_tgid mem g task ≡ (pid mem g task, tgid mem g task)
unfolding pid_and_tgid pid tgid
pid_and_tgid_lem mem g task word halves adjacent loaded =
    let (first, second) = halves (task + g.pid_offset) word loaded in
    let address : task + g.tgid_offset ≡ task + g.pid_offset + 4 = omega arith in
    rw address (ground (arith, loaded, first, second))

-- A group is reported dead exactly where the task and its signal pointer are not null and the
-- counter behind the pointer is read as 0.
group_is_dead_iff :
    (mem : Memory) (g : Globals) (task : ℕ)
    → (group_is_dead mem g task ≡ true) ↔ (
        (task ≢ 0)
        × (signal : ℕ) × (mem.read_ptr (task + g.signal_offset) ≡ some signal)
        × (signal ≢ 0)
        × (mem.read_u32 (signal + g.live_offset) ≡ some 0))
unfolding group_is_dead
group_is_dead_iff mem g task = (λ h. ground arith, λ h. ground arith)
