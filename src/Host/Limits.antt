-- ===== src/Host/Limits.antt =====
-- Sizes and offsets (truetop/src/lib.rs, system.rs): the default capacity keeps within its bounds, and
-- the offsets that are injected fit the programs' single load.
use truetop.Common.{
  ℕ, ◌+◌, ◌*◌, ◌/◌, ◌%◌, ◌≤◌, ◌<◌, ◌≡◌, ◌↔◌, ◌⊎◌, inl, inr, Bool, Option, some, arith, u32_mod,
}
use native.Mathlib.Nat.{le_trans}
use truetop.Common.Text.{Text}
use truetop.Kernel.Task.{Memory, Globals, pid, tgid, pid_and_tgid}
use truetop.Kernel.Reads.{Halves, pid_and_tgid_lem}
use truetop.Host.System.{counted, detect}
use truetop.Host.Startup.{
  floor, ceiling, budget_per_map, default_max_processes, at_least_one, to_u32, clamp, ok,
  resolve_globals,
}

clamped :
    (q : ℕ)
    → (floor ≤ clamp (to_u32 q) floor ceiling)
      × (clamp (to_u32 q) floor ceiling ≤ ceiling)
      × ((clamp (to_u32 q) floor ceiling ≡ floor) ⊎ (clamp (to_u32 q) floor ceiling ≤ q))
clamped q = ground arith

mul_mono : {a b c d : ℕ} → a ≤ b → c ≤ d → a * c ≤ b * d
mul_mono h k = grind arith

-- The default capacity lies between its floor and its ceiling, and above the floor a per-CPU map
-- of that size keeps within its budget.
pub default_max_processes_bounds :
    (cpus : ℕ)
    → (floor ≤ default_max_processes cpus)
      × (default_max_processes cpus ≤ ceiling)
      × ((default_max_processes cpus ≡ floor)
          ⊎ (default_max_processes cpus * (8 * cpus) ≤ budget_per_map))
unfolding default_max_processes
default_max_processes_bounds cpus =
    let per_entry = 8 * at_least_one cpus in
    let q = budget_per_map / per_entry in
    let (low, high, share) = clamped q in
    let more : 8 * cpus ≤ per_entry = ground arith in
    let product : q * per_entry ≤ budget_per_map = grind arith in
    (
      low,
      high,
      elim share [ inl e ↦ inl e | inr fits ↦ inr (le_trans (mul_mono fits more) product) ],
    )

-- A CPU topology is accepted exactly if between one and all of the possible CPUs are online.
detect_iff :
    (possible online : ℕ)
    → (detect (some possible) (some online)
        ≡ counted (record { possible = possible; online = online }))
      ↔ ((1 ≤ online) × (online ≤ possible))
unfolding detect
detect_iff possible online = (λ h. ground arith, λ h. ground arith)

module _ (field_byte_offset : Text → Text → Option ℕ) (is_big_endian is_64_bit : Bool) where
  adjacent :
      (has_prev_state : Option Bool) (g : Globals)
      → resolve_globals field_byte_offset is_big_endian is_64_bit has_prev_state ≡ ok g
      → (g.tgid_offset ≡ (g.pid_offset + 4) % u32_mod) × (g.is_big_endian ≡ is_big_endian)
  unfolding resolve_globals
  adjacent has_prev_state g h = ground arith

  -- With any globals that start-up resolves, the single 8-byte load of a task's two ids gives what
  -- the two separate reads give, on either byte order, where the load succeeds, an 8-byte read is
  -- two 4-byte reads, and the offset does not wrap.
  pub resolved_pid_and_tgid :
      (has_prev_state : Option Bool) (g : Globals) (mem : Memory) (task word : ℕ)
      → resolve_globals field_byte_offset is_big_endian is_64_bit has_prev_state ≡ ok g
      → g.pid_offset + 4 < u32_mod
      → Halves is_big_endian mem
      → mem.read_u64 (task + g.pid_offset) ≡ some word
      → pid_and_tgid mem g task ≡ (pid mem g task, tgid mem g task)
  resolved_pid_and_tgid has_prev_state g mem task word resolved small halves loaded =
      let (next, order) = adjacent has_prev_state g resolved in
      pid_and_tgid_lem mem g task word (rw order halves) (omega arith) loaded
