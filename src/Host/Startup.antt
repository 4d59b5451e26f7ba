-- ===== src/Host/Startup.antt =====
-- truetop/src/lib.rs: the sizes of the maps, the offsets that are injected, and the endings of a run.
use truetop.Common.Text.{Text, codes}
use truetop.Kernel.Task.{Globals}
use truetop.Common.{
  ℕ, ◌+◌, ◌*◌, ◌/◌, ◌%◌, Bool, true, false, ◌&&◌, Option, none, some, List, [], ◌∷◌, ◌++◌, ltb,
  ◌==◌, if◌then◌else◌, u32_mod, u32_max, u64_mod,
}

abbrev pub ceiling : ℕ
ceiling = 65536

abbrev pub floor : ℕ
floor = 16384

abbrev pub budget_per_map : ℕ
budget_per_map = 33554432

abbrev pub at_least_one : ℕ → ℕ
at_least_one n = if ltb n 1 then 1 else n

-- `u32::try_from(q).unwrap_or(u32::MAX)`.
abbrev pub to_u32 : ℕ → ℕ
to_u32 q = if ltb q u32_mod then q else u32_max

abbrev pub clamp : ℕ → ℕ → ℕ → ℕ
clamp n lo hi = if ltb n lo then lo else if ltb hi n then hi else n

unfoldable pub default_max_processes : ℕ → ℕ
default_max_processes possible_cpus =
    clamp (to_u32 (budget_per_map / (8 * at_least_one possible_cpus))) floor ceiling

-- Two per-CPU counters, the name map and the sleep stamps; the arithmetic is on u64.
unfoldable pub map_bytes : ℕ → ℕ → ℕ
map_bytes entries possible_cpus =
    (2 * entries * 8 * possible_cpus + entries * 16 + entries * 12) % u64_mod

pub data LoadError : Type 0 where
  missing_pid missing_tgid missing_signal missing_live missing_cred_uid missing_state : LoadError
  not_adjacent : ℕ → ℕ → LoadError

pub data Loaded (A : Type 0) : Type 0 where
  ok : A → Loaded A
  err : LoadError → Loaded A

infixl 5 ◌>>=◌
abbrev pub ◌>>=◌ : {A B : Type 0} → Loaded A → (A → Loaded B) → Loaded B
ok a >>= f = f a
err e >>= f = err e

-- `.context(...)?` on an offset that is looked up.
abbrev pub or_fail : Option ℕ → LoadError → Loaded ℕ
or_fail none e = err e
or_fail (some offset) e = ok offset

abbrev pub u32_of : Bool → ℕ
u32_of true = 1
u32_of false = 0

-- `anyhow::ensure!`.
abbrev pub ensure : Bool → LoadError → Loaded (Unit {0})
ensure true e = ok tt
ensure false e = err e

abbrev has_arg : Option Bool → Bool
has_arg none = false
has_arg (some b) = b

-- The offsets come from the kernel's type information: `field_byte_offset struct field`. The target's
-- byte order and pointer width are given.
module _ (field_byte_offset : Text → Text → Option ℕ) (is_big_endian is_64_bit : Bool) where
  unfoldable pub state_offset : Loaded ℕ
  state_offset = elim (field_byte_offset (codes "task_struct") (codes "__state")) [
    | some offset ↦ ok offset
    | none ↦ do
      offset ← or_fail (field_byte_offset (codes "task_struct") (codes "state")) missing_state
      ok ((offset + (if is_big_endian && is_64_bit then 4 else 0)) % u32_mod)
  ]

  -- The part of `load_ebpf` above the loader: the globals that are injected.
  unfoldable pub resolve_globals : Option Bool → Loaded Globals
  unfolding state_offset
  resolve_globals has_prev_state = do
    pid ← or_fail (field_byte_offset (codes "task_struct") (codes "pid")) missing_pid
    tgid ← or_fail (field_byte_offset (codes "task_struct") (codes "tgid")) missing_tgid
    checked ← ensure (tgid == (pid + 4) % u32_mod) (not_adjacent pid tgid)
    signal ← or_fail (field_byte_offset (codes "task_struct") (codes "signal")) missing_signal
    live ← or_fail (field_byte_offset (codes "signal_struct") (codes "live")) missing_live
    cred_uid ← or_fail (field_byte_offset (codes "cred") (codes "uid")) missing_cred_uid
    state ← state_offset
    ok (record {
      pid_offset = pid;
      tgid_offset = tgid;
      state_offset = state;
      signal_offset = signal;
      live_offset = live;
      cred_uid_offset = cred_uid;
      has_prev_state = u32_of (has_arg has_prev_state);
      is_big_endian = is_big_endian;
    })

-- An error's chain of causes, each with its kind where it is an `io::Error`.
pub data ErrorKind : Type 0 where
  permission_denied other_kind : ErrorKind

unfoldable pub needs_privilege : List (Option ErrorKind) → Bool
needs_privilege [] = false
needs_privilege (some permission_denied ∷ causes) = true
needs_privilege (some other_kind ∷ causes) = needs_privilege causes
needs_privilege (none ∷ causes) = needs_privilege causes

-- `diagnose`: the hint is put in front of a chain that holds a refusal. An added context is no cause
-- of a kind.
unfoldable pub diagnose : List (Option ErrorKind) → List (Option ErrorKind)
unfolding needs_privilege
diagnose chain = if needs_privilege chain then none ∷ chain else chain

-- How a collector task ended: it panicked, with a text or without, was cancelled, or returned.
pub data Join : Type 0 where
  panicked : Option Text → Join
  cancelled returned : Join

unfoldable pub cause : Join → Text
cause (panicked (some message)) = codes "panicked: " ++ message
cause (panicked none) = codes "panicked"
cause cancelled = codes "was cancelled"
cause returned = codes "returned unexpectedly"
