-- ===== src/Host/Injected.antt =====
-- The globals that start-up injects (truetop/src/lib.rs, `load_ebpf`), from the file of the kernel's type
-- information (truetop/src/btf.rs).
use truetop.Common.{
  ℕ, ◌+◌, ◌*◌, ◌%◌, ◌≡◌, refl, ap, ◌∙◌, fun_ext, Bool, true, Option, none, some, List, arith,
  length, All, leb, u32_mod, ◌==◌,
}
use truetop.Common.Text.{Text, codes}
use truetop.Kernel.Task.{Globals}
use truetop.Host.Btf.{Answer, ok, err, field_byte_offset}
use truetop.Host.BtfTypes.{sched_switch_has_prev_state, at_least_five}
use truetop.Host.BtfFile.{
  BtfType, type_words, IsWord, IsFormed, btf_file, text_at, field_of, params_of,
}
use truetop.Host.BtfRead.{field_byte_offset_exact}
use truetop.Host.BtfParams.{sched_switch_has_prev_state_exact}
use truetop.Host.Startup
use truetop.Host.Startup.{Loaded, resolve_globals, u32_of}

-- An answer, where the walk has ended.
abbrev pub answered : {A : Type 0} → Option (Answer A) → Option A
answered none = none
answered (some (ok a)) = some a
answered (some (err e)) = none

-- `load_ebpf` up to the loader. The file is read for each answer; `none` is a file that cannot be read.
unfoldable pub load_globals :
    (List ℕ → Option Text) → Option (List ℕ) → (is_big_endian is_64_bit : Bool) → Loaded Globals
load_globals from_utf8 file is_big_endian is_64_bit =
    resolve_globals (λ s f. answered (field_byte_offset from_utf8 file s f)) is_big_endian is_64_bit
      (answered (sched_switch_has_prev_state from_utf8 file))

-- What a file says of a kernel with the fields that the programs read.
pub record Says (text : ℕ → Text) (ts : List BtfType) (g : Globals) (params : ℕ) : Type 0 where
  pub pid : field_of text (codes "task_struct") (codes "pid") ts ≡ ok g.pid_offset
  pub tgid : field_of text (codes "task_struct") (codes "tgid") ts ≡ ok g.tgid_offset
  pub signal : field_of text (codes "task_struct") (codes "signal") ts ≡ ok g.signal_offset
  pub live : field_of text (codes "signal_struct") (codes "live") ts ≡ ok g.live_offset
  pub cred_uid : field_of text (codes "cred") (codes "uid") ts ≡ ok g.cred_uid_offset
  pub state : field_of text (codes "task_struct") (codes "__state") ts ≡ ok g.state_offset
  pub prototype : params_of text (codes "btf_trace_sched_switch") ts ≡ ok params
  pub prev_state : g.has_prev_state ≡ u32_of (leb 5 params)

module _ (offset : Text → Text → Option ℕ) (g : Globals) (is_64_bit : Bool) (arg : Bool) where
  resolve_globals_exact :
      offset (codes "task_struct") (codes "pid") ≡ some g.pid_offset
      → offset (codes "task_struct") (codes "tgid") ≡ some g.tgid_offset
      → offset (codes "task_struct") (codes "signal") ≡ some g.signal_offset
      → offset (codes "signal_struct") (codes "live") ≡ some g.live_offset
      → offset (codes "cred") (codes "uid") ≡ some g.cred_uid_offset
      → offset (codes "task_struct") (codes "__state") ≡ some g.state_offset
      → g.has_prev_state ≡ u32_of arg
      → g.tgid_offset ≡ (g.pid_offset + 4) % u32_mod
      → resolve_globals offset g.is_big_endian is_64_bit (some arg) ≡ Startup.ok g
  unfolding resolve_globals
  resolve_globals_exact pid tgid signal live uid state prev adjacent =
      let same : (g.tgid_offset == (g.pid_offset + 4) % u32_mod) ≡ true = ground arith in
      let run_state : Startup.state_offset offset g.is_big_endian is_64_bit
          ≡ Startup.ok g.state_offset =
        rw (state, Startup.state_offset) refl in
      rw (pid, tgid, same, signal, live, uid, run_state) (rw (← prev) refl)

-- On a kernel whose file of type information is written for types and strings in either byte
-- order, with a section of types that fits 32 bits, and says where the fields of a task, its
-- signals and its credentials are, the thread's id right before the process's, start-up injects
-- those offsets, and that the switch passes the previous state exactly if its prototype has five
-- parameters or more.
pub load_globals_exact :
    (from_utf8 : List ℕ → Option Text) (le : Bool) (ts : List BtfType) (strings : List ℕ)
    (g : Globals) (is_64_bit : Bool) (params : ℕ)
    → All IsFormed ts
    → IsWord (4 * length (type_words ts))
    → Says (text_at from_utf8 strings) ts g params
    → g.tgid_offset ≡ (g.pid_offset + 4) % u32_mod
    → load_globals from_utf8 (some (btf_file le ts strings)) g.is_big_endian is_64_bit
      ≡ Startup.ok g
unfolding load_globals
load_globals_exact from_utf8 le ts strings g is_64_bit params formed small says adjacent =
    let text = text_at from_utf8 strings in
    let file = some (btf_file le ts strings) in
    let offsets : (λ s f. answered (field_byte_offset from_utf8 file s f))
        ≡ (λ s f. answered (some (field_of text s f ts))) =
      fun_ext λ s.
        fun_ext
          λ f. ap answered (field_byte_offset_exact from_utf8 le ts strings s f formed small) in
    let arg : answered (sched_switch_has_prev_state from_utf8 file) ≡ some (leb 5 params) =
      ap answered (sched_switch_has_prev_state_exact from_utf8 le ts strings formed small)
      ∙ ap (λ a. answered (some (at_least_five from_utf8 a))) says.prototype in
    let found = λ (n : ℕ) (a : Answer ℕ) (e : a ≡ ok n). ap (λ x. answered (some x)) e in
    rw (offsets, arg)
      (resolve_globals_exact (λ s f. answered (some (field_of text s f ts))) g is_64_bit
        (leb 5 params) (found _ _ says.pid) (found _ _ says.tgid) (found _ _ says.signal)
        (found _ _ says.live) (found _ _ says.cred_uid) (found _ _ says.state) says.prev_state
        adjacent)
