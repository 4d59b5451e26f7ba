-- ===== src/Kernel/Comm.antt =====
-- truetop-ebpf/src/comm.rs and creds.rs: a process's name and uid, captured at exec, fork and
-- `commit_creds`. A `comm` is the list of its 16 bytes.
use truetop.Common.{
  ℕ, ◌+◌, ◌==◌, if◌then◌else◌, none, some, Option, List, Dict, lookup, insert, low_u32, high_u32,
}
use truetop.Kernel.Maps.{Policy, lru_insert}
use truetop.Kernel.Task.{Memory, Globals, tgid}

-- truetop-common/src/lib.rs: `Identity`.
pub record Identity : Type 0 where
  pub comm : List ℕ
  pub uid : ℕ

-- What the helpers answer about the current task: `bpf_get_current_comm`,
-- `bpf_get_current_uid_gid` and `bpf_get_current_pid_tgid`.
pub record Helpers : Type 0 where
  pub comm : Option (List ℕ)
  pub uid_gid : ℕ
  pub pid_tgid : ℕ

unfoldable pub current : Helpers → Option Identity
current h = elim h.comm [
  | none ↦ none
  | some comm ↦ some (record { comm = comm; uid = low_u32 h.uid_gid })
]

-- `if let Some(identity) = current() { COMM_MAP.insert(tgid, identity) }`.
capture : Policy Identity → ℕ → Option Identity → Dict Identity → Dict Identity
capture room tgid none m = m
capture room tgid (some identity) m = lru_insert room tgid identity m

rename : ℕ → Option Identity → Option Identity
rename uid none = none
rename uid (some identity) = some (record identity { uid = uid })

unfoldable pub set_uid : Policy Identity → Helpers → ℕ → ℕ → Dict Identity → Dict Identity
unfolding current capture rename
set_uid room h tgid uid m = elim (lookup tgid m) [
  | some identity ↦ insert tgid (record identity { uid = uid }) m
  | none ↦ capture room tgid (rename uid (current h)) m
]

-- The body that `sched_process_exec` and `sched_process_fork` share: they differ in the task whose
-- tgid they read, argument 0 (the process itself) or 1 (the child).
record_task : Policy Identity → Memory → Globals → Helpers → ℕ → Dict Identity → Dict Identity
unfolding current capture tgid
record_task room mem g h task m =
    if tgid mem g task == 0 then m else capture room (tgid mem g task) (current h) m

unfoldable pub sched_process_exec :
    Policy Identity → Memory → Globals → Helpers → ℕ → Dict Identity → Dict Identity
unfolding record_task
sched_process_exec room mem g h process m = record_task room mem g h process m

unfoldable pub sched_process_fork :
    Policy Identity → Memory → Globals → Helpers → ℕ → Dict Identity → Dict Identity
unfolding record_task
sched_process_fork room mem g h child m = record_task room mem g h child m

-- `new` is the address of the credentials to be installed, 0 for null.
unfoldable pub commit_creds :
    Policy Identity → Memory → Globals → Helpers → ℕ → Dict Identity → Dict Identity
unfolding set_uid
commit_creds room mem g h new m =
    if new == 0 then m else elim (mem.read_u32 (new + g.cred_uid_offset)) [
      | none ↦ m
      | some uid ↦
          if high_u32 h.pid_tgid == 0 then m else set_uid room h (high_u32 h.pid_tgid) uid m
    ]
