-- ===== src/Kernel/Names.antt =====
-- What the identity map holds after exec, fork and credential changes (truetop-ebpf/src/comm.rs and
-- creds.rs).
use truetop.Common.{
  ℕ, ◌+◌, ◌≡◌, refl, ◌≢◌, ◌⊎◌, inl, inr, Option, none, some, arith, Dict, lookup, lookup-insert,
  high_u32, Option-cases, ==_ne,
}
use truetop.Kernel.Maps.{Policy, Evicts, lru_insert, lookup-lru_insert}
use truetop.Kernel.Task.{Memory, Globals, tgid}
use truetop.Kernel.Comm.{
  Identity, Helpers, current, set_uid, sched_process_exec, sched_process_fork, commit_creds,
}

-- What a credential change leaves for its process: the name that is on record, else the current one,
-- with the new uid; nothing if neither is known.
abbrev pub renamed : ℕ → Option Identity → Option Identity → Option Identity
renamed uid (some old) now = some (record { comm = old.comm; uid = uid })
renamed uid none (some now) = some (record { comm = now.comm; uid = uid })
renamed uid none none = none

module _ (room : Policy Identity) (evicts : Evicts room) where
  -- `set_uid` writes one process's entry; it may cost others theirs, and alters none.
  set_uid_self :
      (h : Helpers) (t uid : ℕ) (m : Dict Identity)
      → lookup t (set_uid room h t uid m) ≡ renamed uid (lookup t m) (current h)
  unfolding set_uid
  set_uid_self h t uid m = elim (Option-cases (lookup t m)) [
    | inl e ↦ elim (Option-cases (current h)) [
      | inl c ↦ rw (e, c, set_uid) e
      | inr (now, c) ↦
          rw (e, c, set_uid)
            (ground
              (arith, lookup-lru_insert room evicts t t (record { comm = now.comm; uid = uid }) m))
    ]
    | inr (old, e) ↦
        rw (e, set_uid)
          (ground (arith, lookup-insert t t (record { comm = old.comm; uid = uid }) m))
  ]

  set_uid_other :
      (h : Helpers) (t uid j : ℕ) (m : Dict Identity)
      → t ≢ j
      → (lookup j (set_uid room h t uid m) ≡ lookup j m)
        ⊎ (lookup j (set_uid room h t uid m) ≡ none)
  unfolding set_uid
  set_uid_other h t uid j m ne = elim (Option-cases (lookup t m)) [
    | inl e ↦ elim (Option-cases (current h)) [
      | inl c ↦ rw (e, c, set_uid) (inl refl)
      | inr (now, c) ↦
          rw (e, c, set_uid)
            (ground
              (arith, lookup-lru_insert room evicts t j (record { comm = now.comm; uid = uid }) m))
    ]
    | inr (old, e) ↦
        rw (e, set_uid)
          (ground (arith, lookup-insert t j (record { comm = old.comm; uid = uid }) m))
  ]

  -- Where the new credentials are not null and their uid is read, and the current process id is
  -- not 0, a credential change gives the current process the new uid under the name that it has on
  -- record, else under its current one; any other process keeps its entry or loses it to eviction.
  pub commit_creds_lem :
      (mem : Memory) (g : Globals) (h : Helpers) (new uid j : ℕ) (m : Dict Identity)
      → new ≢ 0
      → high_u32 h.pid_tgid ≢ 0
      → high_u32 h.pid_tgid ≢ j
      → mem.read_u32 (new + g.cred_uid_offset) ≡ some uid
      → (lookup (high_u32 h.pid_tgid) (commit_creds room mem g h new m)
          ≡ renamed uid (lookup (high_u32 h.pid_tgid) m) (current h))
        × ((lookup j (commit_creds room mem g h new m) ≡ lookup j m)
            ⊎ (lookup j (commit_creds room mem g h new m) ≡ none))
  unfolding commit_creds
  commit_creds_lem mem g h new uid j m nz tz ne read =
      rw (read, ==_ne new 0 nz, ==_ne (high_u32 h.pid_tgid) 0 tz, commit_creds)
        (
          set_uid_self h (high_u32 h.pid_tgid) uid m,
          set_uid_other h (high_u32 h.pid_tgid) uid j m ne,
        )

  -- Where the helpers answer and the task's process id is not 0, exec and fork record the current
  -- task's name and uid under that process id.
  exec_fork_record :
      (mem : Memory) (g : Globals) (h : Helpers) (task : ℕ) (m : Dict Identity)
      (identity : Identity)
      → tgid mem g task ≢ 0
      → current h ≡ some identity
      → (lookup (tgid mem g task) (sched_process_exec room mem g h task m) ≡ some identity)
        × (lookup (tgid mem g task) (sched_process_fork room mem g h task m) ≡ some identity)
  unfolding sched_process_exec sched_process_fork
  exec_fork_record mem g h task m identity nz c =
      let t = tgid mem g task in
      let inserted : lookup t (lru_insert room t identity m) ≡ some identity =
        ground (arith, lookup-lru_insert room evicts t t identity m) in
      rw (c, ==_ne t 0 nz, sched_process_exec, sched_process_fork) (inserted, inserted)
