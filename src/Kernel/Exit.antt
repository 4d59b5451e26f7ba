-- ===== src/Kernel/Exit.antt =====
-- Departures (truetop-ebpf/src/lifecycle.rs, exit_notify.rs): what an exit changes and leaves alone.
use truetop.Common.{
  ℕ, suc, ◌+◌, ◌<◌, ◌≡◌, ◌≢◌, refl, ap, ◌∙◌, some, List, [], ◌∷◌, ◌++◌, arith, lookup,
  lookup-remove, length, length-append,
}
use truetop.Kernel.Task.{Memory, Globals, pid, tgid, group_is_dead}
use truetop.Kernel.Iowait.{forget_thread}
use truetop.Kernel.Sched.{Kernel, Limits, sched_process_exit}

module _ (limits : Limits) (mem : Memory) (g : Globals) (task : ℕ) (k : Kernel) where
  -- An exit leaves both counters as they stand, and of the sleep stamps removes none but that of
  -- the exiting thread.
  exit_keeps_counters :
      (j : ℕ)
      → j ≢ pid mem g task
      → ((sched_process_exit limits mem g task k).clocks ≡ k.clocks)
        × ((sched_process_exit limits mem g task k).sleeps.iowait_ns ≡ k.sleeps.iowait_ns)
        × (lookup j (sched_process_exit limits mem g task k).sleeps.sleep_since
            ≡ lookup j k.sleeps.sleep_since)
  unfolding sched_process_exit forget_thread
  exit_keeps_counters j ne = (
    ground arith,
    ground arith,
    ground (arith, lookup-remove (pid mem g task) j k.sleeps.sleep_since),
  )

  -- An exit whose group has a living thread announces nothing.
  exit_of_live_group :
      (signal n : ℕ)
      → mem.read_ptr (task + g.signal_offset) ≡ some signal
      → mem.read_u32 (signal + g.live_offset) ≡ some (suc n)
      → (sched_process_exit limits mem g task k).exits ≡ k.exits
  unfolding sched_process_exit group_is_dead
  exit_of_live_group signal n ptr live = ground arith

  exit_of_last_thread :
      (signal : ℕ)
      → task ≢ 0
      → pid mem g task ≢ 0
      → mem.read_ptr (task + g.signal_offset) ≡ some signal
      → signal ≢ 0
      → mem.read_u32 (signal + g.live_offset) ≡ some 0
      → length k.exits < limits.ring_room
      → (sched_process_exit limits mem g task k).exits
        ≡ k.exits ++ record { tgid = tgid mem g task } ∷ []
  unfolding sched_process_exit group_is_dead
  exit_of_last_thread signal nz pz ptr sz live room = ground arith

-- A thread of a process that exits while `left` others of its group live, in the memory that its exit finds.
pub record Departs (g : Globals) (group left : ℕ) (exit : Memory × ℕ) : Type 0 where
  pub task : exit.1 ≢ 0
  pub tid : pid exit.0 g exit.1 ≢ 0
  pub tgid_eq : tgid exit.0 g exit.1 ≡ group
  pub signal : ℕ
  pub signal_ne : signal ≢ 0
  pub ptr : exit.0.read_ptr (exit.1 + g.signal_offset) ≡ some signal
  pub live : exit.0.read_u32 (signal + g.live_offset) ≡ some left

-- The exits of all threads that a group still has: each finds as many others alive as follow it.
abbrev pub Departures : Globals → ℕ → List (Memory × ℕ) → Type 0
Departures g group [] = Unit
Departures g group (exit ∷ exits) = Departs g group (length exits) exit × Departures g group exits

abbrev pub after_exits : Limits → Globals → List (Memory × ℕ) → Kernel → Kernel
after_exits limits g [] k = k
after_exits limits g ((mem, task) ∷ exits) k =
    after_exits limits g exits (sched_process_exit limits mem g task k)

-- Over the exits of all threads that a process still has, in whatever order they go, where each
-- finds in a memory that can be read as many others alive as are still to exit, and with room on
-- the ring: nothing is announced before the last of them, and with it the process is, once, behind
-- the departures that were announced before.
pub after_exits_announces :
    (limits : Limits) (g : Globals) (group : ℕ) (front : List (Memory × ℕ)) (final : Memory × ℕ)
    (k : Kernel)
    → Departures g group (front ++ final ∷ [])
    → length k.exits < limits.ring_room
    → ((after_exits limits g front k).exits ≡ k.exits)
      × ((after_exits limits g (front ++ final ∷ []) k).exits
          ≡ k.exits ++ record { tgid = group } ∷ [])
after_exits_announces limits g group [] (mem, task) k d room =
    let (last, none_left) = d in
    (
      refl,
      exit_of_last_thread limits mem g task k last.signal last.task last.tid last.ptr last.signal_ne
            last.live room
          ∙ ap (λ t. k.exits ++ record { tgid = t } ∷ []) last.tgid_eq,
    )
after_exits_announces limits g group ((mem, task) ∷ front) final k d room =
    let (first, rest) = d in
    let others : length (front ++ final ∷ []) ≡ suc (length front) =
      length-append front (final ∷ []) ∙ omega arith in
    let k' = sched_process_exit limits mem g task k in
    let silent : k'.exits ≡ k.exits =
      exit_of_live_group limits mem g task k first.signal (length front) first.ptr
        (first.live ∙ ap some others) in
    let (before, after) =
      after_exits_announces limits g group front final k' rest
        (omega (arith, ap length silent, room)) in
    (before ∙ silent, after ∙ ap (λ r. r ++ record { tgid = group } ∷ []) silent)
