-- ===== src/World/Waits.antt =====
-- What the running program charges to I/O wait (truetop-ebpf/src/iowait.rs, truetop/src/backend.rs), over
-- runs of the five programs and of ticks, against the time for which threads slept.
use truetop.Common.{
  ℕ, ◌≤◌, ◌≡◌, Option, none, some, List, [], ◌∷◌, ◌++◌, ◌==◌, if◌then◌else◌, low_u32,
}
use truetop.Kernel.Maps.{Slots}
use truetop.Kernel.Task.{pid, pid_and_tgid}
use truetop.Kernel.Charge.{slot}
use truetop.Kernel.Sleep.{Edge, leaves, enters, steps}
use truetop.Kernel.Sleep as Sleep
use truetop.Kernel.Waits.{Asleep, asleep_after}
use truetop.Kernel.Sched.{prev_state_of}
use truetop.World.{Setting, World, Event, switches, exits, execs, forks, changes_creds, ticks}

-- Who sleeps after a history.
abbrev pub asleep_through : List Edge → Asleep → Asleep
asleep_through [] a = a
asleep_through (e ∷ es) a = asleep_through es (asleep_after e a)

abbrev held : ℕ → Option Slots → ℕ
held c none = 0
held c (some total) = total c

module _ (s : Setting) where
  open s use {f64, limits, globals}
  open f64 use {F}

  -- What a run of a program means to the scheduler: at a switch one thread leaves and one enters; the exit
  -- of a thread but 0 ends it; nothing else moves a thread.
  abbrev pub edges : Event → List Edge
  edges (switches mem ctx) =
      leaves (prev_state_of mem globals ctx) (low_u32 ctx.pid_tgid) ctx.now
      ∷ enters ctx.cpu (pid_and_tgid mem globals ctx.next).1 (pid_and_tgid mem globals ctx.next).0
          ctx.now
      ∷ []
  edges (exits mem task) =
      if pid mem globals task == 0 then [] else Sleep.exits (pid mem globals task) ∷ []
  edges (execs mem h task) = []
  edges (forks mem h child) = []
  edges (changes_creds mem h creds) = []
  edges (ticks r) = []

  abbrev pub all_edges : List Event → List Edge
  all_edges [] = []
  all_edges (e ∷ es) = edges e ++ all_edges es

  -- What an event leaves of the sleep stamps and the I/O-wait counters: the edges' stamps, and no more than
  -- the edges' counts.
  record Charges (e : Event) (w w' : World F) : Type 0 where
    stamps :
        w'.kernel.sleeps.sleep_since
        ≡ (steps limits.iowait_room limits.max_sleepers (edges e) w.kernel.sleeps).sleep_since
    counts :
        (c g : ℕ)
        → slot c g w'.kernel.sleeps.iowait_ns
          ≤ slot c g
              (steps limits.iowait_room limits.max_sleepers (edges e) w.kernel.sleeps).iowait_ns
