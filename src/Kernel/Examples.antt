-- ===== src/Kernel/Examples.antt =====
-- Runs of the programs of truetop-ebpf at concrete inputs.
use truetop.Common.{
  ◌≡◌, refl, ◌≤◌, ◌⊎◌, inl, false, none, some, List, [], ◌∷◌, arith, Dict, lookup, insert, remove,
  has, ◌==◌, if◌then◌else◌,
}
use truetop.Kernel.Maps.{Policy, Evicts, hash_insert}
use truetop.Kernel.Task.{Memory, Globals, pid, tgid, pid_and_tgid}
use truetop.Kernel.Cpu.{Clocks}
use truetop.Kernel.Charge.{Switch, Schedule, IsStamped, Keeps, run, slot, run-le, slot-run}
use truetop.Kernel.Iowait.{Sleeps, sleep_out, wake_in, is_uninterruptible}
use truetop.Kernel.Waits.{slot-steps, steps-le}
use truetop.Kernel.Sleep.{Edge, leaves, enters, step, steps}
use truetop.Kernel.Comm.{Identity, Helpers, commit_creds}
use truetop.Kernel.Names.{commit_creds_lem}
use truetop.Kernel.Sched.{Kernel, Limits, SwitchContext}
use truetop.Kernel.Reads.{Halves, pid_and_tgid_lem}
use truetop.Kernel.Exit.{after_exits, after_exits_announces}

-- A map that is not full evicts nothing.
abbrev pub keep_all : {V : Type 0} → Policy V
keep_all k m = m

pub keep_all-Evicts : {V : Type 0} → Evicts {V = V} keep_all
keep_all-Evicts k j m = inl refl

pub keep_all-Keeps : Keeps keep_all
keep_all-Keeps k j m = refl

abbrev pub idle : Schedule
idle c = record { tid = 0; tgid = 0; since = 0 }

abbrev pub attached : Clocks
attached = record { start_time = λ c. 0; cpu_ns = []; current_tgid = λ c. 0 }

pub attached-IsStamped : IsStamped idle attached
attached-IsStamped = record { start = λ c ne. refl; current = λ c. refl }

-- Two threads of process 10, one on each CPU; the first leaves after 50 ns.
abbrev pub switches : List Switch
switches =
    record { cpu = 0; next_tid = 11; next_tgid = 10; now = 100 }
    ∷ record { cpu = 1; next_tid = 12; next_tgid = 10; now = 120 }
    ∷ record { cpu = 0; next_tid = 0; next_tgid = 0; now = 150 }
    ∷ []

slot-run_example : slot 0 10 (run keep_all idle switches attached).cpu_ns ≡ 50
unfolding lookup
slot-run_example =
    slot-run keep_all keep_all-Keeps idle switches attached 0 10 attached-IsStamped (omega arith)

run-le_example : slot 0 10 (run keep_all idle switches attached).cpu_ns ≤ 50
unfolding lookup
run-le_example = run-le keep_all (keep_all-Evicts) idle switches attached 0 10 attached-IsStamped

-- Thread 11, the last of process 10: a task at address 1000 whose signal struct is at 2000.
abbrev pub memory : Memory
memory = record {
  read_u32 = λ a.
      if a == 1008
      then some 11
      else if a == 1012
      then some 10
      else if a == 2004
      then some 0
      else if a == 3004
      then some 1000
      else if a == 4004
      then some 3
      else none;
  read_u64 = λ a. if a == 1008 then some 42949672971 else none;
  read_ptr = λ a. if a == 1016 then some 2000 else if a == 5016 then some 4000 else none;
}

abbrev pub globals : Globals
globals = record {
  pid_offset = 8;
  tgid_offset = 12;
  state_offset = 24;
  signal_offset = 16;
  live_offset = 4;
  cred_uid_offset = 4;
  has_prev_state = 1;
  is_big_endian = false;
}

pub memory-Halves : Halves false memory
memory-Halves a w h = ground arith

pid_and_tgid_lem_example :
    pid_and_tgid memory globals 1000 ≡ (pid memory globals 1000, tgid memory globals 1000)
pid_and_tgid_lem_example = pid_and_tgid_lem memory globals 1000 42949672971 memory-Halves refl refl

abbrev pub limits : Limits
limits = record { cpu_room = keep_all; iowait_room = keep_all; max_sleepers = 2; ring_room = 2 }

abbrev pub kernel : Kernel
kernel = record {
  clocks = attached;
  sleeps = record { sleep_since = (11, 40) ∷ (12, 50) ∷ []; iowait_ns = [] };
  exits = record { tgid = 7 } ∷ [];
}

abbrev pub context : SwitchContext
context = record { cpu = 0; now = 90; pid_tgid = 0; prev = 0; next = 1000; prev_state = 0 }

-- Thread 12 of the same process, which exits while thread 11 lives.
abbrev pub earlier : Memory
earlier = record memory {
  read_u32 = λ a.
      if a == 1008
      then some 12
      else if a == 1012
      then some 10
      else if a == 2004
      then some 1
      else none;
  read_u64 = λ a. if a == 1008 then some 42949672972 else none;
}

after_exits_announces_example :
    ((after_exits limits globals ((earlier, 1000) ∷ []) kernel).exits ≡ record { tgid = 7 } ∷ [])
    × ((after_exits limits globals ((earlier, 1000) ∷ (memory, 1000) ∷ []) kernel).exits
        ≡ record { tgid = 7 } ∷ record { tgid = 10 } ∷ [])
after_exits_announces_example =
    after_exits_announces limits globals 10 ((earlier, 1000) ∷ []) (memory, 1000) kernel
      (
        record {
          task = omega arith;
          tid = unfold pid in omega arith;
          tgid_eq = unfold tgid in refl;
          signal = 2000;
          signal_ne = omega arith;
          ptr = refl;
          live = refl;
        },
        (
          record {
            task = omega arith;
            tid = unfold pid in omega arith;
            tgid_eq = unfold tgid in refl;
            signal = 2000;
            signal_ne = omega arith;
            ptr = refl;
            live = refl;
          },
          tt,
        ),
      )
      (omega arith)

-- No thread sleeps.
abbrev asleep : Sleeps
asleep = record { sleep_since = []; iowait_ns = [] }

-- Threads 11 and 12 of process 10 sleep in D state and wake: from 40 to 95 and from 60 to 100.
abbrev naps : List Edge
naps =
    leaves 2 11 40
    ∷ enters 0 10 12 50
    ∷ leaves 2 12 60
    ∷ enters 1 10 11 95
    ∷ enters 1 10 12 100
    ∷ []

slot-steps_example : slot 1 10 (steps keep_all 8 naps asleep).iowait_ns ≡ 95
unfolding steps step sleep_out is_uninterruptible wake_in hash_insert has insert lookup remove
slot-steps_example =
    slot-steps keep_all 8 keep_all-Keeps 1 10 (omega arith) (λ t. none) naps asleep (λ t. refl)
      (omega arith) (omega arith)

-- The map has room for one stamp, so that the sleep of thread 12 is not counted.
steps-le_example : slot 1 10 (steps keep_all 1 naps asleep).iowait_ns ≤ 95
unfolding steps step sleep_out is_uninterruptible wake_in hash_insert has insert lookup remove
steps-le_example = steps-le keep_all 1 keep_all-Evicts 1 10 (λ t. none) naps asleep (λ t. inl refl)

-- Process 10 runs as user 0 under a name, and becomes user 1000.
abbrev identities : Dict Identity
identities = (10, record { comm = b's' ∷ b'h' ∷ []; uid = 0 }) ∷ []

abbrev helpers : Helpers
helpers = record { comm = some (b'l' ∷ b's' ∷ []); uid_gid = 5; pid_tgid = 42949672971 }

commit_creds_lem_example :
    (lookup 10 (commit_creds keep_all memory globals helpers 3000 identities)
      ≡ some (record { comm = b's' ∷ b'h' ∷ []; uid = 1000 }))
    × ((lookup 9 (commit_creds keep_all memory globals helpers 3000 identities) ≡ none)
        ⊎ (lookup 9 (commit_creds keep_all memory globals helpers 3000 identities) ≡ none))
unfolding lookup
commit_creds_lem_example =
    commit_creds_lem keep_all keep_all-Evicts memory globals helpers 3000 1000 9 identities
      (omega arith) (omega arith) (omega arith) refl
