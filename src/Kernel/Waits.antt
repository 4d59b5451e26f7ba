-- ===== src/Kernel/Waits.antt =====
-- What the I/O-wait counters hold (truetop-ebpf/src/iowait.rs), against the time for which the threads of
-- each process were in uninterruptible sleep.
use truetop.Common.{
  ℕ, true, ◌+◌, ◌-◌, ◌<◌, ◌≡◌, ◌≢◌, Option, none, some, List, [], ◌∷◌, arith, lookup, lookup-insert,
  lookup-remove, Dict, lookup_of_not_has, length, u64_mod, ◌≤◌, ◌⊎◌, ◌==◌, not, ◌&&◌, if◌then◌else◌,
  Option-cases, inl, inr,
}
use truetop.Kernel.Maps.{Slots, Policy, Evicts, hash_insert}
use truetop.Kernel.Charge.{slot, Keeps, slot-bill, bill-le}
use truetop.Kernel.Iowait.{Sleeps, is_uninterruptible, sleep_out, wake_in, forget_thread}
use truetop.Kernel.Sleep.{Edge, leaves, enters, exits, step, steps}

-- Since when each thread has been in uninterruptible sleep.
abbrev pub Asleep : Type 0
Asleep = ℕ → Option ℕ

abbrev pub set_asleep : ℕ → Option ℕ → Asleep → Asleep
set_asleep tid since a t = if tid == t then since else a t

-- A thread is no longer asleep once it runs or is gone.
abbrev pub asleep_after : Edge → Asleep → Asleep
asleep_after (leaves state tid now) a =
    if is_uninterruptible state && not (tid == 0) then set_asleep tid (some now) a else a
asleep_after (enters cpu tgid tid now) a = if tid == 0 then a else set_asleep tid none a
asleep_after (exits tid) a = set_asleep tid none a

abbrev pub slept : Option ℕ → ℕ → ℕ
slept none now = 0
slept (some since) now = now - since

-- The time that an edge ends for process `g` on CPU `c`.
abbrev pub woken : ℕ → ℕ → Asleep → Edge → ℕ
woken c g a (leaves state tid now) = 0
woken c g a (enters cpu tgid tid now) =
    if cpu == c && (tgid == g && not (tid == 0)) then slept (a tid) now else 0
woken c g a (exits tid) = 0

-- The time for which the threads of process `g` slept that have woken on CPU `c`, over a history.
abbrev pub waited : ℕ → ℕ → Asleep → List Edge → ℕ
waited c g a [] = 0
waited c g a (e ∷ es) = woken c g a e + waited c g (asleep_after e a) es

-- The stamps agree with the sleepers.
abbrev pub Agrees : Asleep → Sleeps → Type 0
Agrees a s = (t : ℕ) → lookup t s.sleep_since ≡ a t

module _ (room : Policy Slots) (capacity : ℕ) where
  -- There is room for a stamp at each edge.
  abbrev pub HasRoom : List Edge → Sleeps → Type 0
  HasRoom [] s = Unit
  HasRoom (e ∷ es) s = (length s.sleep_since < capacity) × HasRoom es (step room capacity e s)

  step-Agrees :
      (a : Asleep) (e : Edge) (s : Sleeps)
      → length s.sleep_since < capacity
      → Agrees a s
      → Agrees (asleep_after e a) (step room capacity e s)
  unfolding step sleep_out wake_in forget_thread hash_insert
  step-Agrees a (leaves state tid now) s free h t =
      ground (arith, h t, lookup-insert tid t now s.sleep_since)
  step-Agrees a (enters cpu tgid tid now) s free h t =
      ground (arith, h t, h tid, lookup-remove tid t s.sleep_since)
  step-Agrees a (exits tid) s free h t = ground (arith, h t, lookup-remove tid t s.sleep_since)

  module _ (keeps : Keeps room) (c g : ℕ) (gz : g ≢ 0) where
    slot-step :
        (a : Asleep) (e : Edge) (s : Sleeps)
        → Agrees a s
        → slot c g s.iowait_ns + woken c g a e < u64_mod
        → slot c g (step room capacity e s).iowait_ns ≡ slot c g s.iowait_ns + woken c g a e
    unfolding step sleep_out wake_in forget_thread
    slot-step a (leaves state tid now) s h b = ground arith
    slot-step a (enters cpu tgid tid now) s h b = elim (Option-cases (lookup tid s.sleep_since)) [
      | inl e ↦ ground (arith, h tid)
      | inr (since, e) ↦
          ground (arith, h tid, slot-bill room keeps cpu tgid (now - since) c g s.iowait_ns)
    ]
    slot-step a (exits tid) s h b = omega arith

    -- Over any history of scheduler edges from stamps that agree with the sleepers, while neither
    -- map is full and the sum fits 64 bits, a CPU's slot for a process but 0 grows by exactly the
    -- time for which the process's threads slept in D state that have woken there.
    pub slot-steps :
        (a : Asleep) (es : List Edge) (s : Sleeps)
        → Agrees a s
        → HasRoom es s
        → slot c g s.iowait_ns + waited c g a es < u64_mod
        → slot c g (steps room capacity es s).iowait_ns ≡ slot c g s.iowait_ns + waited c g a es
    unfolding steps
    slot-steps a [] s h free b = omega arith
    slot-steps a (e ∷ es) s h free b =
        let this = slot-step a e s h (omega arith) in
        let rest =
          slot-steps (asleep_after e a) es (step room capacity e s) (step-Agrees a e s free.0 h)
            free.1 (omega (arith, this)) in
        omega (arith, this, rest)

-- A stamp is that of the sleeper; there may be none, where the map had no room.
abbrev pub Follows : Asleep → Sleeps → Type 0
Follows a s = (t : ℕ) → (lookup t s.sleep_since ≡ none) ⊎ (lookup t s.sleep_since ≡ a t)

module _ (room : Policy Slots) (capacity : ℕ) where
  lookup-hash_insert :
      (k j v : ℕ) (m : Dict ℕ)
      → (lookup j (hash_insert capacity k v m) ≡ (if k == j then some v else lookup j m))
        ⊎ ((k == j) ≡ true) × (lookup j (hash_insert capacity k v m) ≡ none)
  unfolding hash_insert
  lookup-hash_insert k j v m = ground (arith, lookup-insert k j v m, lookup_of_not_has k m)

  pub step-Follows :
      (a : Asleep) (e : Edge) (s : Sleeps)
      → Follows a s
      → Follows (asleep_after e a) (step room capacity e s)
  unfolding step sleep_out wake_in forget_thread
  step-Follows a (leaves state tid now) s h t =
      ground (arith, h t, lookup-hash_insert tid t now s.sleep_since)
  step-Follows a (enters cpu tgid tid now) s h t =
      ground (arith, h t, h tid, lookup-remove tid t s.sleep_since)
  step-Follows a (exits tid) s h t = ground (arith, h t, lookup-remove tid t s.sleep_since)

  module _ (evicts : Evicts room) (c g : ℕ) where
    step-le :
        (a : Asleep) (e : Edge) (s : Sleeps)
        → Follows a s
        → slot c g (step room capacity e s).iowait_ns ≤ slot c g s.iowait_ns + woken c g a e
    unfolding step sleep_out wake_in forget_thread
    step-le a (leaves state tid now) s h = ground arith
    step-le a (enters cpu tgid tid now) s h = elim (Option-cases (lookup tid s.sleep_since)) [
      | inl e ↦ ground (arith, h tid)
      | inr (since, e) ↦
          ground (arith, h tid, bill-le room evicts cpu tgid (now - since) c g s.iowait_ns)
    ]
    step-le a (exits tid) s h = omega arith

    -- Over any history of scheduler edges, whatever the kernel evicts and however full the maps
    -- are, from stamps that are those of sleepers, a CPU's slot for a process gains no more than
    -- the time for which the process's threads slept in D state that have woken there.
    pub steps-le :
        (a : Asleep) (es : List Edge) (s : Sleeps)
        → Follows a s
        → slot c g (steps room capacity es s).iowait_ns ≤ slot c g s.iowait_ns + waited c g a es
    unfolding steps
    steps-le a [] s h = omega arith
    steps-le a (e ∷ es) s h = omega (
      arith,
      step-le a e s h,
      steps-le (asleep_after e a) es (step room capacity e s) (step-Follows a e s h),
    )
