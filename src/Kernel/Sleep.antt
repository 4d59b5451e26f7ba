-- ===== src/Kernel/Sleep.antt =====
-- What the I/O-wait counters hold (truetop-ebpf/src/iowait.rs), over interleaved scheduler edges.
use truetop.Common.{
  ℕ, ◌+◌, ◌-◌, ◌≤◌, ◌<◌, ◌≡◌, refl, ◌≢◌, true, false, none, some, List, [], ◌∷◌, ◌∙◌, ap, arith,
  Dict, lookup, lookup-insert, lookup-remove, length, length-remove-le, u64_mod, All,
}
use truetop.Kernel.Maps.{Slots, Policy, hash_insert, hash_insert_bounded}
use truetop.Kernel.Charge.{slot, Keeps, slot-bill}
use truetop.Kernel.Iowait.{Sleeps, is_uninterruptible, sleep_out, wake_in, forget_thread}

-- The edges that reach the module: a thread leaves a CPU in a state, enters one, or exits.
pub data Edge : Type 0 where
  leaves : (state tid now : ℕ) → Edge
  enters : (cpu tgid tid now : ℕ) → Edge
  exits : (tid : ℕ) → Edge

abbrev pub thread : Edge → ℕ
thread (leaves state tid now) = tid
thread (enters cpu tgid tid now) = tid
thread (exits tid) = tid

module _ (room : Policy Slots) (capacity : ℕ) where
  unfoldable pub step : Edge → Sleeps → Sleeps
  step (leaves state tid now) s = sleep_out capacity state tid now s
  step (enters cpu tgid tid now) s = wake_in room cpu tgid tid now s
  step (exits tid) s = forget_thread tid s

  unfoldable pub steps : List Edge → Sleeps → Sleeps
  steps [] s = s
  steps (e ∷ es) s = steps es (step e s)

  step_bounded :
      (e : Edge) (s : Sleeps)
      → length s.sleep_since ≤ capacity
      → length (step e s).sleep_since ≤ capacity
  unfolding step sleep_out wake_in forget_thread
  step_bounded (leaves state tid now) s h =
      ground (arith, hash_insert_bounded capacity tid now s.sleep_since)
  step_bounded (enters cpu tgid tid now) s h = ground (arith, length-remove-le tid s.sleep_since)
  step_bounded (exits tid) s h = omega (arith, length-remove-le tid s.sleep_since)

  -- From within it and over any sequence of scheduler edges, the map of sleep stamps does not
  -- outgrow its size.
  pub steps_bounded :
      (es : List Edge) (s : Sleeps)
      → length s.sleep_since ≤ capacity
      → length (steps es s).sleep_since ≤ capacity
  unfolding steps
  steps_bounded [] s h = h
  steps_bounded (e ∷ es) s h = steps_bounded es (step e s) (step_bounded e s h)

  lookup-hash_insert_ne :
      (k j v : ℕ) (m : Dict ℕ) → k ≢ j → lookup j (hash_insert capacity k v m) ≡ lookup j m
  unfolding hash_insert
  lookup-hash_insert_ne k j v m h = ground (arith, lookup-insert k j v m)

  step_other :
      (t : ℕ) (e : Edge) (s : Sleeps)
      → thread e ≢ t
      → lookup t (step e s).sleep_since ≡ lookup t s.sleep_since
  unfolding step sleep_out wake_in forget_thread
  step_other t (leaves state tid now) s h =
      ground (arith, lookup-hash_insert_ne tid t now s.sleep_since)
  step_other t (enters cpu tgid tid now) s h = ground (arith, lookup-remove tid t s.sleep_since)
  step_other t (exits tid) s h = ground (arith, lookup-remove tid t s.sleep_since)

  -- The edges of other threads leave a thread's stamp alone.
  steps_other :
      (t : ℕ) (es : List Edge) (s : Sleeps)
      → All (λ e. thread e ≢ t) es
      → lookup t (steps es s).sleep_since ≡ lookup t s.sleep_since
  unfolding steps
  steps_other t [] s h = refl
  steps_other t (e ∷ es) s h = rw (steps_other t es (step e s) h.1) (step_other t e s h.0)

  stamped :
      (state t a : ℕ) (s : Sleeps)
      → t ≢ 0
      → is_uninterruptible state ≡ true
      → length s.sleep_since < capacity
      → lookup t (sleep_out capacity state t a s).sleep_since ≡ some a
  unfolding sleep_out hash_insert
  stamped state t a s nz d room' = ground (arith, lookup-insert t t a s.sleep_since)

  module _ (keeps : Keeps room) where
    wake_charges :
        (t a b cpu g : ℕ) (s : Sleeps)
        → t ≢ 0
        → g ≢ 0
        → lookup t s.sleep_since ≡ some a
        → slot cpu g s.iowait_ns + (b - a) < u64_mod
        → (slot cpu g (wake_in room cpu g t b s).iowait_ns ≡ slot cpu g s.iowait_ns + (b - a))
          × (lookup t (wake_in room cpu g t b s).sleep_since ≡ none)
    unfolding wake_in
    wake_charges t a b cpu g s nz gz e fits = ground (
      arith,
      e,
      lookup-remove t t s.sleep_since,
      slot-bill room keeps cpu g (b - a) cpu g s.iowait_ns,
    )

    -- A thread, neither its id nor its process 0, that leaves the CPU in D state while the stamp
    -- map has room is charged, at its next switch-in, the interval since then to its process on
    -- the CPU that it wakes on, whatever edges of other threads come in between, and its stamp is
    -- gone; the map of counters is not full and the sum fits 64 bits.
    sleep_charged :
        (state t a b cpu g : ℕ) (es : List Edge) (s : Sleeps)
        → t ≢ 0
        → g ≢ 0
        → is_uninterruptible state ≡ true
        → length s.sleep_since < capacity
        → All (λ e. thread e ≢ t) es
        → slot cpu g (steps es (sleep_out capacity state t a s)).iowait_ns + (b - a) < u64_mod
        → let asleep = steps es (sleep_out capacity state t a s) in
          (slot cpu g (wake_in room cpu g t b asleep).iowait_ns
            ≡ slot cpu g asleep.iowait_ns + (b - a))
          × (lookup t (wake_in room cpu g t b asleep).sleep_since ≡ none)
    sleep_charged state t a b cpu g es s nz gz d free others fits =
        wake_charges t a b cpu g _ nz gz (steps_other t es _ others ∙ stamped state t a s nz d free)
          fits

  -- A thread without a stamp that leaves the CPU in any state but D is charged nothing when it
  -- comes back, whatever edges of other threads come in between.
  runnable_uncharged :
      (state t a b cpu g : ℕ) (es : List Edge) (s : Sleeps)
      → is_uninterruptible state ≡ false
      → lookup t s.sleep_since ≡ none
      → All (λ e. thread e ≢ t) es
      → let away = steps es (sleep_out capacity state t a s) in wake_in room cpu g t b away ≡ away
  runnable_uncharged state t a b cpu g es s d unstamped others =
      no_stamp _
        (steps_other t es _ others ∙ ap (λ (u : Sleeps). lookup t u.sleep_since) same ∙ unstamped)
    where
      same : sleep_out capacity state t a s ≡ s
      same = unfold sleep_out in ground arith

      no_stamp : (u : Sleeps) → lookup t u.sleep_since ≡ none → wake_in room cpu g t b u ≡ u
      no_stamp u e = unfold wake_in in ground arith
