-- ===== src/World/Queue.antt =====
-- The ring of departures, as records and as bytes (truetop-ebpf/src/exit_notify.rs and
-- truetop/src/reaper.rs).
use truetop.Common.{
  ℕ, zero, suc, ◌+◌, ◌≤◌, ◌<◌, ◌≡◌, refl, ap, ◌∙◌, sym, Bool, true, false, some, List, [], ◌∷◌,
  ◌++◌, arith, append-nil, length, length-append, take, drop, contains, ==_refl, u32_mod, All,
  Option-cases, ◌⊎◌, inl, inr,
}
use truetop.Kernel.Task.{Memory, Globals, tgid}
use truetop.Kernel.Sched.{ExitEvent, Kernel, Limits, sched_process_exit, sched_switch}
use truetop.Collector.Reaper.{budget}
use truetop.Collector.Reaping.{announced, from_bytes-to_ne_bytes, reap_lem}
use truetop.World.{
  Setting, World, Readings, Event, switches, exits, execs, forks, changes_creds, ticks, to_ring,
  events_of, collect, advance,
}

-- The process ids on the ring are u32.
abbrev pub AreWords : List ExitEvent → Type 0
AreWords = All (λ e. e.tgid < u32_mod)

events_of-to_ring :
    (big : Bool) (es : List ExitEvent) → AreWords es → events_of big (to_ring big es) ≡ es
unfolding events_of
events_of-to_ring big [] h = refl
events_of-to_ring big (e ∷ es) h =
    rw (from_bytes-to_ne_bytes big e.tgid h.0, events_of)
      (ap (◌∷◌ e) (events_of-to_ring big es h.1))

drop-to_ring :
    (big : Bool) (n : ℕ) (es : List ExitEvent) → drop n (to_ring big es) ≡ to_ring big (drop n es)
drop-to_ring big zero es = refl
drop-to_ring big (suc n) [] = refl
drop-to_ring big (suc n) (e ∷ es) = drop-to_ring big n es

pub AreWords-drop : (n : ℕ) (es : List ExitEvent) → AreWords es → AreWords (drop n es)
AreWords-drop zero es h = h
AreWords-drop (suc n) [] h = tt
AreWords-drop (suc n) (e ∷ es) h = AreWords-drop n es h.1

pub AreWords-append : (xs ys : List ExitEvent) → AreWords xs → AreWords ys → AreWords (xs ++ ys)
AreWords-append [] ys h k = k
AreWords-append (x ∷ xs) ys h k = (h.0, AreWords-append xs ys h.1 k)

-- A record that fewer than `n` others precede is among the first `n`.
pub announced-to_ring :
    (big : Bool) (n : ℕ) (front back : List ExitEvent) (e : ExitEvent)
    → AreWords (front ++ e ∷ back)
    → length front < n
    → contains e.tgid (announced big (take n (to_ring big (front ++ e ∷ back)))) ≡ true
announced-to_ring big zero front back e h lt = absurd (omega arith)
announced-to_ring big (suc n) [] back e h lt =
    rw (from_bytes-to_ne_bytes big e.tgid h.0, announced, ==_refl e.tgid)
announced-to_ring big (suc n) (f ∷ front) back e h lt =
    let rest = announced-to_ring big n front back e h.1 (omega arith) in
    rw (from_bytes-to_ne_bytes big f.tgid h.0, announced) (ground arith)

-- What memory answers fits the width that is read.
pub record HasWords (mem : Memory) : Type 0 where
  pub u32 : (a v : ℕ) → mem.read_u32 a ≡ some v → v < u32_mod

tgid_word : (mem : Memory) (g : Globals) (task : ℕ) → HasWords mem → tgid mem g task < u32_mod
unfolding tgid
tgid_word mem g task h = elim (Option-cases (mem.read_u32 (task + g.tgid_offset))) [
  | inl e ↦ ground (arith, e)
  | inr (v, e) ↦ ground (arith, e, h.u32 (task + g.tgid_offset) v e)
]

-- The memory that an event meets.
abbrev pub IsFaithful : Event → Type 0
IsFaithful (switches mem ctx) = Unit
IsFaithful (exits mem task) = HasWords mem
IsFaithful (execs mem h task) = Unit
IsFaithful (forks mem h child) = Unit
IsFaithful (changes_creds mem h creds) = Unit
IsFaithful (ticks r) = Unit

exit_cases :
    (limits : Limits) (mem : Memory) (g : Globals) (task : ℕ) (k : Kernel)
    → ((sched_process_exit limits mem g task k).exits ≡ k.exits)
      ⊎ ((length k.exits < limits.ring_room)
          × ((sched_process_exit limits mem g task k).exits
              ≡ k.exits ++ record { tgid = tgid mem g task } ∷ []))
unfolding sched_process_exit
exit_cases limits mem g task k = ground arith

-- What an event puts on the ring: at most one record, and only where there is room.
pub record Appends (ring_room : ℕ) (before after : List ExitEvent) : Type 0 where
  pub more : List ExitEvent
  pub grown : after ≡ before ++ more
  pub words : AreWords more
  pub room : length before ≤ ring_room → length after ≤ ring_room

Appends-refl : (ring_room : ℕ) (ring : List ExitEvent) → Appends ring_room ring ring
Appends-refl ring_room ring = record {
  more = [];
  grown = sym (append-nil ring);
  words = tt;
  room = λ h. h;
}

pub exit-Appends :
    (limits : Limits) (mem : Memory) (g : Globals) (task : ℕ) (k : Kernel)
    → HasWords mem
    → Appends limits.ring_room k.exits (sched_process_exit limits mem g task k).exits
exit-Appends limits mem g task k h = elim (exit_cases limits mem g task k) [
  | inl same ↦ record {
    more = [];
    grown = same ∙ sym (append-nil k.exits);
    words = tt;
    room = λ b. omega (arith, ap length same);
  }
  | inr (free, added) ↦ record {
    more = record { tgid = tgid mem g task } ∷ [];
    grown = added;
    words = (tgid_word mem g task h, tt);
    room = λ b.
        omega
          (arith, ap length added, length-append k.exits (record { tgid = tgid mem g task } ∷ []));
  }
]

abbrev pub is_tick : Event → Bool
is_tick (switches mem ctx) = false
is_tick (exits mem task) = false
is_tick (execs mem h task) = false
is_tick (forks mem h child) = false
is_tick (changes_creds mem h creds) = false
is_tick (ticks r) = true

module _ (s : Setting) where
  open s use {f64, limits, globals}
  open f64 use {F}

  -- A tick takes the oldest records off the ring, up to the budget.
  pub collect-exits :
      (r : Readings) (w : World F)
      → AreWords w.kernel.exits
      → (collect s r w).kernel.exits ≡ drop budget w.kernel.exits
  unfolding collect
  collect-exits r w h =
      let big = globals.is_big_endian in
      let (dropped, left) = reap_lem big 0 (record {
        cpu_ns = w.kernel.clocks.cpu_ns;
        iowait_ns = w.kernel.sleeps.iowait_ns;
        names = w.collector.names;
        exits = to_ring big w.kernel.exits;
      }) in
      ap (events_of big) (left ∙ drop-to_ring big budget w.kernel.exits)
      ∙ events_of-to_ring big (drop budget w.kernel.exits) (AreWords-drop budget w.kernel.exits h)

  -- Any other event leaves what is on the ring where it is.
  pub advance-Appends :
      (e : Event) (w : World F)
      → is_tick e ≡ false
      → IsFaithful e
      → Appends limits.ring_room w.kernel.exits (advance s e w).kernel.exits
  unfolding advance sched_switch
  advance-Appends (switches mem ctx) w n h = Appends-refl limits.ring_room w.kernel.exits
  advance-Appends (exits mem task) w n h = exit-Appends limits mem globals task w.kernel h
  advance-Appends (execs mem h task) w n f = Appends-refl limits.ring_room w.kernel.exits
  advance-Appends (forks mem h child) w n f = Appends-refl limits.ring_room w.kernel.exits
  advance-Appends (changes_creds mem h creds) w n f = Appends-refl limits.ring_room w.kernel.exits
  advance-Appends (ticks r) w n h = cc
