-- ===== src/World/Reaped.antt =====
-- A departure that is on the ring is reaped, whatever happens meanwhile (truetop/src/reaper.rs, driven by
-- `collector_loop` of truetop/src/backend.rs).
use truetop.Common.{
  ℕ, zero, suc, ◌*◌, ◌≤◌, ◌<◌, ◌≡◌, refl, sym, ap, ◌∙◌, true, false, none, List, [], ◌∷◌, ◌++◌,
  append_assoc, arith, lookup, length, length-drop, drop, take, contains, if◌then◌else◌, All, ltb,
  ltb→lt, not_ltb→le, Bool-cases, inl, inr,
}
use mathlib.Core.Path.{subst}
use truetop.Kernel.Sched.{ExitEvent}
use truetop.Collector.Reaper.{budget}
use truetop.Collector.Reaping.{announced, reap_lem}
use truetop.World.{
  Setting, World, Event, switches, exits, execs, forks, changes_creds, ticks, to_ring, Readings,
  collect, advance, run,
}
use truetop.World.Queue.{
  AreWords, AreWords-append, AreWords-drop, announced-to_ring, IsFaithful, is_tick, advance-Appends,
  collect-exits,
}

abbrev pub count_ticks : List Event → ℕ
count_ticks [] = 0
count_ticks (e ∷ es) = if is_tick e then suc (count_ticks es) else count_ticks es

-- No counter and no name of the process is left.
pub record IsGone {F : Type 0} (tgid : ℕ) (w : World F) : Type 0 where
  pub cpu_ns : lookup tgid w.kernel.clocks.cpu_ns ≡ none
  pub iowait_ns : lookup tgid w.kernel.sleeps.iowait_ns ≡ none
  pub comm : lookup tgid w.collector.names.comm ≡ none
  pub seed : lookup tgid w.collector.names.seed ≡ none

drop-append_le :
    {A : Type 0} (n : ℕ) (xs ys : List A) → n ≤ length xs → drop n (xs ++ ys) ≡ drop n xs ++ ys
drop-append_le zero xs ys h = refl
drop-append_le (suc n) [] ys h = absurd (omega arith)
drop-append_le (suc n) (x ∷ xs) ys h = drop-append_le n xs ys (omega arith)

module _ (s : Setting) where
  open s use {f64, limits, globals}
  open f64 use {F}

  -- A moment of the run, after a tick, at which the process is gone.
  pub record IsReaped (tgid : ℕ) (es : List Event) (w : World F) : Type 0 where
    pub before : List Event
    pub reading : Readings
    pub after : List Event
    pub run_eq : es ≡ before ++ ticks reading ∷ after
    pub gone : IsGone tgid (run s (before ++ ticks reading ∷ []) w)

  collect-IsGone :
      (r : Readings) (w : World F) (front back : List ExitEvent) (e : ExitEvent)
      → AreWords w.kernel.exits
      → w.kernel.exits ≡ front ++ e ∷ back
      → length front < budget
      → IsGone e.tgid (collect s r w)
  unfolding collect
  collect-IsGone r w front back e words split near =
      let big = globals.is_big_endian in
      let at : contains e.tgid (announced big (take budget (to_ring big w.kernel.exits))) ≡ true =
        rw split (announced-to_ring big budget front back e (subst AreWords split words) near) in
      let (dropped, left) = reap_lem big e.tgid (record {
        cpu_ns = w.kernel.clocks.cpu_ns;
        iowait_ns = w.kernel.sleeps.iowait_ns;
        names = w.collector.names;
        exits = to_ring big w.kernel.exits;
      }) in
      record {
        cpu_ns = rw at at dropped.cpu_ns;
        iowait_ns = rw at at dropped.iowait_ns;
        comm = rw at at dropped.comm;
        seed = rw at at dropped.seed;
      }

  later-IsReaped :
      (tgid : ℕ) (e : Event) (es : List Event) (w : World F)
      → IsReaped tgid es (advance s e w)
      → IsReaped tgid (e ∷ es) w
  unfolding run
  later-IsReaped tgid e es w h = record {
    before = e ∷ h.before;
    reading = h.reading;
    after = h.after;
    run_eq = ap (◌∷◌ e) h.run_eq;
    gone = h.gone;
  }

  other-IsReaped :
      (ev : Event) (es : List Event) (w : World F) (front back : List ExitEvent) (e : ExitEvent)
      → is_tick ev ≡ false
      → IsFaithful ev
      → AreWords w.kernel.exits
      → w.kernel.exits ≡ front ++ e ∷ back
      → ((back' : List ExitEvent)
          → AreWords (advance s ev w).kernel.exits
          → (advance s ev w).kernel.exits ≡ front ++ e ∷ back'
          → IsReaped e.tgid es (advance s ev w))
      → IsReaped e.tgid (ev ∷ es) w
  other-IsReaped ev es w front back e quiet faithful words split rest =
      let grows = advance-Appends s ev w quiet faithful in
      let words' : AreWords (advance s ev w).kernel.exits =
        subst AreWords (sym grows.grown)
          (AreWords-append w.kernel.exits grows.more words grows.words) in
      let split' : (advance s ev w).kernel.exits ≡ front ++ e ∷ (back ++ grows.more) =
        grows.grown ∙ ap (λ r. r ++ grows.more) split ∙ append_assoc front (e ∷ back) grows.more in
      later-IsReaped e.tgid ev es w (rest (back ++ grows.more) words' split')

  tick-IsReaped :
      (r : Readings) (es : List Event) (w : World F) (front back : List ExitEvent) (e : ExitEvent)
      → AreWords w.kernel.exits
      → w.kernel.exits ≡ front ++ e ∷ back
      → (budget ≤ length front
          → AreWords (collect s r w).kernel.exits
          → (collect s r w).kernel.exits ≡ drop budget front ++ e ∷ back
          → IsReaped e.tgid es (collect s r w))
      → IsReaped e.tgid (ticks r ∷ es) w
  unfolding run advance
  tick-IsReaped r es w front back e words split rest =
      elim (Bool-cases (ltb (length front) budget)) [
        | inl near ↦ record {
          before = [];
          reading = r;
          after = es;
          run_eq = refl;
          gone = collect-IsGone r w front back e words split (ltb→lt (length front) budget near);
        }
        | inr far ↦
            let over = not_ltb→le (length front) budget far in
            let left = collect-exits s r w words in
            let words' : AreWords (collect s r w).kernel.exits =
              subst AreWords (sym left) (AreWords-drop budget w.kernel.exits words) in
            later-IsReaped e.tgid (ticks r) es w (
              rest over words'
                (left ∙ ap (drop budget) split ∙ drop-append_le budget front (e ∷ back) over))
      ]

  -- Over any run of the five programs and of ticks in which the memory at exits answers words of
  -- 32 bits, a departure on a ring of 32-bit process ids that fewer records precede than the ticks
  -- of the run take off, its budget for each, is reaped: after one of the ticks the process has no
  -- counter and no name.
  pub announced-IsReaped :
      (es : List Event) (w : World F) (front back : List ExitEvent) (e : ExitEvent)
      → AreWords w.kernel.exits
      → All IsFaithful es
      → w.kernel.exits ≡ front ++ e ∷ back
      → length front < budget * count_ticks es
      → IsReaped e.tgid es w
  unfolding advance
  announced-IsReaped [] w front back e words faithful split few = absurd (omega arith)
  announced-IsReaped (ticks r ∷ es) w front back e words faithful split few =
      tick-IsReaped r es w front back e words split λ over words' split'.
        announced-IsReaped es (collect s r w) (drop budget front) back e words' faithful.1 split'
          (omega (arith, length-drop budget front, over, few))
  announced-IsReaped (switches mem ctx ∷ es) w front back e words faithful split few =
      other-IsReaped (switches mem ctx) es w front back e refl faithful.0 words split
        λ back' words' split'. announced-IsReaped es _ front back' e words' faithful.1 split' few
  announced-IsReaped (exits mem task ∷ es) w front back e words faithful split few =
      other-IsReaped (exits mem task) es w front back e refl faithful.0 words split
        λ back' words' split'. announced-IsReaped es _ front back' e words' faithful.1 split' few
  announced-IsReaped (execs mem h task ∷ es) w front back e words faithful split few =
      other-IsReaped (execs mem h task) es w front back e refl faithful.0 words split
        λ back' words' split'. announced-IsReaped es _ front back' e words' faithful.1 split' few
  announced-IsReaped (forks mem h task ∷ es) w front back e words faithful split few =
      other-IsReaped (forks mem h task) es w front back e refl faithful.0 words split
        λ back' words' split'. announced-IsReaped es _ front back' e words' faithful.1 split' few
  announced-IsReaped (changes_creds mem h task ∷ es) w front back e words faithful split few =
      other-IsReaped (changes_creds mem h task) es w front back e refl faithful.0 words split
        λ back' words' split'. announced-IsReaped es _ front back' e words' faithful.1 split' few
