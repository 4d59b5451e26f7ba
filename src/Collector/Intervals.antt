-- ===== src/Collector/Intervals.antt =====
-- The time that a process runs between two reads of the CPU counter (truetop/src/cpu_maps.rs).
use truetop.Common.{
  ℕ, ◌+◌, ◌-◌, ◌≤◌, ◌≡◌, refl, ◌∙◌, List, [], ◌∷◌, All, arith, sum, not, ◌&&◌, ◌==◌, if◌then◌else◌,
  ==_iff, ==_refl, Bool-cases, inl, inr,
}
use truetop.Kernel.Charge.{Running, Switch, Schedule, after, slice, ran, ends}
use truetop.Collector.Reading.{tabulate, inflight, sum-tabulate_cong, sum-tabulate-add}

-- What a CPU runs, as if its slice had begun at `now`; 0 is a slice that is not counted.
abbrev pub resumed : ℕ → Running → Running
resumed now r = record r { since = if r.since == 0 then 0 else now }

-- The time that process `g` runs on CPU `c` from `now` to `later`, over the switches between.
abbrev pub ran_between : Schedule → ℕ → ℕ → ℕ → List Switch → ℕ → ℕ
ran_between w g now later es c =
    let w' : Schedule = λ k. resumed now (w k) in ran w' c g es + inflight (ends w' es) g later c

-- The time that a slice adds to process `g` by `now`.
abbrev charge : Running → ℕ → ℕ → ℕ
charge r g now =
    if r.tgid == g && (not (r.tid == 0) && not (r.since == 0)) then now - r.since else 0

module _ (c g : ℕ) where
  -- The time of one CPU, from what it runs.
  abbrev used : Running → List Switch → ℕ → ℕ
  used r [] later = charge r g later
  used r (e ∷ es) later =
      if e.cpu == c
      then charge r g e.now
        + used (record { tid = e.next_tid; tgid = e.next_tgid; since = e.now }) es later
      else used r es later

  slice-charge :
      (w : Schedule) (e : Switch) → slice w c g e ≡ (if e.cpu == c then charge (w c) g e.now else 0)
  slice-charge w e = elim (Bool-cases (e.cpu == c)) [
    | inl here ↦ rw ((==_iff e.cpu c).0 here, ==_refl c) refl
    | inr there ↦ rw there refl
  ]

  ran-used :
      (es : List Switch) (w : Schedule) (later : ℕ)
      → ran w c g es + inflight (ends w es) g later c ≡ used (w c) es later
  ran-used [] w later = omega arith
  ran-used (e ∷ es) w later =
      let rest = ran-used es (after w e) later in
      let this = slice-charge w e in
      elim (Bool-cases (e.cpu == c)) [
        | inl here ↦ rw here (omega (arith, rw here at rest, rw here at this))
        | inr there ↦ rw there (omega (arith, rw there at rest, rw there at this))
      ]

  used-resumed :
      (es : List Switch) (r : Running) (now later : ℕ)
      → r.since ≤ now
      → All (λ e. now ≤ e.now) es
      → now ≤ later
      → used r es later ≡ charge r g now + used (resumed now r) es later
  used-resumed [] r now later started order last = ground arith
  used-resumed (e ∷ es) r now later started order last = elim (Bool-cases (e.cpu == c)) [
    | inl here ↦ rw here (ground arith)
    | inr there ↦ rw there (used-resumed es r now later started order.1 last)
  ]

  -- What a CPU has run by `later` is what it had run by `now`, and what it runs between.
  pub ran_between_lem :
      (w : Schedule) (es : List Switch) (now later : ℕ)
      → (w c).since ≤ now
      → All (λ e. now ≤ e.now) es
      → now ≤ later
      → ran w c g es + inflight (ends w es) g later c
        ≡ inflight w g now c + ran_between w g now later es c
  ran_between_lem w es now later started order last = omega (
    arith,
    ran-used es w later,
    used-resumed es (w c) now later started order last,
    ran-used es (λ k. resumed now (w k)) later,
  )

-- Over all CPUs.
pub sum-ran_between :
    (g n : ℕ) (w : Schedule) (es : List Switch) (now later : ℕ)
    → ((c : ℕ) → (w c).since ≤ now)
    → All (λ e. now ≤ e.now) es
    → now ≤ later
    → sum (tabulate 0 n (λ c. ran w c g es + inflight (ends w es) g later c))
      ≡ sum (tabulate 0 n (inflight w g now)) + sum (tabulate 0 n (ran_between w g now later es))
sum-ran_between g n w es now later started order last =
    sum-tabulate_cong n 0 _ _ (λ c. ran_between_lem c g w es now later (started c) order last)
    ∙ sum-tabulate-add n 0 (inflight w g now) (ran_between w g now later es)
