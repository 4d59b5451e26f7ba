-- ===== src/Collector/Rows.antt =====
-- The rows of a tick (truetop/src/backend.rs), and what it keeps for the next.
use truetop.Common.{
  ℕ, ◌-◌, ◌≡◌, refl, ap, ◌∙◌, true, false, Option, none, some, List, [], ◌∷◌, arith, map, Dict,
  lookup, take, contains, ◌==◌, ==_iff, if◌then◌else◌, Bool-cases, inl, inr,
}
use truetop.Common.Text.{Text}
use truetop.Common.Float.{F64}
use truetop.Metrics.Counters.{ProcessMetrics, Snapshot, elapsed_ns_since, cpu_deltas, iowait_deltas}
use truetop.Collector.Reaper.{budget}
use truetop.Collector.Reaping.{announced, reap_lem}
use truetop.Collector.Backend.{
  cpu_snap, io_snap, SelectNth, Collector, Moment, SystemState, enrich, tick,
}

-- The first row of a process.
abbrev pub row_of : {F : Type 0} → ℕ → List (ProcessMetrics F) → Option (ProcessMetrics F)
row_of g [] = none
row_of g (p ∷ ps) = if p.pid == g then some p else row_of g ps

some_eq : {F : Type 0} {p q : ProcessMetrics F} → some p ≡ some q → q ≡ p
some_eq h = cc

module _ (f64 : F64) (select_nth : SelectNth f64.F) (from_utf8_lossy : List ℕ → Text)
    (parse_f64 : Text → Option f64.F) where
  open f64 use {F, of_nat, literal, mul, div, lt}

  abbrev pub published : Collector F → Moment → SystemState F
  published c m = (tick f64 select_nth from_utf8_lossy parse_f64 c m).0

  abbrev pub next : Collector F → Moment → Collector F
  next c m = (tick f64 select_nth from_utf8_lossy parse_f64 c m).1

  abbrev pub shown : Collector F → Moment → Dict F → Dict F → ℕ → ProcessMetrics F
  shown = enrich f64 select_nth from_utf8_lossy parse_f64

  row_of-enrich :
      (c : Collector F) (m : Moment) (cpu io : Dict F) (pids : List ℕ) (g : ℕ)
      (p : ProcessMetrics F)
      → row_of g (map (shown c m cpu io) pids) ≡ some p
      → p ≡ shown c m cpu io g
  unfolding enrich
  row_of-enrich c m cpu io [] g p h = absurd (ground arith)
  row_of-enrich c m cpu io (pid ∷ pids) g p h = elim (Bool-cases (pid == g)) [
    | inl e ↦
        let first : some (shown c m cpu io pid) ≡ some p = rw e at h in
        some_eq first ∙ ap (shown c m cpu io) ((==_iff pid g).0 e)
    | inr e ↦ row_of-enrich c m cpu io pids g p (rw e at h)
  ]

  -- A row shows its process's readings.
  pub row_of-tick :
      (c : Collector F) (m : Moment) (g : ℕ) (p : ProcessMetrics F)
      → row_of g (published c m).processes ≡ some p
      → p
        ≡ shown c m
            (cpu_deltas f64 c.cpu (cpu_snap m)).0
            (iowait_deltas f64 c.iowait (io_snap m)).0
            g
  unfolding tick
  row_of-tick c m g p h = row_of-enrich c m _ _ _ g p h

  pub kept-tick :
      (c : Collector F) (m : Moment) (g : ℕ)
      → contains g (announced m.is_big_endian (take budget m.exits)) ≡ false
      → let books = (tick f64 select_nth from_utf8_lossy parse_f64 c m).2 in
        (lookup g books.cpu_ns ≡ lookup g m.cpu_ns)
        × (lookup g books.iowait_ns ≡ lookup g m.iowait_ns)
  unfolding tick
  kept-tick c m g alive =
      let (dropped, left) =
        reap_lem m.is_big_endian g (record {
          cpu_ns = m.cpu_ns;
          iowait_ns = m.iowait_ns;
          names = c.names;
          exits = m.exits;
        }) in
      (rw alive at dropped.cpu_ns, rw alive at dropped.iowait_ns)

  pub dropped-tick :
      (c : Collector F) (m : Moment) (g : ℕ)
      → contains g (announced m.is_big_endian (take budget m.exits)) ≡ true
      → lookup g (tick f64 select_nth from_utf8_lossy parse_f64 c m).2.cpu_ns ≡ none
  unfolding tick
  dropped-tick c m g gone =
      let (dropped, left) =
        reap_lem m.is_big_endian g (record {
          cpu_ns = m.cpu_ns;
          iowait_ns = m.iowait_ns;
          names = c.names;
          exits = m.exits;
        }) in
      rw gone at dropped.cpu_ns

  pub prev-tick :
      (c : Collector F) (m : Moment)
      → ((next c m).cpu.prev ≡ (cpu_snap m)) × ((next c m).iowait.prev ≡ (io_snap m))
  unfolding tick cpu_deltas iowait_deltas
  prev-tick c m = (refl, refl)

  pub elapsed_between :
      (before after : Snapshot) (t1 t2 : ℕ)
      → before.at ≡ some t1
      → after.at ≡ some t2
      → elapsed_ns_since f64 after before ≡ of_nat (t2 - t1)
  unfolding elapsed_ns_since
  elapsed_between before after t1 t2 at1 at2 = rw (at2, at1) refl
