-- ===== src/Collector/Ticks.antt =====
-- Runs of ticks (truetop/src/backend.rs): the history window, and departures across a tick.
use truetop.Common.{
  ℕ, suc, ◌<◌, ◌≡◌, refl, sym, ap, ◌∙◌, true, Option, none, some, List, [], ◌∷◌, ◌++◌, append_assoc,
  append-nil, arith, lookup, length, length-append, length-drop, take, drop, drop-drop, contains,
}
use truetop.Common.Text.{Text}
use truetop.Common.Float.{F64}
use truetop.Metrics.Identity.{named, unknown}
use truetop.Collector.Backend.{
  SelectNth, history, push_capped, SystemState, Collector, Moment, or_zero_f, enrich, tick,
}
use truetop.Metrics.Counters.{ProcessMetrics, elapsed_ns_since}
use truetop.Metrics.Rates.{cpu_reading}
use truetop.Collector.Reaper.{Books, budget}
use truetop.Collector.Rows.{row_of, row_of-tick}
use truetop.Collector.Shares.{row_cpu}
use truetop.Collector.Reaping.{announced, reap_lem}

push_full :
    {F : Type 0} (buf : List F) (v : F)
    → length buf ≡ history
    → push_capped buf v ≡ drop 1 (buf ++ v ∷ [])
unfolding push_capped
push_full [] v h = absurd (omega arith)
push_full (x ∷ buf) v h = ground arith

abbrev pub pushes : {F : Type 0} → List F → List F → List F
pushes buf [] = buf
pushes buf (v ∷ vs) = pushes (push_capped buf v) vs

drop_one-append :
    {F : Type 0} (buf vs : List F) → 0 < length buf → drop 1 buf ++ vs ≡ drop 1 (buf ++ vs)
drop_one-append [] vs h = absurd (omega arith)
drop_one-append (x ∷ buf) vs h = refl

-- A full buffer that is pushed to holds the last of what it held and what was pushed.
pub pushes_window :
    {F : Type 0} (buf vs : List F)
    → length buf ≡ history
    → pushes buf vs ≡ drop (length vs) (buf ++ vs)
pushes_window buf [] h = sym (append-nil buf)
pushes_window buf (v ∷ vs) h =
    let pushed : push_capped buf v ≡ drop 1 (buf ++ v ∷ []) = push_full buf v h in
    let long : length (buf ++ v ∷ []) ≡ suc history =
      length-append buf (v ∷ []) ∙ omega (arith, h) in
    let full : length (drop 1 (buf ++ v ∷ [])) ≡ history =
      length-drop 1 (buf ++ v ∷ []) ∙ omega (arith, long) in
    ap (λ b. pushes b vs) pushed
    ∙ pushes_window (drop 1 (buf ++ v ∷ [])) vs full
    ∙ ap (drop (length vs)) (
        drop_one-append (buf ++ v ∷ []) vs (omega (arith, long))
        ∙ ap (drop 1) (append_assoc buf (v ∷ []) vs))
    ∙ drop-drop (length vs) 1 (suc (length vs)) (buf ++ v ∷ vs) (omega arith)

module _ (f64 : F64) (select_nth : SelectNth f64.F) (from_utf8_lossy : List ℕ → Text)
    (parse_f64 : Text → Option f64.F) where
  open f64 use {F}

  abbrev next : Collector F → Moment → Collector F
  next c m = (tick f64 select_nth from_utf8_lossy parse_f64 c m).1

  abbrev published : Collector F → Moment → SystemState F
  published c m = (tick f64 select_nth from_utf8_lossy parse_f64 c m).0

  abbrev books : Collector F → Moment → Books
  books c m = (tick f64 select_nth from_utf8_lossy parse_f64 c m).2

  -- The collector after a run of ticks.
  abbrev pub ticks : Collector F → List Moment → Collector F
  ticks c [] = c
  ticks c (m ∷ ms) = ticks (next c m) ms

  -- The totals that the run publishes, for CPU and for I/O wait.
  abbrev pub cpu_totals : Collector F → List Moment → List F
  cpu_totals c [] = []
  cpu_totals c (m ∷ ms) = (published c m).total_cpu_percent ∷ cpu_totals (next c m) ms

  abbrev pub io_totals : Collector F → List Moment → List F
  io_totals c [] = []
  io_totals c (m ∷ ms) = (published c m).total_io_percent ∷ io_totals (next c m) ms

  ticks-pushes :
      (c : Collector F) (ms : List Moment)
      → ((ticks c ms).cpu_history ≡ pushes c.cpu_history (cpu_totals c ms))
        × ((ticks c ms).io_history ≡ pushes c.io_history (io_totals c ms))
  unfolding tick
  ticks-pushes c [] = (refl, refl)
  ticks-pushes c (m ∷ ms) = ticks-pushes (next c m) ms

  -- Over any run of ticks from charts of 120 points, both charts hold the last 120 of what they
  -- started with and the totals published since.
  pub ticks-history :
      (c : Collector F) (ms : List Moment)
      → length c.cpu_history ≡ history
      → length c.io_history ≡ history
      → ((ticks c ms).cpu_history
          ≡ drop (length (cpu_totals c ms)) (c.cpu_history ++ cpu_totals c ms))
        × ((ticks c ms).io_history
            ≡ drop (length (io_totals c ms)) (c.io_history ++ io_totals c ms))
  ticks-history c ms hc hi =
      let (cpu, io) = ticks-pushes c ms in
      (
        cpu ∙ pushes_window c.cpu_history (cpu_totals c ms) hc,
        io ∙ pushes_window c.io_history (io_totals c ms) hi,
      )

  -- A process whose departure a tick takes off the ring still shows, in a row that the tick
  -- publishes for it, the name on record before the tick, and as its CPU figure the rate between
  -- the last read and a read of the counters as they stood before the tick; after the tick it has
  -- no counter and no name.
  pub tick_charges_then_reaps :
      (c : Collector F) (m : Moment) (k : ℕ) (p : ProcessMetrics F)
      → contains k (announced m.is_big_endian (take budget m.exits)) ≡ true
      → row_of k (published c m).processes ≡ some p
      → (p.name ≡ (named from_utf8_lossy c.names k).name)
        × (p.cpu.cpu_percent
            ≡ or_zero_f f64 select_nth from_utf8_lossy parse_f64 (
                cpu_reading f64
                  (lookup k (m.read_cpu m.cpu_ns).by_pid)
                  (lookup k c.cpu.prev.by_pid)
                  (elapsed_ns_since f64 (m.read_cpu m.cpu_ns) c.cpu.prev)))
        × (lookup k (books c m).cpu_ns ≡ none)
        × (lookup k (books c m).iowait_ns ≡ none)
        × (named from_utf8_lossy (next c m).names k ≡ record { name = unknown; user = none })
  unfolding tick named enrich
  tick_charges_then_reaps c m k p gone shown =
      let (dropped, left) =
        reap_lem m.is_big_endian k (record {
          cpu_ns = m.cpu_ns;
          iowait_ns = m.iowait_ns;
          names = c.names;
          exits = m.exits;
        }) in
      (
        ap (λ (q : ProcessMetrics F). q.name)
            (row_of-tick f64 select_nth from_utf8_lossy parse_f64 c m k p shown),
        row_cpu f64 select_nth from_utf8_lossy parse_f64 c m k p shown,
        rw gone at dropped.cpu_ns,
        rw gone at dropped.iowait_ns,
        ground (arith, rw gone at dropped.comm, rw gone at dropped.seed),
      )
