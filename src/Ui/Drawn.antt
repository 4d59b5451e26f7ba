-- ===== src/Ui/Drawn.antt =====
-- What a frame shows, and the view state that it leaves (truetop/src/ui/mod.rs `draw` and table.rs `draw`).
use truetop.Common.{
  ℕ, suc, ◌+◌, ◌≡◌, refl, ap, ◌∙◌, Option, some, List, [], ◌∷◌, ◌++◌, map, length, arith,
}
use truetop.Common.Text.{Text, codes, print_unsigned}
use truetop.Common.Float.{F64}
use truetop.Host.Cli.{Background}
use truetop.Host.System.{Machine}
use truetop.Metrics.Counters.{ProcessMetrics}
use truetop.Collector.Backend.{SystemState}
use truetop.Ui.App.{App, draw_app}
use truetop.Ui.Keys.{OnRow}
use truetop.Ui.Table.{visible}
use truetop.Ui.Cells.{process_row}
use truetop.Ui.Gauges.{Rounds, draw_summary_lem}
use truetop.Ui.Header.{figures}
use truetop.Ui.Spans.{raw}
use truetop.Ui.Status.{draw_status}
use truetop.Ui.Frame.{Frame, rows_from, draw_table, frame_of, draw}

module _ (f64 : F64) (to_u8 to_usize : f64.F → ℕ) (round : f64.F → f64.F)
    (max : f64.F → f64.F → f64.F) (one_decimal two_decimals : f64.F → Text)
    (to_lowercase : Text → Text) where
  open f64 use {F}

  -- The rows that the view state asks for, in order.
  abbrev pub shown_rows : SystemState F → App → List (ProcessMetrics F)
  shown_rows state app = visible f64 to_lowercase state.processes app.sort app.descending app.filter

  length-rows_from :
      (background : Background) (i : ℕ) (ps : List (ProcessMetrics F)) (total : ℕ)
      → length (
          rows_from f64 to_u8 to_usize round max one_decimal two_decimals to_lowercase background i
            ps total)
        ≡ length ps
  length-rows_from background i [] total = refl
  length-rows_from background i (p ∷ ps) total =
      ap suc (length-rows_from background (i + 1) ps total)

  pids_of-rows_from :
      (background : Background) (i : ℕ) (ps : List (ProcessMetrics F)) (total : ℕ)
      → map
          (λ r. r.pid.0)
          (rows_from f64 to_u8 to_usize round max one_decimal two_decimals to_lowercase background i
            ps total)
        ≡ map (λ p. print_unsigned p.pid) ps
  unfolding process_row
  pids_of-rows_from background i [] total = refl
  pids_of-rows_from background i (p ∷ ps) total =
      ap (◌∷◌ (print_unsigned p.pid)) (pids_of-rows_from background (i + 1) ps total)

  draw_app-OnRow :
      (rendered : ℕ → Option ℕ → Option ℕ) (rows height : ℕ) (app : App)
      → OnRow (draw_app rendered rows height app)
        × ((draw_app rendered rows height app).rows ≡ rows)
  unfolding draw_app
  draw_app-OnRow rendered rows height app = (ground arith, ground arith)

  -- Given that a share of at most 1 fills no more than a gauge's width, a frame is drawn whatever
  -- the snapshot is: its table lists the process ids of the rows that the view state asks for, in
  -- order; the view state then counts those rows, its selection is on one of them or on the first
  -- line of an empty table, and the status line shows that view state.
  pub draw_lem :
      (rendered : ℕ → Option ℕ → Option ℕ) (height : ℕ) (state : SystemState F) (machine : Machine)
      (now : ℕ × ℕ × ℕ) (app : App)
      → Rounds f64 to_usize round
      → (frame : Frame F) × (app' : App) × (draw f64 to_u8 to_usize round max one_decimal
            two_decimals to_lowercase rendered height state machine now app
          ≡ some (frame, app'))
        × (map (λ r. r.pid.0) frame.table.body
            ≡ map (λ p. print_unsigned p.pid) (shown_rows state app))
        × (app'.rows ≡ length (shown_rows state app))
        × OnRow app'
        × (frame.status ≡ draw_status app' state.at_capacity)
  unfolding draw draw_table frame_of
  draw_lem rendered height state machine now app rounds =
      let (cpu, mem, drawn, cpu_wide, mem_wide) =
        draw_summary_lem f64 to_u8 to_usize round max one_decimal two_decimals state rounds in
      let (table, rows) =
        draw_table f64 to_u8 to_usize round max one_decimal two_decimals to_lowercase state
          app.background app.sort app.descending app.filter in
      let ps = shown_rows state app in
      let app' = draw_app rendered rows height app in
      let (on_row, app_rows) = draw_app-OnRow rendered rows height app in
      (
        frame_of f64 to_u8 to_usize round max one_decimal two_decimals to_lowercase state machine
            now
            (cpu
              ++ raw (codes "  ") ∷ mem
              ++ figures f64 to_u8 to_usize round max one_decimal two_decimals state)
            table app',
        app',
        rw (drawn, draw) refl,
        pids_of-rows_from app.background 0 ps state.memory_total_bytes,
        app_rows ∙ length-rows_from app.background 0 ps state.memory_total_bytes,
        on_row,
        refl,
      )
