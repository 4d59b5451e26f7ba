-- ===== src/Ui/Frame.antt =====
-- truetop/src/ui/table.rs `draw` and truetop/src/ui/mod.rs `draw`: the table and the whole frame. What the
-- widget makes of the selection is `rendered`.
use truetop.Common.{
  ℕ, ◌+◌, Bool, Option, none, some, List, [], ◌∷◌, ◌++◌, length, ◌==◌, if◌then◌else◌,
}
use truetop.Common.Text.{Text, codes, is_empty}
use truetop.Common.Float.{F64}
use truetop.Host.Cli.{Background}
use truetop.Host.System.{Machine}
use truetop.Metrics.Counters.{ProcessMetrics}
use truetop.Collector.Backend.{SystemState}
use truetop.Ui.App.{Sort, column, App, draw_app}
use truetop.Ui.Table.{visible}
use truetop.Ui.Cells.{Row, process_row}
use truetop.Ui.Spans.{Span, Look, selected_look, Alignment, left, right}
use truetop.Ui.Status.{draw_status}
use truetop.Ui.Header.{Line, Panel, draw_identity, draw_charts, draw_summary}

-- A column takes a fixed width or what is left.
pub data Constraint : Type 0 where
  width : ℕ → Constraint
  fill : Constraint

abbrev pub columns : List (Text × Constraint × Alignment)
columns =
    (codes "Pid", width 7, right)
    ∷ (codes "User", width 9, left)
    ∷ (codes "Program", fill, left)
    ∷ (codes "Cpu%", width 8, right)
    ∷ (codes "Mem", width 10, right)
    ∷ (codes "IO Wait", width 9, right)
    ∷ []

abbrev pub arrow : Bool → Text
arrow descending = if descending then codes "▾" else codes "▴"

abbrev pub header_from :
    ℕ → Sort → Bool → List (Text × Constraint × Alignment) → List (Text × Alignment)
header_from i sort descending [] = []
header_from i sort descending ((title, constraint, align) ∷ more) =
    (if i == column sort then title ++ codes " " ++ arrow descending else title, align)
    ∷ header_from (i + 1) sort descending more

abbrev pub table_title : Text → Text
table_title filter =
    if is_empty filter
    then codes " processes "
    else codes " processes matching \"" ++ filter ++ codes "\" "

pub record TableView : Type 0 where
  pub header : List (Text × Alignment)
  pub title : Text
  pub body : List Row
  pub highlight : Look

pub record Frame (F : Type 0) : Type 0 where
  pub identity : List Line
  pub charts : Panel F × Panel F
  pub summary : List Span
  pub table : TableView
  pub status : List Span

module _ (f64 : F64) (to_u8 to_usize : f64.F → ℕ) (round : f64.F → f64.F)
    (max : f64.F → f64.F → f64.F) (one_decimal two_decimals : f64.F → Text)
    (to_lowercase : Text → Text) where
  open f64 use {F}

  abbrev pub rows_from : Background → ℕ → List (ProcessMetrics F) → ℕ → List Row
  rows_from background i [] total = []
  rows_from background i (p ∷ ps) total =
      process_row f64 to_u8 one_decimal background i p total ∷ rows_from background (i + 1) ps total

  -- The table, and how many rows it holds.
  unfoldable pub draw_table : SystemState F → Background → Sort → Bool → Text → TableView × ℕ
  unfolding visible process_row column
  draw_table state background sort descending filter =
      let rows = visible f64 to_lowercase state.processes sort descending filter in
      let body = rows_from background 0 rows state.memory_total_bytes in
      (
        record {
          header = header_from 0 sort descending columns;
          title = table_title filter;
          body = body;
          highlight = selected_look;
        },
        length body,
      )

  unfoldable pub frame_of :
      SystemState F → Machine → ℕ × ℕ × ℕ → List Span → TableView → App → Frame F
  unfolding draw_identity draw_charts draw_status
  frame_of state machine now summary table app = record {
    identity = draw_identity f64 to_u8 to_usize round max one_decimal two_decimals machine now;
    charts = draw_charts f64 to_u8 to_usize round max one_decimal two_decimals state;
    summary = summary;
    table = table;
    status = draw_status app state.at_capacity;
  }

  -- A frame, for an area of the table of that height; `none` where a gauge panics.
  unfoldable pub draw :
      (ℕ → Option ℕ → Option ℕ)
      → ℕ
      → SystemState F
      → Machine
      → ℕ × ℕ × ℕ
      → App
      → Option (Frame F × App)
  unfolding draw_summary draw_table draw_app frame_of
  draw rendered height state machine now app =
      elim (draw_summary f64 to_u8 to_usize round max one_decimal two_decimals state) [
        | none ↦ none
        | some summary ↦
            let (table, rows) =
              draw_table state app.background app.sort app.descending app.filter in
            let app' = draw_app rendered rows height app in
            some (frame_of state machine now summary table app', app')
      ]
