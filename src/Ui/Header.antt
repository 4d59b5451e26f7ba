-- ===== src/Ui/Header.antt =====
-- truetop/src/ui/header.rs: the identity line, the charts and the gauges, as the spans and points that
-- they are made of. `one_decimal` and `two_decimals` are the formattings `{:.1}` and `{:.2}`; `round` and
-- `max` are those of `f64`, `to_usize` its saturating cast.
use truetop.Common.{
  ℕ, ◌+◌, ◌-◌, Option, none, some, List, [], ◌∷◌, ◌++◌, length, replicate, leb, ltb, ◌==◌,
  if◌then◌else◌,
}
use truetop.Common.Text.{Text, codes, print_unsigned}
use truetop.Common.Float.{F64, zero_f}
use truetop.Host.System.{Machine}
use truetop.Collector.Backend.{SystemState}
use truetop.Ui.Theme.{Colour, cyan, dim, io_colour, clamp}
use truetop.Ui.Cells.{format_bytes}
use truetop.Ui.Spans.{
  Span, raw, styled, bold_span, accent, text_colour, cpu_colour, Alignment, left, center, right,
}

abbrev pub gauge_width : ℕ
gauge_width = 18

-- A line over an area, by its alignment.
pub record Line : Type 0 where
  pub spans : List Span
  pub alignment : Alignment

-- `{:02}`.
abbrev pub two_digits : ℕ → Text
two_digits n = if ltb n 10 then codes "0" ++ print_unsigned n else print_unsigned n

-- The local time, as hours, minutes and seconds.
abbrev pub clock : ℕ × ℕ × ℕ → Text
clock (hour, minute, second) =
    two_digits hour ++ codes ":" ++ two_digits minute ++ codes ":" ++ two_digits second

pub record Chart (F : Type 0) : Type 0 where
  pub title : List Span
  pub colour : Colour
  pub points : List (F × F)
  pub x_max : F
  pub y_max : F

-- A panel: its title alone where there are no samples yet.
pub data Panel (F : Type 0) : Type 0 where
  only_title : List Span → Panel F
  plotted : Chart F → Panel F

module _ (f64 : F64) (to_u8 to_usize : f64.F → ℕ) (round : f64.F → f64.F)
    (max : f64.F → f64.F → f64.F) (one_decimal two_decimals : f64.F → Text) where
  open f64 use {F, of_nat, literal, mul, div}

  unfoldable pub draw_identity : Machine → ℕ × ℕ × ℕ → List Line
  unfolding format_bytes
  draw_identity machine now =
      let specs =
        machine.hostname
        ++ codes " · "
        ++ machine.cpu_model
        ++ codes " · "
        ++ print_unsigned machine.cores
        ++ codes " cores · "
        ++ format_bytes f64 to_u8 one_decimal machine.memory_total_bytes in
      record {
        spans =
            raw (codes " ")
            ∷ bold_span (codes "truet") text_colour
            ∷ bold_span (codes "◎") io_colour
            ∷ bold_span (codes "p") text_colour
            ∷ [];
        alignment = left;
      }
      ∷ record { spans = styled specs dim ∷ []; alignment = center }
      ∷ record { spans = styled (clock now ++ codes " ") accent ∷ []; alignment = right }
      ∷ []

  abbrev pub points_from : ℕ → List F → List (F × F)
  points_from i [] = []
  points_from i (v ∷ vs) = (of_nat i, v) ∷ points_from (i + 1) vs

  -- `fold(1.0, f64::max)` over the values.
  abbrev pub peak_from : F → List F → F
  peak_from peak [] = peak
  peak_from peak (v ∷ vs) = peak_from (max peak v) vs

  abbrev pub chart_title : Text → Text → Colour → List Span
  chart_title label value colour =
      bold_span (codes " " ++ label ++ codes " ") colour ∷ styled (value ++ codes " ") dim ∷ []

  abbrev pub plot : List F → Text → Text → Colour → Chart F
  plot history label value colour =
      let last = length history - 1 in
      record {
        title = chart_title label value colour;
        colour = colour;
        points = points_from 0 history;
        x_max = of_nat (if ltb last 1 then 1 else last);
        y_max = mul (peak_from (literal 1 0) history) (literal 11 1);
      }

  unfoldable pub chart : List F → Text → Text → Colour → Panel F
  chart history label value colour =
      if length history == 0
      then only_title (chart_title label value colour)
      else plotted (plot history label value colour)

  unfoldable pub draw_charts : SystemState F → Panel F × Panel F
  unfolding chart
  draw_charts state = (
    chart state.cpu_history (codes "cpu") (one_decimal state.total_cpu_percent ++ codes "%")
        cpu_colour,
    chart state.io_history (codes "io wait")
        (one_decimal state.total_io_percent ++ codes "% summed over processes") io_colour,
  )

  unfoldable pub filled_of : F → ℕ
  unfolding clamp
  filled_of percent = to_usize (
      round (
        mul (clamp f64 to_u8 (div percent (literal 100 0)) (literal 0 0) (literal 1 0))
          (of_nat gauge_width)))

  abbrev pub gauge_spans : Text → F → Colour → ℕ → List Span
  gauge_spans label percent colour filled =
      bold_span (codes " " ++ label ++ codes " ") colour
      ∷ styled (replicate filled 0x2501) colour
      ∷ styled (replicate (gauge_width - filled) 0x2500) dim
      ∷ styled (codes " " ++ one_decimal percent ++ codes "%") text_colour
      ∷ []

  -- `none` where `GAUGE_WIDTH - filled` underflows.
  unfoldable pub gauge : Text → F → Colour → Option (List Span)
  unfolding filled_of
  gauge label percent colour =
      let filled = filled_of percent in
      if leb filled gauge_width then some (gauge_spans label percent colour filled) else none

  abbrev pub memory_percent : SystemState F → F
  memory_percent state =
      if state.memory_total_bytes == 0
      then zero_f f64
      else mul (div (of_nat state.memory_used_bytes) (of_nat state.memory_total_bytes))
          (literal 100 0)

  abbrev pub figures : SystemState F → List Span
  figures state =
      styled
        (codes " "
          ++ format_bytes f64 to_u8 one_decimal state.memory_used_bytes
          ++ codes " of "
          ++ format_bytes f64 to_u8 one_decimal state.memory_total_bytes)
        dim
      ∷ styled (codes "  load " ++ two_decimals state.load_average) dim
      ∷ styled (codes "  " ++ print_unsigned state.tracked ++ codes " tasks") dim
      ∷ []

  unfoldable pub draw_summary : SystemState F → Option (List Span)
  unfolding gauge
  draw_summary state = elim (gauge (codes "cpu") state.total_cpu_percent cpu_colour) [
    | none ↦ none
    | some cpu ↦ elim (gauge (codes "mem") (memory_percent state) cyan) [
      | none ↦ none
      | some mem ↦ some (cpu ++ raw (codes "  ") ∷ mem ++ figures state)
    ]
  ]
