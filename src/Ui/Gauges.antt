-- ===== src/Ui/Gauges.antt =====
-- The gauges and the charts above the table (truetop/src/ui/header.rs).
use truetop.Common.{
  ℕ, ◌+◌, ◌-◌, ◌≤◌, ◌<◌, ◌≡◌, refl, ap, inl, inr, true, false, some, List, [], ◌∷◌, ◌++◌, map,
  length, length-replicate, leb, ◌==◌, Bool-cases, All, arith,
}
use truetop.Common.Text.{Text, codes}
use truetop.Common.Float.{F64}
use truetop.Collector.Backend.{SystemState}
use truetop.Ui.Theme.{Colour, cyan, clamp}
use truetop.Ui.Spans.{Span, raw, cpu_colour}
use truetop.Ui.Header.{
  gauge_width, figures, memory_percent, Chart, plotted, points_from, peak_from, chart, filled_of,
  gauge, gauge_spans, plot, draw_summary,
}

-- What is relied on of `f64`: a share that is not above 1 fills no more than the width, and `clamp`'s
-- bounds are in order.
pub record Rounds (f64 : F64) (to_usize : f64.F → ℕ) (round : f64.F → f64.F) : Type 0 where
  pub share :
      (x : f64.F)
      → f64.lt (f64.literal 1 0) x ≡ false
      → to_usize (round (f64.mul x (f64.of_nat gauge_width))) ≤ gauge_width
  pub zero_one : f64.lt (f64.literal 1 0) (f64.literal 0 0) ≡ false
  pub one_one : f64.lt (f64.literal 1 0) (f64.literal 1 0) ≡ false

-- What is relied on of `f64::max`, on values that are ordered.
pub record IsMax (f64 : F64) (max : f64.F → f64.F → f64.F) : Type 0 where
  pub reflexive : (a : f64.F) → f64.le a a ≡ true
  pub left : (a b : f64.F) → f64.le a (max a b) ≡ true
  pub right : (a b : f64.F) → f64.le b (max a b) ≡ true
  pub trans : (a b c : f64.F) → f64.le a b ≡ true → f64.le b c ≡ true → f64.le a c ≡ true

-- The cells of a gauge's bar, filled and not.
abbrev pub bar_width : List Span → ℕ
bar_width (label ∷ filled ∷ rest ∷ figure) = length filled.text + length rest.text
bar_width _ = 0

module _ (f64 : F64) (to_u8 to_usize : f64.F → ℕ) (round : f64.F → f64.F)
    (max : f64.F → f64.F → f64.F) (one_decimal two_decimals : f64.F → Text) where
  open f64 use {F, of_nat, literal, mul, div, lt, le}

  clamp_high :
      (x : F)
      → Rounds f64 to_usize round
      → lt (literal 1 0) (clamp f64 to_u8 x (literal 0 0) (literal 1 0)) ≡ false
  unfolding clamp
  clamp_high x rounds = elim (Bool-cases (lt x (literal 0 0))) [
    | inl below ↦ rw (below, clamp) rounds.zero_one
    | inr not_below ↦ elim (Bool-cases (lt (literal 1 0) x)) [
      | inl above ↦ rw (not_below, above, clamp) rounds.one_one
      | inr within ↦ rw (not_below, within, clamp) within
    ]
  ]

  filled_of-le :
      (percent : F)
      → Rounds f64 to_usize round
      → filled_of f64 to_u8 to_usize round max one_decimal two_decimals percent ≤ gauge_width
  unfolding filled_of
  filled_of-le percent rounds = rounds.share _ (clamp_high (div percent (literal 100 0)) rounds)

  gauge_lem :
      (label : Text) (percent : F) (colour : Colour)
      → Rounds f64 to_usize round
      → (spans : List Span) × (gauge f64 to_u8 to_usize round max one_decimal two_decimals label
            percent colour
          ≡ some spans)
        × (bar_width spans ≡ gauge_width)
  unfolding gauge
  gauge_lem label percent colour rounds =
      let filled = filled_of f64 to_u8 to_usize round max one_decimal two_decimals percent in
      let fits : leb filled gauge_width ≡ true = ground (arith, filled_of-le percent rounds) in
      let at = filled_of-le percent rounds in
      (
        gauge_spans f64 to_u8 to_usize round max one_decimal two_decimals label percent colour
            filled,
        rw (fits, gauge) refl,
        omega (
          arith,
          length-replicate {A = ℕ} filled 0x2501,
          length-replicate {A = ℕ} (gauge_width - filled) 0x2500,
          at,
        ),
      )

  -- The summary is drawn.
  pub draw_summary_lem :
      (state : SystemState F)
      → Rounds f64 to_usize round
      → (cpu : List Span) × (mem : List Span) × (draw_summary f64 to_u8 to_usize round max
            one_decimal two_decimals state
          ≡ some (
              cpu
              ++ raw (codes "  ") ∷ mem
              ++ figures f64 to_u8 to_usize round max one_decimal two_decimals state))
        × (bar_width cpu ≡ gauge_width)
        × (bar_width mem ≡ gauge_width)
  unfolding draw_summary
  draw_summary_lem state rounds =
      let (cpu, drawn_cpu, cpu_wide) =
        gauge_lem (codes "cpu") state.total_cpu_percent cpu_colour rounds in
      let (mem, drawn_mem, mem_wide) =
        gauge_lem (codes "mem")
          (memory_percent f64 to_u8 to_usize round max one_decimal two_decimals state) cyan
          rounds in
      (cpu, mem, rw (drawn_cpu, drawn_mem, draw_summary) refl, cpu_wide, mem_wide)

  peak_from-grows :
      (peak : F) (vs : List F)
      → IsMax f64 max
      → le peak (peak_from f64 to_u8 to_usize round max one_decimal two_decimals peak vs) ≡ true
  peak_from-grows peak [] is_max = is_max.reflexive peak
  peak_from-grows peak (v ∷ vs) is_max =
      is_max.trans peak (max peak v)
        (peak_from f64 to_u8 to_usize round max one_decimal two_decimals (max peak v) vs)
        (is_max.left peak v) (peak_from-grows (max peak v) vs is_max)

  points_from-le :
      (i : ℕ) (peak : F) (vs : List F)
      → IsMax f64 max
      → All
          (λ p.
            le p.1 (peak_from f64 to_u8 to_usize round max one_decimal two_decimals peak vs) ≡ true)
          (points_from f64 to_u8 to_usize round max one_decimal two_decimals i vs)
  points_from-le i peak [] is_max = tt
  points_from-le i peak (v ∷ vs) is_max = (
    is_max.trans v (max peak v)
        (peak_from f64 to_u8 to_usize round max one_decimal two_decimals (max peak v) vs)
        (is_max.right peak v) (peak_from-grows (max peak v) vs is_max),
    points_from-le (i + 1) (max peak v) vs is_max,
  )

  points_from-values :
      (i : ℕ) (vs : List F)
      → map (λ p. p.1) (points_from f64 to_u8 to_usize round max one_decimal two_decimals i vs) ≡ vs
  points_from-values i [] = refl
  points_from-values i (v ∷ vs) = ap (◌∷◌ v) (points_from-values (i + 1) vs)

  -- A chart of samples.
  pub chart_lem :
      (history : List F) (label value : Text) (colour : Colour)
      → IsMax f64 max
      → 0 < length history
      → (c : Chart F) × (peak : F) × (chart f64 to_u8 to_usize round max one_decimal two_decimals
            history label value colour
          ≡ plotted c)
        × (map (λ p. p.1) c.points ≡ history)
        × (c.y_max ≡ mul peak (literal 11 1))
        × All (λ p. le p.1 peak ≡ true) c.points
  unfolding chart
  chart_lem history label value colour is_max some_sample =
      let full : (length history == 0) ≡ false = ground arith in
      (
        plot f64 to_u8 to_usize round max one_decimal two_decimals history label value colour,
        peak_from f64 to_u8 to_usize round max one_decimal two_decimals (literal 1 0) history,
        rw (full, chart) refl,
        points_from-values 0 history,
        refl,
        points_from-le 0 (literal 1 0) history is_max,
      )
