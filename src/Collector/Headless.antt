-- ===== src/Collector/Headless.antt =====
-- truetop/src/backend.rs `run_headless`: what a number of ticks without the interface prints.
use truetop.Common.{ℕ, ◌+◌, Option, List, [], ◌∷◌, ◌++◌, length}
use truetop.Common.Text.{Text, codes, print_unsigned}
use truetop.Common.Float.{F64}
use truetop.Collector.Backend.{SelectNth, Collector, Moment, tick}

abbrev pub tick_line : ℕ → ℕ → ℕ → Text
tick_line i ticks tracked =
    codes "tick "
    ++ print_unsigned i
    ++ codes "/"
    ++ print_unsigned ticks
    ++ codes ": "
    ++ print_unsigned tracked
    ++ codes " processes"

module _ (f64 : F64) (select_nth : SelectNth f64.F) (from_utf8_lossy : List ℕ → Text)
    (parse_f64 : Text → Option f64.F) where
  -- From tick `i` on, over what each tick meets.
  unfoldable pub headless_from : ℕ → ℕ → Collector f64.F → List Moment → List Text
  unfolding tick
  headless_from i ticks c [] = []
  headless_from i ticks c (m ∷ moments) =
      let (state, c', books) = tick f64 select_nth from_utf8_lossy parse_f64 c m in
      tick_line i ticks state.tracked ∷ headless_from (i + 1) ticks c' moments

  unfoldable pub run_headless : Collector f64.F → List Moment → List Text
  unfolding headless_from
  run_headless c moments = headless_from 1 (length moments) c moments
