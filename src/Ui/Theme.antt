-- ===== src/Ui/Theme.antt =====
-- truetop/src/ui/theme: the background that is chosen, and the styles of a row's figures. A style is a
-- colour and whether it is bold.
use truetop.Common.{ℕ, ◌%◌, Bool, true, false, ◌||◌, Option, none, some, ◌==◌, if◌then◌else◌}
use truetop.Common.Float.{F64, zero_f}
use truetop.Host.Cli.{Background, dark, light}

-- The answer of the terminal, if it gives one.
pub data ThemeMode : Type 0 where
  light_mode dark_mode : ThemeMode

unfoldable pub detect : Option ThemeMode → Option Background
detect none = none
detect (some light_mode) = some light
detect (some dark_mode) = some dark

-- `requested.or_else(detect).unwrap_or(Background::Dark)`; `detected` is the terminal's answer.
unfoldable pub resolve : Option Background → Option Background → Background
resolve (some requested) detected = requested
resolve none (some detected) = detected
resolve none none = dark

pub data Colour : Type 0 where
  green yellow red dark_gray cyan reset : Colour
  indexed : ℕ → Colour
  rgb : ℕ → ℕ → ℕ → Colour

pub record Style : Type 0 where
  pub fg : Colour
  pub bold : Bool

abbrev pub dim : Colour
dim = dark_gray

abbrev pub io_colour : Colour
io_colour = indexed 173

unfoldable pub with_bold : Style → Bool → Style
with_bold style bold = if bold then record style { bold = true } else style

abbrev pub plain : Colour → Style
plain colour = record { fg = colour; bold = false }

unfoldable pub row_stripe : Background → ℕ → Option Colour
row_stripe dark index = if index % 2 == 1 then some (rgb 24 24 28) else none
row_stripe light index = if index % 2 == 1 then some (rgb 238 238 243) else none

-- `to_u8` is the saturating cast of a float.
module _ (f64 : F64) (to_u8 : f64.F → ℕ) where
  open f64 use {F, of_nat, literal, add, sub, mul, div, lt, le}

  unfoldable pub lerp : F → F → F → F
  lerp a b t = add a (mul (sub b a) t)

  unfoldable pub clamp : F → F → F → F
  clamp x low high = if lt x low then low else if lt high x then high else x

  unfoldable pub cpu_heat : F → Style
  unfolding with_bold
  cpu_heat percent =
      let colour : Colour =
        (if lt percent (literal 5 2)
          then dim
          else if lt percent (literal 30 0)
          then green
          else if lt percent (literal 70 0)
          then yellow
          else red) in
      with_bold (plain colour) (le (literal 70 0) percent)

  unfoldable pub io_heat : F → Style
  unfolding with_bold
  io_heat percent =
      if le percent (zero_f f64)
      then plain dim
      else with_bold (plain io_colour) (le (literal 50 0) percent)

  abbrev pub io_row_threshold : F
  io_row_threshold = literal 65 0

  unfoldable pub channel : ℕ → ℕ → F → ℕ
  unfolding lerp
  channel from upto t = to_u8 (lerp (literal from 0) (literal upto 0) t)

  abbrev pub tint : Background → F → Colour
  tint dark t = rgb (channel 48 128 t) (channel 16 30 t) (channel 16 30 t)
  tint light t = rgb (channel 255 244 t) (channel 224 168 t) (channel 224 168 t)

  unfoldable pub io_row_bg : Background → F → Option Colour
  unfolding clamp
  io_row_bg background percent =
      if lt percent io_row_threshold
      then none
      else some (
          tint background (
            clamp (div (sub percent io_row_threshold) (sub (literal 100 0) io_row_threshold))
              (literal 0 0) (literal 1 0)))

  unfoldable pub mem_heat : ℕ → ℕ → Style
  unfolding with_bold
  mem_heat bytes total =
      let share = div (of_nat bytes) (of_nat total) in
      let colour : Colour =
        (if lt share (literal 2 2)
          then green
          else if lt share (literal 10 2)
          then yellow
          else red) in
      if bytes == 0 || total == 0
      then plain dim
      else with_bold (plain colour) (le (literal 10 2) share)
