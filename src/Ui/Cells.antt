-- ===== src/Ui/Cells.antt =====
-- truetop/src/ui/table.rs and mod.rs: the texts and styles of one row. `one_decimal` is the formatting
-- `{:.1}`.
use truetop.Common.{
  ℕ, zero, suc, ◌+◌, ◌≤◌, ◌≡◌, ◌⊎◌, inl, inr, arith, Bool-cases, false, Option, none, some, List,
  [], ◌∷◌, ◌++◌, ◌==◌, if◌then◌else◌,
}
use truetop.Common.Text.{Text, codes, print_unsigned, nth}
use truetop.Common.Float.{F64}
use truetop.Host.Cli.{Background}
use truetop.Metrics.Counters.{ProcessMetrics}
use truetop.Ui.Table.{io_of, mem_of}
use truetop.Ui.Theme.{
  Colour, reset, Style, dim, plain, cpu_heat, io_heat, mem_heat, io_row_bg, row_stripe,
}

abbrev pub units : List Text
units = codes "B" ∷ codes "K" ∷ codes "M" ∷ codes "G" ∷ codes "T" ∷ []

abbrev pub or_dash : Option Text → Text
or_dash none = codes "-"
or_dash (some s) = s

pub record Row : Type 0 where
  pub pid : Text × Style
  pub user : Text × Style
  pub name : Text × Style
  pub cpu : Text × Style
  pub mem : Text × Style
  pub io : Text × Style
  pub bg : Option Colour

module _ (f64 : F64) (to_u8 : f64.F → ℕ) (one_decimal : f64.F → Text) where
  open f64 use {F, of_nat, literal, div, lt, le}

  -- The loop of `format_bytes`, with as many rounds as there are larger units left.
  unfoldable pub scale : ℕ → F → ℕ → F × ℕ
  scale zero value unit = (value, unit)
  scale (suc left) value unit =
      let rest = scale left (div value (literal 1024 0)) (unit + 1) in
      if le (literal 1024 0) value then rest else (value, unit)

  unfoldable pub format_bytes : ℕ → Text
  unfolding scale
  format_bytes bytes =
      let (value, unit) = scale 4 (of_nat bytes) 0 in
      let figure = if unit == 0 then print_unsigned bytes else one_decimal value in
      figure ++ codes " " ++ (elim (nth unit units) [ none ↦ [] | some u ↦ u ])

  unfoldable pub io_text : ProcessMetrics F → Text
  io_text p = elim p.io [ none ↦ codes "-" | some m ↦ one_decimal m.io_wait_percent ]

  unfoldable pub io_style : ProcessMetrics F → Style
  unfolding io_heat
  io_style p = elim p.io [ none ↦ plain dim | some m ↦ io_heat f64 to_u8 m.io_wait_percent ]

  unfoldable pub mem_text : ProcessMetrics F → Text
  unfolding format_bytes
  mem_text p = elim p.mem [ none ↦ codes "-" | some m ↦ format_bytes m.rss_bytes ]

  -- A blocked process outranks the stripes.
  unfoldable pub row_bg : Background → ℕ → ProcessMetrics F → Option Colour
  unfolding io_row_bg row_stripe
  row_bg background index p = elim (io_row_bg f64 to_u8 background (io_of f64 p)) [
    | none ↦ row_stripe background index
    | some tint ↦ some tint
  ]

  unfoldable pub process_row : Background → ℕ → ProcessMetrics F → ℕ → Row
  unfolding io_text io_style mem_text row_bg cpu_heat mem_heat
  process_row background index p memory_total =
      let name_style = plain (if lt p.cpu.cpu_percent (literal 5 2) then dim else reset) in
      record {
        pid = (print_unsigned p.pid, name_style);
        user = (or_dash p.user, plain dim);
        name = (p.name, name_style);
        cpu = (one_decimal p.cpu.cpu_percent, cpu_heat f64 to_u8 p.cpu.cpu_percent);
        mem = (mem_text p, mem_heat f64 to_u8 (mem_of p) memory_total);
        io = (io_text p, io_style p);
        bg = row_bg background index p;
      }

  -- The scaling of a byte count goes up by no more units than are left, and stops at a figure that
  -- is below 1024 or at the largest unit.
  scale_lem :
      (left : ℕ) (value : F) (unit : ℕ)
      → ((scale left value unit).1 ≤ unit + left)
        × ((le (literal 1024 0) (scale left value unit).0 ≡ false)
            ⊎ ((scale left value unit).1 ≡ unit + left))
  unfolding scale
  scale_lem zero value unit = (omega arith, inr (omega arith))
  scale_lem (suc left) value unit =
      let (bound, stop) = scale_lem left (div value (literal 1024 0)) (unit + 1) in
      elim (Bool-cases (le (literal 1024 0) value)) [
        | inl big ↦
            rw (big, scale) (omega arith, elim stop [ inl e ↦ inl e | inr e ↦ inr (omega arith) ])
        | inr small ↦ rw (small, scale) (omega arith, inl small)
      ]
