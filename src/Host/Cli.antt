-- ===== src/Host/Cli.antt =====
-- truetop/src/cli.rs: the command line.
use truetop.Common.{ℕ, ◌||◌, Option, none, some, List, [], ◌∷◌, ltb, if◌then◌else◌, u32_mod}
use truetop.Common.Text.{Text, codes, text_eq, parse_unsigned}

-- truetop/src/ui/theme/mod.rs.
pub data Background : Type 0 where
  dark light : Background

pub data Printed : Type 0 where
  usage version : Printed

pub data Command : Type 0 where
  ui : Command
  bench : ℕ → Command
  print : Printed → Command

pub record Args : Type 0 where
  pub command : Command
  pub background : Option Background
  pub max_processes : Option ℕ

pub data CliError : Type 0 where
  bench_needs_a_tick_count background_needs_a_name max_processes_needs_a_count : CliError
  not_a_tick_count not_a_background not_a_count unknown_argument : Text → CliError

pub data Parsed (A : Type 0) : Type 0 where
  ok : A → Parsed A
  err : CliError → Parsed A

abbrev pub no_args : Args
no_args = record { command = ui; background = none; max_processes = none }

-- The arms of the `match`.
pub data Flag : Type 0 where
  help_flag version_flag bench_flag background_flag max_processes_flag other_flag : Flag

unfoldable pub flag_of : Text → Flag
flag_of arg =
    if text_eq arg (codes "-h") || text_eq arg (codes "--help")
    then help_flag
    else if text_eq arg (codes "-V") || text_eq arg (codes "--version")
    then version_flag
    else if text_eq arg (codes "--bench")
    then bench_flag
    else if text_eq arg (codes "--background")
    then background_flag
    else if text_eq arg (codes "--max-processes")
    then max_processes_flag
    else other_flag

unfoldable pub bench_value : Text → Args → Parsed Args
bench_value value parsed = elim (parse_unsigned u32_mod value) [
  | none ↦ err (not_a_tick_count value)
  | some ticks ↦ ok (record parsed { command = bench ticks })
]

unfoldable pub background_value : Text → Args → Parsed Args
background_value value parsed =
    if text_eq value (codes "auto")
    then ok (record parsed { background = none })
    else if text_eq value (codes "dark")
    then ok (record parsed { background = some dark })
    else if text_eq value (codes "light")
    then ok (record parsed { background = some light })
    else err (not_a_background value)

unfoldable pub max_processes_value : Text → Args → Parsed Args
max_processes_value value parsed = elim (parse_unsigned u32_mod value) [
  | none ↦ err (not_a_count value)
  | some n ↦
      if ltb 0 n then ok (record parsed { max_processes = some n }) else err (not_a_count value)
]

-- A flag with a value takes the argument behind it; `missing` is the error where there is none.
pub data Need : Type 0 where
  stop : Printed → Need
  value : (Text → Args → Parsed Args) → CliError → Need
  refuse : CliError → Need

unfoldable pub need : Flag → Text → Need
unfolding bench_value background_value max_processes_value
need help_flag arg = stop usage
need version_flag arg = stop version
need bench_flag arg = value bench_value bench_needs_a_tick_count
need background_flag arg = value background_value background_needs_a_name
need max_processes_flag arg = value max_processes_value max_processes_needs_a_count
need other_flag arg = refuse (unknown_argument arg)

-- The `while let Some(arg) = args.next()` loop.
unfoldable pub parse_loop : List Text → Args → Parsed Args
unfolding flag_of need
parse_loop [] parsed = ok parsed
parse_loop (arg ∷ []) parsed = elim (need (flag_of arg) arg) [
  | stop text ↦ ok (record parsed { command = print text })
  | value read missing ↦ err missing
  | refuse e ↦ err e
]
parse_loop (arg ∷ v ∷ args) parsed = elim (need (flag_of arg) arg) [
  | stop text ↦ ok (record parsed { command = print text })
  | value read missing ↦ elim (read v parsed) [
    | ok parsed' ↦ parse_loop args parsed'
    | err e ↦ err e
  ]
  | refuse e ↦ err e
]

unfoldable pub parse : List Text → Parsed Args
unfolding parse_loop
parse args = parse_loop args no_args
