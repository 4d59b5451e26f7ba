-- ===== src/Host/CliLaws.antt =====
-- The command line (truetop/src/cli.rs): one that is written out is read as it was meant.

use truetop.Common.{
  ℕ, ◌<◌, ◌≡◌, refl, ap, ◌∙◌, Option, none, some, List, [], ◌∷◌, ◌++◌, u32_mod, lt→ltb,
}
use truetop.Common.Text.{Text, codes, print_unsigned}
use truetop.Common.Text.Laws.{parse-print_unsigned}
use truetop.Host.Cli.{
  Background, dark, light, Printed, Command, ui, bench, print, Args, Parsed, ok, err, no_args,
  bench_value, background_value, max_processes_value, parse_loop, parse,
}

-- The capacity that a command line asks for: never 0, and a u32.
abbrev pub IsCapacity : Option ℕ → Type 0
IsCapacity none = Unit
IsCapacity (some n) = (0 < n) × (n < u32_mod)

abbrev render_background : Option Background → List Text
render_background none = codes "--background" ∷ codes "auto" ∷ []
render_background (some dark) = codes "--background" ∷ codes "dark" ∷ []
render_background (some light) = codes "--background" ∷ codes "light" ∷ []

abbrev render_max : Option ℕ → List Text
render_max none = []
render_max (some n) = codes "--max-processes" ∷ print_unsigned n ∷ []

abbrev render_command : Command → List Text
render_command ui = []
render_command (bench n) = codes "--bench" ∷ print_unsigned n ∷ []
render_command (print Printed.usage) = codes "--help" ∷ []
render_command (print Printed.version) = codes "--version" ∷ []

-- A command line for some arguments.
abbrev pub render : Args → List Text
render a =
    render_background a.background ++ (render_max a.max_processes ++ render_command a.command)

abbrev pub IsCommand : Command → Type 0
IsCommand ui = Unit
IsCommand (bench n) = n < u32_mod
IsCommand (print text) = Unit

-- The loop behind a flag's value.
abbrev pub continue : Parsed Args → List Text → Parsed Args
continue r args = elim r [ ok a ↦ parse_loop args a | err e ↦ err e ]

-- The values that the flags take are read as printed.
bench_value-print :
    (n : ℕ) (a : Args)
    → n < u32_mod
    → bench_value (print_unsigned n) a ≡ ok (record a { command = bench n })
unfolding bench_value
bench_value-print n a h = rw (parse-print_unsigned u32_mod n h, bench_value) refl

max_processes_value-print :
    (n : ℕ) (a : Args)
    → 0 < n
    → n < u32_mod
    → max_processes_value (print_unsigned n) a ≡ ok (record a { max_processes = some n })
unfolding max_processes_value
max_processes_value-print n a p h =
    rw (parse-print_unsigned u32_mod n h, lt→ltb 0 n p, max_processes_value) refl

parse_loop-render_command :
    (c : Command) (a : Args)
    → IsCommand c
    → a.command ≡ ui
    → parse_loop (render_command c) a ≡ ok (record a { command = c })
unfolding parse_loop
parse_loop-render_command ui a h e = ap (λ c. ok (record a { command = c })) e
parse_loop-render_command (bench n) a h e = ap (λ r. continue r []) (bench_value-print n a h)
parse_loop-render_command (print Printed.usage) a h e = refl
parse_loop-render_command (print Printed.version) a h e = refl

parse_loop-render_max :
    (m : Option ℕ) (c : Command) (a : Args)
    → IsCapacity m
    → IsCommand c
    → a.command ≡ ui
    → a.max_processes ≡ none
    → parse_loop (render_max m ++ render_command c) a
      ≡ ok (record a { command = c; max_processes = m })
unfolding parse_loop
parse_loop-render_max none c a h k e f =
    parse_loop-render_command c a k e ∙ ap (λ m. ok (record a { command = c; max_processes = m })) f
parse_loop-render_max (some n) c a h k e f =
    with_value (render_command c)
    ∙ ap (λ r. continue r (render_command c)) (max_processes_value-print n a h.0 h.1)
    ∙ parse_loop-render_command c (record a { max_processes = some n }) k e
  where
    with_value :
        (args : List Text)
        → parse_loop (codes "--max-processes" ∷ print_unsigned n ∷ args) a
          ≡ continue (max_processes_value (print_unsigned n) a) args
    with_value args = unfold parse_loop in refl

parse_loop-render :
    (b : Option Background) (m : Option ℕ) (c : Command)
    → IsCapacity m
    → IsCommand c
    → parse_loop (render (record { command = c; background = b; max_processes = m })) no_args
      ≡ ok (record { command = c; background = b; max_processes = m })
unfolding parse_loop background_value
parse_loop-render none m c h k = parse_loop-render_max m c no_args h k refl refl
parse_loop-render (some dark) m c h k =
    parse_loop-render_max m c (record no_args { background = some dark }) h k refl refl
parse_loop-render (some light) m c h k =
    parse_loop-render_max m c (record no_args { background = some light }) h k refl refl

-- A command line that is written out for arguments, with a capacity that is not 0 and numbers that
-- fit 32 bits, is read as those arguments.
pub parse-render :
    (a : Args) → IsCapacity a.max_processes → IsCommand a.command → parse (render a) ≡ ok a
unfolding parse
parse-render a h k = parse_loop-render a.background a.max_processes a.command h k
