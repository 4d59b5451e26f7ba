-- ===== src/Host/CliAccepted.antt =====
-- The command line (truetop/src/cli.rs): what is accepted.
use mathlib.Core.Path.{subst}
use truetop.Common.{
  ◌≡◌, refl, some, List, [], ◌∷◌, arith, ltb, u32_mod, ◌⊎◌, Option-cases, Bool-cases, inl, inr,
  ltb→lt,
}
use truetop.Common.Text.{Text, parse_unsigned}
use truetop.Common.Text.Laws.{parse_unsigned_lt}
use truetop.Host.Cli.{
  Printed, bench, print, Args, CliError, Parsed, ok, err, no_args, Flag, flag_of, bench_value,
  background_value, max_processes_value, need, stop, value, refuse, parse_loop, parse,
}
use truetop.Host.CliLaws.{IsCapacity, IsCommand, continue}

-- The numbers of the arguments fit u32, and the capacity is not 0.
abbrev pub IsAccepted : Args → Type 0
IsAccepted a = IsCapacity a.max_processes × IsCommand a.command

bench_value-IsAccepted :
    (v : Text) (a b : Args) → IsAccepted a → bench_value v a ≡ ok b → IsAccepted b
unfolding bench_value
bench_value-IsAccepted v a b h e = elim (Option-cases (parse_unsigned u32_mod v)) [
  | inl p ↦ absurd (ground (arith, rw (p, bench_value) at e))
  | inr (n, p) ↦
      let e' : ok (record a { command = bench n }) ≡ ok b = rw (p, bench_value) at e in
      let same : (record a { command = bench n }) ≡ b = ground arith in
      subst IsAccepted same (h.0, parse_unsigned_lt u32_mod v n (omega arith) p)
]

background_value-IsAccepted :
    (v : Text) (a b : Args) → IsAccepted a → background_value v a ≡ ok b → IsAccepted b
unfolding background_value
background_value-IsAccepted v a b h e = ground arith

max_processes_value-IsAccepted :
    (v : Text) (a b : Args) → IsAccepted a → max_processes_value v a ≡ ok b → IsAccepted b
unfolding max_processes_value
max_processes_value-IsAccepted v a b h e = elim (Option-cases (parse_unsigned u32_mod v)) [
  | inl p ↦ absurd (ground (arith, rw (p, max_processes_value) at e))
  | inr (n, p) ↦ elim (Bool-cases (ltb 0 n)) [
    | inr q ↦ absurd (ground (arith, rw (p, q, max_processes_value) at e))
    | inl q ↦
        let e' : ok (record a { max_processes = some n }) ≡ ok b =
          rw (p, q, max_processes_value) at e in
        let same : (record a { max_processes = some n }) ≡ b = ground arith in
        subst IsAccepted same ((ltb→lt 0 n q, parse_unsigned_lt u32_mod v n (omega arith) p), h.1)
  ]
]

Parsed-cases : (r : Parsed Args) → ((a : Args) × (r ≡ ok a)) ⊎ ((e : CliError) × (r ≡ err e))
Parsed-cases (ok a) = inl (a, refl)
Parsed-cases (err e) = inr (e, refl)

after :
    (read : Text → Args → Parsed Args) (v : Text) (args : List Text) (a b : Args)
    → ((a' : Args) → read v a ≡ ok a' → IsAccepted a')
    → ((a' : Args) → IsAccepted a' → parse_loop args a' ≡ ok b → IsAccepted b)
    → continue (read v a) args ≡ ok b
    → IsAccepted b
after read v args a b one rest e = elim (Parsed-cases (read v a)) [
  | inl (a', p) ↦ rest a' (one a' p) (rw p at e)
  | inr (bad, p) ↦ absurd (ground (arith, rw p at e))
]

step-IsAccepted :
    (f : Flag) (arg v : Text) (args : List Text) (a b : Args)
    → IsAccepted a
    → ((a' : Args) → IsAccepted a' → parse_loop args a' ≡ ok b → IsAccepted b)
    → (elim (need f arg) [
      | stop text ↦ ok (record a { command = print text })
      | value read missing ↦ elim (read v a) [ ok a' ↦ parse_loop args a' | err e ↦ err e ]
      | refuse e ↦ err e
    ])
      ≡ ok b
    → IsAccepted b
unfolding need
step-IsAccepted Flag.help_flag arg v args a b h rest e =
    let same : (record a { command = print Printed.usage }) ≡ b = ground arith in
    subst IsAccepted same (h.0, tt)
step-IsAccepted Flag.version_flag arg v args a b h rest e =
    let same : (record a { command = print Printed.version }) ≡ b = ground arith in
    subst IsAccepted same (h.0, tt)
step-IsAccepted Flag.bench_flag arg v args a b h rest e =
    after bench_value v args a b (λ a'. bench_value-IsAccepted v a a' h) rest e
step-IsAccepted Flag.background_flag arg v args a b h rest e =
    after background_value v args a b (λ a'. background_value-IsAccepted v a a' h) rest e
step-IsAccepted Flag.max_processes_flag arg v args a b h rest e =
    after max_processes_value v args a b (λ a'. max_processes_value-IsAccepted v a a' h) rest e
step-IsAccepted Flag.other_flag arg v args a b h rest e = absurd (ground arith)

alone-IsAccepted :
    (f : Flag) (arg : Text) (a b : Args)
    → IsAccepted a
    → (elim (need f arg) [
      | stop text ↦ ok (record a { command = print text })
      | value read missing ↦ err missing
      | refuse e ↦ err e
    ])
      ≡ ok b
    → IsAccepted b
unfolding need
alone-IsAccepted Flag.help_flag arg a b h e =
    let same : (record a { command = print Printed.usage }) ≡ b = ground arith in
    subst IsAccepted same (h.0, tt)
alone-IsAccepted Flag.version_flag arg a b h e =
    let same : (record a { command = print Printed.version }) ≡ b = ground arith in
    subst IsAccepted same (h.0, tt)
alone-IsAccepted _ arg a b h e = absurd (ground arith)

parse_loop-IsAccepted :
    (args : List Text) (a b : Args) → IsAccepted a → parse_loop args a ≡ ok b → IsAccepted b
unfolding parse_loop
parse_loop-IsAccepted [] a b h e = let same : a ≡ b = ground arith in subst IsAccepted same h
parse_loop-IsAccepted (arg ∷ []) a b h e = alone-IsAccepted (flag_of arg) arg a b h e
parse_loop-IsAccepted (arg ∷ v ∷ args) a b h e =
    step-IsAccepted (flag_of arg) arg v args a b h (λ a'. parse_loop-IsAccepted args a' b) e

-- Whatever the command line is, one that is accepted asks for numbers that fit 32 bits and for no
-- capacity of 0.
pub parse-IsAccepted : (args : List Text) (a : Args) → parse args ≡ ok a → IsAccepted a
unfolding parse
parse-IsAccepted args a e = parse_loop-IsAccepted args no_args a (tt, tt) e
