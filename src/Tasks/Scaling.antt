-- ===== src/Tasks/Scaling.antt =====
-- bench/src/lib.rs: the two ways of collecting that the `scaling` benchmark compares. What is read of
-- /proc/self/stat is a parameter.
use truetop.Common.{
  ℕ, zero, suc, ◌+◌, ◌%◌, Option, none, some, List, [], ◌∷◌, ◌==◌, if◌then◌else◌, Dict, insert, sum,
  u64_mod,
}
use truetop.Common.Text.{Text, split_whitespace, nth, parse_unsigned}

abbrev pub PerCpuSample : Type 0
PerCpuSample = List ℕ

unfoldable pub insert_all : List (ℕ × PerCpuSample) → Dict ℕ → Dict ℕ
insert_all [] totals = totals
insert_all ((pid, per_cpu) ∷ samples) totals =
    insert_all samples (insert pid (sum per_cpu % u64_mod) totals)

unfoldable pub collect_batched : List (ℕ × PerCpuSample) → Dict ℕ
unfolding insert_all
collect_batched samples = insert_all samples []

abbrev pub after_loop : ℕ → Text → Text → Text
after_loop sep found [] = found
after_loop sep found (c ∷ s) =
    let later = after_loop sep s s in
    let rest = after_loop sep found s in if c == sep then later else rest

-- `stat.rsplit(sep).next()`: what follows the last separator, or all of the text.
unfoldable pub after_last : ℕ → Text → Text
after_last sep s = after_loop sep s s

abbrev pub or_empty : Option Text → Text
or_empty none = []
or_empty (some s) = s

abbrev pub parse_or_zero : Option Text → ℕ
parse_or_zero none = 0
parse_or_zero (some f) = elim (parse_unsigned u64_mod f) [ none ↦ 0 | some n ↦ n ]

-- After the name, `fields.nth(11)` and the field behind it.
unfoldable pub read_self_cpu_ns : Option Text → ℕ
unfolding after_last
read_self_cpu_ns stat =
    let fields = split_whitespace (after_last b')' (or_empty stat)) in
    (parse_or_zero (nth 11 fields) + parse_or_zero (nth 12 fields)) % u64_mod

-- `stat` is what each of the reads finds.
unfoldable pub collect_procfs : (ℕ → Option Text) → ℕ → ℕ
unfolding read_self_cpu_ns
collect_procfs stat zero = 0
collect_procfs stat (suc count) =
    (collect_procfs stat count + read_self_cpu_ns (stat count)) % u64_mod
