-- ===== src/Tasks/Stat.antt =====
-- What the `scaling` benchmark reads and sums (bench/src/lib.rs).
use truetop.Common.{
  ℕ, zero, suc, ◌+◌, ◌<◌, ◌≡◌, refl, sym, ap, ◌∙◌, ◌≢◌, some, List, [], ◌∷◌, ◌++◌, ◌==◌, ==_ne,
  ==_refl, Bool-cases, inl, inr, append_assoc, All, length, Dict, u64_mod, arith,
}
use truetop.Common.Text.{Text, is_whitespace, split_whitespace, nth, print_unsigned}
use truetop.Common.Text.Laws.{parse-print_unsigned}
use truetop.Common.Text.Fields.{
  IsWord, print_unsigned-IsWord, split_whitespace_word, split_whitespace_skip,
}
use truetop.Collector.Batch.{BatchReader, fold}
use truetop.Collector.Totals.{Entry, totals_of, IsFilled, fold_filled}
use truetop.Tasks.Scaling.{
  insert_all, collect_batched, after_loop, after_last, parse_or_zero, read_self_cpu_ns,
}

after_loop_plain :
    (sep : ℕ) (found s : Text) → All (λ c. c ≢ sep) s → after_loop sep found s ≡ found
after_loop_plain sep found [] h = refl
after_loop_plain sep found (c ∷ s) h =
    rw (==_ne c sep h.0, after_loop) (after_loop_plain sep found s h.1)

after_loop_last :
    (sep : ℕ) (found front tail : Text)
    → All (λ c. c ≢ sep) tail
    → after_loop sep found (front ++ sep ∷ tail) ≡ tail
after_loop_last sep found [] tail h =
    rw (==_refl sep, after_loop) (after_loop_plain sep tail tail h)
after_loop_last sep found (c ∷ front) tail h = elim (Bool-cases (c == sep)) [
  | inl same ↦ rw (same, after_loop) (after_loop_last sep (front ++ sep ∷ tail) front tail h)
  | inr other ↦ rw (other, after_loop) (after_loop_last sep found front tail h)
]

-- Words with a space in front of each.
abbrev pub spaced : List Text → Text → Text
spaced [] rest = rest
spaced (w ∷ ws) rest = b' ' ∷ (w ++ spaced ws rest)

split_whitespace-spaced :
    (ws : List Text) (rest : Text)
    → All IsWord ws
    → split_whitespace (spaced ws (b' ' ∷ rest)) ≡ ws ++ split_whitespace rest
unfolding is_whitespace
split_whitespace-spaced [] rest h = split_whitespace_skip b' ' rest refl
split_whitespace-spaced (w ∷ []) rest h =
    split_whitespace_skip b' ' (w ++ b' ' ∷ rest) refl ∙ split_whitespace_word w b' ' rest h.0 refl
split_whitespace-spaced (w ∷ v ∷ ws) rest h =
    split_whitespace_skip b' ' (w ++ spaced (v ∷ ws) (b' ' ∷ rest)) refl
    ∙ split_whitespace_word w b' ' (v ++ spaced ws (b' ' ∷ rest)) h.0 refl
    ∙ ap (◌∷◌ w) (
        sym (split_whitespace_skip b' ' (v ++ spaced ws (b' ' ∷ rest)) refl)
        ∙ split_whitespace-spaced (v ∷ ws) rest h.1)

nth-append : (xs ys : List Text) (m k : ℕ) → m ≡ k + length xs → nth m (xs ++ ys) ≡ nth k ys
nth-append [] ys m k h = let e : m ≡ k = omega arith in ap (λ i. nth i ys) e
nth-append (x ∷ xs) ys zero k h = absurd (omega arith)
nth-append (x ∷ xs) ys (suc m) k h = nth-append xs ys m k (omega arith)

append-IsWord : (xs ys : List Text) → All IsWord xs → All IsWord ys → All IsWord (xs ++ ys)
append-IsWord [] ys h k = k
append-IsWord (x ∷ xs) ys h k = (h.0, append-IsWord xs ys h.1 k)

parse_or_zero-print : (n : ℕ) → n < u64_mod → parse_or_zero (some (print_unsigned n)) ≡ n
parse_or_zero-print n h = rw (parse-print_unsigned u64_mod n h, parse_or_zero) refl

-- A process status is read as its user and system time, where eleven words of fields and the two
-- times in decimal follow a closing parenthesis, no other closing parenthesis follows, and the sum
-- fits 64 bits; whatever stands before is not looked at.
pub read_self_cpu_ns_lem :
    (front : Text) (fields : List Text) (utime stime : ℕ) (rest : Text)
    → length fields ≡ 11
    → All IsWord fields
    → All
        (λ c. c ≢ b')')
        (spaced (fields ++ print_unsigned utime ∷ print_unsigned stime ∷ []) (b' ' ∷ rest))
    → utime + stime < u64_mod
    → read_self_cpu_ns (
        some (
          front
          ++ b')'
            ∷ spaced (fields ++ print_unsigned utime ∷ print_unsigned stime ∷ []) (b' ' ∷ rest)))
      ≡ utime + stime
unfolding read_self_cpu_ns after_last
read_self_cpu_ns_lem front fields utime stime rest eleven words plain fits =
    let tail = spaced (fields ++ print_unsigned utime ∷ print_unsigned stime ∷ []) (b' ' ∷ rest) in
    let stat = front ++ b')' ∷ tail in
    let read : split_whitespace (after_loop b')' stat stat)
        ≡ fields ++ print_unsigned utime ∷ print_unsigned stime ∷ split_whitespace rest =
      ap split_whitespace (after_loop_last b')' stat front tail plain)
      ∙ split_whitespace-spaced (fields ++ print_unsigned utime ∷ print_unsigned stime ∷ []) rest (
          append-IsWord fields _ words
            (print_unsigned-IsWord utime, (print_unsigned-IsWord stime, tt)))
      ∙ append_assoc fields (print_unsigned utime ∷ print_unsigned stime ∷ [])
          (split_whitespace rest) in
    let ticks = print_unsigned utime ∷ print_unsigned stime ∷ split_whitespace rest in
    let first : nth 11 (fields ++ ticks) ≡ some (print_unsigned utime) =
      nth-append fields ticks 11 0 (omega arith) in
    let second : nth 12 (fields ++ ticks) ≡ some (print_unsigned stime) =
      nth-append fields ticks 12 1 (omega arith) in
    rw
      (
        read,
        read_self_cpu_ns,
        first,
        second,
        parse_or_zero-print utime (omega arith),
        parse_or_zero-print stime (omega arith),
      )
      (omega arith)

insert_all-totals_of :
    (samples : List Entry) (totals : Dict ℕ) → insert_all samples totals ≡ totals_of samples totals
unfolding insert_all
insert_all-totals_of [] totals = refl
insert_all-totals_of (sample ∷ samples) totals = insert_all-totals_of samples _

-- The benchmark's model of the collection gives, for the entries that a batch holds, what the
-- collector's fold of that batch gives.
fold-collect_batched :
    (samples : List Entry) (nr_cpus : ℕ) (reader : BatchReader)
    → IsFilled nr_cpus samples reader.keys reader.values
    → fold reader.keys reader.values (length samples) nr_cpus [] ≡ some (collect_batched samples)
unfolding collect_batched
fold-collect_batched samples nr_cpus reader filled =
    fold_filled samples reader.keys reader.values nr_cpus [] filled
    ∙ ap some (sym (insert_all-totals_of samples []))
