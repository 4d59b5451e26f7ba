-- ===== src/Collector/Orders.antt =====
-- The order in which the kernel serves a map does not show (truetop/src/batch.rs).
use mathlib.Core.List.{Perm, Permᴰ}
use mathlib.Core.Logic.{∥∥₁_elim}
use mathlib.Core.Path.{subst}
use truetop.Common.{
  ℕ, ◌≤◌, ◌≡◌, refl, sym, ap, ◌∙◌, Option, none, List, [], ◌∷◌, arith, Dict, lookup, length,
  IsDistinct,
}
use truetop.Collector.Batch.{LookupBatch, BatchReader, done, sum_per_cpu}
use truetop.Collector.Totals.{
  Entry, Walk, concat, totals_of, totals_of_all, totals_of_all-concat, sum_per_cpu-Walk,
  lookup-totals_of, summed,
}

-- The same keys, each once, with the same slots.
record AreSame (es es' : List Entry) : Type 0 where
  distinct : IsDistinct es'
  same : (k : ℕ) → lookup k es ≡ lookup k es'

cons-AreSame :
    (a : Entry) (es es' : List Entry)
    → IsDistinct (a ∷ es)
    → AreSame es es'
    → AreSame (a ∷ es) (a ∷ es')
unfolding lookup
cons-AreSame (j, slots) es es' d s = record {
  distinct = (sym (s.same j) ∙ d.0, s.distinct);
  same = λ k. ground (arith, s.same k);
}

swap-AreSame :
    (a b : Entry) (es : List Entry) → IsDistinct (a ∷ b ∷ es) → AreSame (a ∷ b ∷ es) (b ∷ a ∷ es)
unfolding lookup
swap-AreSame (j, v) (k, w) es d = record {
  distinct = (ground (arith, d.0, d.1.0), (ground (arith, d.0), d.1.1));
  same = λ i. ground (arith, d.0);
}

perm-AreSame : {es es' : List Entry} → Permᴰ es es' → IsDistinct es → AreSame es es'
unfolding lookup
perm-AreSame Permᴰ.nil d = record { distinct = tt; same = λ k. refl }
perm-AreSame (Permᴰ.cons {a = a} {b = b} {l₁ = es} {l₂ = es'} e p) d =
    subst (λ x. AreSame (a ∷ es) (x ∷ es')) e (cons-AreSame a es es' d (perm-AreSame p d.1))
perm-AreSame (Permᴰ.swap {a = a} {b = b} {a' = a'} {b' = b'} {l = l} e f) d =
    subst (λ x. AreSame (a ∷ b ∷ l) (a' ∷ x ∷ l)) e
      (subst (λ x. AreSame (a ∷ b ∷ l) (x ∷ a ∷ l)) f (swap-AreSame a b l d))
perm-AreSame (Permᴰ.trans p q) d =
    let first = perm-AreSame p d in
    let second = perm-AreSame q first.distinct in
    record { distinct = second.distinct; same = λ k. first.same k ∙ second.same k }

total-IsSet : IsSet (Option ℕ)
total-IsSet = hlevel

-- Totals do not depend on the order of the entries.
lookup-totals_of-perm :
    (k : ℕ) (es es' : List Entry)
    → Perm es es'
    → IsDistinct es
    → lookup k (totals_of es []) ≡ lookup k (totals_of es' [])
lookup-totals_of-perm k es es' p d =
    ∥∥₁_elim p (total-IsSet (lookup k (totals_of es [])) (lookup k (totals_of es' []))) λ q.
      let s = perm-AreSame q d in
      lookup-totals_of k es [] d
      ∙ ap (λ o. summed o (lookup k [])) (s.same k)
      ∙ sym (lookup-totals_of k es' [] s.distinct)

-- Two batched reads over a map that the kernel serves with each key once, in chunks of which the
-- first comes at NULL and each other at the token that came with the one before, none empty but
-- perhaps the last, with a round for each chunk, end with the same total for each key, in whatever
-- order the entries come and however they fall into chunks.
pub sum_per_cpu-perm :
    {sys sys' : LookupBatch} (r r' : BatchReader) (chunks chunks' : List (List Entry)) (fuel : ℕ)
    → Walk sys r.nr_cpus none chunks
    → Walk sys' r'.nr_cpus none chunks'
    → length chunks ≤ fuel
    → length chunks' ≤ fuel
    → Perm (concat chunks) (concat chunks')
    → IsDistinct (concat chunks)
    → (m : Dict ℕ) × (m' : Dict ℕ) × (sum_per_cpu fuel sys r ≡ done m)
      × (sum_per_cpu fuel sys' r' ≡ done m')
      × ((k : ℕ) → lookup k m ≡ lookup k m')
sum_per_cpu-perm r r' chunks chunks' fuel walk walk' f f' same distinct = (
  totals_of_all chunks [],
  totals_of_all chunks' [],
  sum_per_cpu-Walk r fuel walk f,
  sum_per_cpu-Walk r' fuel walk' f',
  λ k.
      ap (lookup k) (totals_of_all-concat chunks [])
      ∙ lookup-totals_of-perm k (concat chunks) (concat chunks') same distinct
      ∙ ap (lookup k) (sym (totals_of_all-concat chunks' [])),
)
