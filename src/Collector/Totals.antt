-- ===== src/Collector/Totals.antt =====
-- What a batched read returns (truetop/src/batch.rs), given what the kernel serves.
use mathlib.Core.Path.{subst}
use truetop.Common.{
  ℕ, zero, suc, ◌+◌, ◌-◌, ◌*◌, ◌≤◌, ◌<◌, ◌≡◌, refl, sym, ap, ◌∙◌, true, false, Option, none, some,
  List, [], ◌∷◌, ◌++◌, append_assoc, arith, Dict, insert, keys, length, length-append, length-drop,
  take, drop, take-append, drop-append, drop-drop, get_elem?-drop, All, ◌==◌, Bool, true, false,
  not, lookup, lookup-insert, IsDistinct,
}
use truetop.Collector.Batch.{
  LookupBatch, Reply, BatchReader, Cursor, in_ptr, done, default_cursor, next_batch, slice, sum_u64,
  fold_from, fold, sum_loop, sum_per_cpu,
}

-- A key and its slots, one for each possible CPU.
abbrev pub Entry : Type 0
Entry = ℕ × List ℕ

abbrev pub flat : List Entry → List ℕ
flat [] = []
flat ((k, slots) ∷ es) = slots ++ flat es

-- Each key with the sum of its slots; a key that is served again counts as served last.
abbrev pub totals_of : List Entry → Dict ℕ → Dict ℕ
totals_of [] totals = totals
totals_of ((k, slots) ∷ es) totals = totals_of es (insert k (sum_u64 slots) totals)

abbrev pub totals_of_all : List (List Entry) → Dict ℕ → Dict ℕ
totals_of_all [] totals = totals
totals_of_all (es ∷ chunks) totals = totals_of_all chunks (totals_of es totals)

-- Buffers whose first entries are those of a chunk; what lies behind is stale.
pub record IsFilled (nr_cpus : ℕ) (es : List Entry) (ks vs : List ℕ) : Type 0 where
  pub stale_keys : List ℕ
  pub stale_values : List ℕ
  pub keys_eq : ks ≡ keys es ++ stale_keys
  pub values_eq : vs ≡ flat es ++ stale_values
  pub strides : All (λ e. length e.1 ≡ nr_cpus) es

-- The kernel's answer with a chunk: success, or `ENOENT` with the last.
pub record Answers (nr_cpus : ℕ) (es : List Entry) (is_last : Bool) (reply : Reply) : Type 0 where
  pub succeeds_eq : reply.succeeds ≡ not is_last
  pub enoent : is_last ≡ true → reply.is_enoent ≡ true
  pub count_eq : reply.count ≡ length es
  pub filled : IsFilled nr_cpus es reply.keys reply.values

-- The kernel's side of a walk: at NULL it serves the first chunk, and at the token that it gave with a
-- chunk the next, whatever the buffers hold. No chunk is empty but the last, which may be.
pub data Walk (sys : LookupBatch) (nr_cpus : ℕ) : Option ℕ → List (List Entry) → Type 0 where
  last :
      {at : Option ℕ} {es : List Entry}
      → ((ks vs : List ℕ) → Answers nr_cpus es true (sys at ks vs))
      → Walk sys nr_cpus at (es ∷ [])
  more :
      {at : Option ℕ} {es : List Entry} {chunks : List (List Entry)} (token : ℕ)
      → 0 < length es
      → ((ks vs : List ℕ) → Answers nr_cpus es false (sys at ks vs))
      → ((ks vs : List ℕ) → (sys at ks vs).token ≡ token)
      → Walk sys nr_cpus (some token) chunks
      → Walk sys nr_cpus at (es ∷ chunks)

-- What a call makes of the kernel's answer, and where the next call starts.
next_batch-Answers :
    (sys : LookupBatch) (r : BatchReader) (c : Cursor) (nr_cpus : ℕ) (es : List Entry)
    (is_last : Bool)
    → Answers nr_cpus es is_last (sys (in_ptr c) r.keys r.values)
    → ((next_batch sys r c).answer ≡ some (length es, is_last))
      × IsFilled nr_cpus es (next_batch sys r c).reader.keys (next_batch sys r c).reader.values
      × ((next_batch sys r c).reader.nr_cpus ≡ r.nr_cpus)
      × (in_ptr (next_batch sys r c).cursor ≡ some (sys (in_ptr c) r.keys r.values).token)
unfolding next_batch
next_batch-Answers sys r c nr_cpus es true a =
    (rw (a.succeeds_eq, a.enoent refl, a.count_eq) refl, a.filled, refl, refl)
next_batch-Answers sys r c nr_cpus es false a =
    (rw (a.succeeds_eq, a.count_eq) refl, a.filled, refl, refl)

slice_of_drop :
    (xs s rest : List ℕ) (a b : ℕ)
    → drop a xs ≡ s ++ rest
    → a ≤ length xs
    → b ≡ a + length s
    → (slice xs a b ≡ some s) × (drop b xs ≡ rest) × (b ≤ length xs)
unfolding slice
slice_of_drop xs s rest a b h la e =
    let whole : length xs - a ≡ length s + length rest =
      sym (length-drop a xs) ∙ ap length h ∙ length-append s rest in
    let fits : b ≤ length xs = omega arith in
    let width : b - a ≡ length s = omega arith in
    let taken : take (b - a) (drop a xs) ≡ s = rw (width, h) (take-append s rest) in
    (
      ground (arith, fits, taken),
      sym (drop-drop (length s) a b xs e) ∙ ap (drop (length s)) h ∙ drop-append s rest,
      fits,
    )

fold_from_filled :
    (es : List Entry) (i nr_cpus : ℕ) (ks vs stale_keys stale_values : List ℕ) (totals : Dict ℕ)
    → drop i ks ≡ keys es ++ stale_keys
    → drop (i * nr_cpus) vs ≡ flat es ++ stale_values
    → i * nr_cpus ≤ length vs
    → All (λ e. length e.1 ≡ nr_cpus) es
    → fold_from (length es) i ks vs nr_cpus totals ≡ some (totals_of es totals)
unfolding fold_from
fold_from_filled [] i nr_cpus ks vs sk sv totals hk hv inside strides = refl
fold_from_filled ((k, slots) ∷ es) i nr_cpus ks vs sk sv totals hk hv inside strides =
    let (key, keys_left) = get_elem?-drop i ks hk in
    let a = i * nr_cpus in
    let b = (i + 1) * nr_cpus in
    let hv' : drop a vs ≡ slots ++ (flat es ++ sv) = hv ∙ append_assoc slots (flat es) sv in
    let next : b ≡ a + length slots = omega (arith, strides.0) in
    let (row, values_left, inside') = slice_of_drop vs slots (flat es ++ sv) a b hv' inside next in
    let left : drop (i + 1) ks ≡ keys es ++ sk =
      let e : i + 1 ≡ suc i = omega arith in rw e keys_left in
    rw (row, key, fold_from)
      (fold_from_filled es (i + 1) nr_cpus ks vs sk sv _ left values_left inside' strides.1)

pub fold_filled :
    (es : List Entry) (ks vs : List ℕ) (nr_cpus : ℕ) (totals : Dict ℕ)
    → IsFilled nr_cpus es ks vs
    → fold ks vs (length es) nr_cpus totals ≡ some (totals_of es totals)
unfolding fold
fold_filled es ks vs nr_cpus totals h =
    fold_from_filled es 0 nr_cpus ks vs h.stale_keys h.stale_values totals h.keys_eq
      (let e : 0 * nr_cpus ≡ 0 = omega arith in rw e h.values_eq) (omega arith) h.strides

-- The loop returns the sums of what the kernel serves, and takes a round for each chunk.
sum_loop-Walk :
    {sys : LookupBatch} {nr_cpus : ℕ} {at : Option ℕ} {chunks : List (List Entry)} (fuel : ℕ)
    (r : BatchReader) (c : Cursor) (totals : Dict ℕ)
    → in_ptr c ≡ at
    → r.nr_cpus ≡ nr_cpus
    → Walk sys nr_cpus at chunks
    → length chunks ≤ fuel
    → sum_loop fuel sys r c totals ≡ done (totals_of_all chunks totals)
unfolding sum_loop
sum_loop-Walk zero r c totals here cpus (last answers) f = absurd (omega arith)
sum_loop-Walk zero r c totals here cpus (more token full answers gives rest) f =
    absurd (omega arith)
sum_loop-Walk {sys} {nr_cpus} (suc fuel) r c totals here cpus (last {es = es} answers) f =
    let (answer, filled, same, next) = next_batch-Answers sys r c nr_cpus es true (
      subst (λ p. Answers nr_cpus es true (sys p r.keys r.values)) (sym here)
        (answers r.keys r.values)) in
    rw (answer, cpus, fold_filled es _ _ nr_cpus totals filled, sum_loop) refl
sum_loop-Walk {sys} {nr_cpus} (suc fuel) r c totals here cpus
      (more {es = es} token full answers gives rest) f =
    let (answer, filled, same, next) = next_batch-Answers sys r c nr_cpus es false (
      subst (λ p. Answers nr_cpus es false (sys p r.keys r.values)) (sym here)
        (answers r.keys r.values)) in
    let full' : (length es == 0) ≡ false = ground arith in
    let next' : in_ptr (next_batch sys r c).cursor ≡ some token =
      next ∙ ap (λ p. some (sys p r.keys r.values).token) here ∙ ap some (gives r.keys r.values) in
    rw (answer, cpus, fold_filled es _ _ nr_cpus totals filled, full', sum_loop)
      (sum_loop-Walk fuel (next_batch sys r c).reader (next_batch sys r c).cursor
        (totals_of es totals) next' (same ∙ cpus) rest (omega arith))

-- Over a map that the kernel serves in chunks, the first at NULL and each other at the token that
-- came with the one before, none empty but perhaps the last, with a round for each chunk, the
-- batched read ends without a panic and returns each key with the sum of its slots.
pub sum_per_cpu-Walk :
    {sys : LookupBatch} {chunks : List (List Entry)} (r : BatchReader) (fuel : ℕ)
    → Walk sys r.nr_cpus none chunks
    → length chunks ≤ fuel
    → sum_per_cpu fuel sys r ≡ done (totals_of_all chunks [])
unfolding sum_per_cpu in_ptr
sum_per_cpu-Walk r fuel w f = sum_loop-Walk fuel r default_cursor [] refl refl w f

abbrev pub summed : Option (List ℕ) → Option ℕ → Option ℕ
summed none old = old
summed (some slots) old = some (sum_u64 slots)

-- Then each key's total is the sum of its slots.
pub lookup-totals_of :
    (k : ℕ) (es : List Entry) (totals : Dict ℕ)
    → IsDistinct es
    → lookup k (totals_of es totals) ≡ summed (lookup k es) (lookup k totals)
unfolding lookup
lookup-totals_of k [] totals d = refl
lookup-totals_of k ((j, slots) ∷ es) totals d = ground (
  arith,
  lookup-totals_of k es (insert j (sum_u64 slots) totals) d.1,
  lookup-insert j k (sum_u64 slots) totals,
  d.0,
)

abbrev pub concat : List (List Entry) → List Entry
concat [] = []
concat (es ∷ chunks) = es ++ concat chunks

totals_of-append :
    (xs ys : List Entry) (totals : Dict ℕ)
    → totals_of (xs ++ ys) totals ≡ totals_of ys (totals_of xs totals)
totals_of-append [] ys totals = refl
totals_of-append ((k, slots) ∷ xs) ys totals = totals_of-append xs ys _

-- How the entries fall into chunks does not matter.
pub totals_of_all-concat :
    (chunks : List (List Entry)) (totals : Dict ℕ)
    → totals_of_all chunks totals ≡ totals_of (concat chunks) totals
totals_of_all-concat [] totals = refl
totals_of_all-concat (es ∷ chunks) totals =
    totals_of_all-concat chunks _ ∙ sym (totals_of-append es (concat chunks) totals)
