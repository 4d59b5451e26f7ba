-- ===== src/Collector/Candidates.antt =====
-- The rows of a tick (truetop/src/backend.rs): the greatest of each metric, each once, and bounded.
use truetop.Common.{
  ℕ, ◌+◌, ◌*◌, ◌≤◌, ◌<◌, ◌≡◌, refl, sym, ap, ◌∙◌, Bool, true, false, ◌||◌, some, List, [], ◌∷◌,
  ◌++◌, arith, Dict, lookup, IsDistinct, keys, has, length, length-append, length-take, length-keys,
  take, drop, take-append-drop, contains, ltb, if◌then◌else◌, Bool-cases, inl, inr, has_of_lookup,
  ltb→lt,
}
use truetop.Common.Float.{IsTotalOrder}
use truetop.Collector.Backend.{SelectNth, extend, top_pids, select_candidates}

contains-append :
    (k : ℕ) (xs ys : List ℕ) → contains k (xs ++ ys) ≡ (contains k xs || contains k ys)
contains-append k [] ys = refl
contains-append k (x ∷ xs) ys = ground (arith, contains-append k xs ys)

pub contains-extend :
    (k : ℕ) (set pids : List ℕ) → contains k (extend set pids) ≡ (contains k set || contains k pids)
unfolding extend
contains-extend k set [] = ground arith
contains-extend k set (p ∷ pids) = ground (
  arith,
  contains-extend k (if contains p set then set else set ++ p ∷ []) pids,
  contains-append k set (p ∷ []),
)

abbrev pub AllDifferent : List ℕ → Type 0
AllDifferent [] = Unit
AllDifferent (x ∷ xs) = (contains x xs ≡ false) × AllDifferent xs

AllDifferent-snoc :
    (xs : List ℕ) (p : ℕ) → AllDifferent xs → contains p xs ≡ false → AllDifferent (xs ++ p ∷ [])
AllDifferent-snoc [] p d h = (refl, tt)
AllDifferent-snoc (x ∷ xs) p d h =
    (ground (arith, contains-append x xs (p ∷ [])), AllDifferent-snoc xs p d.1 (ground arith))

AllDifferent-extend : (set pids : List ℕ) → AllDifferent set → AllDifferent (extend set pids)
unfolding extend
AllDifferent-extend set [] d = d
AllDifferent-extend set (p ∷ pids) d = elim (Bool-cases (contains p set)) [
  | inl old ↦ rw old (AllDifferent-extend set pids d)
  | inr new ↦ rw new (AllDifferent-extend (set ++ p ∷ []) pids (AllDifferent-snoc set p d new))
]

length-extend-le : (set pids : List ℕ) → length (extend set pids) ≤ length set + length pids
unfolding extend
length-extend-le set [] = omega arith
length-extend-le set (p ∷ pids) = ground (
  arith,
  length-extend-le set pids,
  length-extend-le (set ++ p ∷ []) pids,
  length-append set (p ∷ []),
)

contains-keys {ℓ} : {V : Type ℓ} (k : ℕ) (m : Dict V) → contains k (keys m) ≡ has k m
unfolding has
contains-keys k [] = refl
contains-keys k ((j, v) ∷ m) = ground (arith, contains-keys k m)

lookup-append {ℓ} :
    {V : Type ℓ} (k : ℕ) (xs ys : Dict V)
    → lookup k (xs ++ ys) ≡ (if has k xs then lookup k xs else lookup k ys)
unfolding lookup has
lookup-append k [] ys = refl
lookup-append k ((j, v) ∷ xs) ys = ground (arith, lookup-append k xs ys)

-- What `select_nth_unstable_by` promises for an index within a list whose keys differ and a comparator
-- that is a total order: the same entries, and none before the index is greater, by the comparator, than
-- one that is not before it.
pub record Selects {F : Type 0} (select_nth : SelectNth F) : Type 0 where
  pub same_length :
      (cap : ℕ) (le : ℕ × F → ℕ × F → Bool) (m : Dict F) → length (select_nth cap le m) ≡ length m
  pub same_entries :
      (cap k : ℕ) (le : ℕ × F → ℕ × F → Bool) (m : Dict F)
      → IsDistinct m
      → cap < length m
      → lookup k (select_nth cap le m) ≡ lookup k m
  pub ordered :
      (cap j k : ℕ) (le : ℕ × F → ℕ × F → Bool) (m : Dict F) (a b : F)
      → IsTotalOrder le
      → cap < length m
      → lookup j (take cap (select_nth cap le m)) ≡ some a
      → lookup k (drop cap (select_nth cap le m)) ≡ some b
      → le (j, a) (k, b) ≡ true

-- Whatever the selection is, the rows are few.
module _ {F : Type 0} (total_le : F → F → Bool) (select_nth : SelectNth F) where
  length-top_pids :
      (values : Dict F) (cap : ℕ) → length (top_pids total_le select_nth values cap) ≤ cap
  unfolding top_pids
  length-top_pids values cap =
      let ranked = select_nth cap (λ a b. total_le b.1 a.1) values in
      ground (arith, length-keys values, length-keys (take cap ranked), length-take cap ranked)

  pub length-select_candidates-le :
      (cpu io : Dict F) (cap : ℕ)
      → length (select_candidates total_le select_nth cpu io cap) ≤ 2 * cap
  unfolding select_candidates
  length-select_candidates-le cpu io cap =
      let by_cpu = top_pids total_le select_nth cpu cap in
      let by_io = top_pids total_le select_nth io cap in
      omega (
        arith,
        length-extend-le [] by_cpu,
        length-extend-le (extend [] by_cpu) by_io,
        length-top_pids cpu cap,
        length-top_pids io cap,
      )

module _ {F : Type 0} (total_le : F → F → Bool) (select_nth : SelectNth F) where
  -- The comparator of the source, the greater value first.
  abbrev falling : ℕ × F → ℕ × F → Bool
  falling a b = total_le b.1 a.1

  falling-IsTotalOrder : IsTotalOrder total_le → IsTotalOrder falling
  falling-IsTotalOrder order = record {
    total = λ x y h. order.total y.1 x.1 h;
    trans = λ x y z h k. order.trans z.1 y.1 x.1 k h;
  }

  -- Around the cut, an entry of the front is no less than one that is behind it.
  cut_ordered :
      (values : Dict F) (cap j k : ℕ) (a b : F)
      → Selects select_nth
      → IsTotalOrder total_le
      → IsDistinct values
      → cap < length values
      → lookup j values ≡ some a
      → lookup k values ≡ some b
      → has j (take cap (select_nth cap falling values)) ≡ true
      → has k (take cap (select_nth cap falling values)) ≡ false
      → total_le b a ≡ true
  cut_ordered values cap j k a b selects order d over hj hk inside outside =
      let ranked = select_nth cap falling values in
      let front = take cap ranked in
      let back = drop cap ranked in
      let whole = take-append-drop cap ranked in
      let at_j = lookup-append j front back in
      let at_k = lookup-append k front back in
      let j_front : lookup j front ≡ some a =
        sym (rw inside at at_j)
        ∙ ap (lookup j) whole
        ∙ selects.same_entries cap j falling values d over
        ∙ hj in
      let k_back : lookup k back ≡ some b =
        sym (rw outside at at_k)
        ∙ ap (lookup k) whole
        ∙ selects.same_entries cap k falling values d over
        ∙ hk in
      selects.ordered cap j k falling values a b (falling-IsTotalOrder order) over j_front k_back

  -- Given a selection that puts first what its comparator puts first, a total order on the
  -- readings, and distinct keys, a process that is left out of the top ranks no higher than any
  -- process in it, and is left out only where the top is full.
  pub top_pids_greatest :
      (values : Dict F) (cap j k : ℕ) (a b : F)
      → Selects select_nth
      → IsTotalOrder total_le
      → IsDistinct values
      → lookup j values ≡ some a
      → lookup k values ≡ some b
      → contains j (top_pids total_le select_nth values cap) ≡ true
      → contains k (top_pids total_le select_nth values cap) ≡ false
      → (total_le b a ≡ true) × (length (top_pids total_le select_nth values cap) ≡ cap)
  unfolding top_pids
  top_pids_greatest values cap j k a b selects order d hj hk inside outside =
      let front = take cap (select_nth cap falling values) in
      elim (Bool-cases (ltb cap (length values))) [
        | inl over ↦
            let over' : cap < length values = ltb→lt cap (length values) over in
            let j_in : has j front ≡ true = sym (contains-keys j front) ∙ (rw over at inside) in
            let k_out : has k front ≡ false = sym (contains-keys k front) ∙ (rw over at outside) in
            rw over (
              cut_ordered values cap j k a b selects order d over' hj hk j_in k_out,
              omega (
                arith,
                length-keys front,
                length-take cap (select_nth cap falling values),
                selects.same_length cap falling values,
              ),
            )
        | inr under ↦
            let k_in : contains k (keys values) ≡ true =
              contains-keys k values ∙ has_of_lookup k b values hk in
            let k_out : contains k (keys values) ≡ false = rw under at outside in cc
      ]

  -- Whatever the selection is, the rows of a tick hold each process once, at most twice the cap,
  -- and exactly the processes that are in the top of either metric.
  pub select_candidates_lem :
      (cpu io : Dict F) (cap : ℕ)
      → AllDifferent (select_candidates total_le select_nth cpu io cap)
        × (length (select_candidates total_le select_nth cpu io cap) ≤ 2 * cap)
        × ((k : ℕ)
            → contains k (select_candidates total_le select_nth cpu io cap) ≡ (
                contains k (top_pids total_le select_nth cpu cap)
                || contains k (top_pids total_le select_nth io cap)))
  unfolding select_candidates
  select_candidates_lem cpu io cap =
      let by_cpu = top_pids total_le select_nth cpu cap in
      let by_io = top_pids total_le select_nth io cap in
      (
        AllDifferent-extend (extend [] by_cpu) by_io (AllDifferent-extend [] by_cpu tt),
        length-select_candidates-le total_le select_nth cpu io cap,
        λ k.
            ground (arith, contains-extend k (extend [] by_cpu) by_io, contains-extend k [] by_cpu),
      )
