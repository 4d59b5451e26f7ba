-- ===== src/Collector/Selection.antt =====
-- A selection as the standard library's, by sorting: what top_pids assumes of it can hold.
use truetop.Common.{
  ℕ, zero, suc, ◌≡◌, refl, ◌∙◌, Bool, true, none, some, [], ◌∷◌, arith, Dict, lookup, IsDistinct,
  length, take, drop, if◌then◌else◌, All, Bool-cases, inl, inr,
}
use truetop.Common.Float.{IsTotalOrder}
use truetop.Collector.Backend.{SelectNth}
use truetop.Collector.Candidates.{Selects}

abbrev Comparator : Type 0
Comparator = ℕ × ℕ → ℕ × ℕ → Bool

abbrev insert_entry : Comparator → ℕ × ℕ → Dict ℕ → Dict ℕ
insert_entry le x [] = x ∷ []
insert_entry le x (y ∷ ys) =
    let rest = insert_entry le x ys in if le x y then x ∷ y ∷ ys else y ∷ rest

abbrev sort_entries : Comparator → Dict ℕ → Dict ℕ
sort_entries le [] = []
sort_entries le (x ∷ xs) = insert_entry le x (sort_entries le xs)

abbrev pub by_sorting : SelectNth ℕ
by_sorting cap le m = sort_entries le m

module _ (le : Comparator) where
  length-insert_entry : (x : ℕ × ℕ) (ys : Dict ℕ) → length (insert_entry le x ys) ≡ suc (length ys)
  length-insert_entry x [] = refl
  length-insert_entry x (y ∷ ys) = ground (arith, length-insert_entry x ys)

  length-sort_entries : (xs : Dict ℕ) → length (sort_entries le xs) ≡ length xs
  length-sort_entries [] = refl
  length-sort_entries (x ∷ xs) =
      ground (arith, length-insert_entry x (sort_entries le xs), length-sort_entries xs)

  lookup-insert_entry :
      (k i v : ℕ) (ys : Dict ℕ)
      → lookup i ys ≡ none
      → lookup k (insert_entry le (i, v) ys) ≡ lookup k ((i, v) ∷ ys)
  unfolding lookup
  lookup-insert_entry k i v [] h = refl
  lookup-insert_entry k i v ((j, w) ∷ ys) h = ground (arith, lookup-insert_entry k i v ys)

  lookup-sort_entries :
      (k : ℕ) (xs : Dict ℕ) → IsDistinct xs → lookup k (sort_entries le xs) ≡ lookup k xs
  unfolding lookup
  lookup-sort_entries k [] d = refl
  lookup-sort_entries k ((i, v) ∷ xs) d = ground (
    arith,
    lookup-insert_entry k i v (sort_entries le xs) (lookup-sort_entries i xs d.1 ∙ d.0),
    lookup-sort_entries k xs d.1,
  )

  -- No entry of the list is less than the given one.
  abbrev Below : ℕ × ℕ → Dict ℕ → Type 0
  Below x m = All (λ e. le x e ≡ true) m

  abbrev Sorted : Dict ℕ → Type 0
  Sorted [] = Unit
  Sorted (x ∷ m) = Below x m × Sorted m

  Below-lookup :
      (x : ℕ × ℕ) (n k b : ℕ) (m : Dict ℕ)
      → Below x m
      → lookup k (drop n m) ≡ some b
      → le x (k, b) ≡ true
  unfolding lookup
  Below-lookup x zero k b [] h e = ground arith
  Below-lookup x zero k b ((j, w) ∷ m) h e = ground (arith, h.0, Below-lookup x zero k b m h.1)
  Below-lookup x (suc n) k b [] h e = ground arith
  Below-lookup x (suc n) k b (y ∷ m) h e = Below-lookup x n k b m h.1 e

  Sorted-cut :
      (n j k a b : ℕ) (m : Dict ℕ)
      → Sorted m
      → lookup j (take n m) ≡ some a
      → lookup k (drop n m) ≡ some b
      → le (j, a) (k, b) ≡ true
  unfolding lookup
  Sorted-cut zero j k a b m s hj hk = ground arith
  Sorted-cut (suc n) j k a b [] s hj hk = ground arith
  Sorted-cut (suc n) j k a b ((i, v) ∷ m) s hj hk =
      ground (arith, Below-lookup (i, v) n k b m s.0, Sorted-cut n j k a b m s.1)

  module _ (order : IsTotalOrder le) where
    Below-le : (x y : ℕ × ℕ) (m : Dict ℕ) → le x y ≡ true → Below y m → Below x m
    Below-le x y [] h b = tt
    Below-le x y (e ∷ m) h b = (order.trans x y e h b.0, Below-le x y m h b.1)

    Below-insert_entry :
        (x y : ℕ × ℕ) (m : Dict ℕ) → le x y ≡ true → Below x m → Below x (insert_entry le y m)
    Below-insert_entry x y [] h b = (h, tt)
    Below-insert_entry x y (z ∷ m) h b = elim (Bool-cases (le y z)) [
      | inl e ↦ rw e (h, b)
      | inr e ↦ rw e (b.0, Below-insert_entry x y m h b.1)
    ]

    insert_entry-Sorted : (x : ℕ × ℕ) (m : Dict ℕ) → Sorted m → Sorted (insert_entry le x m)
    insert_entry-Sorted x [] s = (tt, tt)
    insert_entry-Sorted x (y ∷ m) s = elim (Bool-cases (le x y)) [
      | inl e ↦ rw e ((e, Below-le x y m e s.0), s)
      | inr e ↦ rw e (Below-insert_entry y x m (order.total x y e) s.0, insert_entry-Sorted x m s.1)
    ]

    sort_entries-Sorted : (xs : Dict ℕ) → Sorted (sort_entries le xs)
    sort_entries-Sorted [] = tt
    sort_entries-Sorted (x ∷ xs) =
        insert_entry-Sorted x (sort_entries le xs) (sort_entries-Sorted xs)

pub by_sorting-Selects : Selects by_sorting
by_sorting-Selects = record {
  same_length = λ cap le m. length-sort_entries le m;
  same_entries = λ cap k le m d over. lookup-sort_entries le k m d;
  ordered = λ cap j k le m a b order over.
      Sorted-cut le cap j k a b (sort_entries le m) (sort_entries-Sorted le order m);
}
