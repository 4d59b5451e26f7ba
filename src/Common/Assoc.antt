-- ===== src/Common/Assoc.antt =====
-- Maps with numbers for keys, as association lists: kernel maps and Rust's `HashMap<u32, V>`.
use Prim.Native.Nat.{ℕ, suc, ◌≤◌}
use mathlib.Core.Path.{◌≡◌, refl, ap}
use mathlib.Core.Bool.{Bool, true, false, ◌||◌}
use mathlib.Core.List.{List, [], ◌∷◌}
use mathlib.Core.Option.{Option, none, some}
use native.Mathlib.Omega.{arith}
use truetop.Common.Tests.{◌==◌, if◌then◌else◌}
use truetop.Common.Lists.{length}

abbrev pub Dict {ℓ} : Type ℓ → Type ℓ
Dict V = List (ℕ × V)

module _ {ℓ} {V : Type ℓ} where
  unfoldable pub lookup : ℕ → Dict V → Option V
  lookup k [] = none
  lookup k ((j, v) ∷ m) = if k == j then some v else lookup k m

  unfoldable pub insert : ℕ → V → Dict V → Dict V
  insert k v [] = (k, v) ∷ []
  insert k v ((j, w) ∷ m) = if k == j then (k, v) ∷ m else (j, w) ∷ insert k v m

  unfoldable pub remove : ℕ → Dict V → Dict V
  remove k [] = []
  remove k ((j, v) ∷ m) = let rest = remove k m in if k == j then rest else (j, v) ∷ rest

  abbrev pub keys : Dict V → List ℕ
  keys [] = []
  keys ((j, v) ∷ m) = j ∷ keys m

  unfoldable pub has : ℕ → Dict V → Bool
  has k [] = false
  has k ((j, v) ∷ m) = k == j || has k m

  pub lookup-insert :
      (k j : ℕ) (v : V) (m : Dict V)
      → lookup j (insert k v m) ≡ (if k == j then some v else lookup j m)
  unfolding lookup insert
  lookup-insert k j v [] = ground arith
  lookup-insert k j v ((i, w) ∷ m) = ground (arith, lookup-insert k j v m)

  pub lookup-remove :
      (k j : ℕ) (m : Dict V) → lookup j (remove k m) ≡ (if k == j then none else lookup j m)
  unfolding lookup remove
  lookup-remove k j [] = ground arith
  lookup-remove k j ((i, w) ∷ m) = ground (arith, lookup-remove k j m)

  pub has_of_lookup : (k : ℕ) (v : V) (m : Dict V) → lookup k m ≡ some v → has k m ≡ true
  unfolding lookup has
  has_of_lookup k v [] h = ground arith
  has_of_lookup k v ((i, w) ∷ m) h = ground (arith, has_of_lookup k v m)

  pub lookup_of_not_has : (k : ℕ) (m : Dict V) → has k m ≡ false → lookup k m ≡ none
  unfolding lookup has
  lookup_of_not_has k [] h = refl
  lookup_of_not_has k ((i, w) ∷ m) h = ground (arith, lookup_of_not_has k m)

  pub length-insert :
      (k : ℕ) (v : V) (m : Dict V)
      → length (insert k v m) ≡ (if has k m then length m else suc (length m))
  unfolding insert has
  length-insert k v [] = refl
  length-insert k v ((i, w) ∷ m) = ground (arith, length-insert k v m)

  pub length-remove-le : (k : ℕ) (m : Dict V) → length (remove k m) ≤ length m
  unfolding remove
  length-remove-le k [] = omega arith
  length-remove-le k ((i, w) ∷ m) = ground (arith, length-remove-le k m)

  pub length-keys : (m : Dict V) → length (keys m) ≡ length m
  length-keys [] = refl
  length-keys ((i, w) ∷ m) = ap suc (length-keys m)

-- No key stands twice.
abbrev pub IsDistinct {ℓ} : {V : Type ℓ} → Dict V → Type ℓ
IsDistinct [] = Unit
IsDistinct ((k, v) ∷ m) = (lookup k m ≡ none) × IsDistinct m

pub insert-IsDistinct {ℓ} :
    {V : Type ℓ} (k : ℕ) (v : V) (m : Dict V) → IsDistinct m → IsDistinct (insert k v m)
unfolding lookup insert
insert-IsDistinct k v [] d = (refl, tt)
insert-IsDistinct k v ((j, w) ∷ m) d =
    ground (arith, lookup-insert k j v m, insert-IsDistinct k v m)
