-- ===== src/Kernel/Maps.antt =====
-- What the programs use of the kernel's maps (truetop-ebpf: the `#[map]` statics). Which entries a
-- full LRU map gives up for a new key is the kernel's choice: the parameter `room`.
use truetop.Common.{
  ℕ, ◌≤◌, ◌≡◌, ◌⊎◌, false, none, some, arith, Dict, lookup, insert, has, length, length-insert,
  lookup-insert, if◌then◌else◌, ltb, ◌==◌, ◌||◌,
}

-- One value for each CPU.
abbrev pub Slots : Type 0
Slots = ℕ → ℕ

abbrev pub write_slot : ℕ → ℕ → Slots → Slots
write_slot cpu v s c = if cpu == c then v else s c

-- A fresh per-CPU element holds 0 on the other CPUs.
abbrev pub fresh_slots : ℕ → ℕ → Slots
fresh_slots cpu v = write_slot cpu v (λ c. 0)

-- An eviction policy: what is left of a map once room is made for a new key.
abbrev pub Policy : Type 0 → Type 0
Policy V = ℕ → Dict V → Dict V

-- It drops entries and alters none.
abbrev pub Evicts : {V : Type 0} → Policy V → Type 0
Evicts {V} room =
    (k j : ℕ) (m : Dict V) → (lookup j (room k m) ≡ lookup j m) ⊎ (lookup j (room k m) ≡ none)

-- `LruHashMap::insert`: never refused.
unfoldable pub lru_insert : {V : Type 0} → Policy V → ℕ → V → Dict V → Dict V
lru_insert room k v m = if has k m then insert k v m else insert k v (room k m)

-- `HashMap::insert` on a plain hash map: refused when the map is full and the key is new.
unfoldable pub hash_insert : {V : Type 0} → ℕ → ℕ → V → Dict V → Dict V
hash_insert capacity k v m = if has k m || ltb (length m) capacity then insert k v m else m

pub hash_insert_bounded :
    {V : Type 0} (capacity k : ℕ) (v : V) (m : Dict V)
    → length m ≤ capacity
    → length (hash_insert capacity k v m) ≤ capacity
unfolding hash_insert
hash_insert_bounded capacity k v m h = ground (arith, length-insert k v m)

module _ {V : Type 0} (room : Policy V) (evicts : Evicts room) (k j : ℕ) (v : V) (m : Dict V) where
  -- The new key is there; any other is as it was, or gone.
  pub lookup-lru_insert :
      (lookup j (lru_insert room k v m) ≡ (if k == j then some v else lookup j m))
      ⊎ ((k == j) ≡ false) × (lookup j (lru_insert room k v m) ≡ none)
  unfolding lru_insert
  lookup-lru_insert =
      ground (arith, evicts k j m, lookup-insert k j v m, lookup-insert k j v (room k m))
