-- ===== src/Collector/Batch.antt =====
-- truetop/src/batch.rs: per-CPU maps read in batches. The `bpf` system call is a parameter.
use truetop.Common.{
  ℕ, zero, suc, ◌+◌, ◌-◌, ◌*◌, ◌%◌, Bool, true, false, ◌||◌, Option, none, some, List, [], Dict,
  insert, remove, length, take, drop, replicate, get_elem?, sum, leb, ◌==◌, if◌then◌else◌, u64_mod,
}

-- Entries per call.
abbrev pub batch : ℕ
batch = 4096

-- What a call leaves behind: its return value and errno, the count in `attr`, the token and the
-- two buffers.
pub record Reply : Type 0 where
  pub succeeds : Bool
  pub is_enoent : Bool
  pub count : ℕ
  pub token : ℕ
  pub keys : List ℕ
  pub values : List ℕ

-- `BPF_MAP_LOOKUP_BATCH` on a map: the `in_batch` pointer (`none` for NULL) and the buffers.
abbrev pub LookupBatch : Type 0
LookupBatch = Option ℕ → List ℕ → List ℕ → Reply

pub record Cursor : Type 0 where
  pub token : ℕ
  pub started : Bool

abbrev pub default_cursor : Cursor
default_cursor = record { token = 0; started = false }

unfoldable pub in_ptr : Cursor → Option ℕ
in_ptr c = if c.started then some c.token else none

pub record BatchReader : Type 0 where
  pub nr_cpus : ℕ
  pub keys : List ℕ
  pub values : List ℕ

-- `BatchReader::new`.
unfoldable pub new_reader : ℕ → BatchReader
new_reader nr_cpus = record {
  nr_cpus = nr_cpus;
  keys = replicate batch 0;
  values = replicate (batch * nr_cpus) 0;
}

-- A run of the program's code: it ends, or panics on an index, or is out of fuel.
pub data Outcome (A : Type 0) : Type 0 where
  done : A → Outcome A
  panics : Outcome A
  out_of_fuel : Outcome A

pub record Batch : Type 0 where
  pub answer : Option (ℕ × Bool)
  pub reader : BatchReader
  pub cursor : Cursor

unfoldable pub next_batch : LookupBatch → BatchReader → Cursor → Batch
unfolding in_ptr
next_batch sys r c =
    let reply = sys (in_ptr c) r.keys r.values in
    let answer : Option (ℕ × Bool) =
      (if reply.succeeds
        then some (reply.count, false)
        else if reply.is_enoent
        then some (reply.count, true)
        else none) in
    record {
      answer = answer;
      reader = record r { keys = reply.keys; values = reply.values };
      cursor = record { token = reply.token; started = true };
    }

-- `&values[a..b]`, which panics past the end.
unfoldable pub slice : List ℕ → ℕ → ℕ → Option (List ℕ)
slice xs a b = if leb b (length xs) then some (take (b - a) (drop a xs)) else none

-- `slots.iter().sum()` on u64, wrapping as a release build does.
abbrev pub sum_u64 : List ℕ → ℕ
sum_u64 slots = sum slots % u64_mod

-- The loop of `fold` from index `i`, with `n` rounds left; `none` is a panic.
unfoldable pub fold_from : ℕ → ℕ → List ℕ → List ℕ → ℕ → Dict ℕ → Option (Dict ℕ)
unfolding slice
fold_from zero i keys values nr_cpus totals = some totals
fold_from (suc n) i keys values nr_cpus totals =
    elim (slice values (i * nr_cpus) ((i + 1) * nr_cpus)) [
      | none ↦ none
      | some slots ↦ elim (get_elem? keys i) [
        | none ↦ none
        | some key ↦ fold_from n (i + 1) keys values nr_cpus (insert key (sum_u64 slots) totals)
      ]
    ]

unfoldable pub fold : List ℕ → List ℕ → ℕ → ℕ → Dict ℕ → Option (Dict ℕ)
unfolding fold_from
fold keys values count nr_cpus totals = fold_from count 0 keys values nr_cpus totals

-- The `while let` loop, on fuel.
unfoldable pub sum_loop : ℕ → LookupBatch → BatchReader → Cursor → Dict ℕ → Outcome (Dict ℕ)
unfolding next_batch
sum_loop zero sys r c totals = out_of_fuel
sum_loop (suc fuel) sys r c totals =
    let b = next_batch sys r c in
    elim b.answer [
      | none ↦ done totals
      | some (count, exhausted) ↦ elim (fold b.reader.keys b.reader.values count r.nr_cpus totals) [
        | none ↦ panics
        | some totals' ↦
            let rest = sum_loop fuel sys b.reader b.cursor totals' in
            if exhausted || count == 0 then done totals' else rest
      ]
    ]

unfoldable pub sum_per_cpu : ℕ → LookupBatch → BatchReader → Outcome (Dict ℕ)
unfolding sum_loop
sum_per_cpu fuel sys r = sum_loop fuel sys r default_cursor []

-- `BPF_MAP_DELETE_ELEM`: a missing key is no error to the caller, and a per-CPU map loses every
-- CPU's slot.
unfoldable pub delete_elem : {V : Type 0} → ℕ → Dict V → Dict V
delete_elem key m = remove key m
