-- ===== src/Ui/Table.antt =====
-- truetop/src/ui/table.rs: the rows that a frame holds, filtered and sorted.
use truetop.Common.{ℕ, Bool, true, ◌||◌, none, some, List, [], ◌∷◌, leb, if◌then◌else◌, keep}
use mathlib.Core.List.{reverse}
use truetop.Common.Text.{Text, is_empty, contains_text, print_unsigned}
use truetop.Common.Float.{F64, zero_f}
use truetop.Metrics.Counters.{ProcessMetrics}
use truetop.Ui.App.{Sort, cpu, mem, io}

-- The standard library's stable sort, greatest first: a row goes behind those that are greater, and
-- before the first that is not.
module _ {A : Type 0} (le : A → A → Bool) where
  unfoldable pub insert_row : A → List A → List A
  insert_row x [] = x ∷ []
  insert_row x (y ∷ ys) = let rest = insert_row x ys in if le y x then x ∷ y ∷ ys else y ∷ rest

  unfoldable pub sort_rows : List A → List A
  unfolding insert_row
  sort_rows [] = []
  sort_rows (x ∷ xs) = insert_row x (sort_rows xs)

-- A process without a figure counts as zero.
abbrev pub mem_of : {F : Type 0} → ProcessMetrics F → ℕ
mem_of p = elim p.mem [ none ↦ 0 | some m ↦ m.rss_bytes ]

-- `to_lowercase` is the standard library's.
module _ (to_lowercase : Text → Text) where
  unfoldable pub matches_filter : {F : Type 0} → ProcessMetrics F → Text → Bool
  matches_filter p filter =
      let needle = to_lowercase filter in
      if is_empty filter
      then true
      else contains_text needle (to_lowercase p.name) || contains_text needle (print_unsigned p.pid)

module _ (f64 : F64) where
  open f64 use {F, total_le}

  abbrev pub io_of : ProcessMetrics F → F
  io_of p = elim p.io [ none ↦ zero_f f64 | some m ↦ m.io_wait_percent ]

  -- Whether the first process ranks no higher than the second.
  unfoldable pub row_le : Sort → ProcessMetrics F → ProcessMetrics F → Bool
  row_le cpu p q = total_le p.cpu.cpu_percent q.cpu.cpu_percent
  row_le mem p q = leb (mem_of p) (mem_of q)
  row_le io p q = total_le (io_of p) (io_of q)

  unfoldable pub visible :
      (Text → Text) → List (ProcessMetrics F) → Sort → Bool → Text → List (ProcessMetrics F)
  unfolding matches_filter sort_rows row_le
  visible to_lowercase processes sort descending filter =
      let rows =
        sort_rows (row_le sort) (keep (λ p. matches_filter to_lowercase p filter) processes) in
      if descending then rows else reverse rows
