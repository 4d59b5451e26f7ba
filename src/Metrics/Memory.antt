-- ===== src/Metrics/Memory.antt =====
-- truetop/src/metrics/mem.rs: resident memory from a `statm` file, given by its contents.
use truetop.Common.{ℕ, ◌*◌, ◌%◌, Option, none, some, u64_mod, ltb, if◌then◌else◌}
use truetop.Common.Text.{Text, split_whitespace, nth, parse_unsigned}
use truetop.Metrics.Counters.{MemMetrics}

abbrev parse_u64 : Option Text → Option ℕ
parse_u64 none = none
parse_u64 (some word) = parse_unsigned u64_mod word

unfoldable pub parse_statm_pages : Text → Option ℕ
parse_statm_pages statm = parse_u64 (nth 1 (split_whitespace statm))

-- `sysconf(_SC_PAGESIZE)` answers -1 for an error: here `none`. 0 counts as one too.
unfoldable pub page_size : Option ℕ → ℕ
page_size none = 4096
page_size (some n) = if ltb 0 n then n else 4096

-- The product wraps, as a release build does.
unfoldable pub for_pid : ℕ → Option Text → Option MemMetrics
unfolding parse_statm_pages
for_pid page_size none = none
for_pid page_size (some statm) = elim (parse_statm_pages statm) [
  | none ↦ none
  | some pages ↦ some (record { rss_bytes = pages * page_size % u64_mod })
]
