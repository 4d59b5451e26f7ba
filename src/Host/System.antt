-- ===== src/Host/System.antt =====
-- truetop/src/system.rs: host facts. A file is its contents, or `none` where it cannot be read.
use truetop.Common.{
  ℕ, ◌-◌, ◌*◌, ◌%◌, ◌&&◌, Option, none, some, List, [], ◌∷◌, leb, ◌==◌, if◌then◌else◌, u64_mod,
}
use truetop.Common.Text.{Text, codes, trim, lines, split_whitespace, nth, parse_unsigned}
use truetop.Metrics.Identity.{find_line}

pub record CpuCounts : Type 0 where
  pub possible : ℕ
  pub online : ℕ

pub data Topology : Type 0 where
  counted : CpuCounts → Topology
  unreadable_possible unreadable_online implausible : Topology

-- The answers of `nr_cpus` and of `sysconf`, `none` for an error or a negative count.
unfoldable pub detect : Option ℕ → Option ℕ → Topology
detect none online = unreadable_possible
detect (some possible) none = unreadable_online
detect (some possible) (some online) =
    if leb 1 online && leb online possible
    then counted (record { possible = possible; online = online })
    else implausible

abbrev head_line : List Text → Option Text
head_line [] = none
head_line (l ∷ ls) = some (trim l)

unfoldable pub first_line : Option Text → Option Text
first_line none = none
first_line (some content) = head_line (lines content)

-- What stands behind the first separator.
after_sep : ℕ → Text → Option Text
after_sep sep [] = none
after_sep sep (c ∷ s) = let rest = after_sep sep s in if c == sep then some s else rest

unfoldable pub cpu_model : Option Text → Option Text
unfolding after_sep
cpu_model none = none
cpu_model (some cpuinfo) = elim (find_line (codes "model name") (lines cpuinfo)) [
  | none ↦ none
  | some line ↦ elim (after_sep b':' line) [ none ↦ none | some model ↦ some (trim model) ]
]

abbrev in_bytes : Option Text → Option ℕ
in_bytes none = none
in_bytes (some word) = elim (parse_unsigned u64_mod word) [
  | none ↦ none
  | some kib ↦ some (kib * 1024 % u64_mod)
]

unfoldable pub meminfo_field : Text → Option Text → Option ℕ
meminfo_field key none = none
meminfo_field key (some meminfo) = elim (find_line key (lines meminfo)) [
  | none ↦ none
  | some line ↦ in_bytes (nth 1 (split_whitespace line))
]

abbrev pub or_else {ℓ} : {A : Type ℓ} → Option A → A → A
or_else none d = d
or_else (some a) d = a

unfoldable pub memory_total_bytes : Option Text → ℕ
unfolding meminfo_field
memory_total_bytes meminfo = or_else (meminfo_field (codes "MemTotal:") meminfo) 0

unfoldable pub memory_used_bytes : Option Text → ℕ → ℕ
unfolding meminfo_field
memory_used_bytes meminfo total =
    total - or_else (meminfo_field (codes "MemAvailable:") meminfo) total

-- `parse_f64` is the standard library's reading of a float.
unfoldable pub load_average : {F : Type 0} → F → (Text → Option F) → Option Text → F
unfolding first_line
load_average zero_f parse_f64 loadavg = elim (first_line loadavg) [
  | none ↦ zero_f
  | some line ↦ elim (nth 0 (split_whitespace line)) [
    | none ↦ zero_f
    | some word ↦ or_else (parse_f64 word) zero_f
  ]
]

pub record Machine : Type 0 where
  pub hostname : Text
  pub cpu_model : Text
  pub cores : ℕ
  pub memory_total_bytes : ℕ

-- The files /proc/sys/kernel/hostname, /proc/cpuinfo and /proc/meminfo.
unfoldable pub detect_machine : Option Text → Option Text → Option Text → CpuCounts → Machine
unfolding first_line cpu_model memory_total_bytes
detect_machine hostname cpuinfo meminfo cpus = record {
  hostname = or_else (first_line hostname) (codes "localhost");
  cpu_model = or_else (cpu_model cpuinfo) (codes "unknown cpu");
  cores = cpus.online;
  memory_total_bytes = memory_total_bytes meminfo;
}
