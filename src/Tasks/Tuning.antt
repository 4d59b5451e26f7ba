-- ===== src/Tasks/Tuning.antt =====
-- xtask/src/bench/cpu_perf.rs: the tuning of the CPU for a benchmark, and what its drop reverts. The
-- messages are not modelled.
use truetop.Common.{Bool, Option, none, some, List, [], ◌∷◌, if◌then◌else◌}
use truetop.Common.Text.{Text, codes, trim, text_eq}

-- The files under /sys by their paths.
abbrev pub Sysfs : Type 0
Sysfs = Text → Option Text

-- The scripts that `sudo sh -c` is given: `echo {val} > {path}`, and `echo {val} | tee {glob}
-- >/dev/null`.
pub data Script : Type 0 where
  echo_to echo_tee : Text → Text → Script

abbrev pub governor0 : Text
governor0 = codes "/sys/devices/system/cpu/cpu0/cpufreq/scaling_governor"

abbrev pub governor_glob : Text
governor_glob = codes "/sys/devices/system/cpu/cpu*/cpufreq/scaling_governor"

abbrev pub performance : Text
performance = codes "performance"

abbrev pub turbo_knobs : List (Text × Text)
turbo_knobs =
    (codes "/sys/devices/system/cpu/intel_pstate/no_turbo", codes "1")
    ∷ (codes "/sys/devices/system/cpu/cpufreq/boost", codes "0")
    ∷ []

-- What was changed, with what it was before.
pub record CpuPerf : Type 0 where
  pub governor : Option Text
  pub turbo : Option (Text × Text)

unfoldable pub read_trim : Text → Sysfs → Option Text
read_trim path fs = elim (fs path) [ none ↦ none | some s ↦ some (trim s) ]

abbrev pub current_governor : Sysfs → Option Text
current_governor fs = read_trim governor0 fs

abbrev find_knob : List (Text × Text) → Sysfs → Option (Text × Text)
find_knob [] fs = none
find_knob ((path, off) ∷ knobs) fs =
    let rest = find_knob knobs fs in
    elim (read_trim path fs) [ none ↦ rest | some value ↦ some (path, value) ]

abbrev pub current_turbo : Sysfs → Option (Text × Text)
current_turbo fs = find_knob turbo_knobs fs

-- `sudo_sh` runs a script as root: whether it succeeds, and the files that it leaves.
module _ (sudo_sh : Script → Sysfs → Bool × Sysfs) where
  abbrev pub write_one : Text → Text → Sysfs → Bool × Sysfs
  write_one path val fs = sudo_sh (echo_to val path) fs

  abbrev pub write_glob : Text → Text → Sysfs → Bool × Sysfs
  write_glob glob val fs = sudo_sh (echo_tee val glob) fs

  -- The governor is read from the first CPU and written to all of them.
  unfoldable pub tune_governor : Sysfs → Option Text × Sysfs
  unfolding read_trim
  tune_governor fs = elim (read_trim governor0 fs) [
    | none ↦ (none, fs)
    | some orig ↦
        let (ok, written) = write_glob governor_glob performance fs in
        if text_eq orig performance
        then (none, fs)
        else if ok
        then (some orig, written)
        else (none, written)
  ]

  -- The first knob that can be read is the only one that is tried.
  unfoldable pub tune_turbo : List (Text × Text) → Sysfs → Option (Text × Text) × Sysfs
  unfolding read_trim
  tune_turbo [] fs = (none, fs)
  tune_turbo ((path, off) ∷ knobs) fs =
      let rest = tune_turbo knobs fs in
      elim (read_trim path fs) [
        | none ↦ rest
        | some orig ↦
            let (ok, written) = write_one path off fs in
            if text_eq orig off
            then (none, fs)
            else if ok
            then (some (path, orig), written)
            else (none, written)
      ]

  abbrev pub if_any : CpuPerf → Option CpuPerf
  if_any perf = elim perf.governor [
    | some orig ↦ some perf
    | none ↦ elim perf.turbo [ some knob ↦ some perf | none ↦ none ]
  ]

  unfoldable pub engage : Sysfs → Option CpuPerf × Sysfs
  unfolding tune_governor tune_turbo
  engage fs =
      let (governor, governed) = tune_governor fs in
      let (turbo, tuned) = tune_turbo turbo_knobs governed in
      (if_any (record { governor = governor; turbo = turbo }), tuned)

  abbrev pub restore_governor : Option Text → Sysfs → Sysfs
  restore_governor none fs = fs
  restore_governor (some orig) fs = (write_glob governor_glob orig fs).1

  abbrev pub restore_turbo : Option (Text × Text) → Sysfs → Sysfs
  restore_turbo none fs = fs
  restore_turbo (some (path, orig)) fs = (write_one path orig fs).1

  unfoldable pub drop : CpuPerf → Sysfs → Sysfs
  drop perf fs = restore_turbo perf.turbo (restore_governor perf.governor fs)

  abbrev pub drop_some : Option CpuPerf → Sysfs → Sysfs
  drop_some none fs = fs
  drop_some (some perf) fs = drop perf fs
