-- ===== src/Tasks/Restoring.antt =====
-- What a benchmark run leaves of the CPU's settings (xtask/src/bench/mod.rs).

use truetop.Common.{
  ◌≡◌, refl, sym, ◌∙◌, ◌⊎◌, inl, inr, Bool, true, false, ◌||◌, List, [], ◌∷◌, All, Bool-cases,
}
use truetop.Common.Text.{Text, text_eq}
use truetop.Tasks.Tuning.{Sysfs, Script, governor0, governor_glob, turbo_knobs, read_trim, engage}
use truetop.Tasks.Shell.{same_read, IsShell}
use truetop.Tasks.Bench.{
  Bench, Step, runs, create_results, build_release, write_env, run_picks, tuned_run, run_bench,
  bench, needs_release, or_default, Picked, built_run, bench_picked, usage, unknown_argument,
  picked, pick_args,
}
use truetop.Tasks.Reverting.{IsUniform, engage-drop}

abbrev is_knob : Text → List (Text × Text) → Bool
is_knob path [] = false
is_knob path (knob ∷ knobs) = text_eq knob.0 path || is_knob path knobs

module _ (matches : Text → Text → Bool) (allowed : Bool) (sudo_sh : Script → Sysfs → Bool × Sysfs)
    (perform : Step → Sysfs → Bool × Sysfs) (shell : IsShell matches allowed sudo_sh) where
  -- The files that a tuning writes.
  abbrev pub IsSetting : Text → Type 0
  IsSetting path = (matches governor_glob path ≡ true) ⊎ (is_knob path turbo_knobs ≡ true)

  -- The glob holds the first CPU's governor and no turbo knob; the steps write no setting.
  pub record IsMachine : Type 0 where
    pub first : matches governor_glob governor0 ≡ true
    pub apart : All (λ knob. matches governor_glob knob.0 ≡ false) turbo_knobs
    pub leaves :
        (step : Step) (fs : Sysfs) (path : Text)
        → IsSetting path
        → (perform step fs).1 path ≡ fs path

  step-IsUniform :
      (step : Step) (fs : Sysfs)
      → IsMachine
      → IsUniform matches allowed sudo_sh shell fs
      → IsUniform matches allowed sudo_sh shell (perform step fs).1
  step-IsUniform step fs machine uniform path s s0 match at at0 =
      uniform path s s0 match (sym (machine.leaves step fs path (inl match)) ∙ at)
        (sym (machine.leaves step fs governor0 (inl machine.first)) ∙ at0)

  module _ (path : Text) where
    run_picks-same :
        (picks : List Bench) (fs : Sysfs)
        → IsMachine
        → IsSetting path
        → (run_picks sudo_sh perform picks fs).1 path ≡ fs path
    unfolding run_picks
    run_picks-same [] fs machine setting = refl
    run_picks-same (b ∷ picks) fs machine setting = elim (Bool-cases (perform (runs b) fs).0) [
      | inl ok ↦
          rw (ok, run_picks)
            (run_picks-same picks (perform (runs b) fs).1 machine setting
              ∙ machine.leaves (runs b) fs path setting)
      | inr failed ↦ rw (failed, run_picks) (machine.leaves (runs b) fs path setting)
    ]

    tuned_run-restores :
        (prep : Bool) (picks : List Bench) (fs : Sysfs)
        → IsMachine
        → IsSetting path
        → IsUniform matches allowed sudo_sh shell fs
        → read_trim path (tuned_run sudo_sh perform prep picks fs).1 ≡ read_trim path fs
    unfolding tuned_run
    tuned_run-restores true picks fs machine setting uniform =
        let tuned = (engage sudo_sh fs).1 in
        let recorded = (perform write_env tuned).1 in
        engage-drop matches allowed sudo_sh shell fs (run_picks sudo_sh perform picks recorded).1
          path uniform machine.apart
          (run_picks-same picks recorded machine setting
            ∙ machine.leaves write_env tuned path setting)
    tuned_run-restores false picks fs machine setting uniform =
        let recorded = (perform write_env fs).1 in
        same_read path (run_picks sudo_sh perform picks recorded).1 fs
          (run_picks-same picks recorded machine setting ∙ machine.leaves write_env fs path setting)

    built_run-restores :
        (prep : Bool) (picks : List Bench) (fs : Sysfs)
        → IsMachine
        → IsSetting path
        → IsUniform matches allowed sudo_sh shell fs
        → read_trim path (built_run sudo_sh perform prep picks fs).1 ≡ read_trim path fs
    unfolding built_run
    built_run-restores prep picks fs machine setting uniform =
        elim (Bool-cases (needs_release picks)) [
          | inl release ↦ elim (Bool-cases (perform build_release fs).0) [
            | inl ok ↦
                rw (release, built_run, ok)
                  (tuned_run-restores prep picks (perform build_release fs).1 machine setting
                      (step-IsUniform build_release fs machine uniform)
                    ∙ same_read path (perform build_release fs).1 fs
                        (machine.leaves build_release fs path setting))
            | inr failed ↦
                rw (release, built_run, failed)
                  (same_read path (perform build_release fs).1 fs
                    (machine.leaves build_release fs path setting))
          ]
          | inr none_needed ↦
              rw (none_needed, built_run) (tuned_run-restores prep picks fs machine setting uniform)
        ]

    run_bench-restores :
        (prep : Bool) (picks : List Bench) (fs : Sysfs)
        → IsMachine
        → IsSetting path
        → IsUniform matches allowed sudo_sh shell fs
        → read_trim path (run_bench sudo_sh perform prep picks fs).1 ≡ read_trim path fs
    unfolding run_bench
    run_bench-restores prep picks fs machine setting uniform =
        let made = (perform create_results fs).1 in
        let same = same_read path made fs (machine.leaves create_results fs path setting) in
        elim (Bool-cases (perform create_results fs).0) [
          | inl ok ↦
              rw (ok, run_bench)
                (built_run-restores prep picks made machine setting
                    (step-IsUniform create_results fs machine uniform)
                  ∙ same)
          | inr failed ↦ rw (failed, run_bench) same
        ]

    bench_picked-restores :
        (picks : Picked) (fs : Sysfs)
        → IsMachine
        → IsSetting path
        → IsUniform matches allowed sudo_sh shell fs
        → read_trim path (bench_picked sudo_sh perform picks fs).1 ≡ read_trim path fs
    unfolding bench_picked
    bench_picked-restores usage fs machine setting uniform = refl
    bench_picked-restores (unknown_argument other) fs machine setting uniform = refl
    bench_picked-restores (picked prep picks) fs machine setting uniform =
        run_bench-restores prep (or_default picks) fs machine setting uniform

    -- Given a shell that is refused root or writes what it is told, a glob that holds the first
    -- CPU's governor and no turbo knob, and steps that write no setting: where every CPU has the
    -- governor of the first, each of them and each turbo knob reads after a benchmark run as it
    -- did before, whatever the arguments are and whichever step fails.
    pub bench-restores :
        (args : List Text) (fs : Sysfs)
        → IsMachine
        → IsSetting path
        → IsUniform matches allowed sudo_sh shell fs
        → read_trim path (bench sudo_sh perform args fs).1 ≡ read_trim path fs
    unfolding bench
    bench-restores args fs machine setting uniform =
        bench_picked-restores (pick_args args) fs machine setting uniform
