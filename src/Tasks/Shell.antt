-- ===== src/Tasks/Shell.antt =====
-- What the tuning writes, given how a shell writes files (xtask/src/bench/cpu_perf.rs).

use truetop.Common.{
  ℕ, ◌≡◌, refl, sym, ap, ◌∙◌, ◌≢◌, ◌⊎◌, inl, inr, Bool, true, false, ◌||◌, Option, none, some, List,
  [], ◌∷◌, ◌++◌, if◌then◌else◌, All, Bool-cases, Option-cases, arith,
}
use truetop.Common.Text.{Text, codes, trim, text_eq}
use truetop.Common.Text.Trim.{trim-append}
use truetop.Tasks.Tuning.{
  Sysfs, Script, echo_to, echo_tee, governor0, governor_glob, performance, read_trim, tune_governor,
  tune_turbo,
}

-- The file that `echo` leaves.
abbrev pub echoed : Text → Text
echoed val = val ++ 10 ∷ []

abbrev pub put : Text → Text → Sysfs → Sysfs
put path val fs p = if text_eq path p then some (echoed val) else fs p

abbrev pub put_all : (Text → Bool) → Text → Sysfs → Sysfs
put_all chosen val fs p = elim (fs p) [
  | none ↦ none
  | some old ↦ some (if chosen p then echoed val else old)
]

-- What is written is read back trimmed, as whatever was trimmed before.
pub read_echoed : (s : Text) → trim (echoed (trim s)) ≡ trim s
read_echoed s = trim-append s 10 (unfold truetop.Common.Text.is_whitespace in refl)

pub same_read : (p : Text) (fs fs' : Sysfs) → fs p ≡ fs' p → read_trim p fs ≡ read_trim p fs'
unfolding read_trim
same_read p fs fs' h = rw (h, read_trim) refl

-- A second write to the same files leaves nothing of the first.
pub put_all_twice :
    (chosen : Text → Bool) (v w : Text) (fs later : Sysfs) (path : Text)
    → later path ≡ put_all chosen v fs path
    → put_all chosen w later path ≡ put_all chosen w fs path
put_all_twice chosen v w fs later path h = elim (Option-cases (fs path)) [
  | inl e ↦ rw (h, e, put_all) refl
  | inr (s, e) ↦ elim (Bool-cases (chosen path)) [
    | inl c ↦ rw (h, e, c, put_all) refl
    | inr c ↦ rw (h, e, c, put_all) refl
  ]
]

pub put_all_other :
    (chosen : Text → Bool) (v : Text) (fs : Sysfs) (path : Text)
    → chosen path ≡ false
    → put_all chosen v fs path ≡ fs path
put_all_other chosen v fs path c = elim (Option-cases (fs path)) [
  | inl e ↦ rw (e, put_all) refl
  | inr (s, e) ↦ rw (e, c, put_all) refl
]

-- Where what is read of the first file is what is read of each that is chosen, writing it back to all
-- of them changes no reading.
pub put_all_uniform :
    (chosen : Text → Bool) (s : Text) (fs : Sysfs) (path : Text)
    → ((old : Text) → fs path ≡ some old → chosen path ≡ true → trim s ≡ trim old)
    → read_trim path (put_all chosen (trim s) fs) ≡ read_trim path fs
unfolding read_trim
put_all_uniform chosen s fs path h = elim (Option-cases (fs path)) [
  | inl e ↦ rw (e, read_trim) refl
  | inr (old, e) ↦ elim (Bool-cases (chosen path)) [
    | inl c ↦ rw (e, c, read_trim, read_echoed s) (ap some (h old e c))
    | inr c ↦ rw (e, c, read_trim) refl
  ]
]

-- `sudo sh -c` over the files: it is refused, or it writes as the shell does; `matches` is the
-- expansion of a glob.
pub record IsShell (matches : Text → Text → Bool) (allowed : Bool)
    (sudo_sh : Script → Sysfs → Bool × Sysfs) : Type 0 where
  pub one :
      (val path : Text) (fs : Sysfs)
      → allowed ≡ true
      → sudo_sh (echo_to val path) fs ≡ (true, put path val fs)
  pub many :
      (val glob : Text) (fs : Sysfs)
      → allowed ≡ true
      → sudo_sh (echo_tee val glob) fs ≡ (true, put_all (matches glob) val fs)
  pub refuses : (script : Script) (fs : Sysfs) → allowed ≡ false → sudo_sh script fs ≡ (false, fs)

module _ (matches : Text → Text → Bool) (allowed : Bool) (sudo_sh : Script → Sysfs → Bool × Sysfs)
    (shell : IsShell matches allowed sudo_sh) where
  pub tune_governor_cases :
      (fs : Sysfs)
      → (tune_governor sudo_sh fs ≡ (none, fs))
        ⊎ ((s : Text) × (fs governor0 ≡ some s)
            × (allowed ≡ true)
            × (tune_governor sudo_sh fs
                ≡ (some (trim s), put_all (matches governor_glob) performance fs)))
  unfolding tune_governor read_trim
  tune_governor_cases fs = elim (Option-cases (fs governor0)) [
    | inl e ↦ inl (rw (e, tune_governor))
    | inr (s, e) ↦ elim (Bool-cases (text_eq (trim s) performance)) [
      | inl already ↦ inl (rw (e, already, tune_governor))
      | inr other ↦ elim (Bool-cases allowed) [
        | inl may ↦
            inr
              (s, e, may, rw (e, other, tune_governor, shell.many performance governor_glob fs may))
        | inr may_not ↦ inl (
            rw (
              e,
              other,
              tune_governor,
              shell.refuses (echo_tee performance governor_glob) fs may_not,
            ))
      ]
    ]
  ]

  -- What `tune_turbo` does: nothing, or it writes a knob that no governor's path is.
  pub tune_turbo_cases :
      (knobs : List (Text × Text)) (fs : Sysfs)
      → All (λ knob. matches governor_glob knob.0 ≡ false) knobs
      → (tune_turbo sudo_sh knobs fs ≡ (none, fs))
        ⊎ ((path : Text) × (off : Text) × (s : Text) × (matches governor_glob path ≡ false)
            × (fs path ≡ some s)
            × (allowed ≡ true)
            × (tune_turbo sudo_sh knobs fs ≡ (some (path, trim s), put path off fs)))
  unfolding tune_turbo read_trim
  tune_turbo_cases [] fs h = inl refl
  tune_turbo_cases ((path, off) ∷ knobs) fs h = elim (Option-cases (fs path)) [
    | inl e ↦ elim (tune_turbo_cases knobs fs h.1) [
      | inl same ↦ inl (rw (e, tune_turbo, same))
      | inr (path', off', s, away, e', may, same) ↦
          inr (path', off', s, away, e', may, rw (e, tune_turbo, same))
    ]
    | inr (s, e) ↦ elim (Bool-cases (text_eq (trim s) off)) [
      | inl already ↦ inl (rw (e, already, tune_turbo))
      | inr other ↦ elim (Bool-cases allowed) [
        | inl may ↦
            inr (path, off, s, h.0, e, may, rw (e, other, tune_turbo, shell.one off path fs may))
        | inr may_not ↦ inl (rw (e, other, tune_turbo, shell.refuses (echo_to off path) fs may_not))
      ]
    ]
  ]
