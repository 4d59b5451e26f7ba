-- ===== src/Tasks/Reverting.antt =====
-- What the drop of a tuning reverts (xtask/src/bench/cpu_perf.rs).
use mathlib.Core.Path.{subst}
use truetop.Common.{
  ◌≡◌, refl, sym, ap, ◌∙◌, inl, inr, Bool, true, false, Option, none, some, List, All, Bool-cases,
  arith,
}
use truetop.Common.Text.{Text, trim, text_eq}
use truetop.Common.Text.Trim.{text_eq→eq}
use truetop.Tasks.Tuning.{
  Sysfs, Script, governor0, governor_glob, performance, turbo_knobs, read_trim, tune_governor,
  tune_turbo, engage, if_any, restore_governor, restore_turbo, drop, drop_some,
}
use truetop.Tasks.Shell.{
  put, put_all, read_echoed, same_read, IsShell, put_all_twice, put_all_other, put_all_uniform,
  tune_governor_cases, tune_turbo_cases,
}

put_other :
    (path other : Text)
    → text_eq path other ≡ false
    → (v : Text) (fs : Sysfs) → put path v fs other ≡ fs other
put_other path other h v fs = rw h

put_back :
    (knob off s : Text) (fs later : Sysfs) (path : Text)
    → fs knob ≡ some s
    → later path ≡ put knob off fs path
    → read_trim path (put knob (trim s) later) ≡ read_trim path fs
unfolding read_trim
put_back knob off s fs later path e h = elim (Bool-cases (text_eq knob path)) [
  | inl same ↦
      let at : fs path ≡ some s = subst (λ p. fs p ≡ some s) (text_eq→eq knob path same) e in
      rw (same, read_trim, at, read_echoed s) refl
  | inr other ↦
      same_read path (put knob (trim s) later) fs
        (put_other knob path other (trim s) later ∙ h ∙ put_other knob path other off fs)
]

apart :
    (matches : Text → Text → Bool) (knob path : Text)
    → matches governor_glob knob ≡ false
    → matches governor_glob path ≡ true
    → text_eq knob path ≡ false
apart matches knob path outside match = elim (Bool-cases (text_eq knob path)) [
  | inl same ↦
      let at : matches governor_glob knob ≡ true = rw (text_eq→eq knob path same) match in
      absurd (ground arith)
  | inr other ↦ other
]

module _ (matches : Text → Text → Bool) (allowed : Bool) (sudo_sh : Script → Sysfs → Bool × Sysfs)
    (shell : IsShell matches allowed sudo_sh) where
  -- Every CPU has the governor of the first.
  abbrev pub IsUniform : Sysfs → Type 0
  IsUniform fs =
      (path s s0 : Text)
      → matches governor_glob path ≡ true
      → fs path ≡ some s
      → fs governor0 ≡ some s0
      → trim s0 ≡ trim s

  governor_back :
      (fs later : Sysfs) (path : Text)
      → IsUniform fs
      → later path ≡ (tune_governor sudo_sh fs).1 path
      → read_trim path (restore_governor sudo_sh (tune_governor sudo_sh fs).0 later)
        ≡ read_trim path fs
  unfolding read_trim
  governor_back fs later path uniform same =
      let P : Option Text × Sysfs → Type 0 = λ r.
        later path ≡ r.1 path
        → read_trim path (restore_governor sudo_sh r.0 later) ≡ read_trim path fs in
      elim (tune_governor_cases matches allowed sudo_sh shell fs) [
        | inl e ↦ subst P (sym e) (same_read path later fs) same
        | inr (s, e, may, tuned) ↦
            subst P (sym tuned)
              (λ written.
                ap (λ r. read_trim path r.1) (shell.many (trim s) governor_glob later may)
                ∙ same_read path (put_all (matches governor_glob) (trim s) later)
                    (put_all (matches governor_glob) (trim s) fs)
                    (put_all_twice (matches governor_glob) performance (trim s) fs later path
                      written)
                ∙ put_all_uniform (matches governor_glob) s fs path
                    (λ old o match. uniform path old s match o e))
              same
      ]

  governor_away :
      (fs later : Sysfs) (path : Text)
      → matches governor_glob path ≡ false
      → ((tune_governor sudo_sh fs).1 path ≡ fs path)
        × (restore_governor sudo_sh (tune_governor sudo_sh fs).0 later path ≡ later path)
  governor_away fs later path away =
      let P : Option Text × Sysfs → Type 0 =
        λ r. (r.1 path ≡ fs path) × (restore_governor sudo_sh r.0 later path ≡ later path) in
      elim (tune_governor_cases matches allowed sudo_sh shell fs) [
        | inl e ↦ subst P (sym e) (refl, refl)
        | inr (s, e, may, tuned) ↦ subst P (sym tuned) (
          put_all_other (matches governor_glob) performance fs path away,
          ap (λ r. r.1 path) (shell.many (trim s) governor_glob later may)
              ∙ put_all_other (matches governor_glob) (trim s) later path away,
        )
      ]

  turbo_back :
      (knobs : List (Text × Text)) (fs later : Sysfs) (path : Text)
      → All (λ knob. matches governor_glob knob.0 ≡ false) knobs
      → later path ≡ (tune_turbo sudo_sh knobs fs).1 path
      → read_trim path (restore_turbo sudo_sh (tune_turbo sudo_sh knobs fs).0 later)
        ≡ read_trim path fs
  turbo_back knobs fs later path away same =
      let P : Option (Text × Text) × Sysfs → Type 0 = λ r.
        later path ≡ r.1 path
        → read_trim path (restore_turbo sudo_sh r.0 later) ≡ read_trim path fs in
      elim (tune_turbo_cases matches allowed sudo_sh shell knobs fs away) [
        | inl e ↦ subst P (sym e) (same_read path later fs) same
        | inr (knob, off, s, outside, e, may, tuned) ↦
            subst P (sym tuned)
              (λ written.
                ap (λ r. read_trim path r.1) (shell.one (trim s) knob later may)
                ∙ put_back knob off s fs later path e written)
              same
      ]

  turbo_away :
      (knobs : List (Text × Text)) (fs later : Sysfs) (path : Text)
      → All (λ knob. matches governor_glob knob.0 ≡ false) knobs
      → matches governor_glob path ≡ true
      → ((tune_turbo sudo_sh knobs fs).1 path ≡ fs path)
        × (restore_turbo sudo_sh (tune_turbo sudo_sh knobs fs).0 later path ≡ later path)
  turbo_away knobs fs later path away match =
      let P : Option (Text × Text) × Sysfs → Type 0 =
        λ r. (r.1 path ≡ fs path) × (restore_turbo sudo_sh r.0 later path ≡ later path) in
      elim (tune_turbo_cases matches allowed sudo_sh shell knobs fs away) [
        | inl e ↦ subst P (sym e) (refl, refl)
        | inr (knob, off, s, outside, e, may, tuned) ↦
            let other = put_other knob path (apart matches knob path outside match) in
            subst P (sym tuned) (
              other off fs,
              ap (λ r. r.1 path) (shell.one (trim s) knob later may) ∙ other (trim s) later,
            )
      ]

  drop_if_any :
      (g : Option Text) (t : Option (Text × Text)) (later : Sysfs)
      → drop_some sudo_sh (if_any sudo_sh (record { governor = g; turbo = t })) later
        ≡ restore_turbo sudo_sh t (restore_governor sudo_sh g later)
  unfolding drop
  drop_if_any none none later = refl
  drop_if_any none (some t) later = refl
  drop_if_any (some g) none later = refl
  drop_if_any (some g) (some t) later = refl

  -- What was tuned is reverted, whatever happened to other files meanwhile.
  pub engage-drop :
      (fs later : Sysfs) (path : Text)
      → IsUniform fs
      → All (λ knob. matches governor_glob knob.0 ≡ false) turbo_knobs
      → later path ≡ (engage sudo_sh fs).1 path
      → read_trim path (drop_some sudo_sh (engage sudo_sh fs).0 later) ≡ read_trim path fs
  unfolding engage
  engage-drop fs later path uniform outside h =
      let g = (tune_governor sudo_sh fs).0 in
      let governed = (tune_governor sudo_sh fs).1 in
      let t = (tune_turbo sudo_sh turbo_knobs governed).0 in
      let back = restore_governor sudo_sh g later in
      ap (read_trim path) (drop_if_any g t later) ∙ elim (Bool-cases (matches governor_glob path)) [
        | inl match ↦
            let (kept, left) = turbo_away turbo_knobs governed back path outside match in
            same_read path (restore_turbo sudo_sh t back) back left
            ∙ governor_back fs later path uniform (h ∙ kept)
        | inr away ↦
            let (kept, left) = governor_away fs later path away in
            turbo_back turbo_knobs governed back path outside (left ∙ h)
            ∙ same_read path governed fs kept
      ]
