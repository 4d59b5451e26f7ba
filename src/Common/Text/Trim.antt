-- ===== src/Common/Text/Trim.antt =====
-- Text that is trimmed.
use Prim.Native.Nat.{ℕ}
use mathlib.Core.Path.{◌≡◌, refl, ap, ◌∙◌}
use mathlib.Core.Logic.{inl, inr}
use mathlib.Core.Bool.{true, false}
use mathlib.Core.List.{[], ◌∷◌, ◌++◌, reverse, reverse-cons, reverse-append, reverse-reverse}
use native.Mathlib.Omega.{arith}
use truetop.Common.Tests.{==_refl, Bool-cases}
use truetop.Common.Text.{Text, is_whitespace, trim_start, trim, text_eq}

pub text_eq_refl : (s : Text) → text_eq s s ≡ true
text_eq_refl [] = refl
text_eq_refl (c ∷ s) = rw (==_refl c) (text_eq_refl s)

pub text_eq→eq : (s t : Text) → text_eq s t ≡ true → s ≡ t
text_eq→eq [] [] h = refl
text_eq→eq [] (d ∷ t) h = ground arith
text_eq→eq (c ∷ s) [] h = ground arith
text_eq→eq (c ∷ s) (d ∷ t) h = ground (arith, text_eq→eq s t)

-- A text that starts with no white space.
abbrev IsTrimmed : Text → Type 0
IsTrimmed [] = Unit
IsTrimmed (c ∷ s) = is_whitespace c ≡ false

trim_start-IsTrimmed : (s : Text) → IsTrimmed (trim_start s)
unfolding trim_start
trim_start-IsTrimmed [] = tt
trim_start-IsTrimmed (c ∷ s) = elim (Bool-cases (is_whitespace c)) [
  | inl h ↦ rw h (trim_start-IsTrimmed s)
  | inr h ↦ rw h h
]

trim_start_same : (s : Text) → IsTrimmed s → trim_start s ≡ s
unfolding trim_start
trim_start_same [] h = refl
trim_start_same (c ∷ s) h = rw h

trim_start-append :
    (s : Text) (c : ℕ) → is_whitespace c ≡ false → trim_start (s ++ c ∷ []) ≡ trim_start s ++ c ∷ []
unfolding trim_start
trim_start-append [] c h = rw h
trim_start-append (d ∷ s) c h = elim (Bool-cases (is_whitespace d)) [
  | inl e ↦ rw e (trim_start-append s c h)
  | inr e ↦ rw e
]

-- Trimming the end keeps a start that is trimmed.
end-IsTrimmed : (s : Text) → IsTrimmed s → IsTrimmed (reverse (trim_start (reverse s)))
unfolding trim_start
end-IsTrimmed [] h = tt
end-IsTrimmed (c ∷ s) h =
    rw
      (
        reverse-cons c s,
        trim_start-append (reverse s) c h,
        reverse-append (trim_start (reverse s)) (c ∷ []),
      )
      h

-- White space behind a text that is trimmed on both sides.
trim-trimmed :
    (s : Text) (c : ℕ)
    → IsTrimmed s
    → IsTrimmed (reverse s)
    → is_whitespace c ≡ true
    → trim (s ++ c ∷ []) ≡ s
unfolding trim trim_start
trim-trimmed [] c h k w = rw w
trim-trimmed (d ∷ s) c h k w =
    rw (h, reverse-append (d ∷ s) (c ∷ []), trim_start, w)
      (ap reverse (trim_start_same (reverse (d ∷ s)) k) ∙ reverse-reverse (d ∷ s))

-- White space behind a trimmed text is trimmed.
pub trim-append : (s : Text) (c : ℕ) → is_whitespace c ≡ true → trim (trim s ++ c ∷ []) ≡ trim s
unfolding trim
trim-append s c w =
    trim-trimmed (trim s) c (end-IsTrimmed (trim_start s) (trim_start-IsTrimmed s))
      (rw (reverse-reverse (trim_start (reverse (trim_start s))))
        (trim_start-IsTrimmed (reverse (trim_start s))))
      w
