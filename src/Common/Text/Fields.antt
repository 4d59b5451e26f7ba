-- ===== src/Common/Text/Fields.antt =====
-- Text that is split at white space.
use Prim.Native.Nat.{ℕ, zero, suc, ◌+◌, ◌%◌, ◌/◌}
use mathlib.Core.Path.{◌≡◌, refl, sym, ap, ◌∙◌}
use mathlib.Core.Logic.{inl, inr}
use mathlib.Core.Bool.{true, false}
use mathlib.Core.List.{[], ◌∷◌, ◌++◌, append_assoc, append-nil}
use native.Mathlib.Omega.{arith}
use truetop.Common.Tests.{◌==◌, Bool-cases}
use truetop.Common.Lists.{All}
use truetop.Common.Text.Laws.{StartsWithDigit, print_unsigned_digit}
use truetop.Common.Text.{
  Text, is_whitespace, is_digit, split_words, split_whitespace, print_loop, print_unsigned,
}

-- A word: not empty, and no white space in it.
abbrev pub IsWord : Text → Type 0
IsWord [] = ⊥
IsWord (c ∷ s) = All (λ d. is_whitespace d ≡ false) (c ∷ s)

split_words-append :
    (front word rest : Text)
    → All (λ c. is_whitespace c ≡ false) word
    → split_words front (word ++ rest) ≡ split_words (front ++ word) rest
unfolding split_words
split_words-append front [] rest h = ap (λ w. split_words w rest) (sym (append-nil front))
split_words-append front (c ∷ word) rest h =
    rw (h.0, split_words)
      (split_words-append (front ++ c ∷ []) word rest h.1
        ∙ ap (λ w. split_words w rest) (append_assoc front (c ∷ []) word))

-- A word ends at the white space behind it.
pub split_whitespace_word :
    (word : Text) (c : ℕ) (rest : Text)
    → IsWord word
    → is_whitespace c ≡ true
    → split_whitespace (word ++ c ∷ rest) ≡ word ∷ split_whitespace rest
unfolding split_whitespace split_words
split_whitespace_word [] c rest h w = absurd h
split_whitespace_word (d ∷ word) c rest h w =
    split_words-append [] (d ∷ word) (c ∷ rest) h ∙ (rw (w, split_words) refl)

-- White space in front is skipped.
pub split_whitespace_skip :
    (c : ℕ) (rest : Text)
    → is_whitespace c ≡ true
    → split_whitespace (c ∷ rest) ≡ split_whitespace rest
unfolding split_whitespace split_words
split_whitespace_skip c rest w = rw w refl

print_loop_digits :
    (fuel n : ℕ) (acc : Text)
    → All (λ c. is_digit c ≡ true) acc
    → All (λ c. is_digit c ≡ true) (print_loop fuel n acc)
unfolding print_loop
print_loop_digits zero n acc h = h
print_loop_digits (suc fuel) n acc h = elim (Bool-cases (n / 10 == 0)) [
  | inl small ↦ rw small (ground arith, h)
  | inr large ↦ rw large (print_loop_digits fuel (n / 10) ((48 + n % 10) ∷ acc) (ground arith, h))
]

pub print_unsigned_digits : (n : ℕ) → All (λ c. is_digit c ≡ true) (print_unsigned n)
unfolding print_unsigned
print_unsigned_digits n = print_loop_digits (suc n) n [] tt

digit_is_no_space : (c : ℕ) → is_digit c ≡ true → is_whitespace c ≡ false
unfolding is_whitespace
digit_is_no_space c h = ground arith

pub digits_no_space :
    (s : Text) → All (λ c. is_digit c ≡ true) s → All (λ c. is_whitespace c ≡ false) s
digits_no_space [] h = tt
digits_no_space (c ∷ s) h = (digit_is_no_space c h.0, digits_no_space s h.1)

digits-IsWord : (s : Text) → StartsWithDigit s → All (λ c. is_digit c ≡ true) s → IsWord s
digits-IsWord [] h k = absurd h
digits-IsWord (c ∷ s) h k = digits_no_space (c ∷ s) k

pub print_unsigned-IsWord : (n : ℕ) → IsWord (print_unsigned n)
print_unsigned-IsWord n =
    digits-IsWord (print_unsigned n) (print_unsigned_digit n) (print_unsigned_digits n)
