-- ===== src/Common/Text/Laws.antt =====
-- Numbers that are printed and read, and fields that are split.
use Prim.Native.Nat.{ℕ, zero, suc, ◌+◌, ◌-◌, ◌*◌, ◌/◌, ◌%◌, ◌<◌}
use mathlib.Core.Path.{◌≡◌, refl, ap, ◌∙◌}
use mathlib.Core.Logic.{◌≢◌, inl, inr}
use mathlib.Core.Bool.{true, false}
use mathlib.Core.List.{[], ◌∷◌, ◌++◌, append_assoc, append-nil}
use mathlib.Core.Option.{some}
use native.Mathlib.Omega.{arith}
use truetop.Common.Tests.{◌==◌, Bool-cases, ==_ne, ==_refl}
use truetop.Common.Lists.{All}
use truetop.Common.Text.{
  Text, is_digit, parse_digits, parse_unsigned, print_loop, print_unsigned, split_from, split,
}

digit_step :
    (n bound : ℕ) (acc : Text)
    → n < bound
    → parse_digits bound (n / 10) ((48 + n % 10) ∷ acc) ≡ parse_digits bound n acc
unfolding parse_digits
digit_step n bound acc b =
    let e : n / 10 * 10 + (48 + n % 10 - 48) ≡ n = omega arith in rw e (ground arith)

parse_print_loop :
    (fuel n bound : ℕ) (acc : Text)
    → n < fuel
    → n < bound
    → parse_digits bound 0 (print_loop fuel n acc) ≡ parse_digits bound n acc
unfolding print_loop
parse_print_loop zero n bound acc f b = absurd (omega arith)
parse_print_loop (suc fuel) n bound acc f b = elim (Bool-cases (n / 10 == 0)) [
  | inl small ↦
      let e : 0 ≡ n / 10 = ground arith in
      rw small (ap (λ q. parse_digits bound q ((48 + n % 10) ∷ acc)) e ∙ digit_step n bound acc b)
  | inr large ↦ rw large (
      parse_print_loop fuel (n / 10) bound ((48 + n % 10) ∷ acc) (ground arith) (omega arith)
      ∙ digit_step n bound acc b)
]

abbrev pub StartsWithDigit : Text → Type 0
StartsWithDigit [] = ⊥
StartsWithDigit (c ∷ s) = is_digit c ≡ true

print_loop_digit :
    (fuel n : ℕ) (c : ℕ) (acc : Text)
    → is_digit c ≡ true
    → StartsWithDigit (print_loop fuel n (c ∷ acc))
unfolding print_loop
print_loop_digit zero n c acc h = h
print_loop_digit (suc fuel) n c acc h = elim (Bool-cases (n / 10 == 0)) [
  | inl small ↦ rw small (ground arith)
  | inr large ↦ rw large (print_loop_digit fuel (n / 10) (48 + n % 10) (c ∷ acc) (ground arith))
]

pub print_unsigned_digit : (n : ℕ) → StartsWithDigit (print_unsigned n)
unfolding print_unsigned
print_unsigned_digit n = elim (Bool-cases (n / 10 == 0)) [
  | inl small ↦ rw small (ground arith)
  | inr large ↦ rw large (print_loop_digit n (n / 10) (48 + n % 10) [] (ground arith))
]

-- A digit is no sign.
parse_unsigned_digits :
    (bound : ℕ) (s : Text) → StartsWithDigit s → parse_unsigned bound s ≡ parse_digits bound 0 s
unfolding parse_unsigned
parse_unsigned_digits bound [] h = absurd h
parse_unsigned_digits bound (c ∷ []) h = let e : (c == 43) ≡ false = ground arith in rw e
parse_unsigned_digits bound (c ∷ d ∷ s) h = let e : (c == 43) ≡ false = ground arith in rw e

-- Reading a printed number gives the number.
pub parse-print_unsigned :
    (bound n : ℕ) → n < bound → parse_unsigned bound (print_unsigned n) ≡ some n
unfolding print_unsigned
parse-print_unsigned bound n b =
    parse_unsigned_digits bound (print_unsigned n) (print_unsigned_digit n)
    ∙ parse_print_loop (suc n) n bound [] (omega arith) b
    ∙ (unfold parse_digits in refl)

parse_digits_lt :
    (bound acc : ℕ) (s : Text) (n : ℕ) → acc < bound → parse_digits bound acc s ≡ some n → n < bound
unfolding parse_digits
parse_digits_lt bound acc [] n b h = ground arith
parse_digits_lt bound acc (c ∷ s) n b h =
    ground (arith, parse_digits_lt bound (acc * 10 + (c - 48)) s n)

-- A number that is read fits its type.
pub parse_unsigned_lt :
    (bound : ℕ) (s : Text) (n : ℕ) → 0 < bound → parse_unsigned bound s ≡ some n → n < bound
unfolding parse_unsigned
parse_unsigned_lt bound [] n b h = ground arith
parse_unsigned_lt bound (c ∷ []) n b h = ground (arith, parse_digits_lt bound 0 (c ∷ []) n)
parse_unsigned_lt bound (c ∷ d ∷ s) n b h =
    ground (arith, parse_digits_lt bound 0 (d ∷ s) n, parse_digits_lt bound 0 (c ∷ d ∷ s) n)

split_from_field :
    (sep : ℕ) (front field rest : Text)
    → All (λ c. c ≢ sep) field
    → split_from sep front (field ++ sep ∷ rest) ≡ (front ++ field) ∷ split_from sep [] rest
unfolding split_from
split_from_field sep front [] rest h = rw (==_refl sep, append-nil front)
split_from_field sep front (c ∷ field) rest h = rw (==_ne c sep h.0) (
    split_from_field sep (front ++ c ∷ []) field rest h.1
    ∙ ap (λ t. t ∷ split_from sep [] rest) (append_assoc front (c ∷ []) field))

-- A field ends at the first separator.
pub split_field :
    (sep : ℕ) (field rest : Text)
    → All (λ c. c ≢ sep) field
    → split sep (field ++ sep ∷ rest) ≡ field ∷ split sep rest
unfolding split
split_field sep field rest h = split_from_field sep [] field rest h

print_loop_plain :
    (sep fuel n : ℕ) (acc : Text)
    → 57 < sep
    → All (λ c. c ≢ sep) acc
    → All (λ c. c ≢ sep) (print_loop fuel n acc)
unfolding print_loop
print_loop_plain sep zero n acc s h = h
print_loop_plain sep (suc fuel) n acc s h = elim (Bool-cases (n / 10 == 0)) [
  | inl small ↦ rw small (omega arith, h)
  | inr large ↦ rw large (print_loop_plain sep fuel (n / 10) _ s (omega arith, h))
]

-- A printed number holds nothing above the digit 9.
pub print_unsigned_plain : (sep n : ℕ) → 57 < sep → All (λ c. c ≢ sep) (print_unsigned n)
unfolding print_unsigned
print_unsigned_plain sep n s = print_loop_plain sep (suc n) n [] s tt
