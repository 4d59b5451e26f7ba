-- ===== src/Common/Text.antt =====
-- Text as its list of code points, with what the program uses of Rust's `str`: trimming, splitting,
-- lines, and numbers in decimal.
use Prim.Native.Nat.{ℕ, zero, suc, ◌+◌, ◌-◌, ◌*◌, ◌/◌, ◌%◌, ◌<◌}
use Prim.Native.Char.{code}
use Prim.Native.String.{String}
use mathlib.Core.Path.{◌≡◌, refl, ap, ◌∙◌}
use mathlib.Core.Logic.{inl, inr}
use mathlib.Core.Bool.{Bool, true, false, ◌&&◌, ◌||◌}
use mathlib.Core.List.{List, [], ◌∷◌, ◌++◌, reverse}
use mathlib.Core.Option.{Option, none, some}
use native.Mathlib.Omega.{arith}
use mathlib.Core.List.{append_assoc, append-nil}
use mathlib.Core.Logic.{◌≢◌}
use truetop.Common.Tests.{ltb, leb, ◌==◌, if◌then◌else◌, Bool-cases, ==_ne, ==_refl}
use truetop.Common.Lists.{All}
pub mod Laws
pub mod Trim
pub mod Fields

abbrev pub Text : Type 0
Text = List ℕ

-- The code points of a literal.
abbrev pub codes : String → Text
codes String.[] = []
codes (String.◌∷◌ c s) = code c ∷ codes s

abbrev pub text_eq : Text → Text → Bool
text_eq [] [] = true
text_eq [] (d ∷ t) = false
text_eq (c ∷ s) [] = false
text_eq (c ∷ s) (d ∷ t) = c == d && text_eq s t

abbrev pub is_empty : Text → Bool
is_empty [] = true
is_empty (c ∷ s) = false

unfoldable pub starts_with : Text → Text → Bool
starts_with [] s = true
starts_with (p ∷ ps) [] = false
starts_with (p ∷ ps) (c ∷ s) = p == c && starts_with ps s

-- `haystack.contains(needle)`.
unfoldable pub contains_text : Text → Text → Bool
unfolding starts_with
contains_text needle [] = is_empty needle
contains_text needle (c ∷ s) = starts_with needle (c ∷ s) || contains_text needle s

-- `char::is_whitespace`: the Unicode property White_Space.
unfoldable pub is_whitespace : ℕ → Bool
is_whitespace c =
    leb 9 c && leb c 13
    || (c == 32
        || (c == 0x85
            || (c == 0xa0
                || (c == 0x1680
                    || (leb 0x2000 c && leb c 0x200a
                        || (c == 0x2028
                            || (c == 0x2029 || (c == 0x202f || (c == 0x205f || c == 0x3000)))))))))

unfoldable pub trim_start : Text → Text
unfolding is_whitespace
trim_start [] = []
trim_start (c ∷ s) = let rest = trim_start s in if is_whitespace c then rest else c ∷ s

unfoldable pub trim : Text → Text
unfolding trim_start
trim s = reverse (trim_start (reverse (trim_start s)))

-- A word under way is put in front of the words that follow, unless it is empty.
abbrev end_word : Text → List Text → List Text
end_word [] words = words
end_word (c ∷ word) words = (c ∷ word) ∷ words

unfoldable pub split_words : Text → Text → List Text
unfolding is_whitespace
split_words word [] = end_word word []
split_words word (c ∷ s) =
    let next = split_words [] s in
    let longer = split_words (word ++ c ∷ []) s in
    if is_whitespace c then end_word word next else longer

unfoldable pub split_whitespace : Text → List Text
unfolding split_words
split_whitespace s = split_words [] s

split_from : ℕ → Text → Text → List Text
split_from sep field [] = field ∷ []
split_from sep field (c ∷ s) =
    let next = split_from sep [] s in
    let longer = split_from sep (field ++ c ∷ []) s in if c == sep then field ∷ next else longer

-- `s.split(sep)`: one field more than there are separators.
unfoldable pub split : ℕ → Text → List Text
unfolding split_from
split sep s = split_from sep [] s

abbrev drop_return : Text → Text
drop_return [] = []
drop_return (c ∷ []) = if c == 13 then [] else c ∷ []
drop_return (c ∷ d ∷ s) = c ∷ drop_return (d ∷ s)

lines_from : Text → Text → List Text
lines_from line [] = end_word line []
lines_from line (c ∷ s) =
    let next = lines_from [] s in
    let longer = lines_from (line ++ c ∷ []) s in
    if c == 10 then drop_return line ∷ next else longer

-- `s.lines()`: a line ends at a newline, which is dropped with a `\r` before it; what follows the last
-- newline is a line unless it is empty.
unfoldable pub lines : Text → List Text
unfolding lines_from
lines s = lines_from [] s

abbrev pub nth : ℕ → List Text → Option Text
nth n [] = none
nth zero (w ∷ ws) = some w
nth (suc n) (w ∷ ws) = nth n ws

abbrev pub is_digit : ℕ → Bool
is_digit c = leb 48 c && leb c 57

parse_digits : ℕ → ℕ → Text → Option ℕ
parse_digits bound acc [] = some acc
parse_digits bound acc (c ∷ s) =
    let acc' = acc * 10 + (c - 48) in
    let rest = parse_digits bound acc' s in
    if is_digit c then (if ltb acc' bound then rest else none) else none

-- `s.parse()` into an unsigned type of `bound` values: digits after at most one `+`.
unfoldable pub parse_unsigned : ℕ → Text → Option ℕ
unfolding parse_digits
parse_unsigned bound [] = none
parse_unsigned bound (c ∷ []) = if c == 43 then none else parse_digits bound 0 (c ∷ [])
parse_unsigned bound (c ∷ d ∷ s) = parse_digits bound 0 (if c == 43 then d ∷ s else c ∷ d ∷ s)

print_loop : ℕ → ℕ → Text → Text
print_loop zero n acc = acc
print_loop (suc fuel) n acc =
    let acc' = (48 + n % 10) ∷ acc in
    let rest = print_loop fuel (n / 10) acc' in if n / 10 == 0 then acc' else rest

-- `n.to_string()`; a round takes a digit, so `n + 1` rounds are enough.
unfoldable pub print_unsigned : ℕ → Text
unfolding print_loop
print_unsigned n = print_loop (suc n) n []
