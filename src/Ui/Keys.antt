-- ===== src/Ui/Keys.antt =====
-- Navigation and editing (truetop/src/ui/mod.rs).
use mathlib.Core.Path.{subst}
use truetop.Common.{
  ℕ, zero, suc, ◌+◌, ◌-◌, ◌%◌, ◌≤◌, ◌<◌, ◌≡◌, sym, ap, ◌∙◌, Bool, true, false, not, Option, [], ◌∷◌,
  ◌++◌, append_assoc, append-nil, arith, leb, if◌then◌else◌, Bool-cases, inl, inr,
}
use truetop.Common.Text.{Text}
use truetop.Ui.App.{
  Sort, KeyCode, char, esc, enter, down, up, App, set_sort, edit_filter, selected_or_zero,
  command_key, handle_key, draw_app, sort_eq,
}

-- The selection is on a row, or on the first line of an empty table.
abbrev pub OnRow : App → Type 0
OnRow a = selected_or_zero a ≤ a.rows - 1

command_key-OnRow : (code : KeyCode) (a : App) → OnRow a → OnRow (command_key code a).0
unfolding command_key
command_key-OnRow (char c) a h = ground arith
command_key-OnRow _ a h = ground arith

edit_filter-OnRow : (code : KeyCode) (a : App) → OnRow a → OnRow (edit_filter code a)
unfolding edit_filter
edit_filter-OnRow (char c) a h = ground arith
edit_filter-OnRow _ a h = ground arith

-- No key moves a selection that is on the table off it, and a draw puts it on a row whatever the
-- rows have become.
pub selection_OnRow :
    (code : KeyCode) (rendered : ℕ → Option ℕ → Option ℕ) (rows height : ℕ) (a : App)
    → OnRow a
    → OnRow (handle_key code a).0 × OnRow (draw_app rendered rows height a)
unfolding handle_key draw_app
selection_OnRow code rendered rows height a h =
    (ground (arith, command_key-OnRow code a h, edit_filter-OnRow code a h), ground arith)

-- A number of presses of the down key.
abbrev pub downs : ℕ → App → App
downs zero a = a
downs (suc n) a = downs n (handle_key down a).0

down_step :
    (a : App)
    → a.editing_filter ≡ false
    → selected_or_zero a < a.rows
    → let b = (handle_key down a).0 in
      (b.editing_filter ≡ false)
      × (b.rows ≡ a.rows)
      × (selected_or_zero b
          ≡ (if leb (a.rows - 1) (selected_or_zero a) then 0 else selected_or_zero a + 1))
unfolding handle_key
down_step a e h = ground arith

mod_turn : (n r : ℕ) → (r + n) % r ≡ n % r
mod_turn n r = grind arith

-- Outside the filter and on a row, any number of presses of the down key moves the selection that
-- many rows further, modulo the number of rows.
downs_cycle :
    (n : ℕ) (a : App)
    → a.editing_filter ≡ false
    → selected_or_zero a < a.rows
    → selected_or_zero (downs n a) ≡ (selected_or_zero a + n) % a.rows
downs_cycle zero a e h = grind arith
downs_cycle (suc n) a e h =
    let (e', same, moved) = down_step a e h in
    elim (Bool-cases (leb (a.rows - 1) (selected_or_zero a))) [
      | inl at_end ↦
          let moved' : selected_or_zero (handle_key down a).0 ≡ 0 = rw at_end at moved in
          let total : selected_or_zero a + suc n ≡ a.rows + n = ground arith in
          downs_cycle n (handle_key down a).0 e' (omega arith)
          ∙ rw (moved', same, total) (ap (λ k. k % a.rows) (omega arith) ∙ sym (mod_turn n a.rows))
      | inr inside ↦
          let moved' : selected_or_zero (handle_key down a).0 ≡ selected_or_zero a + 1 =
            rw inside at moved in
          downs_cycle n (handle_key down a).0 e' (ground arith)
          ∙ rw (moved', same) (ap (λ k. k % a.rows) (omega arith))
    ]

-- Outside the filter and on a row, the up key undoes the down key, at the ends of the table too.
up-down :
    (a : App)
    → a.editing_filter ≡ false
    → selected_or_zero a < a.rows
    → selected_or_zero (handle_key up (handle_key down a).0).0 ≡ selected_or_zero a
unfolding handle_key
up-down a e h = ground arith

editing_key :
    (code : KeyCode) (a : App)
    → a.editing_filter ≡ true
    → handle_key code a ≡ (edit_filter code a, false)
unfolding handle_key
editing_key code a e = ap (λ b. if b then (edit_filter code a, false) else command_key code a) e

-- The keys of a text, one after the other.
abbrev pub types : Text → App → App
types [] a = a
types (c ∷ s) a = types s (handle_key (char c) a).0

-- The filter is still edited; Enter accepts the old filter with `s` behind it, Escape the empty one,
-- and no key quits.
abbrev pub IsTyped : Text → Text → App → Type 0
IsTyped old s b =
    (b.editing_filter ≡ true)
    × ((handle_key enter b).0.filter ≡ old ++ s)
    × ((handle_key esc b).0.filter ≡ [])
    × ((code : KeyCode) → (handle_key code b).1 ≡ false)

-- While the filter is edited every character goes to its end, the quit key too; Enter keeps the
-- result, Escape drops it, and no key quits.
pub types-IsTyped : (s : Text) (a : App) → a.editing_filter ≡ true → IsTyped a.filter s (types s a)
unfolding edit_filter
types-IsTyped [] a e = (
  e,
  ap (λ (r : App × Bool). r.0.filter) (editing_key enter a e) ∙ sym (append-nil a.filter),
  ap (λ (r : App × Bool). r.0.filter) (editing_key esc a e),
  λ code. ap (λ (r : App × Bool). r.1) (editing_key code a e),
)
types-IsTyped (c ∷ s) a e =
    let (still, accepted, dropped, running) = types-IsTyped s (edit_filter (char c) a) e in
    subst (λ (r : App × Bool). IsTyped a.filter (c ∷ s) (types s r.0))
      (sym (editing_key (char c) a e))
      (still, accepted ∙ append_assoc a.filter (c ∷ []) s, dropped, running)

-- The key of the active column reverses the order, that of another starts with the greatest first,
-- and a second press reverses the order of the first.
set_sort_cases :
    (sort : Sort) (a : App)
    → ((set_sort sort a).sort ≡ sort)
      × ((set_sort sort a).descending ≡ (if sort_eq a.sort sort then not a.descending else true))
      × ((set_sort sort (set_sort sort a)).descending ≡ not (set_sort sort a).descending)
unfolding set_sort
set_sort_cases Sort.cpu a = ground arith
set_sort_cases _ a = ground arith
