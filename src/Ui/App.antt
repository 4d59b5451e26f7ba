-- ===== src/Ui/App.antt =====
-- truetop/src/ui/mod.rs: the view state, and what a key does to it.
use truetop.Common.{
  ℕ, ◌+◌, ◌-◌, min, Bool, true, false, not, Option, none, some, [], ◌∷◌, ◌++◌, leb, ltb, ◌==◌,
  if◌then◌else◌,
}
use truetop.Common.Text.{Text}
use truetop.Host.Cli.{Background}

pub data Sort : Type 0 where
  cpu mem io : Sort

-- `KeyCode`, with one constructor for all the keys that the program ignores.
pub data KeyCode : Type 0 where
  char : ℕ → KeyCode
  esc enter backspace down up page_down page_up home end_key other_key : KeyCode

pub record App : Type 0 where
  pub background : Background
  pub selection : Option ℕ
  pub sort : Sort
  pub descending : Bool
  pub filter : Text
  pub editing_filter : Bool
  pub paused : Bool
  pub rows : ℕ
  pub page : ℕ

unfoldable pub new : Background → App
new background = record {
  background = background;
  selection = some 0;
  sort = cpu;
  descending = true;
  filter = [];
  editing_filter = false;
  paused = false;
  rows = 0;
  page = 10;
}

-- The index of a column in the table.
unfoldable pub column : Sort → ℕ
column cpu = 3
column mem = 4
column io = 5

abbrev pub sort_eq : Sort → Sort → Bool
sort_eq cpu cpu = true
sort_eq cpu mem = false
sort_eq cpu io = false
sort_eq mem cpu = false
sort_eq mem mem = true
sort_eq mem io = false
sort_eq io cpu = false
sort_eq io mem = false
sort_eq io io = true

unfoldable pub select : ℕ → App → App
select index a = record a { selection = some index }

unfoldable pub set_sort : Sort → App → App
unfolding select
set_sort sort a = select 0 (
    if sort_eq a.sort sort
    then record a { descending = not a.descending }
    else record a { sort = sort; descending = true })

-- `String::pop`.
unfoldable pub pop : Text → Text
pop [] = []
pop (c ∷ []) = []
pop (c ∷ d ∷ s) = c ∷ pop (d ∷ s)

unfoldable pub edit_filter : KeyCode → App → App
unfolding select pop
edit_filter esc a = select 0 (record a { filter = []; editing_filter = false })
edit_filter enter a = select 0 (record a { editing_filter = false })
edit_filter backspace a = select 0 (record a { filter = pop a.filter })
edit_filter (char c) a = select 0 (record a { filter = a.filter ++ c ∷ [] })
edit_filter _ a = a

abbrev pub selected_or_zero : App → ℕ
selected_or_zero a = elim a.selection [ some index ↦ index | none ↦ 0 ]

unfoldable pub move_down : App → App
unfolding select
move_down a =
    let last = a.rows - 1 in
    let current = selected_or_zero a in select (if leb last current then 0 else current + 1) a

unfoldable pub move_up : App → App
unfolding select
move_up a =
    let last = a.rows - 1 in
    let current = selected_or_zero a in select (if current == 0 then last else current - 1) a

-- The arms of the `match` on a character.
unfoldable pub handle_char : ℕ → App → App × Bool
unfolding move_down move_up set_sort
handle_char c a =
    if c == b'q'
    then (a, true)
    else if c == b'j'
    then (move_down a, false)
    else if c == b'k'
    then (move_up a, false)
    else if c == b'c'
    then (set_sort cpu a, false)
    else if c == b'm'
    then (set_sort mem a, false)
    else if c == b'i'
    then (set_sort io a, false)
    else if c == b'/'
    then (record a { editing_filter = true }, false)
    else if c == b' '
    then (record a { paused = not a.paused }, false)
    else (a, false)

unfoldable pub command_key : KeyCode → App → App × Bool
unfolding handle_char select move_down move_up
command_key (char c) a = handle_char c a
command_key esc a = (a, true)
command_key down a = (move_down a, false)
command_key up a = (move_up a, false)
command_key page_down a = (select (min (selected_or_zero a + a.page) (a.rows - 1)) a, false)
command_key page_up a = (select (selected_or_zero a - a.page) a, false)
command_key home a = (select 0 a, false)
command_key end_key a = (select (a.rows - 1) a, false)
command_key _ a = (a, false)

-- Whether the user asked to quit is the second component.
unfoldable pub handle_key : KeyCode → App → App × Bool
unfolding command_key edit_filter
handle_key code a = if a.editing_filter then (edit_filter code a, false) else command_key code a

-- What `draw` leaves: the rows that the table holds, the page of an area of that height, and the
-- selection. What the widget makes of the selection is `rendered`.
unfoldable pub draw_app : (ℕ → Option ℕ → Option ℕ) → ℕ → ℕ → App → App
draw_app rendered rows height a =
    let page : ℕ = (if ltb (height - 3) 1 then 1 else height - 3) in
    let drawn : App = record a {
      selection = rendered rows a.selection;
      rows = rows;
      page = page;
    } in
    if leb rows (selected_or_zero drawn)
    then record drawn { selection = some (rows - 1) }
    else drawn
