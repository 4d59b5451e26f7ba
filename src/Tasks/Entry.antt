-- ===== src/Tasks/Entry.antt =====
-- xtask/src/main.rs, style.rs and privilege.rs: the choice of the task, the decoration of its output, and
-- how a program is run as root.
use truetop.Common.{ℕ, Bool, List, [], ◌∷◌, ◌++◌, ◌==◌, if◌then◌else◌}
use truetop.Common.Text.{Text, codes, text_eq}

pub data Task : Type 0 where
  run test bench : List Text → Task
  update_btf_fixtures usage : Task

unfoldable pub task_of : List Text → Task
task_of [] = usage
task_of (name ∷ args) =
    if text_eq name (codes "run")
    then run args
    else if text_eq name (codes "test")
    then test args
    else if text_eq name (codes "bench")
    then bench args
    else if text_eq name (codes "update-btf-fixtures")
    then update_btf_fixtures
    else usage

-- Whether the output is a terminal.
pub record Paint : Type 0 where
  pub is_terminal : Bool

abbrev pub child_flag : Paint → Text
child_flag paint = if paint.is_terminal then codes "always" else codes "never"

unfoldable pub wrap : Paint → Text → Text → Text
wrap paint text code =
    if paint.is_terminal
    then 27 ∷ codes "[" ++ code ++ codes "m" ++ text ++ 27 ∷ codes "[0m"
    else text

unfoldable pub bold : Paint → Text → Text
unfolding wrap
bold paint text = wrap paint text (codes "1")

unfoldable pub green : Paint → Text → Text
unfolding wrap
green paint text = wrap paint text (codes "32")

-- The program and its arguments before those of the caller; `euid` is the user's.
unfoldable pub as_root : ℕ → Text → Text × List Text
as_root euid program =
    if euid == 0 then (program, []) else (codes "sudo", codes "-E" ∷ program ∷ [])
