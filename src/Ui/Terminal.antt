-- ===== src/Ui/Terminal.antt =====
-- truetop/src/ui/mod.rs, `render_app`: the terminal and the panic hook around the event loop. What
-- `ratatui::init` and `ratatui::restore` do is a parameter, and so is the loop.
use truetop.Common.{ℕ, ◌≡◌, refl, Option, none, some, List, [], ◌∷◌, ◌==◌, if◌then◌else◌}
use truetop.Ui.Loop.{Exit}

-- A panic hook: the standard one, one that a library has set, or `render_app`'s closure.
pub data Hook : Type 0 where
  default_hook : Hook
  library_hook : ℕ → Hook
  guarded : ℕ → Hook → Hook

pub record Process (T : Type 0) : Type 0 where
  pub terminal : T
  pub hook : Hook

abbrev pub set_hook : {T : Type 0} → Hook → Process T → Process T
set_hook hook p = record p { hook = hook }

-- `take_hook` puts the standard hook back.
abbrev pub take_hook : {T : Type 0} → Process T → Hook × Process T
take_hook p = (p.hook, record p { hook = default_hook })

-- The hooks that run when a thread panics: the closure runs the one before it for its own thread only.
unfoldable pub reached : ℕ → Hook → List Hook
reached thread default_hook = default_hook ∷ []
reached thread (library_hook n) = library_hook n ∷ []
reached thread (guarded renderer previous) =
    let rest = reached thread previous in if thread == renderer then rest else []

-- `event_loop` answers `none` if it panics, which unwinds past what follows it.
module _ {T : Type 0} (init : Process T → Process T) (restore : T → T) (renderer : ℕ)
    (event_loop : Process T → Option Exit × T) where
  abbrev pub set_up : Process T → Process T
  set_up p = let (previous, p') = take_hook (init p) in set_hook (guarded renderer previous) p'

  abbrev pub tear_down : Option Exit → T → Process T → Option Exit × Process T
  tear_down none terminal p = (none, record p { terminal = terminal })
  tear_down (some exit) terminal p =
      (some exit, (take_hook (record p { terminal = restore terminal })).1)

  unfoldable pub render_app : Process T → Option Exit × Process T
  render_app p =
      let p' = set_up p in let (exit, terminal) = event_loop p' in tear_down exit terminal p'

  -- While the loop runs, a panic of the renderer runs the hook that `ratatui::init` has set, and that of
  -- another thread runs none.
  set_up_hook :
      (p : Process T) (thread : ℕ)
      → reached thread (set_up p).hook
        ≡ (if thread == renderer then reached thread (init p).hook else [])
  unfolding reached
  set_up_hook p thread = refl

  -- Where the loop answers, so does the run, with the terminal restored and the standard hook.
  render_app_lem :
      (p : Process T) (exit : Exit)
      → (event_loop (set_up p)).0 ≡ some exit
      → render_app p
        ≡ (some exit, record { terminal = restore (event_loop (set_up p)).1; hook = default_hook })
  unfolding render_app
  render_app_lem p exit h = rw (h, tear_down) refl
