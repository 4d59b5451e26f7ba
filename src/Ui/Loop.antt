-- ===== src/Ui/Loop.antt =====
-- truetop/src/ui/mod.rs: the event loop, as a run over what each of its turns meets. A snapshot is the
-- address that the source compares; `frames` lists what has been drawn.
use truetop.Common.{
  ℕ, Bool, true, false, not, ◌&&◌, Option, none, some, List, [], ◌∷◌, ◌++◌, ◌==◌, if◌then◌else◌,
}
use truetop.Host.Cli.{Background}
use truetop.Ui.App.{App, KeyCode, new, handle_key, draw_app}

-- A failed draw counts as an error of the terminal too.
pub data Exit : Type 0 where
  requested_quit collector_gone terminal_failed : Exit

pub data Event : Type 0 where
  press : KeyCode → Event
  resize other_event : Event

-- What a turn meets: whether someone else has cleared the flag, what the two calls of
-- `collector_alive` answer, the snapshot that is published, what comes in within the frame's time
-- (`none` for an error), and whether a draw succeeds, on an area of some height.
pub record Turn : Type 0 where
  pub stopped : Bool
  pub alive : Bool
  pub alive_after : Bool
  pub latest : ℕ
  pub input : Option (Option Event)
  pub draws : Bool
  pub height : ℕ

pub record View : Type 0 where
  pub app : App
  pub shown : ℕ
  pub last : ℕ
  pub redraw : Bool
  pub running : Bool
  pub frames : List ℕ

unfoldable pub started : Background → ℕ → View
unfolding new
started background shown = record {
  app = new background;
  shown = shown;
  last = shown;
  redraw = true;
  running = true;
  frames = [];
}

unfoldable pub refresh : ℕ → View → View
refresh latest v =
    if v.app.paused
    then v
    else if latest == v.last
    then v
    else record v { last = latest; shown = latest; redraw = true }

unfoldable pub take_event : Option Event → View → View
unfolding handle_key
take_event none v = v
take_event (some other_event) v = v
take_event (some resize) v = record v { redraw = true }
take_event (some (press code)) v =
    let (app, quit) = handle_key code v.app in
    record v { app = app; redraw = true; running = v.running && not quit }

-- How many rows a snapshot has under the view state, and what the widget makes of the selection.
module _ (rows_of : ℕ → App → ℕ) (rendered : ℕ → Option ℕ → Option ℕ) where
  -- `none` for an error.
  unfoldable pub draw_turn : Turn → View → Option View
  unfolding draw_app
  draw_turn t v =
      if not v.redraw
      then some v
      else if t.draws
      then some (record v {
        app = draw_app rendered (rows_of v.shown v.app) t.height v.app;
        redraw = false;
        frames = v.frames ++ v.shown ∷ [];
      })
      else none

  unfoldable pub turn : Turn → View → Option View
  unfolding refresh take_event draw_turn
  turn t v = elim t.input [
    | none ↦ none
    | some event ↦ draw_turn t (take_event event (refresh t.latest v))
  ]

  -- The loop over the turns that are given; without an exit it still runs.
  unfoldable pub event_loop : List Turn → View → View × Option Exit
  unfolding turn
  event_loop [] v = (v, none)
  event_loop (t ∷ ts) v =
      if v.running && (not t.stopped && t.alive)
      then elim (turn t v) [ none ↦ (v, some terminal_failed) | some v' ↦ event_loop ts v' ]
      else (v, some (if t.alive_after then requested_quit else collector_gone))
