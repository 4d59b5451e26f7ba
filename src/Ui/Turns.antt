-- ===== src/Ui/Turns.antt =====
-- What the event loop shows (truetop/src/ui/mod.rs).
use mathlib.Core.Path.{subst}
use truetop.Common.{
  ℕ, ◌≡◌, refl, ap, ◌∙◌, Bool, true, false, Option, Bool-cases, inl, inr, none, some, List, [], ◌∷◌,
  ◌++◌, arith, if◌then◌else◌, All, ◌==◌,
}
use truetop.Ui.App.{App, draw_app}
use truetop.Ui.Loop.{
  Event, press, resize, other_event, Turn, View, refresh, take_event, draw_turn, turn, event_loop,
}

-- A turn without a key, in which nothing fails or ends.
abbrev pub IsKeyless : Option (Option Event) → Type 0
IsKeyless none = ⊥
IsKeyless (some none) = Unit
IsKeyless (some (some resize)) = Unit
IsKeyless (some (some other_event)) = Unit
IsKeyless (some (some (press code))) = ⊥

pub record IsQuiet (t : Turn) : Type 0 where
  pub runs : t.stopped ≡ false
  pub alive : t.alive ≡ true
  pub draws : t.draws ≡ true
  pub keyless : IsKeyless t.input

-- The snapshot that the last of the turns meets.
abbrev pub newest : List Turn → ℕ → ℕ
newest [] shown = shown
newest (t ∷ ts) shown = newest ts t.latest

-- The snapshot of the last frame that was drawn.
abbrev pub last_frame : List ℕ → Option ℕ
last_frame [] = none
last_frame (f ∷ []) = some f
last_frame (f ∷ g ∷ frames) = last_frame (g ∷ frames)

last_frame-snoc : (frames : List ℕ) (f : ℕ) → last_frame (frames ++ f ∷ []) ≡ some f
last_frame-snoc [] f = refl
last_frame-snoc (x ∷ []) f = refl
last_frame-snoc (x ∷ y ∷ frames) f = last_frame-snoc (y ∷ frames) f

-- The view between turns: the last frame shows the snapshot, unless a new one is asked for.
pub record IsSettled (paused : Bool) (shown : ℕ) (v : View) : Type 0 where
  pub paused_eq : v.app.paused ≡ paused
  pub shown_eq : v.shown ≡ shown
  pub last_eq : v.last ≡ shown
  pub running : v.running ≡ true
  pub drawn : v.redraw ≡ false → last_frame v.frames ≡ some shown

newest_shown :
    (paused : Bool) (t : Turn) (ts : List Turn) (shown : ℕ)
    → (if paused
        then (if paused then shown else t.latest)
        else newest ts (if paused then shown else t.latest))
      ≡ (if paused then shown else newest ts t.latest)
newest_shown true t ts shown = refl
newest_shown false t ts shown = refl

input-cases :
    (input : Option (Option Event))
    → IsKeyless input
    → (event : Option Event) × (input ≡ some event) × IsKeyless (some event)
input-cases none k = absurd k
input-cases (some event) k = (event, refl, k)

quiet_event-IsSettled :
    (event : Option Event) (v : View) (paused : Bool) (shown : ℕ)
    → IsKeyless (some event)
    → IsSettled paused shown v
    → IsSettled paused shown (take_event event v)
unfolding take_event
quiet_event-IsSettled none v paused shown k h = h
quiet_event-IsSettled (some resize) v paused shown k h = record {
  paused_eq = h.paused_eq;
  shown_eq = h.shown_eq;
  last_eq = h.last_eq;
  running = h.running;
  drawn = λ clean. absurd (ground (arith, clean));
}
quiet_event-IsSettled (some other_event) v paused shown k h = h
quiet_event-IsSettled (some (press code)) v paused shown k h = absurd k

refresh_drawn :
    (latest : ℕ) (v : View) (paused : Bool) (shown : ℕ)
    → IsSettled paused shown v
    → (refresh latest v).redraw ≡ false
    → last_frame (refresh latest v).frames ≡ some (if paused then shown else latest)
unfolding refresh
refresh_drawn latest v true shown h clean =
    ground (arith, h.paused_eq, clean, h.drawn (ground (arith, h.paused_eq, clean)))
refresh_drawn latest v false shown h clean = elim (Bool-cases (latest == v.last)) [
  | inl old ↦
      ground (
        arith,
        h.paused_eq,
        h.last_eq,
        old,
        clean,
        h.drawn (ground (arith, h.paused_eq, old, clean)),
      )
  | inr new ↦ absurd (ground (arith, h.paused_eq, new, clean))
]

refresh-IsSettled :
    (latest : ℕ) (v : View) (paused : Bool) (shown : ℕ)
    → IsSettled paused shown v
    → IsSettled paused (if paused then shown else latest) (refresh latest v)
unfolding refresh
refresh-IsSettled latest v paused shown h = record {
  paused_eq = ground (arith, h.paused_eq);
  shown_eq = ground (arith, h.paused_eq, h.shown_eq, h.last_eq);
  last_eq = ground (arith, h.paused_eq, h.shown_eq, h.last_eq);
  running = ground (arith, h.running);
  drawn = refresh_drawn latest v paused shown h;
}

module _ (rows_of : ℕ → App → ℕ) (rendered : ℕ → Option ℕ → Option ℕ) where
  draw_app_paused :
      (rows height : ℕ) (a : App) → (draw_app rendered rows height a).paused ≡ a.paused
  unfolding draw_app
  draw_app_paused rows height a = ground arith

  draw-IsSettled :
      (t : Turn) (v : View) (paused : Bool) (shown : ℕ)
      → t.draws ≡ true
      → IsSettled paused shown v
      → (v' : View) × (draw_turn rows_of rendered t v ≡ some v')
        × IsSettled paused shown v'
        × (v'.redraw ≡ false)
  unfolding draw_turn draw_app
  draw-IsSettled t v paused shown d h = elim (Bool-cases v.redraw) [
    | inr clean ↦ (v, ground arith, h, clean)
    | inl dirty ↦ (
      record v {
        app = draw_app rendered (rows_of v.shown v.app) t.height v.app;
        redraw = false;
        frames = v.frames ++ v.shown ∷ [];
      },
      ground arith,
      record {
        paused_eq = draw_app_paused (rows_of v.shown v.app) t.height v.app ∙ h.paused_eq;
        shown_eq = h.shown_eq;
        last_eq = h.last_eq;
        running = h.running;
        drawn = λ clean. last_frame-snoc v.frames v.shown ∙ ap some h.shown_eq;
      },
      refl,
    )
  ]

  turn_event :
      (t : Turn) (v : View) (event : Option Event)
      → t.input ≡ some event
      → turn rows_of rendered t v
        ≡ draw_turn rows_of rendered t (take_event event (refresh t.latest v))
  unfolding turn
  turn_event t v event e =
      ap
        (λ i. elim i [
          | none ↦ none
          | some x ↦ draw_turn rows_of rendered t (take_event x (refresh t.latest v))
        ])
        e

  turn-IsSettled :
      (t : Turn) (v : View) (paused : Bool) (shown : ℕ)
      → IsQuiet t
      → IsSettled paused shown v
      → (v' : View) × (turn rows_of rendered t v ≡ some v')
        × IsSettled paused (if paused then shown else t.latest) v'
        × (v'.redraw ≡ false)
  turn-IsSettled t v paused shown q h =
      let (event, e, quiet) = input-cases t.input q.keyless in
      let (v', drawn, settled, clean) =
        draw-IsSettled t (take_event event (refresh t.latest v)) paused _ q.draws
          (quiet_event-IsSettled event _ _ _ quiet (refresh-IsSettled t.latest v paused shown h)) in
      (v', turn_event t v event e ∙ drawn, settled, clean)

  -- Over turns from a view with nothing to draw, the loop leaves nothing to draw.
  loop-IsSettled :
      (ts : List Turn) (v : View) (paused : Bool) (shown : ℕ)
      → All IsQuiet ts
      → IsSettled paused shown v
      → v.redraw ≡ false
      → ((event_loop rows_of rendered ts v).1 ≡ none)
        × IsSettled paused
            (if paused then shown else newest ts shown)
            (event_loop rows_of rendered ts v).0
        × ((event_loop rows_of rendered ts v).0.redraw ≡ false)
  unfolding event_loop
  loop-IsSettled [] v true shown q h clean = (refl, h, clean)
  loop-IsSettled [] v false shown q h clean = (refl, h, clean)
  loop-IsSettled (t ∷ ts) v paused shown q h clean =
      let (v', turned, settled, clean') = turn-IsSettled t v paused shown q.0 h in
      let (on, after, left) = loop-IsSettled ts v' paused _ q.1 settled clean' in
      rw (h.running, q.0.runs, q.0.alive, turned, event_loop)
        (
          on,
          subst (λ s. IsSettled paused s (event_loop rows_of rendered ts v').0)
              (newest_shown paused t ts shown) after,
          left,
        )

  -- From a settled view and over one or more turns without a key in which nothing fails or ends,
  -- the event loop goes on, and the last frame that is drawn is of the snapshot that was shown
  -- where the view is paused, and else of the newest.
  pub event_loop-IsSettled :
      (t : Turn) (ts : List Turn) (v : View) (paused : Bool) (shown : ℕ)
      → IsQuiet t
      → All IsQuiet ts
      → IsSettled paused shown v
      → ((event_loop rows_of rendered (t ∷ ts) v).1 ≡ none)
        × (last_frame (event_loop rows_of rendered (t ∷ ts) v).0.frames
            ≡ some (if paused then shown else newest ts t.latest))
  unfolding event_loop
  event_loop-IsSettled t ts v paused shown q qs h =
      let (v', turned, settled, clean) = turn-IsSettled t v paused shown q h in
      let (on, after, left) = loop-IsSettled ts v' paused _ qs settled clean in
      rw (h.running, q.runs, q.alive, turned, event_loop)
        (on, after.drawn left ∙ ap some (newest_shown paused t ts shown))
