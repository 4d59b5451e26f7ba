-- ===== src/Ui/Examples.antt =====
-- Keys and frames at concrete inputs.
use mathlib.Core.List.{Perm}
use truetop.Common.{
  ℕ, ◌≡◌, ◌↔◌, refl, true, false, none, some, List, [], ◌∷◌, arith, keep, leb, map, length,
}
use truetop.Common.Float.{IsTotalOrder}
use truetop.Common.Text.{Text, codes, print_unsigned}
use truetop.Host.Cli.{dark}
use truetop.Metrics.Counters.{ProcessMetrics}
use truetop.Metrics.Examples.{whole}
use truetop.Collector.Backend.{SystemState}
use truetop.Host.System.{Machine}
use truetop.Ui.Status.{draw_status}
use truetop.Ui.Gauges.{Rounds}
use truetop.Ui.Frame.{Frame, draw}
use truetop.Ui.Drawn.{shown_rows, draw_lem}
use truetop.Ui.App.{Sort, page_down, App, handle_key, draw_app}
use truetop.Ui.Keys.{OnRow, types, IsTyped, selection_OnRow, types-IsTyped}
use truetop.Ui.Loop.{Turn, View, resize, event_loop}
use truetop.Ui.Turns.{last_frame, event_loop-IsSettled}
use truetop.Ui.Table.{visible, matches_filter}
use truetop.Ui.Order.{Matches, Ranked, visible_lem}

leb-IsTotalOrder : IsTotalOrder leb
leb-IsTotalOrder = record { total = λ x y h. ground arith; trans = λ x y z h k. ground arith }

-- Three rows, the last of which is selected.
abbrev app : App
app = record {
  background = dark;
  selection = some 2;
  sort = Sort.cpu;
  descending = true;
  filter = codes "sh";
  editing_filter = false;
  paused = false;
  rows = 3;
  page = 10;
}

abbrev editing : App
editing = record app { editing_filter = true }

selection_OnRow_example :
    OnRow (handle_key page_down app).0 × OnRow (draw_app (λ rows selection. selection) 2 20 app)
selection_OnRow_example =
    selection_OnRow page_down (λ rows selection. selection) 2 20 app (omega arith)

types-IsTyped_example : IsTyped (codes "sh") (codes "q") (types (codes "q") editing)
types-IsTyped_example = types-IsTyped (codes "q") editing refl

abbrev process : ℕ → Text → ℕ → ProcessMetrics ℕ
process pid name percent = record {
  pid = pid;
  name = name;
  user = none;
  cpu = record { cpu_percent = percent };
  mem = none;
  io = none;
}

abbrev processes : List (ProcessMetrics ℕ)
processes =
    process 1 (codes "init") 3 ∷ process 20 (codes "bash") 7 ∷ process 21 (codes "zsh") 90 ∷ []

visible_lem_example :
    Perm
      (visible whole (λ s. s) processes Sort.cpu false (codes "sh"))
      (keep (λ p. matches_filter (λ s. s) p (codes "sh")) processes)
    × ((p : ProcessMetrics ℕ)
        → (matches_filter (λ s. s) p (codes "sh") ≡ true) ↔ Matches (λ s. s) (codes "sh") p)
    × Ranked whole Sort.cpu false (visible whole (λ s. s) processes Sort.cpu false (codes "sh"))
visible_lem_example =
    visible_lem whole leb-IsTotalOrder (λ s. s) processes Sort.cpu false (codes "sh")

-- Three turns, over which snapshots 8 and 9 follow snapshot 7.
abbrev quiet_turn : Turn
quiet_turn = record {
  stopped = false;
  alive = true;
  alive_after = true;
  latest = 7;
  input = some none;
  draws = true;
  height = 20;
}

abbrev next_turn : Turn
next_turn = record quiet_turn { latest = 8; input = some (some resize) }

abbrev last_turn : Turn
last_turn = record quiet_turn { latest = 9 }

abbrev view : View
view = record { app = app; shown = 7; last = 7; redraw = true; running = true; frames = [] }

event_loop-IsSettled_example :
    let after =
      event_loop
        (λ s a. 3)
        (λ rows selection. selection)
        (quiet_turn ∷ next_turn ∷ last_turn ∷ [])
        view in
    (after.1 ≡ none) × (last_frame after.0.frames ≡ some 9)
event_loop-IsSettled_example =
    event_loop-IsSettled (λ s a. 3) (λ rows selection. selection) quiet_turn
      (next_turn ∷ last_turn ∷ []) view false 7
      (record { runs = refl; alive = refl; draws = refl; keyless = tt })
      (
        record { runs = refl; alive = refl; draws = refl; keyless = tt },
        (record { runs = refl; alive = refl; draws = refl; keyless = tt }, tt),
      )
      (record {
        paused_eq = refl;
        shown_eq = refl;
        last_eq = refl;
        running = refl;
        drawn = λ clean. absurd (ground (arith, clean));
      })

whole-Rounds : Rounds whole (λ x. x) (λ x. x)
whole-Rounds = record { share = λ x h. ground arith; zero_one = refl; one_one = refl }

abbrev state : SystemState ℕ
state = record {
  processes = processes;
  cpu_history = 3 ∷ [];
  io_history = [];
  total_cpu_percent = 100;
  total_io_percent = 0;
  memory_used_bytes = 512;
  memory_total_bytes = 1024;
  load_average = 1;
  tracked = 3;
  at_capacity = false;
}

abbrev machine : Machine
machine = record {
  hostname = codes "host";
  cpu_model = codes "model";
  cores = 8;
  memory_total_bytes = 1024;
}

draw_lem_example :
    (frame : Frame ℕ) × (app' : App) × (draw whole
        (λ x. x)
        (λ x. x)
        (λ x. x)
        (λ a b. a)
        print_unsigned
        print_unsigned
        (λ s. s)
        (λ rows selection. selection)
        20
        state
        machine
        (12, 30, 5)
        app
      ≡ some (frame, app'))
    × (map (λ r. r.pid.0) frame.table.body
        ≡ map
            (λ p. print_unsigned p.pid)
            (shown_rows whole
              (λ x. x)
              (λ x. x)
              (λ x. x)
              (λ a b. a)
              print_unsigned
              print_unsigned
              (λ s. s)
              state
              app))
    × (app'.rows
        ≡ length (
            shown_rows whole
              (λ x. x)
              (λ x. x)
              (λ x. x)
              (λ a b. a)
              print_unsigned
              print_unsigned
              (λ s. s)
              state
              app))
    × OnRow app'
    × (frame.status ≡ draw_status app' false)
draw_lem_example =
    draw_lem whole (λ x. x) (λ x. x) (λ x. x) (λ a b. a) print_unsigned print_unsigned (λ s. s)
      (λ rows selection. selection) 20 state machine (12, 30, 5) app whole-Rounds
