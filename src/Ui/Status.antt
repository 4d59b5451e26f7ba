-- ===== src/Ui/Status.antt =====
-- truetop/src/ui/mod.rs: the status line.
use truetop.Common.{
  ◌≡◌, refl, ap, ◌∙◌, Bool, true, false, List, [], ◌∷◌, ◌++◌, map, keep, if◌then◌else◌,
}
use truetop.Common.Text.{Text, codes, is_empty}
use truetop.Ui.App.{Sort, cpu, mem, io, sort_eq, App}
use truetop.Ui.Theme.{dim, io_colour}
use truetop.Ui.Spans.{Span, accent, text_colour, raw, styled, bold_span, lit_span}

abbrev key : Text → Text → List Span
key k desc = styled k accent ∷ styled (codes " " ++ desc ++ codes "   ") dim ∷ []

abbrev sort_key : Sort → Text → Sort → Span
sort_key active label sort =
    let text = codes " " ++ label ++ codes " " in
    if sort_eq sort active then lit_span text accent else styled text dim

unfoldable pub sort_keys : Sort → List Span
sort_keys active =
    styled (codes "sort ") dim
    ∷ sort_key active (codes "c") cpu
    ∷ sort_key active (codes "m") mem
    ∷ sort_key active (codes "i") io
    ∷ raw (codes "   ")
    ∷ []

abbrev filter_spans : Text → List Span
filter_spans filter =
    if is_empty filter then [] else styled (codes "  filter \"" ++ filter ++ codes "\"") accent ∷ []

abbrev paused_spans : Bool → List Span
paused_spans paused = if paused then bold_span (codes "  paused") io_colour ∷ [] else []

abbrev capacity_spans : Bool → List Span
capacity_spans at_capacity =
    if at_capacity
    then bold_span (codes "  at capacity, raise --max-processes") io_colour ∷ []
    else []

abbrev notices : Text → Bool → Bool → List Span
notices filter paused at_capacity =
    filter_spans filter ++ (paused_spans paused ++ capacity_spans at_capacity)

unfoldable pub command_spans : App → Bool → List Span
unfolding sort_keys
command_spans app at_capacity =
    raw (codes " ")
    ∷ (key (codes "q") (codes "quit")
        ++ (key (codes "↑↓") (codes "nav")
            ++ (sort_keys app.sort
                ++ (key (codes "/") (codes "filter")
                    ++ (key (codes "space") (codes "pause")
                        ++ notices app.filter app.paused at_capacity)))))

unfoldable pub draw_status : App → Bool → List Span
unfolding command_spans
draw_status app at_capacity =
    if app.editing_filter
    then (styled (codes " filter: ") accent
        ∷ styled (app.filter ++ codes "_") text_colour
        ∷ styled (codes "   enter to accept, esc to clear") dim
        ∷ [])
    else command_spans app at_capacity

abbrev texts : List Span → List Text
texts spans = map (λ s. s.text) spans

-- The texts that stand out: lit, and bold without being lit.
abbrev pub lit : List Span → List Text
lit spans = texts (keep (λ s. s.look.reversed) spans)

abbrev pub warnings : List Span → List Text
warnings spans = texts (keep (λ s. if s.look.reversed then false else s.look.bold) spans)

abbrev pub label : Sort → Text
label cpu = codes " c "
label mem = codes " m "
label io = codes " i "

abbrev pub warned : Bool → Bool → List Text
warned false false = []
warned true false = codes "  paused" ∷ []
warned false true = codes "  at capacity, raise --max-processes" ∷ []
warned true true = codes "  paused" ∷ codes "  at capacity, raise --max-processes" ∷ []

sort_keys-lit :
    (sort : Sort) (rest : List Span)
    → (lit (sort_keys sort ++ rest) ≡ label sort ∷ lit rest)
      × (warnings (sort_keys sort ++ rest) ≡ warnings rest)
unfolding sort_keys
sort_keys-lit cpu rest = (refl, refl)
sort_keys-lit mem rest = (refl, refl)
sort_keys-lit io rest = (refl, refl)

notices-warned :
    (filter : Text) (paused at_capacity : Bool)
    → (lit (notices filter paused at_capacity) ≡ [])
      × (warnings (notices filter paused at_capacity) ≡ warned paused at_capacity)
notices-warned [] false false = (refl, refl)
notices-warned [] true false = (refl, refl)
notices-warned [] false true = (refl, refl)
notices-warned [] true true = (refl, refl)
notices-warned (c ∷ s) false false = (refl, refl)
notices-warned (c ∷ s) true false = (refl, refl)
notices-warned (c ∷ s) false true = (refl, refl)
notices-warned (c ∷ s) true true = (refl, refl)

-- Outside the filter, the status line lights the key of the active column and no other, and its
-- warnings are the pause, if the view is paused, and the capacity, if the snapshot is at it.
draw_status_lem :
    (app : App) (at_capacity : Bool)
    → app.editing_filter ≡ false
    → (lit (draw_status app at_capacity) ≡ label app.sort ∷ [])
      × (warnings (draw_status app at_capacity) ≡ warned app.paused at_capacity)
unfolding draw_status command_spans
draw_status_lem app at_capacity commands =
    let (keys_lit, keys_warn) = sort_keys-lit app.sort (
      key (codes "/") (codes "filter")
      ++ (key (codes "space") (codes "pause") ++ notices app.filter app.paused at_capacity)) in
    let (none_lit, warn) = notices-warned app.filter app.paused at_capacity in
    rw (commands, draw_status) (keys_lit ∙ ap (◌∷◌ (label app.sort)) none_lit, keys_warn ∙ warn)
