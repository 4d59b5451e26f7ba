-- ===== src/Ui/Spans.antt =====
-- What the interface hands to the terminal library: texts with their looks (the theme's fixed styles are in
-- truetop/src/ui/theme/mod.rs).
use truetop.Common.{Bool, true, false, Option, none, some}
use truetop.Common.Text.{Text}
use truetop.Ui.Theme.{Colour, cyan, green, reset}

pub record Look : Type 0 where
  pub fg : Option Colour
  pub bold : Bool
  pub reversed : Bool

pub record Span : Type 0 where
  pub text : Text
  pub look : Look

abbrev pub accent : Colour
accent = cyan

abbrev pub text_colour : Colour
text_colour = reset

abbrev pub cpu_colour : Colour
cpu_colour = green

abbrev pub raw : Text → Span
raw text = record { text = text; look = record { fg = none; bold = false; reversed = false } }

abbrev pub styled : Text → Colour → Span
styled text colour = record {
  text = text;
  look = record { fg = some colour; bold = false; reversed = false };
}

abbrev pub bold_span : Text → Colour → Span
bold_span text colour = record {
  text = text;
  look = record { fg = some colour; bold = true; reversed = false };
}

-- `Modifier::BOLD | Modifier::REVERSED`.
abbrev pub lit_span : Text → Colour → Span
lit_span text colour = record {
  text = text;
  look = record { fg = some colour; bold = true; reversed = true };
}

-- `theme::header` and `theme::selected`.
abbrev pub header_look : Look
header_look = record { fg = some accent; bold = true; reversed = false }

abbrev pub selected_look : Look
selected_look = record { fg = none; bold = true; reversed = true }

pub data Alignment : Type 0 where
  left center right : Alignment
