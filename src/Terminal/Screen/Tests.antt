-- ===== src/Terminal/Screen/Tests.antt =====
-- A terminal whose element is resized after the first fit.
use web_ssh_tool.Common.{ℕ, refl, ap, true, false, Option, none, some, arith, List, [], ◌∷◌}
use web_ssh_tool.Components.Layout as Layout
use web_ssh_tool.Components.Layout.{Pixels, observed_entries}
use web_ssh_tool.Terminal.{Controller}
use web_ssh_tool.Terminal.Screen.{FitAddon, create, Event, laid_out, fits, step, run, on_resize}
use web_ssh_tool.Terminal.Screen.Fitted.{Fits, settle_screen, size_reaches_shell}

abbrev addon : FitAddon
addon = record { cols = λ p. p.width; rows = λ p. p.height }

abbrev small : ℕ → Pixels
small e = record { height = 30; width = 40 }

abbrev large : ℕ → Pixels
large e = record { height = 60; width = 70 }

abbrev shell : Controller
shell = record {
  id = 5;
  size = record { rows = 80; cols = 80; height = 240; width = 240 };
  closed = false;
  listening = true;
  armed = true;
  written = [];
}

abbrev events : List Event
events =
    laid_out (Layout.ref_changed (some 1))
    ∷ laid_out (observed_entries 1)
    ∷ laid_out Layout.frame
    ∷ fits
    ∷ laid_out (Layout.page_changed large)
    ∷ []

abbrev height_of : Option Pixels → ℕ
height_of none = 0
height_of (some p) = p.height

size_reaches_shell_example :
    Fits addon 1 (settle_screen addon (run addon events (create small shell)))
unfolding run Layout.step Layout.update_ref Layout.measure Layout.resize Layout.next_frame
    Layout.differs create Layout.create step on_resize
size_reaches_shell_example =
    size_reaches_shell addon small shell events 1 refl (λ same. omega (arith, ap height_of same))
