-- ===== src/Terminal/Screen.antt =====
-- web/src/components/XTerminal.tsx over LayoutBuilder.tsx, with the `onResize` that
-- MultiTerminalView.tsx gives it: the size of the element comes to the controller of the shell.
pub mod Fitted
mod Tests
use web_ssh_tool.Common.{
  ℕ, ◌+◌, Bool, true, false, Option, none, some, List, [], ◌∷◌, ◌++◌, ltb, if◌then◌else◌,
}
use web_ssh_tool.Components.Layout as Layout
use web_ssh_tool.Components.Layout.{Pixels}
use web_ssh_tool.Terminal.{Size, Controller, Request, resize}

-- The columns and rows that `FitAddon.fit` gives a terminal in an element of a size.
pub record FitAddon : Type 0 where
  pub cols : Pixels → ℕ
  pub rows : Pixels → ℕ

-- The layout, how many of the frames that `builder` asked for have run, the controller, and what it
-- has asked the server.
pub record Screen : Type 0 where
  pub layout : Layout.Layout
  pub fitted : ℕ
  pub controller : Controller
  pub sent : List Request

-- The first `render`.
unfoldable pub create : (ℕ → Pixels) → Controller → Screen
create page c = record { layout = Layout.create page; fitted = 0; controller = c; sent = [] }

-- What `fit` tells: the element of `_ref` fills that of the layout.
unfoldable pub size_in : FitAddon → Pixels → Size
size_in a p = record { rows = a.rows p; cols = a.cols p; height = p.height; width = p.width }

-- `onResize` of MultiTerminalView.tsx.
unfoldable pub on_resize : Size → Screen → Screen
on_resize size s =
    let (c, requests) = resize size s.controller in
    record s { controller = c; sent = s.sent ++ requests }

abbrev pub fit_on : FitAddon → Option ℕ → Screen → Screen
fit_on a none s = s
fit_on a (some e) s = on_resize (size_in a (s.layout.page e)) s

-- `fit`; without its element it fails.
unfoldable pub fit : FitAddon → Screen → Screen
fit a s = fit_on a s.layout.current s

-- A frame that `builder` asked for.
unfoldable pub fit_frame : FitAddon → Screen → Screen
unfolding fit
fit_frame a s =
    let s' = fit a s in
    if ltb s.fitted s.layout.built then record s' { fitted = s.fitted + 1 } else s

pub data Event : Type 0 where
  laid_out : Layout.Event → Event
  fits : Event

unfoldable pub step : FitAddon → Event → Screen → Screen
unfolding fit_frame
step a (laid_out e) s = record s { layout = Layout.step e s.layout }
step a fits s = fit_frame a s

unfoldable pub run : FitAddon → List Event → Screen → Screen
unfolding step
run a [] s = s
run a (e ∷ es) s = run a es (step a e s)
