-- ===== src/Home.antt =====
-- web/src/pages/HomePage.tsx: the layout of the terminal and the file explorer, the size between
-- them, and the encoding of the terminal. `Layout` is that of web/src/common/Type.ts.
pub mod Panes
use web_ssh_tool.Common.{
  ℕ, ◌+◌, ◌-◌, Bool, true, false, ◌&&◌, Option, none, some, List, [], ◌∷◌, ltb, if◌then◌else◌,
}
use web_ssh_tool.Common.Text.{Text, lit, eq_text}
use web_ssh_tool.Settings.{Storage, set_layout, set_text_decode}

pub data Layout : Type 0 where
  both terminal file_explorer : Layout

-- The first value of the state `layout`, by the setting.
unfoldable pub initial_layout : Option Text → Layout
initial_layout none = both
initial_layout (some t) =
    if eq_text t (lit "file-explorer")
    then file_explorer
    else if eq_text t (lit "terminal")
    then terminal
    else both

abbrev pub layout_text : Layout → Option Text
layout_text both = none
layout_text terminal = some (lit "terminal")
layout_text file_explorer = some (lit "file-explorer")

-- The state `layout` of the page with the storage; `layout`, `delayLayout` and `lastLayout` of
-- `MyLayout`, whose first and second are the layout that it is given and the one that it shows.
pub record Page : Type 0 where
  pub storage : Storage
  pub layout : Layout
  pub delay_layout : Layout
  pub last_layout : Layout

unfoldable pub create : Storage → Page
create s =
    let l = initial_layout (s (lit "layout")) in
    record { storage = s; layout = l; delay_layout = l; last_layout = l }

-- `setLayout` of the page.
unfoldable pub choose : Layout → Page → Page
choose l p = record p { layout = l; storage = set_layout (layout_text l) p.storage }

unfoldable pub sync_layout : Page → Page
sync_layout p = record p { last_layout = p.delay_layout; delay_layout = p.layout }

-- The elements whose `onTransitionEnd` calls `syncLayout`.
pub data Element : Type 0 where
  first_wrap second_wrap placeholder : Element

-- Whether the element is there and its handler goes on.
unfoldable pub syncs : Element → Layout → Layout → Bool
syncs first_wrap both file_explorer = true
syncs second_wrap both terminal = true
syncs placeholder terminal layout = true
syncs placeholder file_explorer layout = true
syncs e delayed layout = false

unfoldable pub transition_end : Element → Page → Page
unfolding sync_layout
transition_end e p = if syncs e p.delay_layout p.layout then sync_layout p else p

-- Which of the two children are mounted.
unfoldable pub mounted : Layout → Bool × Bool
mounted both = (true, true)
mounted terminal = (true, false)
mounted file_explorer = (false, true)

-- `encodingExists` of iconv-lite is the first argument; the second component says whether the
-- message is shown and the setting reset.
unfoldable pub text_decoder : (Text → Bool) → Option Text → Text × Bool
text_decoder exists none = (lit "utf-8", if exists (lit "utf-8") then false else true)
text_decoder exists (some t) = if exists t then (t, false) else (lit "utf-8", true)

-- `MyResize`: how many presses hold it, and the length, in whole pixels.
pub record Resize : Type 0 where
  pub enable : ℕ
  pub length : ℕ

pub data Mouse : Type 0 where
  down up : Mouse
  longer shorter : ℕ → Mouse

abbrev at_least_300 : ℕ → ℕ
at_least_300 n = if ltb n 300 then 300 else n

-- The handlers; a movement makes the length longer, or shorter by the movement.
unfoldable pub on_mouse : Mouse → Resize → Resize
on_mouse down r = record r { enable = r.enable + 1 }
on_mouse up r = record r { enable = r.enable - 1 }
on_mouse (longer n) r =
    if ltb 0 r.enable then record r { length = at_least_300 (r.length + n) } else r
on_mouse (shorter n) r =
    if ltb 0 r.enable then record r { length = at_least_300 (r.length - n) } else r

unfoldable pub on_mice : List Mouse → Resize → Resize
on_mice [] r = r
on_mice (m ∷ ms) r = on_mice ms (on_mouse m r)
