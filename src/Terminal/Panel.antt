-- ===== src/Terminal/Panel.antt =====
-- `XTerminalView` and `SizeHint` of web/src/pages/home-page/MultiTerminalView.tsx: what is shown of
-- a shell, and its buttons.
pub mod Mirror
mod Tests
use web_ssh_tool.Common.{Bool, true, false, not, ◌&&◌, List, [], ◌∷◌, ◌++◌, if◌then◌else◌}
use web_ssh_tool.Common.Text.{Text}
use web_ssh_tool.Terminal.{
  Iconv, Size, Controller, Input, typed, resized, ask_close, drop, told, answered, close_detail,
  data_detail, other_detail, step,
}

-- `closed` and `size`, and whether the effects listen to `close` and to `resize`.
pub record Panel : Type 0 where
  pub closed : Bool
  pub listening : Bool
  pub hinting : Bool
  pub size : Size

-- The first rendering.
unfoldable pub render : Controller → Panel
render c = record { closed = c.closed; listening = false; hinting = false; size = c.size }

-- The effects, which may run later than the rendering.
unfoldable pub effect : Controller → Panel → Panel
effect c p =
    if c.closed then record p { hinting = true } else record p { listening = true; hinting = true }

-- The events of the controller; the size is shown only while the shell is.
unfoldable pub on_close : Panel → Panel
on_close p = if p.listening then record p { closed = true } else p

unfoldable pub on_resize : Controller → Panel → Panel
on_resize c p = if p.hinting && not p.closed then record p { size = c.size } else p

-- The events that an input of the controller comes to: `onClose.invoke` and `resize` dispatch them.
module _ (v : Iconv) (encoding : Text) where
  unfoldable pub notify : Input → Controller → Panel → Panel
  unfolding on_close on_resize
  notify (resized size) c p = on_resize (step v encoding (resized size) c).0 p
  notify (told close_detail) c p = if c.listening then on_close p else p
  notify (answered is_error) c p = if is_error then on_close p else p
  notify _ c p = p

  unfoldable pub watch : List Input → Controller → Panel → Panel
  watch [] c p = p
  watch (i ∷ is) c p = watch is (step v encoding i c).0 (notify i c p)

-- What the terminal is asked to do: a drop of a text or a quick command is pasted.
pub data Task : Type 0 where
  paste : Text → Task
  focus clear : Task

pub data Button : Type 0 where
  drop_text run_command : Text → Button
  clear_all remove : Button

-- The buttons of a shell that is open, and whether the tab is removed; one that is closed has only
-- the last.
pub press : Button → Panel → List Task × Bool
press (drop_text t) p = if p.closed then ([], false) else (paste t ∷ focus ∷ [], false)
press (run_command t) p = if p.closed then ([], false) else (paste t ∷ [], false)
press clear_all p = if p.closed then ([], false) else (clear ∷ [], false)
press remove p = ([], true)
