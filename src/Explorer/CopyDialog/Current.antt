-- ===== src/Explorer/CopyDialog/Current.antt =====
-- The state and the text field of CopyToDialog.tsx beside its controller.
use web_ssh_tool.Common.{
  ◌≡◌, refl, Bool, true, false, Option, none, some, List, [], ◌∷◌, ◌++◌, arith, if◌then◌else◌,
}
use web_ssh_tool.Common.Text.{Text}
use web_ssh_tool.Explorer.Controller.{
  Controller, ControllerState, path_of, close, Detail, Event, change, closed_event, create, dispose,
  failed, found, listed,
}
use web_ssh_tool.Explorer.Controller as Controller
use web_ssh_tool.Explorer.CopyDialog.{
  Dialog, if_text, value_of, refresh, on_event, notify, absorb, drive, effect,
}

-- While the dialog is open it has the state of its controller, and its text field the path of it.
pub record IsCurrent (d : Dialog) : Type 0 where
  pub shown : d.open_ ≡ true → d.state ≡ some (d.controller.updating, d.controller.state)
  pub filled : d.open_ ≡ true → d.value ≡ value_of d.controller.state d.value

if_text_twice : (p : Option Text) (v : Text) → if_text p v ≡ if_text p (if_text p v)
if_text_twice none v = refl
if_text_twice (some p) v = refl

value_of_twice : (s : Option ControllerState) (v : Text) → value_of s v ≡ value_of s (value_of s v)
value_of_twice none v = refl
value_of_twice (some s) v = if_text_twice (path_of s) v

refresh-IsCurrent : (d : Dialog) → IsCurrent (refresh d)
unfolding refresh
refresh-IsCurrent d = record {
  shown = λ h. refl;
  filled = λ h. value_of_twice d.controller.state d.value;
}

-- A dialog that is not open is as it may be.
pub hidden : (d : Dialog) → d.open_ ≡ false → IsCurrent d
hidden d e = record { shown = λ h. ground (arith, e, h); filled = λ h. ground (arith, e, h) }

refreshed : (b : Bool) (d : Dialog) → d.open_ ≡ b → IsCurrent (if b then refresh d else d)
refreshed true d e = refresh-IsCurrent d
refreshed false d e = hidden d e

pub effect-IsCurrent : (d : Dialog) → IsCurrent (effect d)
unfolding effect
effect-IsCurrent d = refreshed d.open_ d refl

-- The controller changes in nothing that is shown.
kept :
    (d : Dialog) (c : Controller) (rs : List Controller.Request)
    → c.updating ≡ d.controller.updating
    → c.state ≡ d.controller.state
    → IsCurrent d
    → IsCurrent (record d { controller = c; sent = rs })
kept d c rs u s h = record { shown = λ e. rw (u, s) (h.shown e); filled = λ e. rw s (h.filled e) }

-- What a controller can do: its state and its progress change with an event, or not at all.
data Told (c : Controller) : Controller.Outcome → Type 0 where
  changed : (c' : Controller) (rs : List Controller.Request) → Told c (c', rs, change ∷ [])
  quiet :
      (c' : Controller) (rs : List Controller.Request)
      → c'.updating ≡ c.updating
      → c'.state ≡ c.state
      → Told c (c', rs, [])
  over :
      (c' : Controller) (rs : List Controller.Request)
      → c'.updating ≡ c.updating
      → c'.state ≡ c.state
      → Told c (c', rs, closed_event ∷ [])

if_Told :
    (b : Bool) (c : Controller) (o o' : Controller.Outcome)
    → Told c o
    → Told c o'
    → Told c (if b then o else o')
if_Told true c o o' t t' = t
if_Told false c o o' t t' = t'

dispatch_close-Told : (c : Controller) → Told c (Controller.dispatch_close c)
unfolding Controller.dispatch_close
dispatch_close-Told c = over _ _ (ground arith) (ground arith)

step-Told : (i : Controller.Input) (c : Controller) → Told c (Controller.step i c)
unfolding Controller.step Controller.cd Controller.cd_to_parent Controller.close_watch
    Controller.dispose Controller.on_watch Controller.opened Controller.listener
step-Told (Controller.go p) c = changed _ _
step-Told Controller.go_to_parent c = changed _ _
step-Told Controller.ask_close c = quiet _ _ refl refl
step-Told Controller.drop c = if_Told c.closed c _ _ (quiet _ _ refl refl) (quiet _ _ refl refl)
step-Told (Controller.watched close) c =
    if_Told c.listening c _ _ (dispatch_close-Told c) (quiet _ _ refl refl)
step-Told (Controller.watched (failed p e)) c =
    if_Told c.listening c _ _ (changed _ _) (quiet _ _ refl refl)
step-Told (Controller.watched (found s)) c =
    if_Told c.listening c _ _ (changed _ _) (quiet _ _ refl refl)
step-Told (Controller.watched (listed s es)) c =
    if_Told c.listening c _ _ (changed _ _) (quiet _ _ refl refl)
step-Told (Controller.answered b) c = if_Told b c _ _ (dispatch_close-Told c) (quiet _ _ refl refl)

absorb-IsCurrent :
    (d : Dialog) (o : Controller.Outcome)
    → Told d.controller o
    → IsCurrent d
    → IsCurrent (absorb o d)
unfolding absorb notify on_event
absorb-IsCurrent d o (changed c rs) h =
    refreshed d.open_ (record d { controller = c; sent = d.sent ++ rs }) refl
absorb-IsCurrent d o (quiet c rs u s) h = kept d c (d.sent ++ rs) u s h
absorb-IsCurrent d o (over c rs u s) h = kept d c (d.sent ++ rs) u s h

pub drive-IsCurrent : (i : Controller.Input) (d : Dialog) → IsCurrent d → IsCurrent (drive i d)
unfolding drive
drive-IsCurrent i d h =
    absorb-IsCurrent d (Controller.step i d.controller) (step-Told i d.controller) h
