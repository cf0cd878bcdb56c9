-- ===== src/Explorer/View/Reconnect.antt =====
-- The page of the lost connection and `_reconnect` (MultiFileExplorer.tsx).
use web_ssh_tool.Common.{ℕ, ◌≡◌, refl, true, false, List, [], ◌∷◌, arith, ◌⊎◌}
use web_ssh_tool.Explorer.Controller.{
  close, Input, go, go_to_parent, ask_close, drop, watched, answered, step,
}
use web_ssh_tool.Explorer.Controller.Lifecycle.{IsSound, create-IsSound, step-IsSound}
use web_ssh_tool.Explorer.View.{
  View, drive, reconnect, content, lost_connection, takes_pointer_events,
}

-- What happens to the component: something at its controller, or a click on "Reconnect".
pub data Act : Type 0 where
  input : Input → Act
  retry : ℕ → Act

abbrev pub act : Act → View → View
act (input i) v = drive i v
act (retry id) v = (reconnect id v).0

abbrev pub acts : List Act → View → View
acts [] v = v
acts (a ∷ as') v = acts as' (act a v)

controller-drive : (i : Input) (v : View) → (drive i v).controller ≡ (step i v.controller).0
unfolding drive step
controller-drive (go p) v = refl
controller-drive go_to_parent v = refl
controller-drive ask_close v = refl
controller-drive drop v = ground arith
controller-drive (watched close) v = ground arith
controller-drive (watched d) v = ground arith
controller-drive (answered b) v = ground arith

drive_closed :
    (i : Input) (v : View) → IsSound v.controller → v.closed ≡ true → (drive i v).closed ≡ true
unfolding drive step
drive_closed (go p) v s h = ground arith
drive_closed go_to_parent v s h = ground arith
drive_closed ask_close v s h = ground arith
drive_closed drop v s h = ground arith
drive_closed (watched close) v s h = ground arith
drive_closed (watched d) v s h = ground arith
drive_closed (answered b) v s h = ground arith

act_closed :
    (a : Act) (v : View)
    → IsSound v.controller
    → v.closed ≡ true
    → IsSound (act a v).controller × ((act a v).closed ≡ true)
unfolding reconnect
act_closed (input i) v s h =
    (rw (controller-drive i v) (step-IsSound i v.controller s), drive_closed i v s h)
act_closed (retry id) v s h = (create-IsSound id, h)

acts_closed :
    (as' : List Act) (v : View)
    → IsSound v.controller
    → v.closed ≡ true
    → (acts as' v).closed ≡ true
acts_closed [] v s h = h
acts_closed (a ∷ as') v s h = let (s', h') = act_closed a v s h in acts_closed as' (act a v) s' h'

-- Once the component has shown a lost connection it shows nothing else: no click on "Reconnect"
-- and no answer to the new controller's requests takes the page away, for the state `closed` is
-- set by events of `close` alone and each of them finds a closed controller.
pub lost_connection_stays :
    (as' : List Act) (v : View)
    → IsSound v.controller
    → v.closed ≡ true
    → content (acts as' v) ≡ lost_connection
unfolding content
lost_connection_stays as' v s h = rw (acts_closed as' v s h)

-- A watch that is lost while the component loads, by an event of the server or because the first
-- request failed, leaves the page of the lost connection with no pointer events, so that its
-- button cannot be clicked.
pub lost_while_loading :
    (i : Input) (v : View)
    → IsSound v.controller
    → v.controller.closed ≡ false
    → v.loading ≡ true
    → (i ≡ watched close) ⊎ (i ≡ answered true)
    → (content (drive i v) ≡ lost_connection) × (takes_pointer_events (drive i v) ≡ false)
unfolding content drive step
lost_while_loading i v s open' h e = ground arith
