-- ===== src/Explorer/View/Mirror.antt =====
-- The component `FileExplorer` beside its controller (file-explorer/Common.tsx).
use web_ssh_tool.Common.{◌≡◌, refl, List, [], ◌∷◌, arith}
use web_ssh_tool.Explorer.Controller.{
  Controller, close, Input, go, go_to_parent, ask_close, drop, watched, answered, step,
}
use web_ssh_tool.Explorer.View.{View, mount, drive}

pub record InSync (v : View) : Type 0 where
  pub closed : v.closed ≡ v.controller.closed
  pub loading : v.loading ≡ v.controller.updating
  pub state : v.state ≡ v.controller.state

drive-InSync : (i : Input) (v : View) → InSync v → InSync (drive i v)
unfolding drive step
drive-InSync (go p) v s = ground arith
drive-InSync go_to_parent v s = ground arith
drive-InSync ask_close v s = ground arith
drive-InSync drop v s = ground arith
drive-InSync (watched close) v s = ground arith
drive-InSync (watched d) v s = ground arith
drive-InSync (answered b) v s = ground arith

pub drive_all : List Input → View → View
drive_all [] v = v
drive_all (i ∷ is) v = drive_all is (drive i v)

drive_all-InSync : (is : List Input) (v : View) → InSync v → InSync (drive_all is v)
unfolding drive_all
drive_all-InSync [] v s = s
drive_all-InSync (i ∷ is) v s = drive_all-InSync is (drive i v) (drive-InSync i v s)

-- Mounted over a controller and driven by any inputs, the component has the controller's `closed`,
-- `updating` and `state`: each method and each event of the server sends the event that brings
-- the component up to date.
pub mount-InSync : (c : Controller) (is : List Input) → InSync (drive_all is (mount c))
unfolding mount
mount-InSync c is =
    drive_all-InSync is (mount c) (record { closed = refl; loading = refl; state = refl })
