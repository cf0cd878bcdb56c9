-- ===== src/Explorer/CopyDialog/Tests.antt =====
-- The copy dialog is opened, moved to another directory, and asked to copy.
use web_ssh_tool.Common.{◌≡◌, refl, false, none, some, List, [], ◌∷◌}
use web_ssh_tool.Common.Text.{lit}
use web_ssh_tool.Explorer.Types.{file, directory, Lstat, Entry}
use web_ssh_tool.Explorer.Controller.{listed}
use web_ssh_tool.Explorer.Controller as Controller
use web_ssh_tool.Explorer.Actions.{to_copy, to_move, requests}
use web_ssh_tool.Explorer.Targets.{shown_directory}
use web_ssh_tool.Explorer.CopyDialog.{
  mount, directory_of, Input, click_row, typing, served, answered, run, submit_copy, click_move,
}
use web_ssh_tool.Explorer.CopyDialog.Destination.{reopened, sent_to_shown}

abbrev songs : Lstat
songs = record {
  type = some directory;
  path = some (lit "/home/songs");
  basename = some (lit "songs");
  size = none;
  modified_time = none;
  real_type = none;
  parent = some (lit "/home");
}

abbrev note : Lstat
note = record songs { type = some file; path = some (lit "/note"); basename = some (lit "note") }

abbrev entries : List Entry
entries = (lit "note", note) ∷ []

abbrev before : List Input
before = answered false ∷ typing (lit "/tmp") ∷ []

abbrev since : List Input
since = click_row (lit "songs", songs) ∷ served (listed songs entries) ∷ []

sent_to_shown_example :
    let d = run since (reopened (note ∷ []) (run before (mount 7))) in
    (d.controller.state ≡ some (Controller.directory songs entries))
    × ((submit_copy (λ n. false) d).asked ≡ requests (to_copy (lit "/home/songs")) d.objects)
    × ((click_move (λ n. false) d).asked ≡ requests (to_move (lit "/home/songs")) d.objects)
unfolding run reopened mount directory_of Controller.step Controller.create shown_directory
sent_to_shown_example =
    sent_to_shown 7 before since (note ∷ []) songs entries (lit "/home/songs") (λ n. false)
      (tt, (tt, tt)) refl refl refl
