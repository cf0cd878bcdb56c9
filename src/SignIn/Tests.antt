-- ===== src/SignIn/Tests.antt =====
-- A run of the form that signs in.
use web_ssh_tool.Common.{◌≡◌, ◌&&◌, none, List, [], ◌∷◌, if◌then◌else◌}
use web_ssh_tool.Common.Text.{lit}
use web_ssh_tool.Settings.{Storage, set_item, context, is_some}
use web_ssh_tool.SignIn.{Input, submitted, toggled, answer, accepted, create, mount, run, or_empty}
use web_ssh_tool.SignIn.Secrets.{IsDiscreet, run-mount}

abbrev storage : Storage
storage =
    set_item (lit "ssh-user-name") (lit "me") (set_item (lit "ssh-password") (lit "pw") (λ k. none))

abbrev inputs : List Input
inputs = toggled ∷ submitted ∷ answer (lit "me") (lit "pw") accepted ∷ toggled ∷ []

run-mount_example :
    IsDiscreet (context (run inputs (mount (create storage))).storage)
    × ((mount (create storage)).sent ≡ (
        if (context storage).remember_password
          && (is_some (context storage).ssh_user_name && is_some (context storage).ssh_password)
        then (or_empty (context storage).ssh_user_name, or_empty (context storage).ssh_password)
          ∷ []
        else []))
run-mount_example = run-mount storage inputs
