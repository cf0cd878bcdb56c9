-- ===== src/Explorer/Dialogs/Tests.antt =====
-- Runs of the dialogs.
use web_ssh_tool.Common.{◌≡◌, ◌≢◌, ◌↔◌, true, false, some, [], any}
use web_ssh_tool.Common.Text.{lit}
use web_ssh_tool.Explorer.Dialogs.{
  Request, exists_, mkdir, rename, Answer, refused, accepted, submit_rename, overwrite,
}
use web_ssh_tool.Explorer.Dialogs.Reports.{is_rename, is_accepted, rename_lem, Form, rename_form}

-- A server on which nothing exists and no directory can be made.
abbrev server : Request → Answer
server (mkdir d n) = refused (lit "no")
server _ = accepted false

rename_lem_example :
    ((any is_rename (submit_rename server (some (lit "/a")) (lit "/") (lit "b")).asked ≡ true)
      ↔ ((lit "b" ≢ []) × (server (exists_ (lit "/") (lit "b")) ≡ accepted false)))
    × ((any is_rename (overwrite server (some (lit "/a")) (lit "/") (lit "b")).asked ≡ true)
        ↔ (lit "b" ≢ []))
    × (((submit_rename server (some (lit "/a")) (lit "/") (lit "b")).closed ≡ true) ↔ (
        (lit "b" ≢ [])
        × (server (exists_ (lit "/") (lit "b")) ≡ accepted false)
        × (is_accepted (server (rename (lit "/a") (lit "/") (lit "b"))) ≡ true)))
    × (((overwrite server (some (lit "/a")) (lit "/") (lit "b")).closed ≡ true)
        ↔ ((lit "b" ≢ []) × (is_accepted (server (rename (lit "/a") (lit "/") (lit "b"))) ≡ true)))
rename_lem_example = rename_lem server (lit "/a") (lit "/") (lit "b")

abbrev form : Form
form = rename_form (some (lit "/a")) (lit "/") (lit "b")
