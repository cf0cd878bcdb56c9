-- ===== src/Explorer/Navigation/Tests.antt =====
-- The dialog of GoToDialog.tsx, opened twice.
use web_ssh_tool.Common.{◌≡◌, refl, false, [], ◌∷◌}
use web_ssh_tool.Common.Text.{lit}
use web_ssh_tool.Explorer.Navigation.{GoTo, open_at, type_text, submit, close, run}

abbrev shut : GoTo
shut = record { open_ = false; path = []; value = [] }

-- What was typed before the dialog was closed is forgotten.
gone :
    (run
      (open_at (lit "/a")
        ∷ type_text (lit "/etc")
        ∷ close
        ∷ open_at (lit "/a")
        ∷ submit
        ∷ open_at (lit "/a")
        ∷ type_text (lit "/b")
        ∷ submit
        ∷ [])
      shut).1
    ≡ lit "/a" ∷ lit "/b" ∷ []
unfolding run
gone = refl
