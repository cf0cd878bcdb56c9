-- ===== src/Components/Layout/Tests.antt =====
-- A layout whose element is replaced and resized.
use web_ssh_tool.Common.{ℕ, ◌+◌, ◌≡◌, refl, none, some, List, [], ◌∷◌}
use web_ssh_tool.Components.Layout.{
  Pixels, create, differs, Event, ref_changed, observed_entries, frame, page_changed, step,
  update_ref, run,
}

abbrev small : ℕ → Pixels
small e = record { height = 300; width = 400 }

abbrev large : ℕ → Pixels
large e = record { height = 600; width = 400 + e }

abbrev events : List Event
events =
    ref_changed (some 1)
    ∷ observed_entries 1
    ∷ frame
    ∷ ref_changed none
    ∷ ref_changed (some 2)
    ∷ observed_entries 1
    ∷ page_changed large
    ∷ []

-- The observer has changed over to the second element.
changes_over : (run events (create small)).observed ≡ 2 ∷ []
unfolding run step update_ref create differs
changes_over = refl
