-- ===== src/Explorer/Listing/Selection.antt =====
-- The selection of a directory (DirectoryPreview.tsx) as a set: the order in which a `Set` keeps its
-- members is forgotten.
use mathlib.Core.Quot
use mathlib.Core.Quot.{Quot}
use web_ssh_tool.Common.{◌≡◌, Option, List}
use web_ssh_tool.Explorer.Types.{Entry}
use web_ssh_tool.Explorer.Listing.{View}
use web_ssh_tool.Explorer.Listing.Selecting.{is_chosen}

-- Two selections hold the same entries.
abbrev pub SameChosen : List (Option Entry) → List (Option Entry) → Type 0
SameChosen os ps = (f : Entry) → is_chosen f os ≡ is_chosen f ps

abbrev pub Selection : Type 0
Selection = Quot SameChosen

abbrev pub selection : View → Selection
selection v = Quot.mk v.selected
