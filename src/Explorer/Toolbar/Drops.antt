-- ===== src/Explorer/Toolbar/Drops.antt =====
-- What is done to a file that is dropped on a button of the dragging bar (ToolsBar.tsx, with the
-- dialogs DeleteDialog.tsx and CopyToDialog.tsx that it opens).
use web_ssh_tool.Common.{
  ◌≡◌, refl, true, Option, none, some, List, [], ◌∷◌, arith, All, inl, inr, ◌⊎◌,
}
use web_ssh_tool.Common.Text.{Text}
use web_ssh_tool.Explorer.Types.{Lstat, Entry}
use web_ssh_tool.Explorer.Actions.{Request}
use web_ssh_tool.Explorer.Actions.Relations.{path_of}
use web_ssh_tool.Explorer.Toolbar.{ObjectsDialog, entry_at, drop_copy, drop_delete}

-- Every request is about the path.
abbrev pub About : Text → List Request → Type 0
About path rs = All (λ r. path_of r ≡ path) rs

opened :
    (path : Text) (entries : List Entry) (d : ObjectsDialog)
    → (drop_delete path entries ≡ some d) ⊎ (drop_copy path entries ≡ some d)
    → (s : Lstat) × (entry_at path entries ≡ some s) × (d.objects ≡ s ∷ [])
unfolding drop_delete drop_copy
opened path entries d h = found (entry_at path entries) refl h
  where
    dialog : Lstat → ObjectsDialog
    dialog s = record { open_ = true; objects = s ∷ [] }

    shown : Option Lstat → Option ObjectsDialog
    shown o = elim o [ none ↦ none | some s ↦ some (dialog s) ]

    found :
        (o : Option Lstat)
        → entry_at path entries ≡ o
        → (shown o ≡ some d) ⊎ (shown o ≡ some d)
        → (s : Lstat) × (entry_at path entries ≡ some s) × (d.objects ≡ s ∷ [])
    found none e (inl k) = cc
    found none e (inr k) = cc
    found (some s) e (inl k) = (s, e, ground arith)
    found (some s) e (inr k) = (s, e, ground arith)
