-- ===== src/Explorer/DropZone/Tests.antt =====
-- A run of the drop of a folder (DropZone.tsx).

use web_ssh_tool.Common.Text.{lit}
use web_ssh_tool.Common.{◌≡◌, refl, false, [], ◌∷◌}
use web_ssh_tool.Explorer.DropZone.{Node, file, folder, nil, cons, upload_item}
use web_ssh_tool.Explorer.DropZone.Depth.{uploads}

-- A folder with a file, and another three folders deep.
abbrev dropped : Node
dropped = folder (lit "a") (
    cons (file (lit "x"))
      (cons (folder (lit "b") (cons (folder (lit "c") (cons (file (lit "y")) nil)) nil)) nil))

-- The file below three folders is left out.
too_deep :
    uploads (upload_item (λ d. false) 100 (lit "/home" ∷ []) dropped 0)
    ≡ (lit "x", lit "/home" ∷ lit "a" ∷ []) ∷ []
unfolding upload_item
too_deep = refl
