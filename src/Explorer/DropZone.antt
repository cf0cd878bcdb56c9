-- ===== src/Explorer/DropZone.antt =====
-- `uploadItem` of web/src/pages/home-page/file-explorer/directory-preview/DropZone.tsx: what a
-- dropped file or folder makes the explorer upload.
pub mod Depth
pub mod Zone
mod Tests
use web_ssh_tool.Common.{
  ℕ, zero, suc, ◌+◌, Bool, true, false, List, [], ◌∷◌, ◌++◌, leb, if◌then◌else◌,
}
use web_ssh_tool.Common.Text.{Text}

-- A `FileSystemEntry`.
mutual
  pub data Node : Type 0 where
    file : Text → Node
    folder : Text → Nodes → Node

  pub data Nodes : Type 0 where
    nil : Nodes
    cons : Node → Nodes → Nodes

-- What is asked of the server: a directory, and the upload of a file to a place.
pub data Op : Type 0 where
  mkdir : List Text → Op
  upload : Text → List Text → Op

abbrev pub max_depth : ℕ
max_depth = 2

-- `mkdir_fails` is `Rest.isError` of the answer, and `batch` how many entries one call of
-- `readEntries` gives at most. The requests are listed folder by folder; those of siblings may
-- come in another order, for they do not wait for one another.
module _ (mkdir_fails : List Text → Bool) (batch : ℕ) where
  unfoldable mutual
    pub upload_item : List Text → Node → ℕ → List Op
    upload_item dest (file name) depth = upload name dest ∷ []
    upload_item dest (folder name nodes) depth =
        let new_dest = dest ++ name ∷ [] in
        let inside = upload_items batch new_dest nodes (depth + 1) in
        if leb max_depth depth
        then []
        else mkdir new_dest ∷ (if mkdir_fails new_dest then [] else inside)

    pub upload_items : ℕ → List Text → Nodes → ℕ → List Op
    upload_items n dest nil depth = []
    upload_items zero dest (cons x xs) depth = []
    upload_items (suc n) dest (cons x xs) depth =
        upload_item dest x depth ++ upload_items n dest xs depth
