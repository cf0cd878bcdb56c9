-- ===== src/Build.antt =====
-- `buildAssetsMap` of build-rust-assets.ts: the Rust function that gives each file of the web build,
-- by the paths that `walkDir` collects.
pub mod Lookup
mod Tests
use web_ssh_tool.Common.{
  Bool, true, false, Option, none, some, List, [], ◌∷◌, ◌++◌, map, if◌then◌else◌,
}
use web_ssh_tool.Common.Text.{Text, eq_text}

-- What `fs.opendir` gives of a directory, in its order; `other` is neither a file nor a directory.
mutual
  pub data Node : Type 0 where
    file other : Text → Node
    directory : Text → Nodes → Node

  pub data Nodes : Type 0 where
    nil : Nodes
    cons : Node → Nodes → Nodes

-- `walkDir`: what it pushes.
unfoldable mutual
  pub walk_entry : List Text → Node → List (List Text)
  walk_entry internal_dir (file name) = (internal_dir ++ name ∷ []) ∷ []
  walk_entry internal_dir (other name) = []
  walk_entry internal_dir (directory name nodes) = walk_dir (internal_dir ++ name ∷ []) nodes

  pub walk_dir : List Text → Nodes → List (List Text)
  walk_dir internal_dir nil = []
  walk_dir internal_dir (cons x xs) = walk_entry internal_dir x ++ walk_dir internal_dir xs

-- `posixPath.join` of names, which are not empty and hold no slash.
unfoldable pub join : List Text → Text
join [] = 46 ∷ []
join (name ∷ []) = name
join (name ∷ names) = name ++ 47 ∷ join names

-- An arm of the `match`: the pattern, and the path under `build` of the file that is included.
unfoldable pub arms : List (List Text) → List (Text × List Text)
unfolding join
arms assets_map = map (λ assets. (join assets, assets)) assets_map

-- The function that is generated: the first arm whose pattern is the file name, or `Err(())`.
unfoldable pub assets_map : List (Text × List Text) → Text → Option (List Text)
assets_map [] filename = none
assets_map ((p, assets) ∷ rest) filename =
    if eq_text p filename then some assets else assets_map rest filename

unfoldable pub build_assets_map : Nodes → Text → Option (List Text)
build_assets_map nodes = assets_map (arms (walk_dir [] nodes))
