-- ===== src/Build/Lookup.antt =====
-- The files that the generated function of build-rust-assets.ts finds.
use web_ssh_tool.Common.{◌≢◌, Bool, List, [], ◌∷◌, ◌++◌, any, All, All-append}
use web_ssh_tool.Common.Text.{Text, eq_text}
use web_ssh_tool.Build.{Node, file, other, directory, Nodes, nil, cons, walk_entry, walk_dir, join}

-- A name without a slash.
abbrev pub IsName : Text → Type 0
IsName name = All (λ c. c ≢ 47) name

-- The names of a directory and of all that is below it.
unfoldable mutual
  pub HasNames : Node → Type 0
  HasNames (file name) = IsName name
  HasNames (other name) = Unit
  HasNames (directory name nodes) = IsName name × HaveNames nodes

  pub HaveNames : Nodes → Type 0
  HaveNames nil = Unit
  HaveNames (cons x xs) = HasNames x × HaveNames xs

abbrev IsPath : List Text → Type 0
IsPath p = (p ≢ []) × All IsName p

not_empty : (dir : List Text) (name : Text) → dir ++ name ∷ [] ≢ []
not_empty [] name = λ e. cc
not_empty (d ∷ dir) name = λ e. cc

mutual
  unfolding walk_entry walk_dir HasNames HaveNames

  entry-IsPath :
      (dir : List Text) (x : Node) → All IsName dir → HasNames x → All IsPath (walk_entry dir x)
  entry-IsPath dir (file name) d h =
      ((not_empty dir name, All-append IsName dir (name ∷ []) d (h, tt)), tt)
  entry-IsPath dir (other name) d h = tt
  entry-IsPath dir (directory name nodes) d h =
      dir-IsPath (dir ++ name ∷ []) nodes (All-append IsName dir (name ∷ []) d (h.0, tt)) h.1

  dir-IsPath :
      (dir : List Text) (xs : Nodes) → All IsName dir → HaveNames xs → All IsPath (walk_dir dir xs)
  dir-IsPath dir nil d h = tt
  dir-IsPath dir (cons x xs) d h =
      All-append IsPath (walk_entry dir x) (walk_dir dir xs) (entry-IsPath dir x d h.0)
        (dir-IsPath dir xs d h.1)

-- One of the paths has the text of the given one.
abbrev is_listed : List Text → List (List Text) → Bool
is_listed p ps = any (λ q. eq_text (join q) (join p)) ps
