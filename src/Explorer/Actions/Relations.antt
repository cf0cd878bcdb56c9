-- ===== src/Explorer/Actions/Relations.antt =====
-- The operations of DeleteDialog.tsx and CopyToDialog.tsx beside one another, and the closing of
-- the dialog with the information.
use web_ssh_tool.Common.{
  ℕ, zero, suc, ◌+◌, ◌≡◌, refl, ◌↔◌, Bool, true, false, not, ◌&&◌, Option, none, some, List, [],
  ◌∷◌, map, every, get_elem?, keep, arith, Bool-cases, inl, inr,
}
use web_ssh_tool.Common.Text.{Text}
use web_ssh_tool.Explorer.Types.{file, directory, symbolic_link, Lstat}
use web_ssh_tool.Explorer.Actions.{
  Request, unlink, rm, trash, cp, rename, delete_forever, to_trash, to_copy, to_move, request_of,
  requests, results, perform, closes_information, delete_objects, delete_by_type, transfer,
  same_path,
}

-- The renaming that a copy would be, had the user asked to move.
abbrev pub as_move : Request → Request
as_move (cp path d n) = rename path d n
as_move r = r

module _ (d : Text) where
  request_moved :
      (s : Lstat)
      → request_of (to_move d) s
        ≡ elim (request_of (to_copy d) s) [ none ↦ none | some r ↦ some (as_move r) ]
  unfolding request_of transfer
  request_moved s = ground arith

  requests_moved :
      (objects : List Lstat)
      → requests (to_move d) objects ≡ map as_move (requests (to_copy d) objects)
  unfolding requests
  requests_moved [] = refl
  requests_moved (s ∷ objects) = ground (arith, request_moved s, requests_moved objects)

  results_moved :
      (is_error : ℕ → Bool) (n : ℕ) (objects : List Lstat)
      → results (to_move d) is_error n objects ≡ results (to_copy d) is_error n objects
  unfolding results
  results_moved is_error n [] = refl
  results_moved is_error n (s ∷ objects) =
      ground (arith, request_moved s, results_moved is_error (n + 1) objects)

-- Moving is copying with each copy made a renaming: for the same answers it asks for the same
-- objects in the same order, and ends with the same results, message, button and closing.
pub perform-to_move :
    (d : Text) (is_error : ℕ → Bool) (objects : List Lstat)
    → perform (to_move d) is_error objects ≡ record (perform (to_copy d) is_error objects) {
      asked = map as_move (perform (to_copy d) is_error objects).asked;
    }
unfolding perform
perform-to_move d is_error objects =
    rw (requests_moved d objects, results_moved d is_error 0 objects)

abbrev pub path_of : Request → Text
path_of (unlink path) = path
path_of (rm path) = path
path_of (trash path) = path
path_of (cp path d n) = path
path_of (rename path d n) = path

-- A plain file, a directory or a symbolic link.
abbrev pub is_deletable : Lstat → Bool
is_deletable s = elim s.type [
  | some file ↦ true
  | some directory ↦ true
  | some symbolic_link ↦ true
  | _ ↦ false
]

-- Deleting forever asks for the paths that trashing asks for, in their order, less the objects
-- that are neither a plain file nor a directory nor a symbolic link.
pub paths-delete_forever :
    (objects : List Lstat)
    → map path_of (requests delete_forever objects)
      ≡ map path_of (requests to_trash (keep is_deletable objects))
unfolding requests request_of delete_by_type
paths-delete_forever [] = refl
paths-delete_forever (s ∷ objects) = ground (arith, paths-delete_forever objects)

-- An object with the path was deleted.
pub Deleted : Option Text → List Lstat → List Bool → Type 0
Deleted path objects value =
    (i : ℕ) × (s : Lstat) × ((get_elem? objects i ≡ some s)
      × (same_path s.path path ≡ true)
      × (get_elem? value i ≡ some true))

Deleted-of_closes :
    (path : Option Text) (objects : List Lstat) (value : List Bool)
    → closes_information path objects value ≡ true
    → Deleted path objects value
unfolding closes_information Deleted
Deleted-of_closes path [] value h = absurd (ground arith)
Deleted-of_closes path (e ∷ objects) [] h = absurd (ground arith)
Deleted-of_closes path (e ∷ objects) (v ∷ value) h =
    elim (Bool-cases (same_path e.path path && v)) [
      | inl both ↦ (0, e, (refl, ground arith, ground arith))
      | inr neither ↦
          let (i, s, found) = Deleted-of_closes path objects value (ground arith) in
          (suc i, s, found)
    ]

closes_of_Deleted :
    (path : Option Text) (objects : List Lstat) (value : List Bool)
    → Deleted path objects value
    → closes_information path objects value ≡ true
unfolding closes_information Deleted
closes_of_Deleted path [] value (i, s, (at, same, ok)) = absurd (ground arith)
closes_of_Deleted path (e ∷ objects) [] (i, s, (at, same, ok)) = absurd (ground arith)
closes_of_Deleted path (e ∷ objects) (v ∷ value) (zero, s, (at, same, ok)) = ground arith
closes_of_Deleted path (e ∷ objects) (v ∷ value) (suc i, s, (at, same, ok)) =
    ground (arith, closes_of_Deleted path objects value (i, s, (at, same, ok)))

some_success :
    (path : Option Text) (objects : List Lstat) (value : List Bool)
    → closes_information path objects value ≡ true
    → every not value ≡ false
unfolding closes_information
some_success path [] value h = absurd (ground arith)
some_success path (e ∷ objects) [] h = absurd (ground arith)
some_success path (e ∷ objects) (v ∷ value) h = ground (arith, some_success path objects value)

-- After deleting, the dialog with the information of a path is closed exactly if an object with
-- this path was deleted, at whatever position.
pub delete_objects-Deleted :
    (is_error : ℕ → Bool) (path : Option Text) (objects : List Lstat)
    → ((delete_objects is_error path objects).1 ≡ true)
      ↔ Deleted path objects (delete_objects is_error path objects).0.value
unfolding delete_objects perform
delete_objects-Deleted is_error path objects =
    let value = results delete_forever is_error 0 objects in
    (
      λ h. Deleted-of_closes path objects value (ground arith),
      λ d.
          let shut = closes_of_Deleted path objects value d in
          rw (shut, some_success path objects value shut),
    )
