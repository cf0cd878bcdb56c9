-- ===== src/Explorer/Upload/Tests.antt =====
-- A run of the modelled upload.
use web_ssh_tool.Common.{◌≤◌, ◌≡◌, refl, Bool, true, List, [], ◌∷◌, ◌⊎◌}
use web_ssh_tool.Explorer.Upload.{
  compressed, settled, start, compression_done, creation_done, upload_done, unzip_done, drop_done,
  clicked, Input, step, run,
}
use web_ssh_tool.Explorer.Upload.Guard.{IsCleanedUp, settled-IsCleanedUp}
use web_ssh_tool.Explorer.Upload.Progress.{rank, awaited, Moves, answered_job_ends}

abbrev uploaded : List Input
uploaded =
    compression_done true
    ∷ creation_done true
    ∷ upload_done true
    ∷ unzip_done true
    ∷ clicked
    ∷ drop_done
    ∷ []

settled-IsCleanedUp_example : IsCleanedUp true (run uploaded (start compressed))
unfolding run step start
settled-IsCleanedUp_example = settled-IsCleanedUp compressed uploaded true refl

answered_job_example :
    (((ok : Bool) × ((start compressed).place ≡ settled ok))
      ⊎ ((i : Input) × (awaited i (start compressed).place ≡ true)))
    × ((i : Input)
        → Moves
            (awaited i (start compressed).place)
            (start compressed).place
            (step i (start compressed)).place)
    × (rank (start compressed).place ≤ 6)
answered_job_example = answered_job_ends (start compressed)
