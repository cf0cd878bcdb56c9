-- ===== src/Explorer/Files/Extensions.antt =====
-- `fileExtension` of FileListTile.tsx.
use web_ssh_tool.Common.{ℕ, ◌≡◌, ◌≢◌, refl, some, List, [], ◌∷◌, ◌++◌, keep, keep-append, All}
use web_ssh_tool.Common.Split.{split_on, split_on-append, split_on_whole}
use web_ssh_tool.Common.Text.{Text}
use web_ssh_tool.Explorer.Types.{file}
use web_ssh_tool.Explorer.Files.{is_filled, last_of, file_extension}

last_of_pushed : (ts : List Text) (t : Text) → last_of (ts ++ t ∷ []) ≡ some t
unfolding last_of
last_of_pushed [] t = refl
last_of_pushed (u ∷ ts) t = rw (last_of_pushed ts t) refl

-- The extension of a plain file is what stands behind the last dot, if that is not empty; but a
-- name without a dot is taken for its own extension.
pub file_extension-append :
    (stem : Text) (c : ℕ) (extension : Text)
    → All (λ d. d ≢ b'.') (c ∷ extension)
    → (file_extension (stem ++ b'.' ∷ c ∷ extension) (some file) ≡ some (c ∷ extension))
      × (file_extension (c ∷ extension) (some file) ≡ some (c ∷ extension))
unfolding file_extension
file_extension-append stem c extension h =
    let whole = split_on_whole b'.' (c ∷ extension) h in
    (
      rw
          (
            split_on-append b'.' stem (c ∷ extension),
            whole,
            keep-append is_filled (split_on b'.' stem) ((c ∷ extension) ∷ []),
          )
          (last_of_pushed (keep is_filled (split_on b'.' stem)) (c ∷ extension)),
      rw whole (unfold last_of in refl),
    )
