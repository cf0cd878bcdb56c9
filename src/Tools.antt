-- ===== src/Tools.antt =====
-- web/src/common/Tools.ts: how a size is written, the streams of a command's output, and random ids.
pub mod Sizes
mod Tests
use web_ssh_tool.Common.{
  ℕ, zero, suc, ◌+◌, ◌*◌, ◌/◌, Bool, true, false, List, [], ◌∷◌, ◌++◌, ltb, if◌then◌else◌, Option,
  none, some, get_elem?,
}
use web_ssh_tool.Common.Text.{Text, lit}

-- What `fileSize` writes: hundredths of a unit, which `toFixed(2)` rounds, and the bytes.
pub data Size : Type 0 where
  gb mb kb : ℕ → ℕ → Size
  bytes : ℕ → Size

-- `(size / unit).toFixed(2)`, in hundredths; the quotient is exact, and of two nearest values
-- `toFixed` takes the larger.
abbrev hundredths : ℕ → ℕ → ℕ
hundredths size unit = (size * 100 + unit / 2) / unit

unfoldable pub file_size : ℕ → Size
file_size size =
    if ltb 1073741824 size
    then gb (hundredths size 1073741824) size
    else if ltb 1048576 size
    then mb (hundredths size 1048576) size
    else if ltb 1024 size
    then kb (hundredths size 1024) size
    else bytes size

-- `ProcessPipeLine`, and the three texts of `sliceOutput`.
pub data Chunk : Type 0 where
  stdin stdout stderr : Text → Chunk

pub record Output : Type 0 where
  pub stdout_text : Text
  pub stderr_text : Text
  pub stdin_text : Text

abbrev add_chunk : Chunk → Output → Output
add_chunk (stdin t) o = record o { stdin_text = t ++ o.stdin_text }
add_chunk (stdout t) o = record o { stdout_text = t ++ o.stdout_text }
add_chunk (stderr t) o = record o { stderr_text = t ++ o.stderr_text }

-- The texts of the first chunks stand in front.
unfoldable pub slice_output : List Chunk → Output
slice_output [] = record { stdout_text = []; stderr_text = []; stdin_text = [] }
slice_output (c ∷ output) = add_chunk c (slice_output output)

abbrev pub characters : Text
characters = lit "ABCDEFGHIJKLMNOPQRSTUVWXYZabcdefghijklmnopqrstuvwxyz0123456789"

-- `charAt`, which is empty out of range.
abbrev char_at : Option ℕ → Text
char_at none = []
char_at (some c) = c ∷ []

-- `random i` is `Math.floor(Math.random() * charactersLength)` of the round `i`.
unfoldable pub make_id : (ℕ → ℕ) → ℕ → Text
make_id random zero = []
make_id random (suc n) =
    char_at (get_elem? characters (random 0)) ++ make_id (λ i. random (suc i)) n
