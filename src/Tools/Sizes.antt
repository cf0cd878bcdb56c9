-- ===== src/Tools/Sizes.antt =====
-- `fileSize` of web/src/common/Tools.ts.
use web_ssh_tool.Common.{ℕ, ◌+◌, ◌*◌, ◌≤◌, ◌<◌, ◌≡◌, arith}
use web_ssh_tool.Tools.{Size, gb, mb, kb, bytes, file_size}

-- Hundredths of a unit, no further from the size than half of one, and at least one unit.
abbrev pub IsNear : ℕ → ℕ → ℕ → Type 0
IsNear unit h size =
    (2 * (h * unit) ≤ 200 * size + unit) × (200 * size ≤ 2 * (h * unit) + unit) × (100 ≤ h)

-- What a reader may take from the text of a size.
abbrev pub Tells : ℕ → Size → Type 0
Tells size (gb h n) = (n ≡ size) × IsNear 1073741824 h size × (1073741824 < size)
Tells size (mb h n) = (n ≡ size) × IsNear 1048576 h size × (h ≤ 102400)
Tells size (kb h n) = (n ≡ size) × IsNear 1024 h size × (h ≤ 102400)
Tells size (bytes n) = (n ≡ size) × (size ≤ 1024)

-- Every size is written with its exact number of bytes: alone up to 1024, and otherwise behind a
-- number of KB, MB or GB that is at least 1.00, is no further off than half a hundredth, and is at
-- most 1024.00 for KB and MB.
pub file_size-Tells : (size : ℕ) → Tells size (file_size size)
unfolding file_size
file_size-Tells size = ground arith
