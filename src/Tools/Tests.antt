-- ===== src/Tools/Tests.antt =====
-- A size.
use web_ssh_tool.Common.{◌≡◌, refl}
use web_ssh_tool.Tools.{kb, file_size}

file_size-half : file_size 1536 ≡ kb 150 1536
unfolding file_size
file_size-half = refl
