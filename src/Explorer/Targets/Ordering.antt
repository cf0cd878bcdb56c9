-- ===== src/Explorer/Targets/Ordering.antt =====
-- The order of the targets of CopyToDialog.tsx.
use web_ssh_tool.Common.{List}
