-- ===== src/Build/Tests.antt =====
-- The build of a page with one folder.
use web_ssh_tool.Common.Text.{lit}
use web_ssh_tool.Build.{Nodes, file, other, directory, nil, cons}

abbrev site : Nodes
site =
    cons (file (lit "index"))
      (cons (directory (lit "js") (cons (file (lit "a")) (cons (other (lit "s")) nil))) nil)
