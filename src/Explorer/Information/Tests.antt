-- ===== src/Explorer/Information/Tests.antt =====
-- The information on a link (InformationDialog.tsx).
use web_ssh_tool.Common.{◌≡◌, refl, false, none, some, [], ◌∷◌}
use web_ssh_tool.Common.Text.{lit}
use web_ssh_tool.Explorer.Types.{symbolic_link}
use web_ssh_tool.Explorer.Information.{
  path_line, basename_line, type_line, size_line, rest_line, Stat, lines, has_buttons,
}
use web_ssh_tool.Tools.{file_size}

abbrev link : Stat
link = record {
  type = some (some symbolic_link);
  path = some (lit "/a");
  basename = none;
  size = some 7;
  amount = none;
  rest = (lit "realPath", some (lit "/b")) ∷ (lit "parent", none) ∷ [];
}

lines-link :
    lines link
    ≡ path_line (some (lit "/a"))
      ∷ basename_line none
      ∷ type_line (some symbolic_link)
      ∷ size_line (some (file_size 7))
      ∷ rest_line (lit "realPath") (lit "/b")
      ∷ []
unfolding lines
lines-link = refl

no_buttons : has_buttons (some symbolic_link) (some (lit "/a")) ≡ false
unfolding has_buttons
no_buttons = refl
