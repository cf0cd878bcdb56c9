-- ===== src/Terminal/Panel/Tests.antt =====
-- A panel of a shell that is resized and then closed.
use web_ssh_tool.Common.{◌≡◌, true, false, List, [], ◌∷◌, any, ◌||◌}
use web_ssh_tool.Common.Text.{lit}
use web_ssh_tool.Terminal.{Iconv, Input, told, resized, answered, close_detail, data_detail, run}
use web_ssh_tool.Terminal.Shell.{is_closing}
use web_ssh_tool.Terminal.Panel.{render, effect, watch, run_command, press}
use web_ssh_tool.Terminal.Panel.Mirror.{after, panel_follows}

abbrev iconv : Iconv
iconv = record { encode = λ text encoding. text; decode = λ d encoding. d }

abbrev before : List Input
before = answered false ∷ told (data_detail (lit "$")) ∷ []

abbrev since : List Input
since =
    resized (record { rows = 24; cols = 60; height = 300; width = 500 }) ∷ told close_detail ∷ []

panel_follows_example :
    let c = after iconv (lit "utf-8") 5 before in
    let p = watch iconv (lit "utf-8") since c (effect c (render c)) in
    (p.closed ≡ (any is_closing before || any is_closing since))
    × ((any is_closing before || any is_closing since) ≡ true
        → (press (run_command (lit "df")) p).0 ≡ [])
    × ((any is_closing before || any is_closing since) ≡ false
        → p.size ≡ (run iconv (lit "utf-8") since c).0.size)
panel_follows_example = panel_follows iconv (lit "utf-8") 5 before since (run_command (lit "df"))
