-- ===== src/Connection/Tests.antt =====
-- Runs of the modelled `Service` of web/src/App.tsx.
use web_ssh_tool.Common.{List, [], ◌∷◌}
use web_ssh_tool.Connection.{Event, opened, failed, ended, delay_over}

abbrev events : List Event
events = opened ∷ ended ∷ failed ∷ ended ∷ delay_over ∷ []
