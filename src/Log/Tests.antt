-- ===== src/Log/Tests.antt =====
-- A run of the log.
use job_mon.Log.Lines.{new_lines}
use job_mon.Base.{List, String, [], ◌∷◌, ◌≡◌, none, refl}

abbrev sent : List String
sent = "start" ∷ "poll" ∷ "poll" ∷ "stop" ∷ "poll" ∷ []

-- A message that comes twice in a row is shown once.
lost : new_lines none sent ≡ "start" ∷ "poll" ∷ "stop" ∷ "poll" ∷ []
lost = refl
