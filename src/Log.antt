-- ===== src/Log.antt =====
-- The log in frontend/components/settings/LogView.tsx: its messages by the two states of the view,
-- where each message of the websocket is rendered before the next one arrives.
pub mod Lines
mod Tests
use job_mon.Base.{
  Bool, List, Option, String, [], ◌∷◌, ◌++◌, ◌==◌, false, if◌then◌else◌, none, some, true,
}

pub record LogView : Type 0 where
  pub last_message : Option String
  pub messages : List String

abbrev pub empty_log : LogView
empty_log = record { last_message = none; messages = [] }

abbrev pub is_last : Option String → String → Bool
is_last none text = false
is_last (some last) text = last == text

-- `setLastMessage`, and the effect on a message that differs from the last one.
unfoldable pub on_message : String → LogView → LogView
on_message text s =
    if is_last s.last_message text
    then s
    else if text == ""
    then record { last_message = some text; messages = s.messages }
    else record { last_message = some text; messages = s.messages ++ text ∷ [] }

unfoldable pub log_of : List String → LogView → LogView
unfolding on_message
log_of [] s = s
log_of (text ∷ texts) s = log_of texts (on_message text s)
