-- ===== src/Log/Lines.antt =====
-- Which messages the log shows.
use job_mon.Log.{empty_log, LogView, is_last, log_of, on_message}
use job_mon.Base.{
  Bool, List, Option, String, [], ◌∷◌, ◌++◌, ◌==◌, ◌≡◌, ◌∙◌, ◌&&◌, not, arith, none, some, sym, ap,
  eq_iff, map, filter,
}
use mathlib.Core.List.{append_assoc, append-nil}

-- Each message with the one before it.
abbrev pub after_previous : Option String → List String → List (Option String × String)
after_previous before [] = []
after_previous before (text ∷ texts) = (before, text) ∷ after_previous (some text) texts

abbrev pub is_new : Option String × String → Bool
is_new (before, text) = not (is_last before text) && not (text == "")

abbrev pub new_lines : Option String → List String → List String
new_lines before texts = map (λ p. p.1) (filter is_new (after_previous before texts))

abbrev log_with : Option String → List String → LogView
log_with last shown = record { last_message = last; messages = shown }

on_message-last :
    (text : String) (last : Option String) (shown : List String)
    → (on_message text (log_with last shown)).last_message ≡ some text
unfolding on_message
on_message-last text none shown = ground arith
on_message-last text (some l) shown = ground (arith, eq_iff l text)

on_message-shown :
    (text : String) (last : Option String) (shown : List String)
    → (on_message text (log_with last shown)).messages ≡ shown ++ new_lines last (text ∷ [])
unfolding on_message
on_message-shown text none shown = ground (arith, append-nil shown)
on_message-shown text (some l) shown = ground (arith, append-nil shown)

new_lines-cons :
    (last : Option String) (text : String) (texts : List String)
    → new_lines last (text ∷ texts) ≡ new_lines last (text ∷ []) ++ new_lines (some text) texts
new_lines-cons none text texts = ground arith
new_lines-cons (some l) text texts = ground arith

log_from-shown :
    (texts : List String) (s : LogView)
    → (log_of texts s).messages ≡ s.messages ++ new_lines s.last_message texts
unfolding log_of
log_from-shown [] s = sym (append-nil s.messages)
log_from-shown (text ∷ texts) s =
    let t = on_message text s in
    let lines = new_lines s.last_message (text ∷ []) in
    log_from-shown texts t
    ∙ ap (λ l. t.messages ++ new_lines l texts) (on_message-last text s.last_message s.messages)
    ∙ ap (λ ms. ms ++ new_lines (some text) texts) (on_message-shown text s.last_message s.messages)
    ∙ append_assoc s.messages lines (new_lines (some text) texts)
    ∙ ap (λ ls. s.messages ++ ls) (sym (new_lines-cons s.last_message text texts))

-- The log shows the messages that differ from the one just before them and are not empty, each in
-- its order: a message that comes twice in a row is shown once.
pub log_of-shown : (texts : List String) → (log_of texts empty_log).messages ≡ new_lines none texts
log_of-shown texts = log_from-shown texts empty_log
