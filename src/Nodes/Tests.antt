-- ===== src/Nodes/Tests.antt =====
-- Runs of the node selection.
use job_mon.Nodes.HostNames.{letters, node_prefix}
use job_mon.Nodes.HostNames.Showing.{typed-shows}
use job_mon.Nodes.Clicks.{click, Click, clicks, on_button, on_node, on_text}
use job_mon.Nodes.Clicks.Hosts.{is_host}
use job_mon.Nodes.Clicks.Refining.{choose_run, clicks-refine}
use job_mon.Js.Text.{split}
use job_mon.Base.{List, Bool, [], false, if◌then◌else◌, none, refl, some, true, ◌∷◌, ◌≡◌}
use job_mon.Js.Object.{has, index_of, is_inherited, put, Object, get, has_own}
use job_mon.Nodes.{selected, node_name, all_host_selection, flat_map_parts, node, parse_selection}

abbrev hosts : Object Bool
hosts = ("m0001", true) ∷ ("m0002", false) ∷ ("m0012", true) ∷ []

all_hosts : all_host_selection "m1|m2" ≡ ("m1", true) ∷ ("m2", true) ∷ []
unfolding all_host_selection put
all_hosts = refl

parsed :
    parse_selection "1 x[11-12]" "m"
    ≡ ("all", false) ∷ ("m0001", true) ∷ ("m0011", true) ∷ ("m0012", true) ∷ []
unfolding parse_selection
parsed = refl

one_node : node (some (("m1", false) ∷ ("m2", true) ∷ [])) ≡ some "m2"
unfolding node
one_node = refl

-- One node off, all on, two by their numbers, all on again.
abbrev events : List Click
events = on_node "m0002" ∷ on_button ∷ on_text "[11-12]" ∷ on_node "m0001" ∷ []

clicked :
    clicks true "m" (all_host_selection "m0001|m0002|m0012") events
    ≡ ("m0001", true) ∷ ("m0002", false) ∷ ("m0012", true) ∷ []
unfolding clicks all_host_selection put has has_own is_inherited
clicked = refl

clicks-refine_example :
    get "m0012" (clicks true "m" (all_host_selection "m0001|m0002|m0012") events) ≡ (
      if is_host "m0012" (split b'|' "m0001|m0002|m0012")
      then some (choose_run "m" (split b'|' "m0001|m0002|m0012") (λ _. true) events "m0012")
      else none)
unfolding flat_map_parts split index_of node_name is_inherited
clicks-refine_example =
    clicks-refine "m" "m0001|m0002|m0012" events
      ((refl, refl), (tt, (((refl, refl, refl), ((refl, refl, refl), tt)), ((refl, refl), tt))))
      "m0012"

-- A job on two nodes, of which "12" names the second.
abbrev after_typing : Object Bool
after_typing =
    click true (node_prefix "m0001|m0012" "") (("m0001", true) ∷ ("m0012", true) ∷ [])
      (on_text "12")

typed-shows_example :
    (selected after_typing ≡ node_name "m" "12" ∷ [])
    × (node (some after_typing) ≡ some (node_name "m" "12"))
unfolding split node_name has_own index_of is_inherited
typed-shows_example =
    typed-shows "m" "1" "" "0001" "2" "m0001|m0012" "" "m0001" ("m0012" ∷ [])
      (("m0001", true) ∷ ("m0012", true) ∷ []) refl refl refl refl (refl, refl, refl)
      (refl, (refl, tt)) refl refl refl

cluster_prefix : node_prefix "0001|0002" "horeka" ≡ "horeka"
unfolding node_prefix letters
cluster_prefix = refl
