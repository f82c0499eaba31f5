-- ===== src/Live/Tests.antt =====
-- Runs of a live job.
use job_mon.Live.Sockets.{
  Deps, close_socket, opened_by, socket_effect, socket_run, socket_run-closed, unconnected,
}
use job_mon.Base.{Bool, take, List, String, [], false, none, refl, some, true, ℕ, ◌∷◌, ◌≡◌}
use job_mon.Js.Object.{Object, get, has_own}
use job_mon.Live.{merge_points}
use job_mon.Live.Merging.{joined, merge_points-joined}

abbrev no_point : ℕ
no_point = 0

abbrev shown : Object (List ℕ)
shown = ("n1", 1 ∷ 2 ∷ []) ∷ ("n2", 5 ∷ []) ∷ []

abbrev news : Object (List ℕ)
news = ("n1", 3 ∷ []) ∷ []

appended :
    merge_points no_point true news shown ≡ some (("n1", 1 ∷ 2 ∷ 3 ∷ []) ∷ ("n2", 5 ∷ []) ∷ [])
unfolding merge_points
appended = refl

-- Points of a key that is not shown make the effect throw, or put `undefined` into the data.
unknown_key :
    (merge_points no_point true (("n3", 3 ∷ []) ∷ []) shown ≡ none)
    × (merge_points no_point false (("n3", 3 ∷ []) ∷ []) [] ≡ some (("n3", 3 ∷ 0 ∷ []) ∷ []))
unfolding merge_points
unknown_key = (refl, refl)

merge_points-joined_example :
    (r : Object (List ℕ)) × (merge_points no_point true news shown ≡ some r)
    × ((k : String) → get k r ≡ joined no_point true (get k shown) (get k news))
unfolding has_own
merge_points-joined_example = merge_points-joined no_point true news shown (refl, tt) (refl, tt)

-- A job that is loading, runs with metrics, is drawn again, and is left for one that has ended.
abbrev renderings : List (Bool × Deps)
renderings =
    (false, (none, none))
    ∷ (true, (some true, some 4))
    ∷ (true, (some true, some 4))
    ∷ (true, (some true, some 5))
    ∷ (true, (some false, some 5))
    ∷ []

one_socket :
    ((socket_run (take 4 renderings) unconnected).open_sockets ≡ 1 ∷ [])
    × ((socket_run renderings unconnected).open_sockets ≡ [])
    × ((socket_run renderings unconnected).next ≡ 2)
unfolding socket_run socket_effect
one_socket = (refl, refl, refl)

socket_run-closed_example :
    ((socket_run renderings unconnected).open_sockets
      ≡ opened_by (socket_run renderings unconnected).ws)
    × ((close_socket (socket_run renderings unconnected)).open_sockets ≡ [])
    × ((close_socket (socket_run renderings unconnected)).ws ≡ none)
socket_run-closed_example = socket_run-closed renderings
