-- ===== src/Live/Merging.antt =====
-- What a message adds to the points that are shown.
use job_mon.Base.{
  arith, All, Bool, List, Option, String, [], false, if◌then◌else◌, none, refl, some, true, ◌++◌,
  ◌∷◌, ◌≡◌,
}
use job_mon.Js.Object.{Object, get, has_own, put}
use job_mon.Js.Object.Laws.{get-none, get-put, has_own-put, IsUnique, has_own-get}
use job_mon.Live.{merge_key, merge_points}
use text.Mathlib.TextEquality.{eq_iff}

module _ {P : Type 0} (undefined_point : P) where
  -- The points of a key, by what is shown and what the message brings.
  abbrev pub joined : Bool → Option (List P) → Option (List P) → Option (List P)
  joined latest shown none = shown
  joined latest none (some new) = none
  joined latest (some shown) (some new) = some (if latest then shown ++ new else new ++ shown)

  merge_key-some :
      (latest : Bool) (new : List P) (shown : Option (List P)) (old : List P)
      → shown ≡ some old
      → merge_key undefined_point latest new shown
        ≡ some (if latest then old ++ new else new ++ old)
  merge_key-some true new shown old e = rw e refl
  merge_key-some false new shown old e = rw e refl

  still_owned :
      (k : String) (v : List P) (shown news : Object (List P))
      → All (λ e. has_own e.0 shown ≡ true) news
      → All (λ e. has_own e.0 (put k v shown) ≡ true) news
  still_owned k v shown [] h = tt
  still_owned k v shown ((j, w) ∷ news) h =
      let own = h.0 in
      (rw (has_own-put k j v shown, own) (ground arith), still_owned k v shown news h.1)

  -- If all keys of a message are shown and none is repeated, merging succeeds: the new points of
  -- each key stand behind the shown ones, or before them for data that was asked for, and other
  -- keys keep theirs.
  pub merge_points-joined :
      (latest : Bool) (news shown : Object (List P))
      → IsUnique news
      → All (λ e. has_own e.0 shown ≡ true) news
      → (r : Object (List P)) × (merge_points undefined_point latest news shown ≡ some r)
        × ((k : String) → get k r ≡ joined latest (get k shown) (get k news))
  unfolding merge_points get has_own
  merge_points-joined latest [] shown u owned = (shown, refl, λ k. refl)
  merge_points-joined latest ((k, new) ∷ news) shown u owned =
      let (old, held) = has_own-get k shown owned.0 in
      let merged = if latest then old ++ new else new ++ old in
      let ih =
        merge_points-joined latest news (put k merged shown) u.1
          (still_owned k merged shown news owned.1) in
      let (r, result, values) = ih in
      (
        r,
        rw (merge_key-some latest new (get k shown) old held) result,
        λ j.
            ground
              (arith, values j, get-put k j merged shown, eq_iff k j, held, get-none k news u.0),
      )
