-- ===== src/Js/Object/Places/Uniqueness.antt =====
-- Unique names in filters and enumerations of an object.
use job_mon.Js.Object.{indexed, place}
use job_mon.Js.Object.Places.{has_own-append, has_own-place}
use job_mon.Js.Object.Places.{has_own-append, has_own-entries, has_own-place}
use job_mon.Base.{
  Option-cases, eq_iff, ltb, ℕ, ◌++◌, Bool, Bool-cases, String, [], arith, false, filter, inl, inr,
  refl, ◌∙◌, ◌∷◌, ◌≡◌,
}
use job_mon.Js.Object.{indexed, place, index_of, is_none, Object, entries, has_own}
use job_mon.Js.Object.Laws.{IsUnique}

module _ {V : Type 0} where
  has_own-filter :
      (k : String) (p : String × V → Bool) (o : Object V)
      → has_own k o ≡ false
      → has_own k (filter p o) ≡ false
  unfolding has_own
  has_own-filter k p [] h = refl
  has_own-filter k p ((j, v) ∷ o) h = ground (arith, has_own-filter k p o)

  pub filter-IsUnique : (p : String × V → Bool) (o : Object V) → IsUnique o → IsUnique (filter p o)
  filter-IsUnique p [] u = tt
  filter-IsUnique p ((k, v) ∷ o) u = elim (Bool-cases (p (k, v))) [
    | inl passes ↦ rw (passes, IsUnique) (has_own-filter k p o u.0, filter-IsUnique p o u.1)
    | inr left_out ↦ rw left_out (filter-IsUnique p o u.1)
  ]

  middle-IsUnique :
      (k : String) (v : V) (o p : Object V)
      → has_own k (o ++ p) ≡ false
      → IsUnique (o ++ p)
      → IsUnique (o ++ (k, v) ∷ p)
  unfolding has_own
  middle-IsUnique k v [] p h u = (h, u)
  middle-IsUnique k v ((j, w) ∷ o) p h u = (
    ground (
      arith,
      u.0,
      h,
      has_own-append j o p,
      has_own-append j o ((k, v) ∷ p),
      eq_iff j k,
      eq_iff k j,
    ),
    middle-IsUnique k v o p (ground arith) u.1,
  )

  place-IsUnique :
      (n : ℕ) (k : String) (v : V) (o p : Object V)
      → has_own k (o ++ p) ≡ false
      → IsUnique (o ++ p)
      → IsUnique (place n (k, v) o ++ p)
  unfolding place has_own
  place-IsUnique n k v [] p h u = (h, u)
  place-IsUnique n k v ((j, w) ∷ o) p h u =
      let after : IsUnique ((j, w) ∷ place n (k, v) o ++ p) = (
        ground (
          arith,
          u.0,
          h,
          has_own-append j o p,
          has_own-append j (place n (k, v) o) p,
          has_own-place j n (k, v) o,
          eq_iff j k,
          eq_iff k j,
        ),
        place-IsUnique n k v o p (ground arith) u.1,
      ) in
      elim (Option-cases (index_of j)) [
        | inl plain ↦ rw (plain, place, IsUnique) (h, u)
        | inr (m, index) ↦
            rw (index, place, IsUnique)
              (elim (Bool-cases (ltb m n)) [
                | inl below ↦ rw (below, IsUnique) after
                | inr above ↦ rw (above, IsUnique) (h, u)
              ])
      ]

  -- An enumeration has no name twice.
  pub entries-IsUnique : (o : Object V) → IsUnique o → IsUnique (entries o)
  unfolding entries
  entries-IsUnique [] u = tt
  entries-IsUnique ((k, v) ∷ o) u =
      let named = filter (λ e. is_none (index_of e.0)) o in
      let rest = entries-IsUnique o u.1 in
      let new = has_own-entries k o ∙ u.0 in
      elim (Option-cases (index_of k)) [
        | inl e ↦ rw (e, indexed) (middle-IsUnique k v (indexed o) named new rest)
        | inr (n, e) ↦ rw (e, indexed) (place-IsUnique n k v (indexed o) named new rest)
      ]
