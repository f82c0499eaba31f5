-- ===== src/Js/Object/Entries.antt =====
-- `Object.entries` against look-ups.
use job_mon.Base.{
  Option-cases, ap, filter, inl, inr, map, none, refl, All, String, [], arith, eq_iff, false, some,
  ◌∷◌, ◌≡◌,
}
use job_mon.Js.Object.{place, indexed, entries, index_of, is_none, keys, Object, get, has_own}
use job_mon.Js.Object.Laws.{IsUnique}
use text.Mathlib.TextPositions.{eq_refl}

module _ {ℓ} {V : Type ℓ} where
  get-below :
      (k : String) (v : V) (whole rest : Object V)
      → has_own k rest ≡ false
      → All (λ e. get e.0 whole ≡ some e.1) rest
      → All (λ e. get e.0 ((k, v) ∷ whole) ≡ some e.1) rest
  unfolding get has_own
  get-below k v whole [] h a = tt
  get-below k v whole ((j, w) ∷ rest) h a =
      (ground (arith, eq_iff k j, eq_iff j k, a.0), get-below k v whole rest (ground arith) a.1)

  -- Where names are unique, each entry is what its name reads.
  pub get-entry : (o : Object V) → IsUnique o → All (λ e. get e.0 o ≡ some e.1) o
  unfolding get
  get-entry [] u = tt
  get-entry ((k, v) ∷ o) u = (rw eq_refl, get-below k v o o u.0 (get-entry o u.1))

module _ {ℓ} {V : Type ℓ} where
  -- An object with one property has one key.
  pub keys-single : (k : String) (v : V) → keys ((k, v) ∷ []) ≡ k ∷ []
  unfolding keys entries indexed place
  keys-single k v = elim (Option-cases (index_of k)) [
    | inl plain ↦ rw (plain, indexed) refl
    | inr (n, index) ↦ rw (index, indexed) refl
  ]

  -- Without integer-like keys the order is that of the creation.
  plain-entries :
      (o : Object V)
      → All (λ e. index_of e.0 ≡ none) o
      → (indexed o ≡ []) × (filter (λ e. is_none (index_of e.0)) o ≡ o)
  unfolding indexed
  plain-entries [] h = (refl, refl)
  plain-entries ((k, v) ∷ o) h =
      let plain = h.0 in
      let rest = plain-entries o h.1 in rw (plain, indexed) (rest.0, ap (λ t. (k, v) ∷ t) rest.1)

  pub keys-plain : (o : Object V) → All (λ e. index_of e.0 ≡ none) o → keys o ≡ map (λ e. e.0) o
  unfolding keys entries
  keys-plain o h = let parts = plain-entries o h in rw (parts.0, parts.1) refl
