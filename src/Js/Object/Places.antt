-- ===== src/Js/Object/Places.antt =====
-- The place of a name in the enumeration of an object.
pub mod Uniqueness
use job_mon.Base.{
  ap, is_some, All, All-append, Bool, Bool-cases, List, Option, Option-cases, String, [], arith,
  eq_iff, filter, get_elem?, if◌then◌else◌, inl, inr, ltb, map, none, refl, some, suc, true, ℕ,
  ◌++◌, ◌==◌, ◌||◌, ◌∙◌, ◌∷◌, ◌≡◌,
}
use job_mon.Js.Object.{indexed, place, Object, entries, get, has_own, index_of, is_none, keys}
use job_mon.Js.Object.Entries.{get-entry}
use job_mon.Js.Object.Laws.{IsUnique}
use mathlib.Core.Option

abbrev pub position : String → List String → Option ℕ
position k [] = none
position k (j ∷ ks) = if j == k then some 0 else Option.map suc (position k ks)

module _ {ℓ} {V : Type ℓ} where
  pub has_own-is_some : (k : String) (o : Object V) → has_own k o ≡ is_some (get k o)
  unfolding get has_own
  has_own-is_some k [] = refl
  has_own-is_some k ((j, w) ∷ o) = ground (arith, has_own-is_some k o)

  has_own-append : (k : String) (o p : Object V) → has_own k (o ++ p) ≡ (has_own k o || has_own k p)
  unfolding has_own
  has_own-append k [] p = refl
  has_own-append k ((j, v) ∷ o) p = ground (arith, has_own-append k o p)

  has_own-place :
      (k : String) (n : ℕ) (e : String × V) (o : Object V)
      → has_own k (place n e o) ≡ (e.0 == k || has_own k o)
  unfolding place has_own
  has_own-place k n e [] = refl
  has_own-place k n e ((j, w) ∷ o) = ground (arith, has_own-place k n e o)

  pub has_own-entries : (k : String) (o : Object V) → has_own k (entries o) ≡ has_own k o
  unfolding entries has_own
  has_own-entries k [] = refl
  has_own-entries k ((j, v) ∷ o) =
      let named = filter (λ e. is_none (index_of e.0)) o in
      let ih = has_own-entries k o in
      let parts = has_own-append k (indexed o) named in
      elim (Option-cases (index_of j)) [
        | inl e ↦
            rw (e, indexed)
              (ground (arith, ih, parts, has_own-append k (indexed o) ((j, v) ∷ named)))
        | inr (n, e) ↦
            rw (e, indexed)
              (ground (
                arith,
                ih,
                parts,
                has_own-append k (place n (j, v) (indexed o)) named,
                has_own-place k n (j, v) (indexed o),
              ))
      ]

  module _ {κ} (P : String × V → Type κ) where
    All-place : (n : ℕ) (e : String × V) (o : Object V) → P e → All P o → All P (place n e o)
    unfolding place
    All-place n e [] h a = (h, tt)
    All-place n e ((j, w) ∷ o) h a = elim (Option-cases (index_of j)) [
      | inl plain ↦ rw (plain, place, All) (h, a)
      | inr (m, index) ↦
          rw (index, place, All)
            (elim (Bool-cases (ltb m n)) [
              | inl below ↦ rw (below, All) (a.0, All-place n e o h a.1)
              | inr above ↦ rw (above, All) (h, a)
            ])
    ]

    All-indexed : (o : Object V) → All P o → All P (indexed o)
    unfolding indexed
    All-indexed [] a = tt
    All-indexed ((k, v) ∷ o) a = elim (Option-cases (index_of k)) [
      | inl plain ↦ rw (plain, indexed) (All-indexed o a.1)
      | inr (n, index) ↦
          rw (index, indexed) (All-place n (k, v) (indexed o) a.0 (All-indexed o a.1))
    ]

    All-filter : (p : String × V → Bool) (o : Object V) → All P o → All P (filter p o)
    All-filter p [] a = tt
    All-filter p (e ∷ o) a = elim (Bool-cases (p e)) [
      | inl passes ↦ rw passes (a.0, All-filter p o a.1)
      | inr left_out ↦ rw left_out (All-filter p o a.1)
    ]

    pub All-entries : (o : Object V) → All P o → All P (entries o)
    unfolding entries
    All-entries o a =
        All-append P (indexed o) (filter (λ e. is_none (index_of e.0)) o) (All-indexed o a)
          (All-filter (λ e. is_none (index_of e.0)) o a)

  position-found :
      (k : String) (v : V) (whole es : Object V)
      → All (λ e. get e.0 whole ≡ some e.1) es
      → get k whole ≡ some v
      → has_own k es ≡ true
      → (i : ℕ) × (position k (map (λ e. e.0) es) ≡ some i) × (get_elem? es i ≡ some (k, v))
  unfolding has_own
  position-found k v whole [] a g h = absurd (cc h)
  position-found k v whole ((j, w) ∷ es) a g h = elim (Bool-cases (j == k)) [
    | inl same ↦
        let e : j ≡ k = ground (arith, same, eq_iff j k) in (0, rw same refl, cc (e, a.0, g))
    | inr other ↦
        let (i, at, there) = position-found k v whole es a.1 g (rw other at h) in
        (suc i, rw (other, at) refl, there)
  ]

  -- Where names are unique, a name that reads a value stands with it at its place in the enumeration.
  pub entries-position :
      (k : String) (v : V) (o : Object V)
      → IsUnique o
      → get k o ≡ some v
      → (i : ℕ) × (position k (keys o) ≡ some i) × (get_elem? (entries o) i ≡ some (k, v))
  unfolding keys
  entries-position k v o u g =
      let own : has_own k o ≡ true = has_own-is_some k o ∙ ap is_some g in
      position-found k v o (entries o) (All-entries (λ e. get e.0 o ≡ some e.1) o (get-entry o u)) g
        (has_own-entries k o ∙ own)
