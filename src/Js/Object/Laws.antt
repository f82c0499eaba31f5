-- ===== src/Js/Object/Laws.antt =====
-- Laws of plain objects.
use mathlib.Core.List.{perm_middle}
use mathlib.Core.List.Perm
use job_mon.Base.{
  ℕ, String, ◌≡◌, refl, true, false, ◌||◌, none, some, [], ◌∷◌, Perm, arith, ◌==◌, eq_iff,
  if◌then◌else◌, filter, inl, inr, Option-cases, Bool-cases,
}
use job_mon.Js.Object.{
  Object, get, has_own, put, delete, index_of, is_none, place, indexed, entries,
}

module _ {ℓ} {V : Type ℓ} where
  pub get-put :
      (k j : String) (v : V) (o : Object V)
      → get j (put k v o) ≡ (if k == j then some v else get j o)
  unfolding get put
  get-put k j v [] = refl
  get-put k j v ((i, w) ∷ o) = ground (arith, eq_iff k j, eq_iff i k, eq_iff i j, get-put k j v o)

  pub has_own-put :
      (k j : String) (v : V) (o : Object V) → has_own j (put k v o) ≡ (k == j || has_own j o)
  unfolding has_own put
  has_own-put k j v [] = refl
  has_own-put k j v ((i, w) ∷ o) =
      ground (arith, eq_iff k j, eq_iff i k, eq_iff i j, has_own-put k j v o)

  pub has_own-get : (k : String) (o : Object V) → has_own k o ≡ true → (v : V) × (get k o ≡ some v)
  unfolding has_own get
  has_own-get k [] h = cc
  has_own-get k ((j, v) ∷ o) h = elim (Bool-cases (j == k)) [
    | inl same ↦ (v, rw same)
    | inr other ↦ let (w, e) = has_own-get k o (ground arith) in (w, rw (other, get) e)
  ]

  pub get-none : (k : String) (o : Object V) → has_own k o ≡ false → get k o ≡ none
  unfolding has_own get
  get-none k [] h = refl
  get-none k ((j, v) ∷ o) h = ground (arith, get-none k o)

  pub get-delete :
      (k j : String) (o : Object V) → get j (delete k o) ≡ (if k == j then none else get j o)
  unfolding get delete
  get-delete k j [] = ground arith
  get-delete k j ((i, w) ∷ o) = ground (arith, eq_iff k j, eq_iff i k, eq_iff i j, get-delete k j o)

  -- No name is declared twice.
  abbrev pub IsUnique : Object V → Type 0
  IsUnique [] = Unit
  IsUnique ((k, v) ∷ o) = (has_own k o ≡ false) × IsUnique o

  pub put-IsUnique : (k : String) (v : V) (o : Object V) → IsUnique o → IsUnique (put k v o)
  unfolding put has_own
  put-IsUnique k v [] u = (refl, tt)
  put-IsUnique k v ((j, w) ∷ o) u =
      ground (arith, has_own-put k j v o, eq_iff j k, eq_iff k j, put-IsUnique k v o u.1)

  place-perm : (n : ℕ) (e : String × V) (o : Object V) → Perm (place n e o) (e ∷ o)
  unfolding place
  place-perm n e [] = Perm.rfl
  place-perm n e ((j, w) ∷ o) = ground (
    arith,
    Perm.refl (e ∷ (j, w) ∷ o),
    Perm.trans (Perm.cons (j, w) (place-perm n e o)) (Perm.swap e (j, w) o),
  )

  -- `Object.entries` lists each own property once.
  pub entries-perm : (o : Object V) → Perm (entries o) o
  unfolding entries
  entries-perm [] = Perm.nil
  entries-perm ((k, v) ∷ o) =
      let rest = entries-perm o in
      let named = filter (λ e. is_none (index_of e.0)) o in
      elim (Option-cases (index_of k)) [
        | inl e ↦
            rw (e, indexed)
              (Perm.trans (perm_middle {a = (k, v)} (indexed o) named) (Perm.cons (k, v) rest))
        | inr (n, e) ↦
            rw (e, indexed)
              (Perm.trans (Perm.append_right named (place-perm n (k, v) (indexed o)))
                (Perm.cons (k, v) rest))
      ]

-- The two branches of a look-up and of a write, for proofs that keep `get` and `put` shut.
module _ {ℓ} {V : Type ℓ} (k j : String) (w : V) (o : Object V) where
  pub get-hit : (j == k) ≡ true → get k ((j, w) ∷ o) ≡ some w
  unfolding get
  get-hit h = rw h

  pub get-miss : (j == k) ≡ false → get k ((j, w) ∷ o) ≡ get k o
  unfolding get
  get-miss h = rw h

  pub put-hit : (v : V) → (j == k) ≡ true → put k v ((j, w) ∷ o) ≡ (j, v) ∷ o
  unfolding put
  put-hit v h = rw h

  pub put-miss : (v : V) → (j == k) ≡ false → put k v ((j, w) ∷ o) ≡ (j, w) ∷ put k v o
  unfolding put
  put-miss v h = rw h
