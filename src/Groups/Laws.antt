-- ===== src/Groups/Laws.antt =====
-- What `groupBy` answers, and when it throws.
use job_mon.Base.{
  Option-cases, any, refl, Bool-cases, List, String, [], arith, eq_iff, false, filter, inl, inr,
  none, some, true, ◌++◌, ◌==◌, ◌||◌, ◌↔◌, ◌∷◌, ◌≡◌,
}
use job_mon.Groups.{group_by, group_from, add_to_group, group_at}
use job_mon.Js.Object.{Object, get, has, has_own, is_inherited, put}
use job_mon.Js.Object.Laws.{IsUnique, get-none, get-put, has_own-get, has_own-put, put-IsUnique}
use mathlib.Core.List.{append_assoc, append-nil}

module _ {ℓ} {T : Type ℓ} (key_func : T → String) where
  -- A name that is inherited, and no own property of the groups, makes `push` fail.
  add_to_group-none_iff :
      (x : T) (g : Object (List T))
      → (add_to_group key_func x g ≡ none)
        ↔ ((has_own (key_func x) g ≡ false) × (is_inherited (key_func x) ≡ true))
  unfolding add_to_group has
  add_to_group-none_iff x g = (
    λ e. elim (Bool-cases (has_own (key_func x) g)) [
      | inl own ↦
          let (v, found) = has_own-get (key_func x) g own in absurd (cc (fails own v found e))
      | inr other ↦ (other, ground arith)
    ],
    λ h. ground (arith, get-none (key_func x) g h.0),
  )
    where
      fails :
          has_own (key_func x) g ≡ true
          → (v : List T) → get (key_func x) g ≡ some v
          → add_to_group key_func x g ≡ none
          → true ≡ false
      fails own v found e = ground arith

  -- The groups after one round, if it does not throw.
  record Grows (x : T) (g g' : Object (List T)) : Type ℓ where
    members : (k : String) → group_at k g' ≡ group_at k g ++ filter (λ y. key_func y == k) (x ∷ [])
    owned : (k : String) → has_own k g' ≡ (key_func x == k || has_own k g)
    unique : IsUnique g → IsUnique g'

  put-Grows :
      (x : T) (g : Object (List T))
      → Grows x g (put (key_func x) (group_at (key_func x) g ++ x ∷ []) g)
  put-Grows x g = record {
    members = λ k. ground (
      arith,
      get-put (key_func x) k (group_at (key_func x) g ++ x ∷ []) g,
      eq_iff (key_func x) k,
      append-nil (group_at k g),
    );
    owned = λ k. has_own-put (key_func x) k _ g;
    unique = put-IsUnique (key_func x) _ g;
  }

  pub add_to_group-some :
      (x : T) (g g' : Object (List T))
      → add_to_group key_func x g ≡ some g'
      → g' ≡ put (key_func x) (group_at (key_func x) g ++ x ∷ []) g
  unfolding add_to_group has
  add_to_group-some x g g' e = elim (Bool-cases (has_own (key_func x) g)) [
    | inl own ↦ let (v, found) = has_own-get (key_func x) g own in ground arith
    | inr other ↦ let missing = get-none (key_func x) g other in ground arith
  ]

  -- The groups after a loop over `xs`, if it does not throw.
  record IsGrouped (xs : List T) (g g' : Object (List T)) : Type ℓ where
    members : (k : String) → group_at k g' ≡ group_at k g ++ filter (λ y. key_func y == k) xs
    owned : (k : String) → has_own k g' ≡ (any (λ y. key_func y == k) xs || has_own k g)
    unique : IsUnique g → IsUnique g'

  IsGrouped-cons :
      (x : T) (xs : List T) (g g₁ g' : Object (List T))
      → Grows x g g₁
      → IsGrouped xs g₁ g'
      → IsGrouped (x ∷ xs) g g'
  IsGrouped-cons x xs g g₁ g' step rest = record {
    members = λ k.
        let mine = filter (λ y. key_func y == k) (x ∷ []) in
        let others = filter (λ y. key_func y == k) xs in
        ground (arith, step.members k, rest.members k, append_assoc (group_at k g) mine others);
    owned = λ k. ground (arith, step.owned k, rest.owned k);
    unique = λ u. rest.unique (step.unique u);
  }

  group_from-IsGrouped :
      (g : Object (List T)) (xs : List T) (g' : Object (List T))
      → group_from key_func g xs ≡ some g'
      → IsGrouped xs g g'
  unfolding group_from
  group_from-IsGrouped g [] g' e =
      let same : g ≡ g' = ground arith in
      rw (← same) (record { members = λ k. rw append-nil; owned = λ k. refl; unique = λ u. u })
  group_from-IsGrouped g (x ∷ xs) g' e = elim (Option-cases (add_to_group key_func x g)) [
    | inl missing ↦ absurd (cc (rw (missing, group_from) at e))
    | inr (g₁, added) ↦
        let step = rw (← add_to_group-some x g g₁ added) at (put-Grows x g) in
        IsGrouped-cons x xs g g₁ g' step
          (group_from-IsGrouped g₁ xs g' (rw (added, group_from) at e))
  ]

  -- No group has an inherited name.
  abbrev IsClean : Object (List T) → Type 0
  IsClean g = (k : String) → is_inherited k ≡ true → has_own k g ≡ false

  group_from-none_iff :
      (g : Object (List T)) (xs : List T)
      → IsClean g
      → (group_from key_func g xs ≡ none) ↔ (any (λ x. is_inherited (key_func x)) xs ≡ true)
  unfolding group_from
  group_from-none_iff g [] clean = ground arith
  group_from-none_iff g (x ∷ xs) clean = elim (Bool-cases (is_inherited (key_func x))) [
    | inl bad ↦
        let missing = (add_to_group-none_iff x g).1 (clean (key_func x) bad, bad) in
        (λ _. rw bad, λ _. rw (missing, group_from))
    | inr good ↦ elim (Option-cases (add_to_group key_func x g)) [
      | inl missing ↦ absurd (cc (((add_to_group-none_iff x g).0 missing).1, good))
      | inr (g₁, added) ↦
          let kept : IsClean g₁ = still_clean good g₁ added in
          let ih = group_from-none_iff g₁ xs kept in rw (added, good, group_from) ih
    ]
  ]
    where
      still_clean :
          is_inherited (key_func x) ≡ false
          → (g₁ : Object (List T)) → add_to_group key_func x g ≡ some g₁
          → IsClean g₁
      still_clean good g₁ added k bad =
          let grown = put-Grows x g in
          ground (
            arith,
            add_to_group-some x g g₁ added,
            grown.owned k,
            clean k bad,
            eq_iff (key_func x) k,
          )

  -- Grouping throws exactly if some key is the name of a property of `Object.prototype`, such as
  -- a user, a group or a partition called "constructor".
  pub group_by-throws_iff :
      (xs : List T)
      → (group_by key_func xs ≡ none) ↔ (any (λ x. is_inherited (key_func x)) xs ≡ true)
  unfolding group_by has_own
  group_by-throws_iff xs = group_from-none_iff [] xs (λ k _. refl)

  -- If grouping does not throw, each group holds the elements with its key, in their order; a key
  -- has a group exactly if some element has it; and no key has two groups.
  pub group_by-groups :
      (xs : List T) (groups : Object (List T))
      → group_by key_func xs ≡ some groups
      → ((k : String) → group_at k groups ≡ filter (λ x. key_func x == k) xs)
        × ((k : String) → has_own k groups ≡ any (λ x. key_func x == k) xs)
        × IsUnique groups
  unfolding group_by get has_own
  group_by-groups xs groups e =
      let g = group_from-IsGrouped [] xs groups e in
      (g.members, λ k. ground (arith, g.owned k), g.unique tt)
