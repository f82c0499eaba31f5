-- ===== src/Groups/Totals.antt =====
-- Grouping keeps every total.
use job_mon.Js.Object.Entries.{get-entry}
use job_mon.Js.Object.Laws.{entries-perm, get-hit, get-miss, put-hit, put-miss}
use job_mon.Base.{
  All, map, ap, Bool-cases, List, Option-cases, String, [], arith, inl, inr, some, ◌++◌, ◌==◌, ◌∷◌,
  ◌≡◌,
}
use job_mon.Base.Int.{+ℤ_carry, neg_part, pos_part, pos, int_laws, ℤ, ◌+ℤ◌}
use job_mon.Base.Sums.{sum_by-map, sum_by-perm, sum_by_congr, sum_by, sum_by-append}
use job_mon.Groups.{or_nil, add_to_group, group_at, group_by, group_from}
use job_mon.Groups.Laws.{group_by-groups, add_to_group-some}
use job_mon.Js.Object.{entries, Object, get, keys, put}
use mathlib.Core.Path.{◌≡⟨◌⟩◌, ◌∎}

-- The total after one round and the rest of the loop.
advance :
    (one old all new first rest whole : ℤ)
    → one +ℤ old ≡ all +ℤ new
    → new ≡ old +ℤ (first +ℤ pos 0)
    → whole ≡ one +ℤ rest
    → whole ≡ all +ℤ (first +ℤ rest)
advance one old all new first rest whole p q r = omega (
  int_laws,
  ap pos_part p,
  ap neg_part p,
  ap pos_part q,
  ap neg_part q,
  ap pos_part r,
  ap neg_part r,
)

module _ {ℓ} {T : Type ℓ} (weight : T → ℤ) where
  abbrev group_weight : String × List T → ℤ
  group_weight e = sum_by weight e.1

  total-put_nil :
      (k : String) (v : List T)
      → sum_by group_weight (put k v [])
          +ℤ sum_by weight (group_at k (let o : Object (List T) = [] in o))
        ≡ pos 0 +ℤ sum_by weight v
  unfolding put get
  total-put_nil k v = omega int_laws

  total-put :
      (k : String) (v : List T) (o : Object (List T))
      → sum_by group_weight (put k v o) +ℤ sum_by weight (group_at k o)
        ≡ sum_by group_weight o +ℤ sum_by weight v
  total-put k v [] = total-put_nil k v
  total-put k v ((j, w) ∷ o) = elim (Bool-cases (j == k)) [
    | inl same ↦ rw (put-hit k j w o v same, ap (or_nil) (get-hit k j w o same)) (omega int_laws)
    | inr other ↦
        rw (put-miss k j w o v other, ap (or_nil) (get-miss k j w o other))
          (+ℤ_carry (sum_by weight w) _ _ _ _ (total-put k v o))
  ]

  module _ (key_func : T → String) where
    total-group_from :
        (g : Object (List T)) (xs : List T) (g' : Object (List T))
        → group_from key_func g xs ≡ some g'
        → sum_by group_weight g' ≡ sum_by group_weight g +ℤ sum_by weight xs
    unfolding group_from
    total-group_from g [] g' e = let same : g ≡ g' = ground arith in rw (← same) (omega int_laws)
    total-group_from g (x ∷ xs) g' e = elim (Option-cases (add_to_group key_func x g)) [
      | inl missing ↦ absurd (cc (rw (missing, group_from) at e))
      | inr (g₁, added) ↦
          let ih = total-group_from g₁ xs g' (rw (added, group_from) at e) in
          let grown = total-put (key_func x) (group_at (key_func x) g ++ x ∷ []) g in
          let grown' = rw (← add_to_group-some key_func x g g₁ added) at grown in
          let parts = sum_by-append weight (group_at (key_func x) g) (x ∷ []) in
          advance _ _ _ _ _ _ _ grown' parts ih
    ]

    -- If grouping does not throw, the sum over all groups of their sums is the sum over all
    -- elements.
    pub total-group_by :
        (xs : List T) (groups : Object (List T))
        → group_by key_func xs ≡ some groups
        → sum_by (λ k. sum_by weight (group_at k groups)) (keys groups) ≡ sum_by weight xs
    unfolding group_by keys
    total-group_by xs groups e =
        let (_, _, unique) = group_by-groups key_func xs groups e in
        let at_key = λ (k : String). sum_by weight (group_at k groups) in
        sum_by at_key (map (λ e. e.0) (entries groups))
        ≡⟨ sum_by-map at_key (λ e. e.0) (entries groups) ⟩ sum_by (λ e. at_key e.0) (entries groups)
        ≡⟨ sum_by-perm (λ e. at_key e.0) (entries-perm groups) ⟩ sum_by (λ e. at_key e.0) groups
        ≡⟨ sum_by_congr _ _ groups (at_entries groups groups (get-entry groups unique)) ⟩
          sum_by group_weight groups
        ≡⟨ total-group_from [] xs groups e ⟩ pos 0 +ℤ sum_by weight xs
        ≡⟨ (omega int_laws) ⟩ sum_by weight xs ∎
      where
        at_entries :
            (whole rest : Object (List T))
            → All (λ e. get e.0 whole ≡ some e.1) rest
            → All (λ e. sum_by weight (group_at e.0 whole) ≡ sum_by weight e.1) rest
        at_entries whole [] h = tt
        at_entries whole ((k, v) ∷ rest) h =
            (ap (λ o. sum_by weight (or_nil o)) h.0, at_entries whole rest h.1)
