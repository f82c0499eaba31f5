-- ===== src/Units/Scaling.antt =====
-- `bestPrefix` of frontend/types/units.ts.
use job_mon.Js.Number.{IsScaling, Number}
use job_mon.Units.{MetricUnit, best_prefix, in_range, prefix_at, scaled}
use job_mon.Units.Table.{Prefix, PrefixType, metric, prefixes}
use job_mon.Base.{
  Bool, Option, All, Bool-cases, String, [], arith, false, find, find-All, inl, inr, refl, some,
  true, ◌&&◌, ◌*◌, ◌^◌, ◌∷◌, ◌≡◌, ◌≤◌,
}
use job_mon.Js.Object.{get, keys}
use Prim.Native.Nat.{ℕ}

prefix_names :
    keys prefixes
    ≡ "kilo" ∷ "mega" ∷ "giga" ∷ "tera" ∷ "kibi" ∷ "mebi" ∷ "gibi" ∷ "tebi" ∷ "None" ∷ []
unfolding keys
prefix_names = refl

abbrev IsKey : String → Type 0
IsKey k = (p : Prefix) × (get k prefixes ≡ some p)

prefix_names-IsKey : All IsKey (keys prefixes)
unfolding keys get
prefix_names-IsKey = (
  (_, refl),
  (
    (_, refl),
    ((_, refl), ((_, refl), ((_, refl), ((_, refl), ((_, refl), ((_, refl), ((_, refl), tt))))))),
  ),
)

none-IsKey : IsKey "None"
unfolding get
none-IsKey = (_, refl)

-- The cases after the first test of `bestPrefix`.
module _ (test : String → Bool) where
  abbrev by_type : PrefixType → Option String
  by_type metric = find test (keys prefixes)
  by_type _ = some "None"

  by_type-IsKey : (t : PrefixType) (k : String) → by_type t ≡ some k → IsKey k
  by_type-IsKey metric k h = find-All IsKey test (keys prefixes) k prefix_names-IsKey h
  by_type-IsKey _ k h = let same : k ≡ "None" = ground arith in rw same none-IsKey

module _ (n : Number) where
  -- What `bestPrefix` answers is a key of `Prefixes`.
  pub best_prefix-IsKey :
      (u : MetricUnit n) (k : String)
      → best_prefix n u ≡ some k
      → (p : Prefix) × (get k prefixes ≡ some p)
  unfolding best_prefix
  best_prefix-IsKey u k e = elim (Bool-cases (in_range n u.value)) [
    | inl h ↦ let same : k ≡ "None" = ground arith in rw same none-IsKey
    | inr h ↦
        by_type-IsKey (λ key. in_range n (scaled n u.value (prefix_at key))) u.type.prefix k
          (ground arith)
  ]

module _ (n : Number) (laws : IsScaling n) where
  at_power :
      (v : n.Carrier) (p : Prefix)
      → p.base ≡ 10
      → p.exp ≤ 12
      → in_range n (scaled n v p)
        ≡ (n.le (n.of_ℕ (10 ^ p.exp)) v && n.lt v (n.of_ℕ (1000 * 10 ^ p.exp)))
  unfolding in_range scaled
  at_power v p base small = rw (base, laws.ge_div v p.exp small, laws.lt_div v p.exp small)

  -- A value that is not below a bound has reached it.
  reached :
      (v : n.Carrier) (m : ℕ)
      → n.le (n.of_ℕ 1) v ≡ true
      → n.lt v (n.of_ℕ m) ≡ false
      → n.le (n.of_ℕ m) v ≡ true
  reached v m one h = elim (Bool-cases (n.le (n.of_ℕ m) v)) [
    | inl yes_le ↦ yes_le
    | inr no_le ↦ absurd (cc (laws.total v m one no_le))
  ]

  fits :
      (v : n.Carrier) (p : Prefix)
      → p.base ≡ 10
      → p.exp ≤ 12
      → n.le (n.of_ℕ (10 ^ p.exp)) v ≡ true
      → n.lt v (n.of_ℕ (1000 * 10 ^ p.exp)) ≡ true
      → in_range n (scaled n v p) ≡ true
  fits v p base small h k = rw (at_power v p base small, h, k)

  misses :
      (v : n.Carrier) (p : Prefix)
      → p.base ≡ 10
      → p.exp ≤ 12
      → n.lt v (n.of_ℕ (1000 * 10 ^ p.exp)) ≡ false
      → in_range n (scaled n v p) ≡ false
  misses v p base small k =
      rw (at_power v p base small, k) (and_false (n.le (n.of_ℕ (10 ^ p.exp)) v))
    where
      and_false : (b : Bool) → (b && false) ≡ false
      and_false true = refl
      and_false false = refl

  -- If dividing by the powers of ten up to 10^12 compares with 1 and 1000 as exact division does,
  -- a metric value from 1 up to 10^15 gets a decimal prefix (or none, below 1000), by which the
  -- value comes to lie between 1 and 1000.
  pub best_prefix-scales :
      (u : MetricUnit n)
      → u.type.prefix ≡ metric
      → n.le (n.of_ℕ 1) u.value ≡ true
      → n.lt u.value (n.of_ℕ 1_000_000_000_000_000) ≡ true
      → (k : String) × (p : Prefix) × (best_prefix n u ≡ some k)
        × (get k prefixes ≡ some p)
        × (p.base ≡ 10)
        × (in_range n (scaled n u.value p) ≡ true)
  unfolding best_prefix keys get
  best_prefix-scales u m one top =
      let v = u.value in
      elim (Bool-cases (n.lt v (n.of_ℕ 1000))) [
        | inl h ↦ (
          "None",
          prefix_at "None",
          ground arith,
          refl,
          refl,
          fits v (prefix_at "None") refl (omega arith) one h,
        )
        | inr h3 ↦
            let miss0 : in_range n v ≡ false = ground arith in
            elim (Bool-cases (n.lt v (n.of_ℕ 1_000_000))) [
              | inl h ↦
                  let hit =
                    fits v (prefix_at "kilo") refl (omega arith) (reached v 1000 one h3) h in
                  ("kilo", prefix_at "kilo", ground arith, refl, refl, hit)
              | inr h6 ↦
                  let miss3 = misses v (prefix_at "kilo") refl (omega arith) h6 in
                  elim (Bool-cases (n.lt v (n.of_ℕ 1_000_000_000))) [
                    | inl h ↦
                        let hit =
                          fits v (prefix_at "mega") refl (omega arith) (reached v 1_000_000 one h6)
                            h in
                        ("mega", prefix_at "mega", ground arith, refl, refl, hit)
                    | inr h9 ↦
                        let miss6 = misses v (prefix_at "mega") refl (omega arith) h9 in
                        elim (Bool-cases (n.lt v (n.of_ℕ 1_000_000_000_000))) [
                          | inl h ↦
                              let hit =
                                fits v (prefix_at "giga") refl (omega arith)
                                  (reached v 1_000_000_000 one h9) h in
                              ("giga", prefix_at "giga", ground arith, refl, refl, hit)
                          | inr h12 ↦
                              let miss9 = misses v (prefix_at "giga") refl (omega arith) h12 in
                              let hit =
                                fits v (prefix_at "tera") refl (omega arith)
                                  (reached v 1_000_000_000_000 one h12) top in
                              ("tera", prefix_at "tera", ground arith, refl, refl, hit)
                        ]
                  ]
            ]
      ]
