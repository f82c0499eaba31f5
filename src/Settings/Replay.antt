-- ===== src/Settings/Replay.antt =====
-- Addresses that stand once in an array, and what a write at one of them changes.
use job_mon.Base.{
  get_elem?, set_at, All, Bool, List, ℕ, [], ◌∷◌, ◌++◌, ◌<◌, ◌≡◌, ◌||◌, any, ap, arith, eqb,
  eqb_iff, false, map, none, refl, some, suc, true, zero,
}
use job_mon.Settings.{update}

abbrev pub holds : ℕ → List ℕ → Bool
holds a ps = any (λ b. eqb b a) ps

-- No address stands twice.
abbrev pub IsDistinct : List ℕ → Type 0
IsDistinct [] = Unit
IsDistinct (p ∷ ps) = (holds p ps ≡ false) × IsDistinct ps

abbrev pub IsBelow : ℕ → List ℕ → Type 0
IsBelow n ps = All (λ b. b < n) ps

pub holds-IsBelow : (n : ℕ) (ps : List ℕ) → IsBelow n ps → holds n ps ≡ false
holds-IsBelow n [] h = refl
holds-IsBelow n (p ∷ ps) h = ground (arith, holds-IsBelow n ps h.1)

pub IsBelow-suc : (n : ℕ) (ps : List ℕ) → IsBelow n ps → IsBelow (suc n) ps
IsBelow-suc n [] h = tt
IsBelow-suc n (p ∷ ps) h = (omega (arith, h.0), IsBelow-suc n ps h.1)

pub IsBelow-set_at : (n i a : ℕ) (ps : List ℕ) → a < n → IsBelow n ps → IsBelow n (set_at i a ps)
IsBelow-set_at n i a [] l h = tt
IsBelow-set_at n zero a (p ∷ ps) l h = (l, h.1)
IsBelow-set_at n (suc i) a (p ∷ ps) l h = (h.0, IsBelow-set_at n i a ps l h.1)

holds-set_at :
    (i a b : ℕ) (ps : List ℕ)
    → eqb a b ≡ false
    → holds b ps ≡ false
    → holds b (set_at i a ps) ≡ false
holds-set_at i a b [] e h = refl
holds-set_at zero a b (p ∷ ps) e h = ground arith
holds-set_at (suc i) a b (p ∷ ps) e h = ground (arith, holds-set_at i a b ps)

pub IsDistinct-set_at :
    (i a : ℕ) (ps : List ℕ) → IsBelow a ps → IsDistinct ps → IsDistinct (set_at i a ps)
IsDistinct-set_at i a [] b h = tt
IsDistinct-set_at zero a (p ∷ ps) b h = (holds-IsBelow a ps b.1, h.1)
IsDistinct-set_at (suc i) a (p ∷ ps) b h =
    (holds-set_at i a p ps (ground (arith, b.0)) h.0, IsDistinct-set_at i a ps b.1 h.1)

holds-append : (b : ℕ) (ps qs : List ℕ) → holds b (ps ++ qs) ≡ (holds b ps || holds b qs)
holds-append b [] qs = refl
holds-append b (p ∷ ps) qs = ground (arith, holds-append b ps qs)

pub IsDistinct-append :
    (a : ℕ) (ps : List ℕ) → IsBelow a ps → IsDistinct ps → IsDistinct (ps ++ a ∷ [])
IsDistinct-append a [] b h = (refl, tt)
IsDistinct-append a (p ∷ ps) b h =
    (ground (arith, holds-append p ps (a ∷ []), h.0, b.0), IsDistinct-append a ps b.1 h.1)

pub holds-get_elem? : (i a : ℕ) (ps : List ℕ) → get_elem? ps i ≡ some a → holds a ps ≡ true
holds-get_elem? i a [] e = absurd (cc e)
holds-get_elem? zero a (p ∷ ps) e = ground arith
holds-get_elem? (suc i) a (p ∷ ps) e = ground (arith, holds-get_elem? i a ps e)

pub set_at-same : (i a : ℕ) (ps : List ℕ) → get_elem? ps i ≡ some a → set_at i a ps ≡ ps
set_at-same i a [] e = refl
set_at-same zero a (p ∷ ps) e = ground arith
set_at-same (suc i) a (p ∷ ps) e = ap (◌∷◌ p) (set_at-same i a ps e)

module _ {A : Type 0} (f : ℕ → A) where
  -- A write at an address that does not stand in the array is not seen.
  pub map-update :
      (a : ℕ) (v : A) (ps : List ℕ) → holds a ps ≡ false → map (update f a v) ps ≡ map f ps
  map-update a v [] h = refl
  map-update a v (p ∷ ps) h = ground (arith, map-update a v ps)

  -- A write at the address of a place is a write at the place.
  pub map-update-at :
      (i a : ℕ) (v : A) (ps : List ℕ)
      → IsDistinct ps
      → get_elem? ps i ≡ some a
      → map (update f a v) ps ≡ set_at i v (map f ps)
  map-update-at i a v [] d e = refl
  map-update-at zero a v (p ∷ ps) d e =
      let same : p ≡ a = ground arith in ground (arith, map-update a v ps, d.0, eqb_iff p a)
  map-update-at (suc i) a v (p ∷ ps) d e =
      let found = holds-get_elem? i a ps e in
      let other : eqb p a ≡ false = ground (arith, found, d.0, eqb_iff p a) in
      ground (arith, other, map-update-at i a v ps d.1 e)

  pub map-set_at : (i a : ℕ) (ps : List ℕ) → map f (set_at i a ps) ≡ set_at i (f a) (map f ps)
  map-set_at i a [] = refl
  map-set_at zero a (p ∷ ps) = refl
  map-set_at (suc i) a (p ∷ ps) = ap (◌∷◌ (f p)) (map-set_at i a ps)

  pub get_elem?-map-none :
      (ps : List ℕ) (i : ℕ) → get_elem? ps i ≡ none → get_elem? (map f ps) i ≡ none
  get_elem?-map-none [] i e = refl
  get_elem?-map-none (p ∷ ps) zero e = absurd (cc e)
  get_elem?-map-none (p ∷ ps) (suc i) e = get_elem?-map-none ps i e

  pub get_elem?-map-some :
      (ps : List ℕ) (i a : ℕ) → get_elem? ps i ≡ some a → get_elem? (map f ps) i ≡ some (f a)
  get_elem?-map-some [] i a e = absurd (cc e)
  get_elem?-map-some (p ∷ ps) zero a e = ground arith
  get_elem?-map-some (p ∷ ps) (suc i) a e = get_elem?-map-some ps i a e
