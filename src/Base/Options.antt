-- ===== src/Base/Options.antt =====
-- `Option.map` read backwards.
use mathlib.Core.Option
use mathlib.Core.Path.{◌≡◌, refl}
use mathlib.Core.Option.{Option, none, some}
use mathlib.Core.Logic.{◌↔◌}
use mathlib.Core.Bool.{Bool, true, false}
use native.Mathlib.Omega.{arith}

-- The first `none` ends a chain.
infixl 5 ◌>>=◌
abbrev pub ◌>>=◌ {ℓ κ} : {A : Type ℓ} {B : Type κ} → Option A → (A → Option B) → Option B
none >>= f = none
some a >>= f = f a

module _ {ℓ κ} {A : Type ℓ} {B : Type κ} (f : A → B) where
  pub some-map :
      (o : Option A) (b : B) → Option.map f o ≡ some b → (a : A) × (o ≡ some a) × (f a ≡ b)
  some-map none b e = absurd (cc e)
  some-map (some a) b e = (a, refl, ground arith)

  pub map-none_iff : (o : Option A) → (Option.map f o ≡ none) ↔ (o ≡ none)
  map-none_iff none = (λ _. refl, λ _. refl)
  map-none_iff (some a) = (λ e. absurd (cc e), λ e. absurd (cc e))

module _ {ℓ} {A : Type ℓ} where
  abbrev pub is_some : Option A → Bool
  is_some none = false
  is_some (some a) = true

  pub is_some-some : (o : Option A) → is_some o ≡ true → (a : A) × (o ≡ some a)
  is_some-some none h = absurd (cc h)
  is_some-some (some a) h = (a, refl)
