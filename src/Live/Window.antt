-- ===== src/Live/Window.antt =====
-- The window of a live job.
use job_mon.Cache.{truthy}
use job_mon.Base.{
  Bool-cases, arith, false, inl, inr, ltb, none, refl, Option, [], some, true, ℕ, ◌≡◌, ◌≤◌,
}
use job_mon.Live.{load_for, load_earlier}

load_from-once :
    (time start : ℕ)
    → (after : ℕ) × ((load_for (some time) start).0 ≡ some after)
      × (after ≤ start)
      × (load_for (some time) after ≡ (some after, []))
load_from-once time start = elim (Bool-cases (ltb time start)) [
  | inl earlier ↦ (time, rw earlier refl, ground arith, rw (not_below time) refl)
  | inr later ↦ (start, rw later refl, omega arith, rw later refl)
]
  where
    not_below : (n : ℕ) → ltb n n ≡ false
    not_below n = ground arith

load_for-once :
    (time_start : Option ℕ) (start : ℕ)
    → (after : ℕ) × ((load_for time_start start).0 ≡ some after)
      × (after ≤ start)
      × (load_for time_start after ≡ (some after, []))
load_for-once none start = (start, refl, omega arith, refl)
load_for-once (some time) start = load_from-once time start

-- With an open websocket the window of a live job never moves to a later start, and the effect
-- that asks for earlier data asks once only: on the window that it leaves it does nothing.
pub load_earlier-once :
    (time_start : Option ℕ) (start : ℕ)
    → (after : ℕ) × ((load_earlier true time_start start).0 ≡ some after)
      × (after ≤ start)
      × (load_earlier true time_start after ≡ (some after, []))
unfolding load_earlier
load_earlier-once time_start start = load_for-once (truthy time_start) start
