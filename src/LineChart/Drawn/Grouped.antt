-- ===== src/LineChart/Drawn/Grouped.antt =====
-- A grouping that puts each index before those behind it: what is assumed of d3's grouping can hold.
use job_mon.Base.{
  All, Bool, Bool-cases, List, Option, String, [], ap, false, if◌then◌else◌, inl, inr, none, refl,
  some, true, ℕ, ◌++◌, ◌==◌, ◌↔◌, ◌∙◌, ◌∷◌, ◌≡◌, ◌≢◌,
}
use job_mon.LineChart.Drawn.{Grouping, IsGrouping}
use text.Mathlib.TextEquality.{eq_iff}

abbrev same_key : Option String → Option String → Bool
same_key none none = true
same_key (some j) (some k) = j == k
same_key _ _ = false

same_key_iff : (j k : Option String) → (same_key j k ≡ true) ↔ (j ≡ k)
same_key_iff none none = (λ _. refl, λ _. refl)
same_key_iff none (some k) = (λ e. absurd (cc e), λ e. absurd (cc e))
same_key_iff (some j) none = (λ e. absurd (cc e), λ e. absurd (cc e))
same_key_iff (some j) (some k) = (λ e. ap some ((eq_iff j k).0 e), λ e. (eq_iff j k).1 (cc e))

abbrev members : Option String → List (Option String × List ℕ) → List ℕ
members k [] = []
members k ((j, is) ∷ gs) = if same_key j k then is else members k gs

abbrev without : Option String → List (Option String × List ℕ) → List (Option String × List ℕ)
without k [] = []
without k ((j, is) ∷ gs) = if same_key j k then gs else (j, is) ∷ without k gs

abbrev put_front : Option String → ℕ → List (Option String × List ℕ) → List (Option String × List ℕ)
put_front k i gs = (k, i ∷ members k gs) ∷ without k gs

unfoldable pub front_grouping : Grouping
front_grouping f [] = []
front_grouping f (i ∷ is) = put_front (f i) i (front_grouping f is)

absent :
    (f : ℕ → Option String) (k : Option String) (gs : List (Option String × List ℕ))
    → All (λ g. g.0 ≢ k) gs
    → (members k gs ≡ []) × (without k gs ≡ gs)
absent f k [] h = (refl, refl)
absent f k ((j, is) ∷ gs) h = elim (Bool-cases (same_key j k)) [
  | inl same ↦ absurd (h.0 ((same_key_iff j k).0 same))
  | inr other ↦
      let rest = absent f k gs h.1 in (rw other rest.0, rw other (ap (◌∷◌ (j, is)) rest.1))
]

without-other :
    (j k : Option String) (gs : List (Option String × List ℕ))
    → All (λ g. g.0 ≢ k) gs
    → All (λ g. g.0 ≢ k) (without j gs)
without-other j k [] h = tt
without-other j k ((m, is) ∷ gs) h = elim (Bool-cases (same_key m j)) [
  | inl same ↦ rw same h.1
  | inr other ↦ rw (other, All) (h.0, without-other j k gs h.1)
]

front_grouping-other :
    (f : ℕ → Option String) (k : Option String) (is : List ℕ)
    → All (λ i. f i ≢ k) is
    → All (λ g. g.0 ≢ k) (front_grouping f is)
unfolding front_grouping
front_grouping-other f k [] h = tt
front_grouping-other f k (i ∷ is) h =
    (h.0, without-other (f i) k (front_grouping f is) (front_grouping-other f k is h.1))

front_grouping-block :
    (f : ℕ → Option String) (k : Option String) (i : ℕ) (block rest : List ℕ)
    → All (λ j. f j ≡ k) (i ∷ block)
    → All (λ j. f j ≢ k) rest
    → front_grouping f (i ∷ block ++ rest) ≡ (k, i ∷ block) ∷ front_grouping f rest
unfolding front_grouping
front_grouping-block f k i [] rest h n =
    let (nothing, same) = absent f k (front_grouping f rest) (front_grouping-other f k rest n) in
    rw (h.0, nothing, same) refl
front_grouping-block f k i (j ∷ block) rest h n =
    let later = front_grouping-block f k j block rest h.1 n in
    let own : same_key k k ≡ true = (same_key_iff k k).1 refl in
    let first : put_front k i ((k, j ∷ block) ∷ front_grouping f rest)
        ≡ (k, i ∷ j ∷ block) ∷ front_grouping f rest =
      rw own refl in
    ap (put_front (f i) i) later
    ∙ ap (λ m. put_front m i ((k, j ∷ block) ∷ front_grouping f rest)) h.0
    ∙ first

pub front_grouping-IsGrouping : IsGrouping front_grouping
unfolding front_grouping
front_grouping-IsGrouping = record { nothing = λ f. refl; first_block = front_grouping-block }
