-- ===== src/Tags/Answers.antt =====
-- Tags that come and go.
use job_mon.Base.{
  Bool-cases, List, [], any, arith, eqb, eqb_iff, false, filter, if◌then◌else◌, inl, inr, not, refl,
  ℕ, ◌++◌, ◌∷◌, ◌≡◌,
}
use job_mon.Job.{JobTag}
use job_mon.Tags.{add_tag, remove_tag}

filter-fresh :
    (tag : JobTag) (shown : List JobTag)
    → any (λ t. eqb t.id tag.id) shown ≡ false
    → filter (λ t. not (eqb t.id tag.id)) (shown ++ tag ∷ []) ≡ shown
filter-fresh tag [] h = rw ((eqb_iff tag.id tag.id).1 refl) refl
filter-fresh tag (t ∷ shown) h =
    let other : eqb t.id tag.id ≡ false = ground arith in
    let rest : any (λ t. eqb t.id tag.id) shown ≡ false = ground arith in
    rw (other, filter-fresh tag shown rest) refl

-- A tag with a new id that is added, and removed after it is shown, leaves the tags as they were;
-- if the removal fails the tag stays.
pub remove-add :
    (tag : JobTag) (shown : List JobTag) (status : ℕ)
    → any (λ t. eqb t.id tag.id) shown ≡ false
    → let added = add_tag shown 200 tag shown in
      remove_tag added status tag added ≡ (if eqb status 200 then shown else added)
unfolding add_tag remove_tag
remove-add tag shown status fresh = elim (Bool-cases (eqb status 200)) [
  | inl done ↦ rw (done) (filter-fresh tag shown fresh)
  | inr failed ↦ rw (failed) refl
]

-- Two tags that are added before an answer arrives: the second answer drops the first tag.
pub add-add_lost :
    (first second : JobTag) (shown : List JobTag)
    → add_tag shown 200 second (add_tag shown 200 first shown) ≡ shown ++ second ∷ []
unfolding add_tag
add-add_lost first second shown = refl
