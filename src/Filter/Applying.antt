-- ===== src/Filter/Applying.antt =====
-- When the parameters of the filter are passed on.
use job_mon.Base.{
  Bool-cases, List, String, [], ap, false, inl, inr, none, refl, some, true, ℕ, ◌||◌, ◌∙◌, ◌∷◌, ◌≡◌,
}
use job_mon.Filter.{
  Edit, Filter, JobSearchParams, apply_effect, click_apply, edit, edits, gpus_slide, is_at,
  lower_gpus_edit, lower_nodes_edit, nodes_slide, partition_edit, passed_if, running_edit,
  set_lower_gpus, set_lower_nodes, set_upper_gpus, set_upper_nodes, tags_edit, time_from_edit,
  time_reset, time_to_edit, upper_gpus_edit, upper_nodes_edit, user_name_edit,
}
use job_mon.Job.{JobTag}

lower_nodes-kept :
    (shown : JobSearchParams) (val : ℕ) (s : Filter)
    → (set_lower_nodes shown val s).should_apply ≡ s.should_apply
unfolding set_lower_nodes
lower_nodes-kept shown val s = elim (Bool-cases (is_at s.left_thumb val)) [
  | inl same ↦ rw (same) refl
  | inr other ↦ rw (other) refl
]

upper_nodes-kept :
    (shown : JobSearchParams) (val : ℕ) (s : Filter)
    → (set_upper_nodes shown val s).should_apply ≡ s.should_apply
unfolding set_upper_nodes
upper_nodes-kept shown val s = elim (Bool-cases (is_at s.right_thumb val)) [
  | inl same ↦ rw (same) refl
  | inr other ↦ rw (other) refl
]

lower_gpus-kept :
    (shown : JobSearchParams) (val : ℕ) (s : Filter)
    → (set_lower_gpus shown val s).should_apply ≡ s.should_apply
unfolding set_lower_gpus
lower_gpus-kept shown val s = elim (Bool-cases (is_at s.left_thumb val)) [
  | inl same ↦ rw (same) refl
  | inr other ↦ rw (other) refl
]

upper_gpus-kept :
    (shown : JobSearchParams) (val : ℕ) (s : Filter)
    → (set_upper_gpus shown val s).should_apply ≡ s.should_apply
unfolding set_upper_gpus
upper_gpus-kept shown val s = elim (Bool-cases (is_at s.right_thumb val)) [
  | inl same ↦ rw (same) refl
  | inr other ↦ rw (other) refl
]

edit-should_apply :
    (params : JobSearchParams) (tags : List JobTag) (e : Edit) (s : Filter)
    → (edit params tags e s).should_apply ≡ s.should_apply
unfolding edit set_lower_nodes set_upper_nodes set_lower_gpus set_upper_gpus
edit-should_apply params tags (user_name_edit name) s = refl
edit-should_apply params tags (partition_edit name) s = refl
edit-should_apply params tags (running_edit text) s = refl
edit-should_apply params tags (lower_nodes_edit val) s = lower_nodes-kept s.filter_params val s
edit-should_apply params tags (upper_nodes_edit val) s = upper_nodes-kept s.filter_params val s
edit-should_apply params tags (nodes_slide from to) s =
    upper_nodes-kept s.filter_params to (set_lower_nodes s.filter_params from s)
    ∙ lower_nodes-kept s.filter_params from s
edit-should_apply params tags (lower_gpus_edit val) s = lower_gpus-kept s.filter_params val s
edit-should_apply params tags (upper_gpus_edit val) s = upper_gpus-kept s.filter_params val s
edit-should_apply params tags (gpus_slide from to) s =
    upper_gpus-kept s.filter_params to (set_lower_gpus s.filter_params from s)
    ∙ lower_gpus-kept s.filter_params from s
edit-should_apply params tags (time_from_edit t) s = refl
edit-should_apply params tags (time_to_edit t) s = refl
edit-should_apply params tags (time_reset now) s = refl
edit-should_apply params tags (tags_edit items) s = refl

edits-should_apply :
    (params : JobSearchParams) (tags : List JobTag) (es : List Edit) (s : Filter)
    → (edits params tags es s).should_apply ≡ s.should_apply
edits-should_apply params tags [] s = refl
edits-should_apply params tags (e ∷ es) s =
    edits-should_apply params tags es (edit params tags e s) ∙ edit-should_apply params tags e s

-- If the button has not been clicked, edits of any kind and number pass nothing on where the
-- button is required; the click then passes on exactly the edited parameters and is used up.
-- Where no button is required the edited parameters are passed on at once.
pub apply_effect-edits :
    (params : JobSearchParams) (tags : List JobTag) (es : List Edit) (s : Filter)
    → s.should_apply ≡ false
    → let edited = edits params tags es s in
      ((apply_effect true edited).1 ≡ none)
      × ((apply_effect true (click_apply edited)).1 ≡ some edited.filter_params)
      × ((apply_effect true (click_apply edited)).0.should_apply ≡ false)
      × ((apply_effect false edited).1 ≡ some edited.filter_params)
unfolding apply_effect
apply_effect-edits params tags es s waiting =
    let still = edits-should_apply params tags es s ∙ waiting in
    (
      ap (λ t. passed_if (t || false) (edits params tags es s).filter_params) still,
      refl,
      refl,
      refl,
    )

-- Changing the user name drops every edit made since the parameters were passed on.
pub user_name-drops :
    (params : JobSearchParams) (tags : List JobTag) (es : List Edit) (name : String) (s : Filter)
    → (edit params tags (user_name_edit name) (edits params tags es s)).filter_params
      ≡ (edit params tags (user_name_edit name) s).filter_params
unfolding edit
user_name-drops params tags es name s = refl
