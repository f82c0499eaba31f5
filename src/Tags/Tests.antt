-- ===== src/Tags/Tests.antt =====
-- A run of the tag panel.
use job_mon.Base.{List, String, [], eqb, if◌then◌else◌, refl, ℕ, ◌∷◌, ◌≡◌}
use job_mon.Job.{JobTag}
use job_mon.Tags.{add_tag, remove_tag}
use job_mon.Tags.Answers.{remove-add}

abbrev tag_of : ℕ → String → JobTag
tag_of number text = record { id = number; name = text; type = ""; created_by = "ada" }

abbrev shown : List JobTag
shown = tag_of 1 "slow" ∷ []

remove-add_example :
    let added = add_tag shown 200 (tag_of 2 "io") shown in
    remove_tag added 200 (tag_of 2 "io") added ≡ (if eqb 200 200 then shown else added)
remove-add_example = remove-add (tag_of 2 "io") shown 200 refl
