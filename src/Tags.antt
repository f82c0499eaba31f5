-- ===== src/Tags.antt =====
-- The tags of a job in frontend/components/jobview/TagPanel.tsx. An answer of the backend finds the
-- tags that were shown when its button was clicked.
pub mod Answers
mod Tests
use job_mon.Base.{List, Option, [], eqb, filter, if◌then◌else◌, none, not, some, ℕ, ◌++◌, ◌∷◌}
use job_mon.Job.{JobTag}

-- The effect on `job.Tags`.
unfoldable pub tags_effect : Option (List JobTag) → List JobTag
tags_effect none = []
tags_effect (some given) = given

-- `addTag`: the tags after the answer, which brings the new tag.
unfoldable pub add_tag : (shown : List JobTag) → (status : ℕ) → JobTag → List JobTag → List JobTag
add_tag shown status tag now = if eqb status 200 then shown ++ tag ∷ [] else now

-- `removeTag`
unfoldable pub remove_tag :
    (shown : List JobTag) → (status : ℕ) → JobTag → List JobTag → List JobTag
remove_tag shown status tag now =
    if eqb status 200 then filter (λ t. not (eqb t.id tag.id)) shown else now
