-- ===== src/JobOrder/Length.antt =====
-- The job list sorted by job length: finished jobs by run time, then running jobs by start.
use job_mon.Base.{All, List, [], arith, false, filter, not, reverse, true, ◌++◌, ◌∷◌, ◌≡◌, ◌≤◌}
use job_mon.Job.{JobMetadata}
use job_mon.JobOrder.{by_length, joblength, ordered, run_time}
use job_mon.Js.Array.{is_negative, sort}
use job_mon.Js.Array.Laws.{IsSorted, filter-IsSorted, sort-IsSorted}
use job_mon.Js.Array.Order.{
  All-across, All-reverse, IsSorted-append, IsSorted-reverse, IsSorted-weaken, filter-passes,
  Flipped,
}

module _ {F : Type 0} where
  abbrev IsFinished : JobMetadata F → Type 0
  IsFinished j = j.is_running ≡ false

  abbrev IsRunning : JobMetadata F → Type 0
  IsRunning j = j.is_running ≡ true

  -- The order that `by_length` sorts by: running jobs first.
  abbrev Precedes : JobMetadata F → JobMetadata F → Type 0
  Precedes a b =
      (IsRunning b → IsRunning a)
      × (IsFinished a → IsFinished b → run_time b ≤ run_time a)
      × (IsRunning a → IsRunning b → a.start_time ≤ b.start_time)

  Precedes-trans : (a b c : JobMetadata F) → Precedes a b → Precedes b c → Precedes a c
  Precedes-trans a b c p q = ground arith

  by_length-before : (a b : JobMetadata F) → is_negative (by_length a b) ≡ true → Precedes a b
  unfolding by_length
  by_length-before a b h = ground arith

  by_length-after : (a b : JobMetadata F) → is_negative (by_length a b) ≡ false → Precedes b a
  unfolding by_length
  by_length-after a b h = ground arith

  sort-Precedes : (jobs : List (JobMetadata F)) → IsSorted Precedes (sort by_length jobs)
  sort-Precedes = sort-IsSorted Precedes Precedes-trans by_length by_length-before by_length-after

  abbrev finished_of : List (JobMetadata F) → List (JobMetadata F)
  finished_of jobs = filter (λ j. not j.is_running) (sort by_length jobs)

  abbrev running_of : List (JobMetadata F) → List (JobMetadata F)
  running_of jobs = filter (λ j. j.is_running) (sort by_length jobs)

  -- A list of finished jobs by `T`, then running jobs by `S`.
  abbrev pub Listed :
      (T S : JobMetadata F → JobMetadata F → Type 0) → JobMetadata F → JobMetadata F → Type 0
  Listed T S a b =
      (IsRunning a → IsRunning b)
      × (IsFinished a → IsFinished b → T a b)
      × (IsRunning a → IsRunning b → S a b)

  abbrev pub Longer : JobMetadata F → JobMetadata F → Type 0
  Longer a b = run_time b ≤ run_time a

  abbrev pub Earlier : JobMetadata F → JobMetadata F → Type 0
  Earlier a b = a.start_time ≤ b.start_time

  Listed-append :
      (T S : JobMetadata F → JobMetadata F → Type 0) (finished running : List (JobMetadata F))
      → All IsFinished finished
      → All IsRunning running
      → IsSorted T finished
      → IsSorted S running
      → IsSorted (Listed T S) (finished ++ running)
  Listed-append T S finished running f r t s =
      IsSorted-append (Listed T S) finished running
        (IsSorted-weaken T (Listed T S) IsFinished
          (λ a b fa fb h. (λ ra. absurd (cc (ra, fa)), λ _ _. h, λ ra _. absurd (cc (ra, fa))))
          finished f t)
        (IsSorted-weaken S (Listed T S) IsRunning
          (λ a b ra rb h. (λ _. rb, λ fa _. absurd (cc (ra, fa)), λ _ _. h)) running r s)
        (All-across (Listed T S) IsFinished IsRunning
          (λ a b fa rb. (λ _. rb, λ _ fb. absurd (cc (rb, fb)), λ ra _. absurd (cc (ra, fa))))
          finished running f r)

  finished_of-IsFinished : (jobs : List (JobMetadata F)) → All IsFinished (finished_of jobs)
  finished_of-IsFinished jobs = go (sort by_length jobs)
    where
      go : (xs : List (JobMetadata F)) → All IsFinished (filter (λ j. not j.is_running) xs)
      go [] = tt
      go (x ∷ xs) = ground (arith, go xs)

  running_of-IsRunning : (jobs : List (JobMetadata F)) → All IsRunning (running_of jobs)
  running_of-IsRunning jobs = filter-passes (λ j. j.is_running) (sort by_length jobs)

  finished_of-Longer : (jobs : List (JobMetadata F)) → IsSorted Longer (finished_of jobs)
  finished_of-Longer jobs =
      IsSorted-weaken Precedes Longer IsFinished (λ a b fa fb h. h.1 fa fb) (finished_of jobs)
        (finished_of-IsFinished jobs)
        (filter-IsSorted Precedes (λ j. not j.is_running) (sort by_length jobs)
          (sort-Precedes jobs))

  running_of-Earlier : (jobs : List (JobMetadata F)) → IsSorted Earlier (running_of jobs)
  running_of-Earlier jobs =
      IsSorted-weaken Precedes Earlier IsRunning (λ a b ra rb h. h.2 ra rb) (running_of jobs)
        (running_of-IsRunning jobs)
        (filter-IsSorted Precedes (λ j. j.is_running) (sort by_length jobs) (sort-Precedes jobs))

  -- Sorted by job length, finished jobs stand before running jobs. From the longest down if
  -- "descending" is chosen, running jobs then by start, the earliest first; otherwise both parts
  -- are the other way round.
  pub ordered-lengths :
      (jobs : List (JobMetadata F))
      → IsSorted (Listed Longer Earlier) (ordered joblength true jobs)
        × IsSorted (Listed (Flipped Longer) (Flipped Earlier)) (ordered joblength false jobs)
  unfolding ordered
  ordered-lengths jobs =
      let finished = finished_of-IsFinished jobs in
      let running = running_of-IsRunning jobs in
      let longest = finished_of-Longer jobs in
      let earliest = running_of-Earlier jobs in
      (
        Listed-append Longer Earlier (finished_of jobs) (running_of jobs) finished running longest
            earliest,
        Listed-append (Flipped Longer) (Flipped Earlier) (reverse (finished_of jobs))
            (reverse (running_of jobs)) (All-reverse IsFinished (finished_of jobs) finished)
            (All-reverse IsRunning (running_of jobs) running)
            (IsSorted-reverse Longer (finished_of jobs) longest)
            (IsSorted-reverse Earlier (running_of jobs) earliest),
      )
