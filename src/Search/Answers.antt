-- ===== src/Search/Answers.antt =====
-- Answers that arrive while the term changes.
use job_mon.Base.{
  All, false, length, length-append, ◌+◌, Bool, Bool-cases, List, String, [], ap, arith, inl, inr,
  refl, sym, true, ◌++◌, ◌==◌, ◌∙◌, ◌∷◌, ◌≡◌, ◌⊎◌,
}
use job_mon.Search.{
  category_entries, current_results, Search, SearchResult, is_searched, receive_answer,
  search_effect, set_search_term,
}

length-all :
    (us js ts : List SearchResult) → length us + length js + length ts ≡ length ((us ++ js) ++ ts)
length-all us js ts = omega (arith, length-append (us ++ js) ts, length-append us js)

-- Every entry of the category selection, for an administrator or not, states the number of the
-- results that choosing it shows.
pub category_numbers :
    (is_admin : Bool) (us js ts : List SearchResult) (load_users load_jobs load_tags : Bool)
    → All
        (λ e. e.number ≡ length (current_results e.category us js ts))
        (category_entries is_admin us js ts load_users load_jobs load_tags)
unfolding category_entries current_results
category_numbers true us js ts load_users load_jobs load_tags =
    (length-all us js ts, (refl, (refl, (refl, tt))))
category_numbers false us js ts load_users load_jobs load_tags =
    (length-all us js ts, (refl, (refl, tt)))

module _ (allowed : Bool) (answers : String → List SearchResult) where
  abbrev pub EndsWith : List String → String → Type 0
  EndsWith pending term = (before : List String) × (pending ≡ before ++ term ∷ [])

  -- A term that is searched for is the last one on its way, or its results are there.
  abbrev pub IsCurrent : Search → Type 0
  IsCurrent s =
      is_searched allowed s.term ≡ true
      → EndsWith s.pending s.term ⊎ ((s.pending ≡ []) × (s.results ≡ answers s.term))

  pub IsCurrent-typed :
      (new : String) (s : Search) → IsCurrent s → IsCurrent (set_search_term allowed new s)
  unfolding set_search_term search_effect
  IsCurrent-typed new s h = elim (Bool-cases (s.term == new)) [
    | inl same ↦ rw same h
    | inr other ↦ rw other (elim (Bool-cases (is_searched allowed new)) [
      | inl searched ↦ rw searched (λ _. inl (s.pending, refl))
      | inr short ↦ rw short (λ e. absurd (cc (e, short)))
    ])
  ]

  pub IsCurrent-answered :
      (term : String) (after : List String) (s : Search)
      → s.pending ≡ term ∷ after
      → IsCurrent s
      → IsCurrent (receive_answer answers [] term after s)
  unfolding receive_answer
  IsCurrent-answered term after s e h searched = elim (h searched) [
    | inl (before, last) ↦ rest before after (sym e ∙ last)
    | inr (nothing, results) ↦ absurd (cc (sym e ∙ nothing))
  ]
    where
      rest :
          (before after : List String)
          → term ∷ after ≡ before ++ s.term ∷ []
          → EndsWith after s.term ⊎ ((after ≡ []) × (answers term ≡ answers s.term))
      rest [] after p = inr (ground arith, ap answers (ground arith))
      rest (b ∷ before) after p = inl (before, ground arith)
