-- ===== src/SearchPage/Reaching.antt =====
-- The states of the page whose answers arrive in the order of their requests.
use job_mon.Paging.{adjust}
use job_mon.Base.{
  Bool-cases, inl, inr, not, refl, sym, ◌&&◌, ◌++◌, ◌∙◌, ◌≢◌, Bool, List, Option, String, [], arith,
  eq_iff, false, true, ◌∷◌, ◌≡◌,
}
use job_mon.Base.Int.{ℤ}
use job_mon.Search.{
  is_searched, read_term, Search, SearchCategory, SearchResult, receive_answer, search_effect,
  set_search_term,
}
use job_mon.Search.Answers.{IsCurrent-answered, IsCurrent-typed, IsCurrent}
use job_mon.SearchPage.{pages_of, SearchPage, opened_page, rendered, route_term, select}

module _ (is_admin : Bool) (of_users of_jobs of_tags : String → List SearchResult) where
  pub data Step : SearchPage → SearchPage → Type 0 where
    routed : (query : Option String) (p : SearchPage) → Step p (route_term is_admin query p)
    users_answered :
        (term : String) (later : List String) (p : SearchPage)
        → p.users.pending ≡ term ∷ later
        → Step p (record p { users = receive_answer of_users [] term later p.users })
    jobs_answered :
        (term : String) (later : List String) (p : SearchPage)
        → p.jobs.pending ≡ term ∷ later
        → Step p (record p { jobs = receive_answer of_jobs [] term later p.jobs })
    tags_answered :
        (term : String) (later : List String) (p : SearchPage)
        → p.tags.pending ≡ term ∷ later
        → Step p (record p { tags = receive_answer of_tags [] term later p.tags })
    chose : (category : SearchCategory) (p : SearchPage) → Step p (select category p)
    drawn : (p : SearchPage) → Step p (rendered p)

  pub data Reaches (p : SearchPage) : SearchPage → Type 0 where
    here : Reaches p p
    next : {q r : SearchPage} → Reaches p q → Step q r → Reaches p r

  -- Who may not search for users has no results of them, and no request for them.
  abbrev HasNone : Search → Type 0
  HasNone s = is_admin ≡ false → (s.pending ≡ []) × (s.results ≡ [])

  pub record IsFollowing (p : SearchPage) : Type 0 where
    pub users_current : IsCurrent is_admin of_users p.users
    pub jobs_current : IsCurrent true of_jobs p.jobs
    pub tags_current : IsCurrent true of_tags p.tags
    pub no_users : HasNone p.users
    pub jobs_term : p.jobs.term ≡ p.users.term
    pub tags_term : p.tags.term ≡ p.users.term
    pub is_loaded : p.page_is_loading ≡ false

  pub opened-IsFollowing : (page : ℤ) → IsFollowing (opened_page is_admin page)
  unfolding opened_page search_effect
  opened-IsFollowing page = record {
    users_current = λ e. absurd (cc e);
    jobs_current = λ e. absurd (cc e);
    tags_current = λ e. absurd (cc e);
    no_users = λ plain. (refl, refl);
    jobs_term = refl;
    tags_term = refl;
    is_loaded = refl;
  }

  set-term :
      (allowed : Bool) (new : String) (s : Search) → (set_search_term allowed new s).term ≡ new
  unfolding set_search_term search_effect
  set-term allowed new s = ground (arith, eq_iff s.term new)

  set-HasNone : (new : String) (s : Search) → HasNone s → HasNone (set_search_term is_admin new s)
  unfolding set_search_term search_effect
  set-HasNone new s h plain = ground (arith, h plain, plain)

  again : (p : SearchPage) (page : ℤ) → IsFollowing p → IsFollowing (record p { page = page })
  again p page f = record {
    users_current = f.users_current;
    jobs_current = f.jobs_current;
    tags_current = f.tags_current;
    no_users = f.no_users;
    jobs_term = f.jobs_term;
    tags_term = f.tags_term;
    is_loaded = f.is_loaded;
  }

  Step-IsFollowing : {p q : SearchPage} → Step p q → IsFollowing p → IsFollowing q
  unfolding route_term select rendered receive_answer
  Step-IsFollowing (routed query p) f =
      let new = read_term query p.users.term in
      record {
        users_current = IsCurrent-typed is_admin of_users new p.users f.users_current;
        jobs_current = IsCurrent-typed true of_jobs new p.jobs f.jobs_current;
        tags_current = IsCurrent-typed true of_tags new p.tags f.tags_current;
        no_users = set-HasNone new p.users f.no_users;
        jobs_term = set-term true new p.jobs ∙ sym (set-term is_admin new p.users);
        tags_term = set-term true new p.tags ∙ sym (set-term is_admin new p.users);
        is_loaded = f.is_loaded;
      }
  Step-IsFollowing (users_answered term later p e) f = record {
    users_current = IsCurrent-answered is_admin of_users term later p.users e f.users_current;
    jobs_current = f.jobs_current;
    tags_current = f.tags_current;
    no_users = λ plain. absurd (cc ((f.no_users plain).0, e));
    jobs_term = f.jobs_term;
    tags_term = f.tags_term;
    is_loaded = f.is_loaded;
  }
  Step-IsFollowing (jobs_answered term later p e) f = record {
    users_current = f.users_current;
    jobs_current = IsCurrent-answered true of_jobs term later p.jobs e f.jobs_current;
    tags_current = f.tags_current;
    no_users = f.no_users;
    jobs_term = f.jobs_term;
    tags_term = f.tags_term;
    is_loaded = f.is_loaded;
  }
  Step-IsFollowing (tags_answered term later p e) f = record {
    users_current = f.users_current;
    jobs_current = f.jobs_current;
    tags_current = IsCurrent-answered true of_tags term later p.tags e f.tags_current;
    no_users = f.no_users;
    jobs_term = f.jobs_term;
    tags_term = f.tags_term;
    is_loaded = f.is_loaded;
  }
  Step-IsFollowing (chose category p) f = record {
    users_current = f.users_current;
    jobs_current = f.jobs_current;
    tags_current = f.tags_current;
    no_users = f.no_users;
    jobs_term = f.jobs_term;
    tags_term = f.tags_term;
    is_loaded = f.is_loaded;
  }
  Step-IsFollowing (drawn p) f =
      elim (Bool-cases (is_searched true p.users.term && not p.page_is_loading)) [
        | inl test ↦ rw test (again p (adjust (pages_of p) p.page) f)
        | inr test ↦ rw test f
      ]

  pub Reaches-IsFollowing : {p q : SearchPage} → Reaches p q → IsFollowing p → IsFollowing q
  Reaches-IsFollowing here f = f
  Reaches-IsFollowing (next r st) f = Step-IsFollowing st (Reaches-IsFollowing r f)

  -- The results of a search whose term is current and that waits for nothing.
  pub settled_results :
      (allowed : Bool) (found_by : String → List SearchResult) (s : Search)
      → IsCurrent allowed found_by s
      → is_searched allowed s.term ≡ true
      → s.pending ≡ []
      → s.results ≡ found_by s.term
  settled_results allowed found_by s current searched nothing = elim (current searched) [
    | inl (earlier, last) ↦ absurd (no_end earlier (sym nothing ∙ last))
    | inr (_, results) ↦ results
  ]
    where
      no_end : (earlier : List String) → [] ≢ earlier ++ s.term ∷ []
      no_end [] e = cc e
      no_end (b ∷ earlier) e = cc e
