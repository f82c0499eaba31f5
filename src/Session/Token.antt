-- ===== src/Session/Token.antt =====
-- What a token says of the user.
use job_mon.Base.{Bool-cases, inl, inr, Option, String, false, some, ◌==◌, ◌≡◌}
use job_mon.Js.Text.{occurs}
use job_mon.Js.Text.Laws.{split-append, split-whole}
use job_mon.Session.{AuthUser, get_user}
use Prim.Native.Char.{Char}
use Prim.Native.String
use text.Mathlib.TextLemmas.{append-ne-nil_of_right_ne-nil}
use text.Mathlib.TextEquality.{eq_iff}

module _ (parse : String → Option AuthUser) where
  not_empty : (s t : String) (c : Char) → (String.◌++◌ s (String.◌∷◌ c t) == "") ≡ false
  not_empty s t c = elim (Bool-cases (String.◌++◌ s (String.◌∷◌ c t) == "")) [
    | inl blank ↦ absurd (
        append-ne-nil_of_right_ne-nil s (λ e. cc e)
          ((eq_iff (String.◌++◌ s (String.◌∷◌ c t)) "").0 blank))
    | inr other ↦ other
  ]

  abbrev dot : Char
  dot = "."

  abbrev pub token : String → String → String → String
  token header payload signature =
      String.◌++◌ header (String.◌∷◌ dot (String.◌++◌ payload (String.◌∷◌ dot signature)))

  -- The user of a token of three parts without dots of their own is what the second part parses
  -- to.
  pub get_user-token :
      (header payload signature : String)
      → occurs b'.' header ≡ false
      → occurs b'.' payload ≡ false
      → occurs b'.' signature ≡ false
      → get_user parse (some (token header payload signature)) ≡ parse payload
  unfolding get_user
  get_user-token header payload signature h p s = rw (
    not_empty header (String.◌++◌ payload (String.◌∷◌ dot signature)) dot,
    split-append dot header (String.◌++◌ payload (String.◌∷◌ dot signature)) h,
    split-append dot payload signature p,
    split-whole b'.' signature s,
  )
