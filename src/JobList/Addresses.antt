-- ===== src/JobList/Addresses.antt =====
-- What the address of a filter says.
use job_mon.Js.Text.Laws.{split-append, split-whole}
use job_mon.Filter.{JobSearchParams, RangeFilter}
use job_mon.JobList.{appended, bound_text, entry, job_query, range_text}
use job_mon.Js.Object.{is_digit, Object, codes, decimal, get}
use job_mon.Js.Text.{occurs, split}
use job_mon.Js.Text.Decimal.{numeral-is_number, value, numeral, value-numeral}
use job_mon.Metrics.{is_in}
use job_mon.Base.{
  ◌*◌, ◌+◌, ◌-◌, List, Option, String, ℕ, [], ◌∷◌, ◌==◌, ◌≡◌, ◌∙◌, arith, false, true,
  if◌then◌else◌, none, some, refl, sym, ap, eq_iff, Bool-cases, inl, inr,
}
use mathlib.Core.Path.{subst}
use text.Mathlib.TextLemmas.{nil-append, cons-append}
use Prim.Native.Char.{Char, code}
use Prim.Native.String
use mathlib.Core.Option
use job_mon.Base.{◌>>=◌}

no_comma : (n m : ℕ) (s : String) → decimal n (codes s) ≡ some m → occurs b',' s ≡ false
unfolding decimal
no_comma n m String.[] e = refl
no_comma n m (String.◌∷◌ c s) e = elim (Bool-cases (is_digit (code c))) [
  | inl digit ↦
      let rest = no_comma (10 * n + (code c - b'0')) m s (rw digit at e) in ground (arith, rest)
  | inr other ↦ absurd (cc (rw other at e))
]

-- Reading a bound and a range back.
abbrev pub read_bound : String → Option (Option ℕ)
read_bound s = if s == "" then some none else Option.map some (value s)

abbrev pub read_bounds : List String → Option RangeFilter
read_bounds (low ∷ high ∷ []) = do l ← read_bound low; h ← read_bound high; some (l, h)
read_bounds _ = none

abbrev pub read_range : String → Option RangeFilter
read_range s = read_bounds (split b',' s)

read-bound_text : (b : Option ℕ) → read_bound (bound_text b) ≡ some b
read-bound_text none = refl
read-bound_text (some n) = elim (Bool-cases (numeral n == "")) [
  | inl blank ↦
      let same : numeral n ≡ "" = ground (arith, blank, eq_iff (numeral n) "") in
      absurd (cc (rw same at (numeral-is_number n)))
  | inr other ↦ rw (other, value-numeral n) refl
]

bound_text-no_comma : (b : Option ℕ) → occurs b',' (bound_text b) ≡ false
bound_text-no_comma none = refl
bound_text-no_comma (some n) = no_comma 0 n (numeral n) (value-numeral n)

read-bounds :
    (low high : Option ℕ) → read_bounds (bound_text low ∷ bound_text high ∷ []) ≡ some (low, high)
read-bounds low high = rw (read-bound_text low, read-bound_text high) refl

-- The bounds of a range are read back from the text that the address has for it.
pub range_text-round_trip : (r : RangeFilter) → read_range (range_text r) ≡ some r
unfolding range_text
range_text-round_trip (low, high) =
    let comma : Char = "," in
    let comma-append : String.◌++◌ "," (bound_text high) ≡ String.◌∷◌ comma (bound_text high) =
      cons-append comma String.[] (bound_text high)
      ∙ ap (String.◌∷◌ comma) (nil-append (bound_text high)) in
    let rest = split-whole b',' (bound_text high) (bound_text-no_comma high) in
    let parts = split-append comma (bound_text low) (bound_text high) (bound_text-no_comma low) in
    ap read_range (ap (String.◌++◌ (bound_text low)) comma-append)
    ∙ ap read_bounds (parts ∙ ap (◌∷◌ (bound_text low)) rest)
    ∙ read-bounds low high

abbrev pub entry_in : List String → JobSearchParams → String → Option (Option String)
entry_in names params k = if is_in names k then entry k params else some none

appended-finds :
    (key k : String) (names : List String) (params : JobSearchParams) (u : Option String)
    (r : Object String)
    → entry key params ≡ some u
    → entry_in names params k ≡ some (get k r)
    → entry_in (key ∷ names) params k ≡ some (get k (appended key u r))
unfolding get
appended-finds key k names params u r p later = elim (Bool-cases (key == k)) [
  | inl same ↦
      let named : key ≡ k = ground (arith, same, eq_iff key k) in
      let here : entry k params ≡ some u = subst (λ j. entry j params ≡ some u) named p in
      hit u same here
  | inr other ↦ miss u other
]
  where
    nothing : entry k params ≡ some none → entry_in names params k ≡ some none
    nothing here = ground (arith, here)

    hit :
        (v : Option String)
        → (key == k) ≡ true
        → entry k params ≡ some v
        → entry_in (key ∷ names) params k ≡ some (get k (appended key v r))
    hit none same here = rw (same) (here ∙ sym (nothing here) ∙ later)
    hit (some s) same here = rw (same) here

    miss :
        (v : Option String)
        → (key == k) ≡ false
        → entry_in (key ∷ names) params k ≡ some (get k (appended key v r))
    miss none other = rw (other) later
    miss (some s) other = rw (other) later

combined :
    (key k : String) (names : List String) (params : JobSearchParams) (t : Option (Option String))
    (rest : Option (Object String)) (query : Object String)
    → entry key params ≡ t
    → ((r : Object String) → rest ≡ some r → entry_in names params k ≡ some (get k r))
    → (t >>= λ u. rest >>= λ r. some (appended key u r)) ≡ some query
    → entry_in (key ∷ names) params k ≡ some (get k query)
combined key k names params none rest query p later h = absurd (cc h)
combined key k names params (some u) none query p later h = absurd (cc h)
combined key k names params (some u) (some r) query p later h =
    let same : appended key u r ≡ query = ground arith in
    appended-finds key k names params u r p (later r refl) ∙ ap (λ q. some (get k q)) same

pub job_query-finds :
    (names : List String) (params : JobSearchParams) (query : Object String) (k : String)
    → job_query names params ≡ some query
    → entry_in names params k ≡ some (get k query)
unfolding job_query get
job_query-finds [] params query k e = ground arith
job_query-finds (key ∷ names) params query k e =
    combined key k names params (entry key params) (job_query names params) query refl
      (λ r q. job_query-finds names params r k q) e
