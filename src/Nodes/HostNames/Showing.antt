-- ===== src/Nodes/HostNames/Showing.antt =====
-- The node whose data the page shows after its number was typed.
use job_mon.Js.Object.Places.{has_own-is_some}
use job_mon.Nodes.Clicks.Hosts.{click-IsUnique}
use job_mon.Js.Text.{split}
use job_mon.Js.Text.Decimal.{are_digits}
use job_mon.Nodes.Clicks.{click, on_text}
use job_mon.Nodes.HostNames.{node_prefix}
use job_mon.Nodes.HostNames.Typing.{typed-selects, are_letters, ends_letters}
use job_mon.Nodes.Selecting.{IsPlain}
use job_mon.Base.{
  is_some, length-map, ltb, ap, sym, ◌<◌, ◌∙◌, Bool, Bool-cases, List, String, [], arith, eq_iff,
  false, filter, if◌then◌else◌, inl, inr, length, none, refl, some, true, ◌==◌, ◌∷◌, ◌≡◌,
}
use job_mon.Base.Int.{pos_part, pos, ℤ, ◌+ℤ◌}
use job_mon.Base.Sums.{length-perm, sum_by-map, sum_by-perm, sum_by}
use job_mon.Js.Object.{entries, Object, get, has_own, keys}
use job_mon.Js.Object.Laws.{entries-perm, IsUnique}
use job_mon.Nodes.{Char, node, node_name, or_false, selected}
use mathlib.Core.Path.{fun_ext}
use Prim.Native.Char.{Char}
use Prim.Native.String

abbrev one_if : Bool → ℤ
one_if b = if b then pos 1 else pos 0

module _ {A : Type 0} (p : A → Bool) where
  length-filter : (xs : List A) → pos (length (filter p xs)) ≡ sum_by (λ x. one_if (p x)) xs
  unfolding ◌+ℤ◌
  length-filter [] = refl
  length-filter (x ∷ xs) =
      let ih = length-filter xs in
      elim (Bool-cases (p x)) [
        | inl kept ↦ rw (kept, ← ih) (ground arith)
        | inr left_out ↦ rw (left_out, ← ih) (ground arith)
      ]

none_own :
    (h : String) (o : Object Bool) → has_own h o ≡ false → sum_by (λ e. one_if (h == e.0)) o ≡ pos 0
unfolding has_own ◌+ℤ◌
none_own h [] n = refl
none_own h ((k, v) ∷ o) n =
    let rest = none_own h o (ground arith) in
    let other : (h == k) ≡ false = ground (arith, n, eq_iff h k, eq_iff k h) in
    rw (other, rest) refl

one_own :
    (h : String) (o : Object Bool)
    → IsUnique o
    → has_own h o ≡ true
    → sum_by (λ e. one_if (h == e.0)) o ≡ pos 1
unfolding has_own ◌+ℤ◌
one_own h [] u own = absurd (cc own)
one_own h ((k, v) ∷ o) u own = elim (Bool-cases (h == k)) [
  | inl same ↦
      let e : h ≡ k = ground (arith, same, eq_iff h k) in
      let rest = none_own h o (rw (← e) at u.0) in rw (same, rest) refl
  | inr other ↦
      let rest = one_own h o u.1 (ground (arith, own, other, eq_iff h k, eq_iff k h)) in
      rw (other, rest) refl
]

no_length : {A : Type 0} (xs : List A) → length xs ≡ 0 → xs ≡ []
no_length [] e = refl
no_length (x ∷ xs) e = absurd (omega (arith, e))

single :
    (h : String) (xs : List String)
    → length (filter (λ x. h == x) xs) ≡ 1
    → filter (λ x. h == x) xs ≡ h ∷ []
single h [] e = absurd (omega (arith, e))
single h (x ∷ xs) e = elim (Bool-cases (h == x)) [
  | inl same ↦
      let none_left = no_length (filter (λ y. h == y) xs) (omega (arith, rw same at e)) in
      let here : x ≡ h = sym ((eq_iff h x).0 same) in rw (same, none_left) (ap (λ y. y ∷ []) here)
  | inr other ↦ rw other (single h xs (rw other at e))
]

only_own :
    (h k : String) (o : Object Bool)
    → has_own h o ≡ true
    → or_false (if has_own k o then some (h == k) else none) ≡ (h == k)
only_own h k o own = elim (Bool-cases (has_own k o)) [
  | inl there ↦ rw there refl
  | inr missing ↦ elim (Bool-cases (h == k)) [
    | inl same ↦
        let e : h ≡ k = (eq_iff h k).0 same in absurd (cc (ap (λ n. has_own n o) e, own, missing))
    | inr other ↦ rw (missing, other) refl
  ]
]

selected-single :
    (h : String) (o : Object Bool)
    → IsUnique o
    → has_own h o ≡ true
    → ((k : String) → get k o ≡ (if has_own k o then some (h == k) else none))
    → selected o ≡ h ∷ []
unfolding selected keys
selected-single h o u own got =
    let checked : (λ k. or_false (get k o)) ≡ (λ k. h == k) =
      fun_ext (λ k. ap or_false (got k) ∙ only_own h k o own) in
    let counted : pos (length (filter (λ k. h == k) (keys o))) ≡ pos 1 =
      length-filter (λ k. h == k) (keys o)
      ∙ sum_by-map (λ k. one_if (h == k)) (λ e. e.0) (entries o)
      ∙ sum_by-perm (λ e. one_if (h == e.0)) (entries-perm o)
      ∙ one_own h o u own in
    ap (λ p. filter p (keys o)) checked ∙ single h (keys o) (ap pos_part counted)

two_own :
    (h j : String) (o : Object Bool)
    → has_own h o ≡ true
    → has_own j o ≡ true
    → (h == j) ≡ false
    → 1 < length o
unfolding has_own
two_own h j [] a b other = absurd (cc a)
two_own h j ((k, v) ∷ []) a b other =
    absurd (ground (arith, a, b, other, eq_iff k h, eq_iff k j, eq_iff h j))
two_own h j (e ∷ f ∷ o) a b other = omega arith

length-keys : (o : Object Bool) → length (keys o) ≡ length o
unfolding keys
length-keys o = length-map (λ e. e.0) (entries o) ∙ length-perm (entries-perm o)

own_value : (own v : Bool) → is_some (if own then some v else none) ≡ own
own_value true v = refl
own_value false v = refl

-- The node that is shown if the selection has one host, of several.
shows :
    (h j : String) (o : Object Bool)
    → IsUnique o
    → has_own h o ≡ true
    → has_own j o ≡ true
    → (h == j) ≡ false
    → ((k : String) → get k o ≡ (if has_own k o then some (h == k) else none))
    → (selected o ≡ h ∷ []) × (node (some o) ≡ some h)
unfolding node
shows h j o u own_h own_j other got =
    let one = selected-single h o u own_h got in
    let several : ltb 1 (length (keys o)) ≡ true =
      ground (arith, length-keys o, two_own h j o own_h own_j other) in
    (one, rw (several, one) refl)

-- If the name of the first node of a job is letters and a text that does not begin with one,
-- typing digits that, padded with zeros behind these letters, name one of several nodes of the
-- selection leaves it as the only selected one, whatever was selected before, and the page shows
-- its data. The name is not listed before "all", "all" itself or an inherited one, and the names
-- of the selection are unique.
pub typed-shows :
    (c d : Char) (p rest ds node_list cluster_id another : String) (hosts : List String)
    (items : Object Bool)
    → (let prefix = String.◌∷◌ c p in
        let digits = String.◌∷◌ d ds in
        let host = node_name prefix digits in
        split b'|' node_list ≡ String.◌++◌ prefix rest ∷ hosts
        → are_letters prefix ≡ true
        → ends_letters rest ≡ true
        → are_digits digits ≡ true
        → IsPlain host
        → IsUnique items
        → has_own host items ≡ true
        → has_own another items ≡ true
        → (host == another) ≡ false
        → (let after = click true (node_prefix node_list cluster_id) items (on_text digits) in
            (selected after ≡ host ∷ []) × (node (some after) ≡ some host)))
typed-shows c d p rest ds node_list cluster_id another hosts items parts letters_only over digits
      plain unique own_h own_j other =
    let prefix = String.◌∷◌ c p in
    let text = String.◌∷◌ d ds in
    let host = node_name prefix text in
    let after = click true (node_prefix node_list cluster_id) items (on_text text) in
    let got : (k : String) → get k after ≡ (if has_own k items then some (host == k) else none) =
      typed-selects c d p rest ds node_list cluster_id hosts items parts letters_only over digits
        plain in
    let same : (k : String) → has_own k after ≡ has_own k items =
      λ k. has_own-is_some k after ∙ ap is_some (got k) ∙ own_value (has_own k items) (host == k) in
    shows host another after
      (click-IsUnique (node_prefix node_list cluster_id) items (on_text text) unique)
      (same host ∙ own_h) (same another ∙ own_j) other
      (λ k. got k ∙ ap (λ b. if b then some (host == k) else none) (sym (same k)))
