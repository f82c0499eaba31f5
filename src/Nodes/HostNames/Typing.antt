-- ===== src/Nodes/HostNames/Typing.antt =====
-- A number that is typed for a job whose nodes share the letters of their names.
use job_mon.Base.{
  ◌||◌, ap, ◌∙◌, Bool, List, String, [], arith, false, if◌then◌else◌, none, not, refl, some, true,
  ◌&&◌, ◌==◌, ◌∷◌, ◌≡◌,
}
use job_mon.Js.Object.{Object, get, has_own}
use job_mon.Js.Text.{occurs, split}
use job_mon.Js.Text.Decimal.{are_digits}
use job_mon.Js.Text.Laws.{split-whole}
use job_mon.Nodes.{flat_map_parts, node_name}
use job_mon.Nodes.Clicks.{or_items, passed, click, on_text}
use job_mon.Nodes.Parsing.{parse_part-single}
use job_mon.Nodes.HostNames.{first_letters, is_letter, letters, node_prefix}
use job_mon.Nodes.Selecting.{text-selects, IsPlain, names_of}
use Prim.Native.Char.{Char, code}
use Prim.Native.String
use text.Mathlib.TextLemmas.{nil-append, cons-append}

abbrev pub are_letters : String → Bool
are_letters String.[] = true
are_letters (String.◌∷◌ c s) = is_letter (code c) && are_letters s

-- A text that does not go on with a letter.
abbrev pub ends_letters : String → Bool
ends_letters String.[] = true
ends_letters (String.◌∷◌ c s) = not (is_letter (code c))

letters-append :
    (p s : String) → are_letters p ≡ true → ends_letters s ≡ true → letters (String.◌++◌ p s) ≡ p
unfolding letters
letters-append String.[] String.[] h k = refl
letters-append String.[] (String.◌∷◌ c s) h k =
    let other : is_letter (code c) ≡ false = ground arith in rw (nil-append, letters, other)
letters-append (String.◌∷◌ c p) s h k =
    let letter : is_letter (code c) ≡ true = ground arith in
    let rest : are_letters p ≡ true = ground arith in
    rw (cons-append, letters, letter, letters-append p s rest k)

first_letters-append :
    (c : Char) (p s : String)
    → are_letters (String.◌∷◌ c p) ≡ true
    → ends_letters s ≡ true
    → first_letters (String.◌++◌ (String.◌∷◌ c p) s) ≡ some (String.◌∷◌ c p)
unfolding first_letters
first_letters-append c p s h k =
    let letter : is_letter (code c) ≡ true = ground arith in
    let whole = rw (cons-append, letters, letter) at (letters-append (String.◌∷◌ c p) s h k) in
    rw (cons-append, first_letters, letter, letters) (ap some whole)

no_space : (s : String) → are_digits s ≡ true → occurs b' ' s ≡ false
no_space String.[] h = refl
no_space (String.◌∷◌ c s) h =
    let rest : are_digits s ≡ true = ground arith in ground (arith, no_space s rest)

typed_name :
    (d : Char) (ds prefix : String)
    → are_digits (String.◌∷◌ d ds) ≡ true
    → names_of (String.◌∷◌ d ds) prefix ≡ node_name prefix (String.◌∷◌ d ds) ∷ []
unfolding flat_map_parts
typed_name d ds prefix h =
    rw (split-whole b' ' (String.◌∷◌ d ds) (no_space (String.◌∷◌ d ds) h), parse_part-single d ds h)
      refl

or_no_more : (b : Bool) → (b || false) ≡ b
or_no_more true = refl
or_no_more false = refl

text-clicked :
    (str prefix host : String) (items : Object Bool) (k : String)
    → names_of str prefix ≡ host ∷ []
    → IsPlain host
    → get k (click true prefix items (on_text str))
      ≡ (if has_own k items then some (host == k) else none)
unfolding click passed
text-clicked str prefix host items k names plain =
    let (s, same, got) = text-selects str prefix items (rw names (plain, tt)) in
    ap (λ o. get k (or_items items o)) same
    ∙ got k
    ∙ rw names (ap (λ v. if has_own k items then some v else none) (or_no_more (host == k)))

-- Digits that are typed behind the prefix of a node list select the host they name, if it is there, and
-- leave every other host unselected.
pub typed-selects :
    (c d : Char) (p rest ds node_list cluster_id : String) (hosts : List String)
    (items : Object Bool)
    → (let prefix = String.◌∷◌ c p in
        let digits = String.◌∷◌ d ds in
        let host = node_name prefix digits in
        split b'|' node_list ≡ String.◌++◌ prefix rest ∷ hosts
        → are_letters prefix ≡ true
        → ends_letters rest ≡ true
        → are_digits digits ≡ true
        → IsPlain host
        → (k : String)
        → get k (click true (node_prefix node_list cluster_id) items (on_text digits))
          ≡ (if has_own k items then some (host == k) else none))
unfolding node_prefix
typed-selects c d p rest ds node_list cluster_id hosts items parts letters_only over digits plain
      k =
    let prefix = String.◌∷◌ c p in
    let text = String.◌∷◌ d ds in
    let found : node_prefix node_list cluster_id ≡ prefix =
      rw (parts, first_letters-append c p rest letters_only over) refl in
    ap (λ q. get k (click true q items (on_text text))) found
    ∙ text-clicked text prefix (node_name prefix text) items k (typed_name d ds prefix digits) plain
