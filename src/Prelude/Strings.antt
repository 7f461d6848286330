-- ===== src/Prelude/Strings.antt =====
-- The methods of Python's `str` that the program walks a text with, over code points.
use Prim.Native.Nat.{ℕ, zero, suc, ◌+◌, ◌-◌, ◌*◌}
use Prim.Native.Char.{code}
use Prim.Native.String.{String}
use mathlib.Core.Bool.{Bool, true, false, ◌&&◌, ◌||◌}
use mathlib.Core.List.{List, [], ◌∷◌}
use mathlib.Core.Option.{Option, none, some}
use yandex_codeforces_analyz.Prelude.Tests.{leb, ◌==◌, if◌then◌else◌}
use yandex_codeforces_analyz.Prelude.Text.{str_append, str_is_empty, str_eq}
use yandex_codeforces_analyz.Prelude.Int.{ℤ, pos, negsuc}

-- `c.isspace()`
pub is_space : ℕ → Bool
is_space c =
    leb 9 c && leb c 13
    || leb 28 c && leb c 32
    || (c == 133)
    || (c == 160)
    || (c == 5760)
    || leb 8192 c && leb c 8202
    || (c == 8232)
    || (c == 8233)
    || (c == 8239)
    || (c == 8287)
    || (c == 12288)

-- the ends of a line for `splitlines`, but for the pair `\r\n`
is_break : ℕ → Bool
is_break c =
    leb 10 c && leb c 13 || leb 28 c && leb c 30 || (c == 133) || (c == 8232) || (c == 8233)

unfoldable pub lstrip : String → String
unfolding is_space
lstrip String.[] = ""
lstrip (String.◌∷◌ c s) = let rest = lstrip s in if is_space (code c) then rest else String.◌∷◌ c s

unfoldable pub rstrip : String → String
unfolding is_space
rstrip String.[] = ""
rstrip (String.◌∷◌ c s) =
    let rest = rstrip s in if str_is_empty rest && is_space (code c) then "" else String.◌∷◌ c rest

unfoldable pub strip : String → String
unfolding lstrip rstrip
strip s = rstrip (lstrip s)

-- the first item of `s.split()`; empty where the list is
unfoldable pub first_word : String → String
unfolding is_space lstrip
first_word s = word (lstrip s)
  where
    word : String → String
    word String.[] = ""
    word (String.◌∷◌ c s) = let rest = word s in if is_space (code c) then "" else String.◌∷◌ c rest

-- `s.split()`: the words between white space; the list starts with an empty text where `s` starts
-- with white space, until `split` drops it
split_from : String → List String
split_from String.[] = "" ∷ []
split_from (String.◌∷◌ c s) =
    let rest = split_from s in
    if is_space (code c)
    then (elim rest [
      | [] ↦ "" ∷ []
      | String.[] ∷ more ↦ String.[] ∷ more
      | word ∷ more ↦ "" ∷ (word ∷ more)
    ])
    else elim rest [ [] ↦ String.◌∷◌ c "" ∷ [] | word ∷ more ↦ String.◌∷◌ c word ∷ more ]

unfoldable pub split : String → List String
unfolding split_from is_space
split s = elim (split_from s) [
  | [] ↦ []
  | String.[] ∷ more ↦ drop_last_empty more
  | word ∷ more ↦ word ∷ drop_last_empty more
]
  where
    drop_last_empty : List String → List String
    drop_last_empty [] = []
    drop_last_empty (String.[] ∷ more) = drop_last_empty more
    drop_last_empty (word ∷ more) = word ∷ drop_last_empty more

-- `s.strip(": ")`
is_edge : ℕ → Bool
is_edge c = (c == 58) || (c == 32)

lstrip_edges : String → String
lstrip_edges String.[] = ""
lstrip_edges (String.◌∷◌ c s) =
    let rest = lstrip_edges s in if is_edge (code c) then rest else String.◌∷◌ c s

rstrip_edges : String → String
rstrip_edges String.[] = ""
rstrip_edges (String.◌∷◌ c s) =
    let rest = rstrip_edges s in
    if str_is_empty rest && is_edge (code c) then "" else String.◌∷◌ c rest

unfoldable pub strip_edges : String → String
unfolding lstrip_edges rstrip_edges is_edge
strip_edges s = rstrip_edges (lstrip_edges s)

-- what follows a prefix
unfoldable pub after_prefix : String → String → Option String
after_prefix String.[] s = some s
after_prefix (String.◌∷◌ c p) String.[] = none
after_prefix (String.◌∷◌ c p) (String.◌∷◌ d s) =
    let rest = after_prefix p s in if code c == code d then rest else none

-- `s.split(marker, 1)[1]`, if the marker is in `s`
unfoldable pub after_marker : String → String → Option String
unfolding after_prefix
after_marker marker String.[] = after_prefix marker ""
after_marker marker (String.◌∷◌ c s) =
    let rest = after_marker marker s in
    elim (after_prefix marker (String.◌∷◌ c s)) [ none ↦ rest | some tail ↦ some tail ]

cons_line : String → List String → List String
cons_line c [] = c ∷ []
cons_line c (l ∷ ls) = str_append c l ∷ ls

unfoldable pub splitlines : String → List String
unfolding is_break cons_line
splitlines String.[] = []
splitlines (String.◌∷◌ c String.[]) = if is_break (code c) then "" ∷ [] else String.◌∷◌ c "" ∷ []
splitlines (String.◌∷◌ c (String.◌∷◌ d s)) =
    let after_pair = splitlines s in
    let after_one = splitlines (String.◌∷◌ d s) in
    if (code c == 13) && (code d == 10)
    then "" ∷ after_pair
    else if is_break (code c)
    then "" ∷ after_one
    else cons_line (String.◌∷◌ c "") after_one

-- `s.split(c, 1)`, if the character is in `s`
unfoldable pub split_once : ℕ → String → Option (String × String)
split_once k String.[] = none
split_once k (String.◌∷◌ c s) =
    let rest = split_once k s in
    if code c == k
    then some ("", s)
    else elim rest [ none ↦ none | some (a, b) ↦ some (String.◌∷◌ c a, b) ]

-- `int(s)` for ASCII digits, with one `_` allowed between two of them; `none` is the ValueError
is_digit : ℕ → Bool
is_digit c = leb 48 c && leb c 57

-- `gap`: a digit must follow
parse_digits : Bool → ℕ → String → Option ℕ
parse_digits true n String.[] = none
parse_digits false n String.[] = some n
parse_digits gap n (String.◌∷◌ c s) =
    let after_digit = parse_digits false (n * 10 + (code c - 48)) s in
    let after_gap = parse_digits true n s in
    if is_digit (code c)
    then after_digit
    else if gap
    then none
    else if code c == b'_'
    then after_gap
    else none

negate : ℕ → ℤ
negate zero = pos 0
negate (suc n) = negsuc n

signed : String → Option ℤ
signed String.[] = none
signed (String.◌∷◌ c s) =
    if code c == b'-'
    then elim (parse_digits true 0 s) [ none ↦ none | some n ↦ some (negate n) ]
    else elim (parse_digits true 0 (if code c == b'+' then s else String.◌∷◌ c s)) [
      | none ↦ none
      | some n ↦ some (pos n)
    ]

unfoldable pub parse_int : String → Option ℤ
unfolding signed negate parse_digits is_digit strip
parse_int s = signed (strip s)

-- a `dict` with texts for keys, in insertion order
module _ {ℓ} {V : Type ℓ} where
  unfoldable pub get_str : String → List (String × V) → Option V
  get_str k [] = none
  get_str k ((j, v) ∷ m) = let rest = get_str k m in if str_eq j k then some v else rest

  unfoldable pub put_str : String → V → List (String × V) → List (String × V)
  put_str k v [] = (k, v) ∷ []
  put_str k v ((j, w) ∷ m) =
      let rest = put_str k v m in if str_eq j k then (j, v) ∷ m else (j, w) ∷ rest
