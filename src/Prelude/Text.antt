-- ===== src/Prelude/Text.antt =====
-- Python's `str` over the native `String`, which is a list of code points by its own `[]` and `∷`.
use Prim.Native.Nat.{ℕ, zero, suc, ◌/◌, ◌%◌}
use Prim.Native.String.{String}
use Prim.Native.String
use Prim.Native.String.append
use mathlib.Core.Path.{◌≡◌, refl, sym, subst}
use mathlib.Core.Logic.{◌↔◌}
use mathlib.Core.Bool.{Bool, true, false}
use native.Mathlib.Omega.{arith}
use mathlib.Core.List.{List, [], ◌∷◌}
use text.Mathlib.Text.{◌==◌ as text_eq}
use text.Mathlib.TextEquality.{eq_iff}
use yandex_codeforces_analyz.Prelude.Tests.{if◌then◌else◌, leb}

-- `a == b`
abbrev pub str_eq : String → String → Bool
str_eq a b = text_eq a b

pub str_eq_iff : (a b : String) → (str_eq a b ≡ true) ↔ (a ≡ b)
str_eq_iff a b = eq_iff a b

-- `a + b`, `text[:n]`, `not text`
abbrev pub str_append : String → String → String
str_append a b = String.◌++◌ a b

unfoldable pub str_take : ℕ → String → String
str_take zero s = ""
str_take (suc n) String.[] = ""
str_take (suc n) (String.◌∷◌ c s) = String.◌∷◌ c (str_take n s)

abbrev pub str_is_empty : String → Bool
str_is_empty String.[] = true
str_is_empty (String.◌∷◌ c s) = false

-- `a or b`
abbrev pub str_or : String → String → String
str_or String.[] b = b
str_or (String.◌∷◌ c s) b = String.◌∷◌ c s

-- `str(n)`: the decimal digits, with one unit of fuel for each; `n + 1` units are enough.
unfoldable pub digit : ℕ → String
digit n = elim n [
  | zero ↦ "0"
  | suc zero ↦ "1"
  | suc (suc zero) ↦ "2"
  | suc (suc (suc zero)) ↦ "3"
  | suc (suc (suc (suc zero))) ↦ "4"
  | suc (suc (suc (suc (suc zero)))) ↦ "5"
  | suc (suc (suc (suc (suc (suc zero))))) ↦ "6"
  | suc (suc (suc (suc (suc (suc (suc zero)))))) ↦ "7"
  | suc (suc (suc (suc (suc (suc (suc (suc zero))))))) ↦ "8"
  | _ ↦ "9"
]

unfoldable pub show_from : ℕ → ℕ → String → String
show_from zero n tail = tail
show_from (suc fuel) n tail =
    let rest = show_from fuel (n / 10) (str_append (digit (n % 10)) tail) in
    if leb n 9 then str_append (digit n) tail else rest

unfoldable pub show : ℕ → String
unfolding show_from digit
show n = show_from (suc n) n ""

-- `", ".join(...)` with any separator
unfoldable pub join : String → List String → String
join sep [] = ""
join sep (x ∷ []) = x
join sep (x ∷ y ∷ rest) = str_append x (str_append sep (join sep (y ∷ rest)))

pub append_named : (s t : String) → str_is_empty s ≡ false → str_is_empty (str_append s t) ≡ false
append_named String.[] t h = absurd (ground arith)
append_named (String.◌∷◌ c s) t h =
    subst (λ x. str_is_empty x ≡ false) (sym (append.cons c s t)) refl
