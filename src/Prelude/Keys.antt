-- ===== src/Prelude/Keys.antt =====
-- Texts as the keys of dictionaries: the laws of `==` on them, and of reading and writing.
use Prim.Native.String.{String}
use mathlib.Core.Path.{◌≡◌, refl, sym, ap, ◌∙◌}
use mathlib.Core.Bool.{true, false}
use mathlib.Core.List.{List, [], ◌∷◌}
use mathlib.Core.Option.{none, some}
use mathlib.Core.Logic.{inl, inr}
use native.Mathlib.Omega.{arith}
use yandex_codeforces_analyz.Prelude.Tests.{if◌then◌else◌, Bool-cases}
use yandex_codeforces_analyz.Prelude.Text.{str_eq, str_eq_iff}
use yandex_codeforces_analyz.Prelude.Strings.{get_str, put_str}

pub str_eq_refl : (s : String) → str_eq s s ≡ true
str_eq_refl s = (str_eq_iff s s).1 refl

pub str_eq_comm : (s t : String) → str_eq s t ≡ str_eq t s
str_eq_comm s t = elim (Bool-cases (str_eq s t)) [
  | inl h ↦ h ∙ sym ((str_eq_iff t s).1 (sym ((str_eq_iff s t).0 h)))
  | inr f ↦ elim (Bool-cases (str_eq t s)) [
    | inl h ↦ absurd (ground (arith, f, (str_eq_iff s t).1 (sym ((str_eq_iff t s).0 h))))
    | inr g ↦ f ∙ sym g
  ]
]

pub str_eq_apart : (i j k : String) → str_eq i k ≡ false → str_eq i j ≡ true → str_eq k j ≡ false
str_eq_apart i j k f t = elim (Bool-cases (str_eq k j)) [
  | inl h ↦
      absurd
        (ground (arith, f, (str_eq_iff i k).1 ((str_eq_iff i j).0 t ∙ sym ((str_eq_iff k j).0 h))))
  | inr g ↦ g
]

pub get_str-nil {ℓ} : {V : Type ℓ} (k : String) → get_str {V = V} k [] ≡ none
unfolding get_str
get_str-nil k = refl

pub get_str-put_str {ℓ} :
    {V : Type ℓ} (j k : String) (v : V) (m : List (String × V))
    → get_str j (put_str k v m) ≡ (if str_eq k j then some v else get_str j m)
unfolding get_str put_str
get_str-put_str j k v [] = refl
get_str-put_str j k v ((i, w) ∷ m) = elim (Bool-cases (str_eq i k)) [
  | inl t ↦ ground (arith, t, ap (λ x. str_eq x j) ((str_eq_iff i k).0 t))
  | inr f ↦ ground (arith, f, get_str-put_str j k v m, str_eq_apart i j k f)
]
