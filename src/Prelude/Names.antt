-- ===== src/Prelude/Names.antt =====
-- What the texts of numbers and names with a prefix have to do with each other.
use Prim.Native.Nat.{ℕ, zero, suc, ◌+◌, ◌-◌, ◌*◌, ◌/◌, ◌%◌, ◌≤◌, ◌<◌}
use Prim.Native.Char.{code}
use Prim.Native.String.{String}
use Prim.Native.String.append
use mathlib.Core.Path.{◌≡◌, refl, sym, ap, ap₂, ◌∙◌}
use mathlib.Core.Bool.{Bool, true, false, not, ◌&&◌}
use mathlib.Core.Option.{none, some}
use mathlib.Core.Logic.{inl, inr}
use native.Mathlib.Omega.{arith}
use text.Mathlib.TextEquality.{Char-path}
use text.Mathlib.TextLemmas.{append_assoc}
use yandex_codeforces_analyz.Prelude.Tests.{leb, ◌==◌, if◌then◌else◌, Bool-cases, ==_iff}
use yandex_codeforces_analyz.Prelude.Text.{str_eq, str_eq_iff, str_append, show, show_from, digit}
use yandex_codeforces_analyz.Prelude.Strings.{after_prefix}

-- the number that the digits at the start of a text add to `n`, and the rest of the text
unfoldable pub read_digits : ℕ → String → ℕ × String
read_digits n String.[] = (n, "")
read_digits n (String.◌∷◌ c s) =
    let rest = read_digits (n * 10 + (code c - 48)) s in
    if leb 48 (code c) && leb (code c) 57 then rest else (n, String.◌∷◌ c s)

-- the text is the one digit of `n`
is_digit_of : String → ℕ → Bool
is_digit_of (String.◌∷◌ c String.[]) n = leb 48 (code c) && leb (code c) 57 && (code c - 48 == n)
is_digit_of _ n = false

read_one :
    (d : String) (m n : ℕ) (tail : String)
    → is_digit_of d n ≡ true
    → read_digits m (str_append d tail) ≡ read_digits (m * 10 + n) tail
unfolding read_digits is_digit_of
read_one String.[] m n tail h = absurd (ground arith)
read_one (String.◌∷◌ c String.[]) m n tail h =
    ap (read_digits m) (append.cons c "" tail)
    ∙ ap (λ t. read_digits m (String.◌∷◌ c t)) (append.nil tail)
    ∙ ground arith
read_one (String.◌∷◌ c (String.◌∷◌ d s)) m n tail h = absurd (ground arith)

is_digit_of-digit : (n : ℕ) → n ≤ 9 → is_digit_of (digit n) n ≡ true
unfolding is_digit_of digit
is_digit_of-digit zero h = refl
is_digit_of-digit (suc zero) h = refl
is_digit_of-digit (suc (suc zero)) h = refl
is_digit_of-digit (suc (suc (suc zero))) h = refl
is_digit_of-digit (suc (suc (suc (suc zero)))) h = refl
is_digit_of-digit (suc (suc (suc (suc (suc zero))))) h = refl
is_digit_of-digit (suc (suc (suc (suc (suc (suc zero)))))) h = refl
is_digit_of-digit (suc (suc (suc (suc (suc (suc (suc zero))))))) h = refl
is_digit_of-digit (suc (suc (suc (suc (suc (suc (suc (suc zero)))))))) h = refl
is_digit_of-digit (suc (suc (suc (suc (suc (suc (suc (suc (suc zero))))))))) h = refl
is_digit_of-digit (suc (suc (suc (suc (suc (suc (suc (suc (suc (suc n)))))))))) h =
    absurd (omega arith)

read_digits-digit :
    (m n : ℕ) (tail : String)
    → n ≤ 9
    → read_digits m (str_append (digit n) tail) ≡ read_digits (m * 10 + n) tail
read_digits-digit m n tail h = read_one (digit n) m n tail (is_digit_of-digit n h)

read_digits-show_from :
    (fuel n : ℕ) (tail : String)
    → n < fuel
    → read_digits 0 (show_from fuel n tail) ≡ read_digits n tail
unfolding show_from
read_digits-show_from zero n tail h = absurd (omega arith)
read_digits-show_from (suc fuel) n tail h = elim (Bool-cases (leb n 9)) [
  | inl t ↦
      rw t (read_digits-digit 0 n tail (ground arith) ∙ ap (λ k. read_digits k tail) (omega arith))
  | inr f ↦ rw f (
      read_digits-show_from fuel (n / 10) (str_append (digit (n % 10)) tail) (ground arith)
      ∙ read_digits-digit (n / 10) (n % 10) tail (ground arith)
      ∙ ap (λ k. read_digits k tail) (ground arith))
]

show_from-append :
    (fuel n : ℕ) (s t : String)
    → str_append (show_from fuel n s) t ≡ show_from fuel n (str_append s t)
unfolding show_from
show_from-append zero n s t = refl
show_from-append (suc fuel) n s t = elim (Bool-cases (leb n 9)) [
  | inl h ↦ rw h (append_assoc (digit n) s t)
  | inr h ↦ rw h (
      show_from-append fuel (n / 10) (str_append (digit (n % 10)) s) t
      ∙ ap (show_from fuel (n / 10)) (append_assoc (digit (n % 10)) s t))
]

read_digits-show :
    (n : ℕ) (tail : String) → read_digits 0 (str_append (show n) tail) ≡ read_digits n tail
unfolding show
read_digits-show n tail =
    ap (read_digits 0)
      (show_from-append (suc n) n "" tail ∙ ap (show_from (suc n) n) (append.nil tail))
    ∙ read_digits-show_from (suc n) n tail (omega arith)

-- `f"{n:02d}"`
unfoldable pub two_digits : ℕ → String
two_digits n = if leb n 9 then str_append "0" (show n) else show n

read_digits-padded : (s : String) → read_digits 0 (str_append "0" s) ≡ read_digits 0 s
unfolding is_digit_of
read_digits-padded s = read_one "0" 0 0 s refl ∙ ap (λ k. read_digits k s) zeros
  where
    zeros : 0 * 10 + 0 ≡ 0
    zeros = omega arith

pub read_digits-two_digits :
    (n : ℕ) (tail : String) → read_digits 0 (str_append (two_digits n) tail) ≡ read_digits n tail
unfolding two_digits
read_digits-two_digits n tail = elim (Bool-cases (leb n 9)) [
  | inl t ↦ rw t (
      ap (read_digits 0) (append_assoc "0" (show n) tail)
      ∙ read_digits-padded (str_append (show n) tail)
      ∙ read_digits-show n tail)
  | inr f ↦ rw f (read_digits-show n tail)
]

pub after_prefix-append : (p s : String) → after_prefix p (str_append p s) ≡ some s
unfolding after_prefix
after_prefix-append String.[] s = ap (after_prefix "") (append.nil s)
after_prefix-append (String.◌∷◌ c p) s =
    ap (after_prefix (String.◌∷◌ c p)) (append.cons c p s) ∙ ground (arith, after_prefix-append p s)

-- the two texts start with different characters
unfoldable pub heads_differ : String → String → Bool
heads_differ (String.◌∷◌ c p) (String.◌∷◌ d q) = not (code c == code d)
heads_differ _ _ = false

pub after_prefix-differs :
    (p q s : String) → heads_differ p q ≡ true → after_prefix p (str_append q s) ≡ none
unfolding after_prefix heads_differ
after_prefix-differs String.[] q s h = absurd (ground arith)
after_prefix-differs (String.◌∷◌ c p) String.[] s h = absurd (ground arith)
after_prefix-differs (String.◌∷◌ c p) (String.◌∷◌ d q) s h =
    ap (after_prefix (String.◌∷◌ c p)) (append.cons d q s) ∙ ground arith

-- a text with a prefix is that prefix and the rest
pub after_prefix_complete : (p s t : String) → after_prefix p s ≡ some t → s ≡ str_append p t
unfolding after_prefix
after_prefix_complete String.[] s t h = cc (append.nil t)
after_prefix_complete (String.◌∷◌ c p) String.[] t h = absurd cc
after_prefix_complete (String.◌∷◌ c p) (String.◌∷◌ d s) t h = elim (Bool-cases (code c == code d)) [
  | inl e ↦
      ap₂ (λ x y. String.◌∷◌ x y) (sym (Char-path c d ((==_iff (code c) (code d)).0 e)))
        (after_prefix_complete p s t (ground (arith, e)))
      ∙ sym (append.cons c p t)
  | inr f ↦ absurd (ground (arith, f))
]

-- texts after one prefix
pub str_eq-append : (p s t : String) → str_eq (str_append p s) (str_append p t) ≡ str_eq s t
str_eq-append p s t = elim (Bool-cases (str_eq s t)) [
  | inl h ↦ (str_eq_iff _ _).1 (ap (str_append p) ((str_eq_iff s t).0 h)) ∙ sym h
  | inr f ↦ elim (Bool-cases (str_eq (str_append p s) (str_append p t))) [
    | inl h ↦ absurd (ground (arith, f, (str_eq_iff s t).1 (same ((str_eq_iff _ _).0 h))))
    | inr g ↦ g ∙ sym f
  ]
]
  where
    some-injective : some s ≡ some t → s ≡ t
    some-injective e = cc

    same : str_append p s ≡ str_append p t → s ≡ t
    same e =
        some-injective
          (sym (after_prefix-append p s) ∙ ap (after_prefix p) e ∙ after_prefix-append p t)
