-- ===== src/Prelude/Lists.antt =====
-- Lists measured and indexed by native numbers, under the library's names.
use Prim.Native.Nat.{ℕ, zero, suc, ◌+◌, ◌≤◌}
use mathlib.Core.Path.{◌≡◌, refl, ap, subst}
use mathlib.Core.Bool.{Bool, true, false, ◌&&◌, ◌||◌}
use mathlib.Core.List.{List, [], ◌∷◌, ◌++◌}
use mathlib.Core.Option.{Option, none, some}
use mathlib.Core.Logic.{inl, inr}
use native.Mathlib.Omega.{arith}
use yandex_codeforces_analyz.Prelude.Tests.{if◌then◌else◌, Bool-cases}

module _ {ℓ} {A : Type ℓ} where
  abbrev pub length : List A → ℕ
  length [] = 0
  length (x ∷ xs) = suc (length xs)

  abbrev pub get_elem? : List A → ℕ → Option A
  get_elem? [] i = none
  get_elem? (x ∷ xs) zero = some x
  get_elem? (x ∷ xs) (suc i) = get_elem? xs i

  abbrev pub take : ℕ → List A → List A
  take zero xs = []
  take (suc n) [] = []
  take (suc n) (x ∷ xs) = x ∷ take n xs

  abbrev pub drop : ℕ → List A → List A
  drop zero xs = xs
  drop (suc n) [] = []
  drop (suc n) (x ∷ xs) = drop n xs

  -- `all(p(x) for x in xs)`, `any(...)` and `[x for x in xs if p(x)]`
  abbrev pub all_of : (A → Bool) → List A → Bool
  all_of p [] = true
  all_of p (x ∷ xs) = p x && all_of p xs

  abbrev pub any_of : (A → Bool) → List A → Bool
  any_of p [] = false
  any_of p (x ∷ xs) = p x || any_of p xs

  abbrev pub select : (A → Bool) → List A → List A
  select p [] = []
  select p (x ∷ xs) = let rest = select p xs in if p x then x ∷ rest else rest

  abbrev pub count_of : (A → Bool) → List A → ℕ
  count_of p [] = 0
  count_of p (x ∷ xs) = let rest = count_of p xs in if p x then suc rest else rest

  -- `next((x for x in xs if p(x)), None)`
  abbrev pub first_where : (A → Bool) → List A → Option A
  first_where p [] = none
  first_where p (x ∷ xs) = let rest = first_where p xs in if p x then some x else rest

  -- a predicate holds of every element
  abbrev pub Every {κ} : (A → Type κ) → List A → Type κ
  Every P [] = Unit
  Every P (x ∷ xs) = P x × Every P xs

  pub length-append : (xs ys : List A) → length (xs ++ ys) ≡ length xs + length ys
  length-append [] ys = omega arith
  length-append (x ∷ xs) ys = omega (arith, length-append xs ys)

  pub take-append-drop : (n : ℕ) (xs : List A) → take n xs ++ drop n xs ≡ xs
  take-append-drop zero xs = refl
  take-append-drop (suc n) [] = refl
  take-append-drop (suc n) (x ∷ xs) = ap (◌∷◌ x) (take-append-drop n xs)

  pub Every-select {κ} :
      (P : A → Type κ) (p : A → Bool) (xs : List A) → Every P xs → Every P (select p xs)
  Every-select P p [] h = tt
  Every-select P p (x ∷ xs) h = elim (Bool-cases (p x)) [
    | inl t ↦ rw t (h.0, Every-select P p xs h.1)
    | inr f ↦ rw f (Every-select P p xs h.1)
  ]

  pub Every-selected : (p : A → Bool) (xs : List A) → Every (λ x. p x ≡ true) (select p xs)
  Every-selected p [] = tt
  Every-selected p (x ∷ xs) = elim (Bool-cases (p x)) [
    | inl t ↦ rw t (t, Every-selected p xs)
    | inr f ↦ rw f (Every-selected p xs)
  ]

  pub Every-take {κ} : (P : A → Type κ) (n : ℕ) (xs : List A) → Every P xs → Every P (take n xs)
  Every-take P zero xs h = tt
  Every-take P (suc n) [] h = tt
  Every-take P (suc n) (x ∷ xs) h = (h.0, Every-take P n xs h.1)

  pub Every-both {κ} :
      (P Q R : A → Type κ) (xs : List A)
      → ((x : A) → P x → Q x → R x)
      → Every P xs
      → Every Q xs
      → Every R xs
  Every-both P Q R [] f h k = tt
  Every-both P Q R (x ∷ xs) f h k = (f x h.0 k.0, Every-both P Q R xs f h.1 k.1)

  some-injective : {a b : A} → some a ≡ some b → a ≡ b
  some-injective e = cc

  -- what is found is an element, and passes the test
  pub first_where-holds {κ} :
      (P : A → Type κ) (p : A → Bool) (xs : List A) (y : A)
      → Every P xs
      → first_where p xs ≡ some y
      → P y × (p y ≡ true)
  first_where-holds P p [] y h e = absurd cc
  first_where-holds P p (x ∷ xs) y h e = elim (Bool-cases (p x)) [
    | inl t ↦ subst (λ z. P z × (p z ≡ true)) (some-injective (rw t at e)) (h.0, t)
    | inr f ↦ first_where-holds P p xs y h.1 (rw f at e)
  ]

  pub count_of-le : (p : A → Bool) (xs : List A) → count_of p xs ≤ length xs
  count_of-le p [] = omega arith
  count_of-le p (x ∷ xs) = ground (arith, count_of-le p xs)

abbrev pub sum_by {ℓ} : {A : Type ℓ} → (A → ℕ) → List A → ℕ
sum_by f [] = 0
sum_by f (x ∷ xs) = f x + sum_by f xs
