-- ===== src/Prelude/Sort.antt =====
-- Python's `sorted`, which only asks `b < a` and is stable: a stable insertion sort.
use mathlib.Core.Path.{◌≡◌}
use mathlib.Core.Logic.{inl, inr}
use mathlib.Core.Bool.{Bool, true, false}
use mathlib.Core.List.{List, [], ◌∷◌, Perm}
use mathlib.Core.List.Perm
use yandex_codeforces_analyz.Prelude.Tests.{if◌then◌else◌, Bool-cases}
use yandex_codeforces_analyz.Prelude.Lists.{Every}

module _ {ℓ} {A : Type ℓ} (lt : A → A → Bool) where
  -- `x` came before the elements of the list, so it passes only those that are strictly smaller
  unfoldable pub insert_by : A → List A → List A
  insert_by x [] = x ∷ []
  insert_by x (y ∷ ys) = let rest = insert_by x ys in if lt y x then y ∷ rest else x ∷ y ∷ ys

  unfoldable pub sort_by : List A → List A
  sort_by [] = []
  sort_by (x ∷ xs) = insert_by x (sort_by xs)

  -- no element is smaller than one that stands before it
  abbrev pub IsSorted : List A → Type ℓ
  IsSorted [] = Unit
  IsSorted (x ∷ xs) = Every (λ y. lt y x ≡ false) xs × IsSorted xs

  insert_by-perm : (x : A) (xs : List A) → Perm (insert_by x xs) (x ∷ xs)
  unfolding insert_by
  insert_by-perm x [] = Perm.rfl
  insert_by-perm x (y ∷ ys) = elim (Bool-cases (lt y x)) [
    | inl h ↦ rw h (Perm.trans (Perm.cons y (insert_by-perm x ys)) (Perm.swap x y ys))
    | inr h ↦ rw h Perm.rfl
  ]

  pub sort_by-perm : (xs : List A) → Perm (sort_by xs) xs
  unfolding sort_by
  sort_by-perm [] = Perm.rfl
  sort_by-perm (x ∷ xs) = Perm.trans (insert_by-perm x (sort_by xs)) (Perm.cons x (sort_by-perm xs))

  -- what makes the order a strict weak one
  abbrev pub IsWeakOrder : Type ℓ
  IsWeakOrder =
      ((a b : A) → lt a b ≡ true → lt b a ≡ false)
      × ((a b c : A) → lt a b ≡ false → lt b c ≡ false → lt a c ≡ false)

  module _ (order : IsWeakOrder) where
    Every-insert_by :
        (y x : A) (xs : List A)
        → lt x y ≡ false
        → Every (λ z. lt z y ≡ false) xs
        → Every (λ z. lt z y ≡ false) (insert_by x xs)
    unfolding insert_by
    Every-insert_by y x [] h all = (h, tt)
    Every-insert_by y x (z ∷ zs) h all = elim (Bool-cases (lt z x)) [
      | inl t ↦ rw t (all.0, Every-insert_by y x zs h all.1)
      | inr f ↦ rw f (h, all)
    ]

    above_of_above :
        (x y : A) (ys : List A)
        → lt y x ≡ false
        → Every (λ z. lt z y ≡ false) ys
        → Every (λ z. lt z x ≡ false) ys
    above_of_above x y [] h all = tt
    above_of_above x y (z ∷ zs) h all = (order.1 z y x all.0 h, above_of_above x y zs h all.1)

    insert_by-IsSorted : (x : A) (xs : List A) → IsSorted xs → IsSorted (insert_by x xs)
    unfolding insert_by
    insert_by-IsSorted x [] s = (tt, tt)
    insert_by-IsSorted x (y ∷ ys) s = elim (Bool-cases (lt y x)) [
      | inl t ↦ rw t (Every-insert_by y x ys (order.0 y x t) s.0, insert_by-IsSorted x ys s.1)
      | inr f ↦ rw f ((f, above_of_above x y ys f s.0), s)
    ]

    pub sort_by-IsSorted : (xs : List A) → IsSorted (sort_by xs)
    unfolding sort_by
    sort_by-IsSorted [] = tt
    sort_by-IsSorted (x ∷ xs) = insert_by-IsSorted x (sort_by xs) (sort_by-IsSorted xs)
