-- ===== src/Scoring/Slices.antt =====
-- scoring_groups.py: the slices of the groups put together are all the tests.
use yandex_codeforces_analyz.Prelude.{
  ℕ, zero, suc, ◌+◌, ◌-◌, ◌≤◌, max, String, ◌≡◌, refl, sym, ap, ◌∙◌, inl, inr, Bool, true, not,
  ◌&&◌, some, List, [], ◌∷◌, ◌++◌, map, append-nil, arith, leb, ◌==◌, Bool-cases, length, take,
  drop, take-append-drop, pos, put_str,
}
use yandex_codeforces_analyz.Scoring.{
  GroupConfig, TestInfo, minus, planned_tests, add_to_last, sum_of, slice, advance, pieces,
  proportional, total_points_of, slice_counts, cut, non_example_indices, PolygonCall,
  set_test_group, save_points, assign_pieces, assign_tests_to_groups,
}

-- the tests of all slices, in order
abbrev pub joined : List (GroupConfig × List ℕ) → List ℕ
joined [] = []
joined ((g, xs) ∷ ps) = xs ++ joined ps

drop_nil : (n : ℕ) → drop {A = ℕ} n [] ≡ []
drop_nil zero = refl
drop_nil (suc n) = refl

drop-drop : (a b : ℕ) (xs : List ℕ) → drop b (drop a xs) ≡ drop (a + b) xs
drop-drop zero b xs = ap (λ n. drop n xs) (omega arith)
drop-drop (suc a) b [] = drop_nil b ∙ sym (drop_nil (suc a + b))
drop-drop (suc a) b (x ∷ xs) = drop-drop a b xs ∙ ap (λ n. drop n (x ∷ xs)) (sym (shift a b))
  where
    shift : (a b : ℕ) → suc a + b ≡ suc (a + b)
    shift a b = omega arith

drop-all : (a : ℕ) (xs : List ℕ) → length xs ≤ a → drop a xs ≡ []
drop-all zero [] h = refl
drop-all zero (x ∷ xs) h = absurd (omega arith)
drop-all (suc a) [] h = refl
drop-all (suc a) (x ∷ xs) h = drop-all a xs (omega arith)

take-all : (n : ℕ) (xs : List ℕ) → length xs ≤ n → take n xs ≡ xs
take-all zero [] h = refl
take-all zero (x ∷ xs) h = absurd (omega arith)
take-all (suc n) [] h = refl
take-all (suc n) (x ∷ xs) h = ap (◌∷◌ x) (take-all n xs (omega arith))

length-drop : (a : ℕ) (xs : List ℕ) → length (drop a xs) + a ≡ max a (length xs)
length-drop zero xs = omega arith
length-drop (suc a) [] = omega arith
length-drop (suc a) (x ∷ xs) = omega (arith, length-drop a xs)

-- a slice and all that comes after it
slice-rest : (a c : ℕ) (xs : List ℕ) → take c (drop a xs) ++ drop (a + c) xs ≡ drop a xs
slice-rest a c xs =
    ap (λ ys. take c (drop a xs) ++ ys) (sym (drop-drop a c xs)) ∙ take-append-drop c (drop a xs)

last_slice : (a : ℕ) (xs : List ℕ) → slice xs a (minus (length xs) a) ≡ drop a xs
unfolding minus slice
last_slice a xs = elim (Bool-cases (leb a (length xs))) [
  | inl t ↦ rw t (take-all (length xs - a) (drop a xs) (ground (arith, t, length-drop a xs)))
  | inr f ↦ rw f (sym (drop-all a xs (ground (arith, f))))
]

module _ (share : ℕ → ℕ → ℕ → ℕ) where
  joined-proportional :
      (xs : List ℕ) (total_points a : ℕ) (g : GroupConfig) (gs : List GroupConfig)
      → joined (pieces xs a (g ∷ gs) (proportional share (length xs) total_points a (g ∷ gs)))
        ≡ drop a xs
  unfolding pieces proportional slice advance
  joined-proportional xs p a g [] = append-nil _ ∙ last_slice a xs
  joined-proportional xs p a g (h ∷ gs) =
      ap (λ ys. take (max 1 (share (length xs) g.points p)) (drop a xs) ++ ys)
        (joined-proportional xs p (a + max 1 (share (length xs) g.points p)) h gs)
      ∙ slice-rest a (max 1 (share (length xs) g.points p)) xs

joined-planned :
    (xs : List ℕ) (a : ℕ) (gs : List GroupConfig) (cs : List ℕ)
    → length gs ≡ length cs
    → a + sum_of cs ≡ length xs
    → joined (pieces xs a gs (map pos cs)) ≡ drop a xs
unfolding pieces slice advance
joined-planned xs a [] [] l h = sym (drop-all a xs (omega arith))
joined-planned xs a [] (c ∷ cs) l h = absurd (omega arith)
joined-planned xs a (g ∷ gs) [] l h = absurd (omega arith)
joined-planned xs a (g ∷ gs) (c ∷ cs) l h =
    ap (λ ys. take c (drop a xs) ++ ys)
      (joined-planned xs (a + c) gs cs (omega arith) (omega arith))
    ∙ slice-rest a c xs

sum_of-add_to_last : (d c : ℕ) (cs : List ℕ) → sum_of (add_to_last d (c ∷ cs)) ≡ sum_of (c ∷ cs) + d
unfolding add_to_last
sum_of-add_to_last d c [] = omega arith
sum_of-add_to_last d c (e ∷ cs) = omega (arith, sum_of-add_to_last d e cs)

length-add_to_last : (d : ℕ) (cs : List ℕ) → length (add_to_last d cs) ≡ length cs
unfolding add_to_last
length-add_to_last d [] = refl
length-add_to_last d (c ∷ []) = refl
length-add_to_last d (c ∷ (e ∷ cs)) = omega (arith, length-add_to_last d (e ∷ cs))

length-map : {A B : Type 0} (f : A → B) (xs : List A) → length (map f xs) ≡ length xs
length-map f [] = refl
length-map f (x ∷ xs) = omega (arith, length-map f xs)

-- the slices put together are the tests
joined-cut :
    (share : ℕ → ℕ → ℕ → ℕ) (g : GroupConfig) (gs : List GroupConfig) (indices : List ℕ)
    → joined (cut share (g ∷ gs) indices) ≡ indices
unfolding cut slice_counts
joined-cut share g gs indices =
    elim (Bool-cases (
      not (sum_of (map planned_tests (g ∷ gs)) == 0)
      && leb (sum_of (map planned_tests (g ∷ gs))) (length indices))) [
        | inl t ↦ rw t (
            joined-planned indices 0 (g ∷ gs) (add_to_last (length indices - sum_of counts) counts)
              (sym (
                length-add_to_last (length indices - sum_of counts) counts
                ∙ length-map planned_tests (g ∷ gs)))
              (ground (
                arith,
                t,
                sum_of-add_to_last (length indices - sum_of counts) (planned_tests g)
                    (map planned_tests gs),
              )))
        | inr f ↦ rw f (joined-proportional share indices (total_points_of share (g ∷ gs)) 0 g gs)
      ]
  where
    counts : List ℕ
    counts = map planned_tests (g ∷ gs)

-- the tests that the calls give to groups, in order
abbrev pub given : List PolygonCall → List ℕ
given [] = []
given (set_test_group g is ∷ calls) = is ++ given calls
given (save_points i g points ∷ calls) = given calls

given-assign_pieces :
    (share : ℕ → ℕ → ℕ → ℕ) (accepts : String → List ℕ → Bool)
    → ((g : String) (is : List ℕ) → accepts g is ≡ true)
    → (ps : List (GroupConfig × List ℕ)) (mapping : List (String × List ℕ))
    → given (assign_pieces share accepts ps mapping).1 ≡ joined ps
unfolding assign_pieces
given-assign_pieces share accepts all [] mapping = refl
given-assign_pieces share accepts all ((g, []) ∷ ps) mapping =
    given-assign_pieces share accepts all ps mapping
given-assign_pieces share accepts all ((g, i ∷ is) ∷ ps) mapping = rw (all g.group (i ∷ is)) (
    ap (λ ys. (i ∷ is) ++ ys)
      (given-assign_pieces share accepts all ps (put_str g.group (i ∷ is) mapping)))

-- No test is left without a group and none gets two: the tests that the calls give to the groups,
-- call after call, are the tests outside of the statement in ascending order, however many tests
-- the plan gives to the groups and however the points are rounded. The conditions: there is a
-- group, the tests can be read, and no call for a group fails.
pub given-assign_tests_to_groups :
    (share : ℕ → ℕ → ℕ → ℕ) (accepts : String → List ℕ → Bool)
    → ((g : String) (is : List ℕ) → accepts g is ≡ true)
    → (g : GroupConfig) (gs : List GroupConfig) (tests : List TestInfo)
    → given (assign_tests_to_groups share accepts (g ∷ gs) (some tests)).1
      ≡ non_example_indices tests
unfolding assign_tests_to_groups
given-assign_tests_to_groups share accepts all g gs tests = go (non_example_indices tests)
  where
    go :
        (indices : List ℕ)
        → given
            (elim indices as (λ x. List (String × List ℕ) × List PolygonCall) [
              | [] ↦ ([], [])
              | i ∷ is ↦ assign_pieces share accepts (cut share (g ∷ gs) (i ∷ is)) []
            ]).1
          ≡ indices
    go [] = refl
    go (i ∷ is) =
        given-assign_pieces share accepts all (cut share (g ∷ gs) (i ∷ is)) []
        ∙ joined-cut share g gs (i ∷ is)
