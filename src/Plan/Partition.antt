-- ===== src/Plan/Partition.antt =====
-- Every test is assigned once (`assign` of services/ai-authoring/authoring/pipeline/groups.py).
use yandex_codeforces_analyz.Prelude.{
  ℕ, ◌+◌, String, ◌≡◌, refl, ◌∙◌, inl, inr, Bool, not, Option, none, some, List, [], ◌∷◌, ◌++◌,
  arith, ltb, ◌==◌, if◌then◌else◌, Bool-cases, or_else, length, select, count_of, sum_by, str_eq,
  Floats, insert_by, sort_by, get_str, put_str,
}
use yandex_codeforces_analyz.Plan.{
  GroupPlan, TestPlan, ScriptLine, empty_group, Warning, Planned, planned, ◌then◌, Yields,
  Yields-planned, Yields-fault, Yields-then, generated_groups,
}
use yandex_codeforces_analyz.Plan.Assign.{
  PolygonTest, Groups, Assignment, add_index, by_index, place_manual, place_generated,
  settle_groups, no_groups, last_group, assign_placed, assign,
}

-- how often an index stands in a list, and in the groups together
abbrev pub times : ℕ → List ℕ → ℕ
times i is = count_of (λ x. x == i) is

abbrev pub tally : ℕ → Groups → ℕ
tally i groups = sum_by (λ g. times i g.1) groups

abbrev pub test_times : ℕ → List PolygonTest → ℕ
test_times i ts = count_of (λ t. t.index == i) ts

times-append : (i : ℕ) (xs ys : List ℕ) → times i (xs ++ ys) ≡ times i xs + times i ys
times-append i [] ys = ground arith
times-append i (x ∷ xs) ys = ground (arith, times-append i xs ys)

module _ {A : Type 0} (lt : A → A → Bool) (p : A → Bool) where
  count_of-insert_by : (x : A) (xs : List A) → count_of p (insert_by lt x xs) ≡ count_of p (x ∷ xs)
  unfolding insert_by
  count_of-insert_by x [] = refl
  count_of-insert_by x (y ∷ ys) = ground (arith, count_of-insert_by x ys)

  count_of-sort_by : (xs : List A) → count_of p (sort_by lt xs) ≡ count_of p xs
  unfolding sort_by
  count_of-sort_by [] = refl
  count_of-sort_by (x ∷ xs) =
      ground (arith, count_of-insert_by x (sort_by lt xs), count_of-sort_by xs)

count_of-select :
    {A : Type 0} (p q : A → Bool) (xs : List A)
    → count_of p (select (λ x. not (q x)) xs) + count_of p (select q xs) ≡ count_of p xs
count_of-select p q [] = refl
count_of-select p q (x ∷ xs) = ground (arith, count_of-select p q xs)

-- the tally of an index grows with a step
abbrev Grows : (ℕ → ℕ) → Groups → Groups → Type 0
Grows more groups out = (i : ℕ) → tally i out ≡ tally i groups + more i

add_index-Grows :
    (name : String) (j : ℕ) (groups : Groups)
    → Yields (Grows (λ i. times i (j ∷ [])) groups) (add_index name j groups)
unfolding add_index
add_index-Grows name j [] = Yields-fault _ _
add_index-Grows name j ((n, is) ∷ rest) = elim (Bool-cases (str_eq n name)) [
  | inl same ↦ rw same (
      Yields-planned _ ((n, is ++ (j ∷ [])) ∷ rest) λ i. ground (arith, times-append i is (j ∷ [])))
  | inr other ↦ rw other (
      Yields-then (Grows (λ i. times i (j ∷ [])) rest) _ (add_index name j rest) _
        (add_index-Grows name j rest)
        λ more h. Yields-planned _ ((n, is) ∷ more) λ i. ground (arith, h i))
]

place_generated-Grows :
    (ts : List PolygonTest) (ls : List ScriptLine) (groups : Groups)
    → length ts ≡ length ls
    → Yields (Grows (λ i. test_times i ts) groups) (place_generated ts ls groups)
unfolding place_generated
place_generated-Grows [] ls groups h = Yields-planned _ groups λ i. omega arith
place_generated-Grows (t ∷ ts) [] groups h = absurd (ground arith)
place_generated-Grows (t ∷ ts) (l ∷ ls) groups h =
    Yields-then (Grows (λ i. times i (t.index ∷ [])) groups) _ (add_index l.group t.index groups) _
      (add_index-Grows l.group t.index groups)
      λ more grown. record {
        holds = λ out e i.
            ground
              (arith, (place_generated-Grows ts ls more (ground arith)).holds out e i, grown i);
      }

placed-Grows :
    (name : String) (t : PolygonTest) (ts : List PolygonTest) (groups : Groups)
    (rest : Groups → Planned (Groups × List Warning))
    → ((more : Groups) → Yields (λ o. Grows (λ i. test_times i ts) more o.0) (rest more))
    → Yields
        (λ o. Grows (λ i. test_times i (t ∷ ts)) groups o.0)
        (add_index name t.index groups then rest)
placed-Grows name t ts groups rest h =
    Yields-then (Grows (λ i. times i (t.index ∷ [])) groups) _ (add_index name t.index groups) rest
      (add_index-Grows name t.index groups)
      λ more grown. record { holds = λ out e i. ground (arith, (h more).holds out e i, grown i) }

place_manual-Grows :
    (samples : Option String) (last : String) (ts : List PolygonTest) (groups : Groups)
    (warnings : List Warning)
    → Yields
        (λ o. Grows (λ i. test_times i ts) groups o.0)
        (place_manual samples last ts groups warnings)
unfolding place_manual
place_manual-Grows samples last [] groups warnings =
    Yields-planned {B = Groups × List Warning} _ (groups, warnings) λ i. omega arith
place_manual-Grows none last (t ∷ ts) groups warnings = elim (Bool-cases t.use_in_statements) [
  | inr f ↦ rw f (placed-Grows last t ts groups _ λ more. place_manual-Grows none last ts more _)
  | inl s ↦ rw s (placed-Grows last t ts groups _ λ more. place_manual-Grows none last ts more _)
]
place_manual-Grows (some name) last (t ∷ ts) groups warnings =
    elim (Bool-cases t.use_in_statements) [
      | inr f ↦
          rw f
            (placed-Grows last t ts groups _ λ more. place_manual-Grows (some name) last ts more _)
      | inl s ↦
          rw s
            (placed-Grows name t ts groups _ λ more. place_manual-Grows (some name) last ts more _)
    ]

Yields-elim :
    {A : Type 0} (P : A → Type 0) (is : List ℕ) (nothing : Planned A)
    (some_index : ℕ → List ℕ → Planned A)
    → Yields P nothing
    → ((i : ℕ) (js : List ℕ) → Yields P (some_index i js))
    → Yields P (elim is [ [] ↦ nothing | i ∷ js ↦ some_index i js ])
Yields-elim P [] nothing some_index h k = h
Yields-elim P (i ∷ js) nothing some_index h k = k i js

-- a group whose indices are replaced
tally-put_str :
    (i : ℕ) (name : String) (is : List ℕ) (groups : Groups)
    → tally i (put_str name is groups) + times i (or_else (get_str name groups) [])
      ≡ tally i groups + times i is
unfolding put_str get_str
tally-put_str i name is [] = ground arith
tally-put_str i name is ((n, js) ∷ rest) = ground (arith, tally-put_str i name is rest)

module _ (fl : Floats) where
  open fl use {Float}

  no_groups-tally :
      (gs : List (GroupPlan Float)) (groups : Groups) (i : ℕ)
      → tally i groups ≡ 0
      → tally i (no_groups fl gs groups) ≡ 0
  unfolding no_groups
  no_groups-tally [] groups i h = h
  no_groups-tally (g ∷ gs) groups i h =
      no_groups-tally gs (put_str g.name [] groups) i
        (ground (arith, tally-put_str i g.name [] groups, h))

  sorted-Grows :
      (name : String) (groups : Groups) (m : Planned (Groups × List (ℕ × Float) × List Warning))
      → Yields
          (λ o.
            Grows
              (λ i. 0)
              (put_str name (sort_by ltb (or_else (get_str name groups) [])) groups)
              o.0)
          m
      → Yields (λ o. Grows (λ i. 0) groups o.0) m
  sorted-Grows name groups m h = record {
    holds = λ out e i. ground (
      arith,
      h.holds out e i,
      tally-put_str i name (sort_by ltb (or_else (get_str name groups) [])) groups,
      count_of-sort_by ltb (λ x. x == i) (or_else (get_str name groups) []),
    );
  }

  settle_groups-Grows :
      (gs : List (GroupPlan Float)) (groups : Groups) (points : List (ℕ × Float))
      (warnings : List Warning)
      → Yields (λ o. Grows (λ i. 0) groups o.0) (settle_groups fl gs groups points warnings)
  unfolding settle_groups
  settle_groups-Grows [] groups points warnings =
      Yields-planned {B = Groups × List (ℕ × Float) × List Warning} _ (groups, points, warnings)
        λ i. omega arith
  settle_groups-Grows (g ∷ gs) groups points warnings =
      Yields-elim _ (sort_by ltb (or_else (get_str g.name groups) [])) _ _
        (elim (Bool-cases g.samples) [
          | inl t ↦ rw t (sorted-Grows g.name groups _ (settle_groups-Grows gs _ points _))
          | inr f ↦ rw f (Yields-fault _ (empty_group g.name))
        ])
        λ i is. sorted-Grows g.name groups _ (settle_groups-Grows gs _ _ warnings)

  -- each index stands in the groups as often as in the tests
  abbrev pub IsPartition : List PolygonTest → Assignment Float → Type 0
  IsPartition ts a = (i : ℕ) → tally i a.groups ≡ test_times i ts

  assign_placed-IsPartition :
      (plan : TestPlan Float) (manual generated : List PolygonTest) (lines : List ScriptLine)
      → length generated ≡ length lines
      → Yields
          (λ a. (i : ℕ) → tally i a.groups ≡ test_times i generated + test_times i manual)
          (assign_placed fl plan manual generated lines)
  unfolding assign_placed
  assign_placed-IsPartition plan manual generated lines h =
      Yields-then (λ _. Unit) _ (last_group fl (generated_groups plan)) _
        (record { holds = λ _ _. tt })
        λ last _.
          Yields-then {A = Groups × List Warning}
            (λ o. Grows (λ i. test_times i manual) (no_groups fl plan.groups []) o.0) _ _ _
            (place_manual-Grows _ last manual (no_groups fl plan.groups []) [])
            λ placed first.
              Yields-then (Grows (λ i. test_times i generated) placed.0) _ _ _
                (place_generated-Grows generated lines placed.0 h)
                λ both second.
                  Yields-then {A = Groups × List (ℕ × Float) × List Warning}
                    (λ o. Grows (λ i. 0) both o.0) _ _ _
                    (settle_groups-Grows plan.groups both [] placed.1)
                    λ out third. Yields-planned _ _ λ i.
                      ground
                        (arith, no_groups-tally plan.groups [] i refl, first i, second i, third i)

  assign-Yields :
      (plan : TestPlan Float) (tests : List PolygonTest) (lines : List ScriptLine)
      → Yields (IsPartition tests) (assign fl plan tests lines)
  unfolding assign
  assign-Yields plan tests lines =
      let sorted = sort_by by_index tests in
      let generated = select (λ t. not t.manual) sorted in
      let manual = select (λ t. t.manual) sorted in
      elim (Bool-cases (length generated == length lines)) [
        | inr f ↦ rw (f, assign) (Yields-fault _ _)
        | inl same ↦
            rw (same, assign)
              (record {
                holds = λ a e i.
                    (assign_placed-IsPartition plan manual generated lines (ground arith)).holds a e
                      i
                    ∙ count_of-select (λ t. t.index == i) (λ t. t.manual) sorted
                    ∙ count_of-sort_by by_index (λ t. t.index == i) tests;
              })
      ]

  -- An assignment that succeeds puts every test of Polygon into exactly one group: each index stands
  -- in the groups, taken together, as often as in the tests.
  pub assign-IsPartition :
      (plan : TestPlan Float) (tests : List PolygonTest) (lines : List ScriptLine)
      (a : Assignment Float)
      → assign fl plan tests lines ≡ planned a
      → IsPartition tests a
  unfolding assign
  assign-IsPartition plan tests lines a h = (assign-Yields plan tests lines).holds a h
