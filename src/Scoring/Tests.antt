-- ===== src/Scoring/Tests.antt =====
-- Three groups and four tests, one of them of the statement.
use yandex_codeforces_analyz.Prelude.{
  ℕ, ◌*◌, ◌/◌, String, ◌≡◌, refl, Bool, true, false, none, some, List, [], ◌∷◌, insert_by, sort_by,
  put_str,
}
use yandex_codeforces_analyz.Scoring.{
  GroupConfig, TestInfo, minus, planned_tests, slice, advance, pieces, proportional,
  total_points_of, slice_counts, cut, non_example_indices, assign_pieces, assign_tests_to_groups,
}
use yandex_codeforces_analyz.Scoring.Slices.{given, given-assign_tests_to_groups}

abbrev group_of : String → ℕ → GroupConfig
group_of name points = record { group = name; points = points; num_tests = none }

abbrev test_of : ℕ → Bool → TestInfo
test_of i sample = record { index = some i; use_in_statements = some sample }

abbrev four_tests : List TestInfo
four_tests = test_of 1 true ∷ (test_of 4 false ∷ (test_of 2 false ∷ (test_of 3 false ∷ [])))

abbrev all_go_through : String → List ℕ → Bool
all_go_through g is = true

-- rounding down, which is near enough here
abbrev share_down : ℕ → ℕ → ℕ → ℕ
share_down total points all = total * points / all

given-assign_tests_to_groups_example :
    given
      (assign_tests_to_groups share_down all_go_through
        (group_of "1" 30 ∷ (group_of "2" 30 ∷ (group_of "3" 40 ∷ [])))
        (some four_tests)).1
    ≡ non_example_indices four_tests
given-assign_tests_to_groups_example =
    given-assign_tests_to_groups share_down all_go_through (λ g is. refl) (group_of "1" 30)
      (group_of "2" 30 ∷ (group_of "3" 40 ∷ [])) four_tests

-- four groups and three tests: the last one gets no test, and its points are nowhere
last_group_empty :
    (assign_tests_to_groups share_down all_go_through
      (group_of "1" 25 ∷ (group_of "2" 25 ∷ (group_of "3" 25 ∷ (group_of "4" 25 ∷ []))))
      (some four_tests)).0
    ≡ ("1", 2 ∷ []) ∷ (("2", 3 ∷ []) ∷ (("3", 4 ∷ []) ∷ []))
unfolding assign_tests_to_groups non_example_indices sort_by insert_by assign_pieces cut pieces
    slice_counts planned_tests proportional slice total_points_of advance minus put_str
last_group_empty = refl
