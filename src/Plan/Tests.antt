-- ===== src/Plan/Tests.antt =====
-- A plan of two groups, and each theorem at a concrete input.
use yandex_codeforces_analyz.Prelude.{
  ℕ, ◌≡◌, refl, true, false, none, some, List, [], ◌∷◌, length, sum_by, show, join, put_key,
  insert_by, sort_by, get_str, put_str,
}
use yandex_codeforces_analyz.Samples.{whole}
use yandex_codeforces_analyz.Plan.{
  TestPlan, ScriptLine, planned, test_count, generated_groups, command_of, lines_of, case_lines,
  group_lines, expand_lines,
}
use yandex_codeforces_analyz.Plan.Lines.{Numbered, expand_lines-Numbered}
use yandex_codeforces_analyz.Plan.Assign.{
  PolygonTest, Assignment, add_index, place_manual, place_generated, settle_groups, policies_of,
  no_groups, last_group, assign_placed, assign,
}
use yandex_codeforces_analyz.Plan.Partition.{IsPartition, assign-IsPartition}

abbrev plan : TestPlan ℕ
plan = record {
  use_groups = true;
  groups =
      record {
        name = "0";
        points = 0;
        description = "";
        dependencies = [];
        generator = none;
        cases = [];
        samples = true;
      }
      ∷ record {
        name = "1";
        points = 100;
        description = "";
        dependencies = "0" ∷ [];
        generator = some "gen";
        cases = record { args = "-n 5"; case_count = 2 } ∷ [];
        samples = false;
      }
      ∷ [];
  note = "";
}

abbrev lines : List ScriptLine
lines =
    record { group = "1"; generator = "gen"; command = "gen -n 5 1" }
    ∷ record { group = "1"; generator = "gen"; command = "gen -n 5 2" }
    ∷ []

lines_expanded : expand_lines plan ≡ planned lines
unfolding expand_lines group_lines case_lines lines_of command_of test_count join show
lines_expanded = refl

abbrev tests : List PolygonTest
tests =
    record { index = 3; manual = false; use_in_statements = false }
    ∷ record { index = 1; manual = true; use_in_statements = true }
    ∷ record { index = 2; manual = false; use_in_statements = false }
    ∷ []

abbrev assigned : Assignment ℕ
assigned = record {
  groups = ("0", 1 ∷ []) ∷ ("1", 2 ∷ 3 ∷ []) ∷ [];
  points = (1, 0) ∷ (2, 0) ∷ (3, 100) ∷ [];
  policies =
      ("0", ("COMPLETE_GROUP", "COMPLETE", [])) ∷ ("1", ("COMPLETE_GROUP", "ICPC", "0" ∷ [])) ∷ [];
  warnings = [];
}

tests_assigned : assign whole plan tests lines ≡ planned assigned
unfolding assign assign_placed sort_by insert_by last_group place_manual place_generated add_index
    settle_groups policies_of no_groups put_str get_str put_key
tests_assigned = refl

expand_lines-Numbered_example :
    Numbered 0 lines × (length lines ≡ sum_by test_count (generated_groups plan))
expand_lines-Numbered_example = expand_lines-Numbered plan lines lines_expanded

assign-IsPartition_example : IsPartition whole tests assigned
assign-IsPartition_example = assign-IsPartition whole plan tests lines assigned tests_assigned
