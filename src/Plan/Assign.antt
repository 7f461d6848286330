-- ===== src/Plan/Assign.antt =====
-- The assignment of Polygon's tests to the groups of a plan (`assign` of
-- services/ai-authoring/authoring/pipeline/groups.py). The groups and the policies are dicts with
-- texts for keys, the points a dict with the indices for keys.
use yandex_codeforces_analyz.Prelude.{
  ℕ, String, Bool, not, ◌&&◌, Option, none, some, List, [], ◌∷◌, ◌++◌, ltb, ◌==◌, if◌then◌else◌,
  or_else, length, any_of, select, str_eq, Floats, put_key, sort_by, get_str, put_str,
}
use yandex_codeforces_analyz.Plan.{
  GroupPlan, TestPlan, ScriptLine, counts_differ, empty_group, no_generated_group, unknown_group,
  Warning, manual_to_last, sample_to_last, no_sample_tests, dropped_dependencies, Planned, planned,
  fault, ◌then◌, samples_group, generated_groups,
}

-- a test of Polygon, with the keys that `assign` reads
pub record PolygonTest : Type 0 where
  pub index : ℕ
  pub manual : Bool
  pub use_in_statements : Bool

abbrev pub Groups : Type 0
Groups = List (String × List ℕ)

pub record Assignment (F : Type 0) : Type 0 where
  pub groups : Groups
  pub points : List (ℕ × F)
  pub policies : List (String × (String × String × List String))
  pub warnings : List Warning

-- `groups[name].append(index)`
unfoldable pub add_index : String → ℕ → Groups → Planned Groups
add_index name i [] = fault (unknown_group name)
add_index name i ((n, is) ∷ rest) =
    let others = add_index name i rest then λ more. planned ((n, is) ∷ more) in
    if str_eq n name then planned ((n, is ++ (i ∷ [])) ∷ rest) else others

abbrev pub by_index : PolygonTest → PolygonTest → Bool
by_index a b = ltb a.index b.index

-- the first loop: the manual tests
unfoldable pub place_manual :
    Option String
    → String
    → List PolygonTest
    → Groups
    → List Warning
    → Planned (Groups × List Warning)
place_manual samples last [] groups warnings = planned (groups, warnings)
place_manual samples last (t ∷ ts) groups warnings =
    let to_last = λ (w : Warning). add_index last t.index groups then λ more.
    place_manual samples last ts more (warnings ++ (w ∷ [])) in
    if t.use_in_statements
    then (elim samples [
      | some name ↦
          add_index name t.index groups then λ more. place_manual samples last ts more warnings
      | none ↦ to_last (sample_to_last t.index last)
    ])
    else to_last (manual_to_last t.index last)

-- the second loop: the generated tests with their lines, up to the end of the shorter list
unfoldable pub place_generated : List PolygonTest → List ScriptLine → Groups → Planned Groups
place_generated [] lines groups = planned groups
place_generated (t ∷ ts) [] groups = planned groups
place_generated (t ∷ ts) (l ∷ ls) groups =
    add_index l.group t.index groups then λ more. place_generated ts ls more

-- `indices[-1]`
last_of : ℕ → List ℕ → ℕ
last_of i [] = i
last_of i (j ∷ js) = last_of j js

module _ (fl : Floats) where
  open fl use {Float, fzero}

  -- `points[index] = 0` for each index
  zero_points : List ℕ → List (ℕ × Float) → List (ℕ × Float)
  zero_points [] points = points
  zero_points (i ∷ is) points = zero_points is (put_key i fzero points)

  -- the third loop: the sorted indices of each group and the points
  unfoldable pub settle_groups :
      List (GroupPlan Float)
      → Groups
      → List (ℕ × Float)
      → List Warning
      → Planned (Groups × List (ℕ × Float) × List Warning)
  unfolding last_of zero_points
  settle_groups [] groups points warnings = planned (groups, points, warnings)
  settle_groups (g ∷ gs) groups points warnings =
      let indices = sort_by ltb (or_else (get_str g.name groups) []) in
      let groups' = put_str g.name indices groups in
      elim indices [
        | [] ↦
            if g.samples
            then settle_groups gs groups' points (warnings ++ (no_sample_tests g.name ∷ []))
            else fault (empty_group g.name)
        | i ∷ is ↦
            settle_groups gs groups' (put_key (last_of i is) g.points (zero_points (i ∷ is) points))
              warnings
      ]

  -- `{g.name for g in plan.groups if not groups[g.name]}`, as a test
  abbrev pub is_empty_group : List (GroupPlan Float) → Groups → String → Bool
  is_empty_group gs groups d =
      any_of (λ g. str_eq g.name d && (length (or_else (get_str g.name groups) []) == 0)) gs

  -- the last loop: the policies, without the dependencies on empty groups
  unfoldable pub policies_of :
      (String → Bool)
      → List (GroupPlan Float)
      → List (String × (String × String × List String))
      → List Warning
      → List (String × (String × String × List String)) × List Warning
  policies_of is_empty [] policies warnings = (policies, warnings)
  policies_of is_empty (g ∷ gs) policies warnings =
      let deps = select (λ d. not (is_empty d)) g.dependencies in
      let dropped = select is_empty g.dependencies in
      policies_of is_empty gs
        (put_str g.name ("COMPLETE_GROUP", (if g.samples then "COMPLETE" else "ICPC"), deps)
          policies)
        (if length deps == length g.dependencies
          then warnings
          else warnings ++ (dropped_dependencies g.name dropped ∷ []))

  -- `{g.name: [] for g in plan.groups}`
  unfoldable pub no_groups : List (GroupPlan Float) → Groups → Groups
  no_groups [] groups = groups
  no_groups (g ∷ gs) groups = no_groups gs (put_str g.name [] groups)

  unfoldable pub last_group : List (GroupPlan Float) → Planned String
  last_group [] = fault no_generated_group
  last_group (g ∷ []) = planned g.name
  last_group (g ∷ h ∷ gs) = last_group (h ∷ gs)

  abbrev pub finish_assign :
      TestPlan Float → Groups × List (ℕ × Float) × List Warning → Planned (Assignment Float)
  finish_assign plan (groups, points, warnings) =
      let (policies, more) =
        policies_of (is_empty_group plan.groups groups) plan.groups [] warnings in
      planned (record { groups = groups; points = points; policies = policies; warnings = more })

  -- `assign` after the check of the counts
  unfoldable pub assign_placed :
      TestPlan Float
      → List PolygonTest
      → List PolygonTest
      → List ScriptLine
      → Planned (Assignment Float)
  unfolding last_group
  assign_placed plan manual generated lines = last_group (generated_groups plan) then λ last.
      place_manual (elim (samples_group plan) [ none ↦ none | some g ↦ some g.name ]) last manual
        (no_groups plan.groups []) []
      then λ (groups, warnings). place_generated generated lines groups then λ groups'.
          settle_groups plan.groups groups' [] warnings then finish_assign plan

  unfoldable pub assign :
      TestPlan Float → List PolygonTest → List ScriptLine → Planned (Assignment Float)
  assign plan tests lines =
      let sorted = sort_by by_index tests in
      let generated = select (λ t. not t.manual) sorted in
      let manual = select (λ t. t.manual) sorted in
      if not (length generated == length lines)
      then fault (counts_differ (length generated) (length lines))
      else assign_placed plan manual generated lines
