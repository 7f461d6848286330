-- ===== src/Scoring.antt =====
-- backend/api/user/gpt/services/build/scoring_groups.py: after a build, the tests of the problem are
-- given to the scoring groups. Polygon's methods are the parameters `get_tests` (`none` where it
-- raises) and `accepts`, which says whether problem.setTestGroup goes through; `share` is
-- `round(total * points / total_points)`, on which the proofs make no demand. Points are not
-- negative here. The LaTeX table and the set-up of the groups are not modelled.
pub mod Slices
mod Tests
use yandex_codeforces_analyz.Prelude.{
  ℕ, zero, suc, ◌+◌, ◌-◌, ◌*◌, ◌/◌, ◌%◌, ◌≤◌, ◌<◌, min, max, String, ◌≡◌, refl, sym, ap, ap₂, ◌∙◌,
  subst, fun_ext, ◌≢◌, ◌↔◌, ◌⊎◌, inl, inr, Bool, true, false, not, ◌&&◌, ◌||◌, Option, none, some,
  List, [], ◌∷◌, ◌++◌, map, foldl, append-nil, append_assoc, arith, ltb, leb, ◌==◌, if◌then◌else◌,
  ltb→lt, leb→le, ==_iff, Bool-cases, Option-cases, or_else, is_some, length, get_elem?, take, drop,
  all_of, any_of, select, count_of, first_where, Every, length-append, take-append-drop,
  count_of-le, sum_by, str_eq, str_eq_iff, str_append, str_take, str_is_empty, str_or, show, join,
  Floats, IsLawful, get_key, put_key, modify, set_default, has_key, keys, values, get_key-put_key,
  get_key-modify, get_key-set_default, keys-modify, get_key_missing, dict_laws, insert_by, sort_by,
  sort_by-perm, IsSorted, IsWeakOrder, sort_by-IsSorted, ℤ, pos, negsuc, leb_ℤ, eq_ℤ, max_ℤ, or_ℤ,
  lstrip, rstrip, strip, strip_edges, split, first_word, after_prefix, after_marker, splitlines,
  split_once, parse_int, get_str, put_str, no_float, nan, number, Reading, read_digits-two_digits,
  after_prefix-append, after_prefix-differs, two_digits, read_digits, heads_differ, modified,
  append_named, after_prefix_complete, str_eq_refl, str_eq_comm, get_str-nil, get_str-put_str,
  Every-select, Every-selected, Every-take, Every-both, first_where-holds, str_eq-append,
  str_eq_apart,
}

-- a group's configuration; `none` is a missing `num_tests`
pub record GroupConfig : Type 0 where
  pub group : String
  pub points : ℕ
  pub num_tests : Option ℤ

-- an entry of problem.tests
pub record TestInfo : Type 0 where
  pub index : Option ℕ
  pub use_in_statements : Option Bool

-- the calls of Polygon that change it: tests of a group, and points of a test
pub data PolygonCall : Type 0 where
  set_test_group : String → List ℕ → PolygonCall
  save_points : ℕ → String → ℕ → PolygonCall

-- `a - b` of two counts
unfoldable pub minus : ℕ → ℕ → ℤ
minus a b = if leb b a then pos (a - b) else negsuc (b - a - 1)

-- `max(0, int(g.get("num_tests", 0)))`
unfoldable pub planned_tests : GroupConfig → ℕ
planned_tests g = elim (or_else g.num_tests (pos 0)) [ pos n ↦ n | negsuc n ↦ 0 ]

-- `counts[-1] += d`
unfoldable pub add_to_last : ℕ → List ℕ → List ℕ
add_to_last d [] = []
add_to_last d (c ∷ []) = (c + d) ∷ []
add_to_last d (c ∷ (e ∷ cs)) = c ∷ add_to_last d (e ∷ cs)

abbrev pub sum_of : List ℕ → ℕ
sum_of [] = 0
sum_of (n ∷ ns) = n + sum_of ns

unfoldable pub non_example_indices : List TestInfo → List ℕ
non_example_indices tests =
    sort_by ltb
      (map (λ t. or_else t.index 0) (select (λ t. not (or_else t.use_in_statements false)) tests))

-- `xs[start : start + count]`; where the count is negative the end is not behind the start
unfoldable pub slice : List ℕ → ℕ → ℤ → List ℕ
slice xs start (pos count) = take count (drop start xs)
slice xs start (negsuc n) = []

unfoldable pub advance : ℕ → ℤ → ℕ
advance start (pos count) = start + count
advance start (negsuc n) = start - (n + 1)

-- the slices, as the loop over `zip(groups, counts)` cuts them
unfoldable pub pieces : List ℕ → ℕ → List GroupConfig → List ℤ → List (GroupConfig × List ℕ)
pieces xs assigned [] counts = []
pieces xs assigned (g ∷ gs) [] = []
pieces xs assigned (g ∷ gs) (c ∷ cs) =
    (g, slice xs assigned c) ∷ pieces xs (advance assigned c) gs cs

module _ (share : ℕ → ℕ → ℕ → ℕ) where
  -- the loop of `_slice_counts`
  unfoldable pub proportional : ℕ → ℕ → ℕ → List GroupConfig → List ℤ
  proportional total total_points assigned [] = []
  proportional total total_points assigned (g ∷ []) = minus total assigned ∷ []
  proportional total total_points assigned (g ∷ (h ∷ gs)) =
      pos (max 1 (share total g.points total_points))
      ∷ proportional total total_points (assigned + max 1 (share total g.points total_points))
          (h ∷ gs)

  unfoldable pub total_points_of : List GroupConfig → ℕ
  total_points_of groups =
      if sum_by (λ g. g.points) groups == 0 then length groups else sum_by (λ g. g.points) groups

  unfoldable pub slice_counts : List GroupConfig → ℕ → List ℤ
  slice_counts groups total =
      if not (sum_of (map planned_tests groups) == 0)
        && leb (sum_of (map planned_tests groups)) total
      then map pos
          (add_to_last (total - sum_of (map planned_tests groups)) (map planned_tests groups))
      else proportional total (total_points_of groups) 0 groups

  unfoldable pub cut : List GroupConfig → List ℕ → List (GroupConfig × List ℕ)
  cut groups indices = pieces indices 0 groups (slice_counts groups (length indices))

  module _ (accepts : String → List ℕ → Bool) where
    -- the loop, for the returned mapping and the calls that are made; the points are set whether or
    -- not that call goes through
    unfoldable pub assign_pieces :
        List (GroupConfig × List ℕ)
        → List (String × List ℕ)
        → List (String × List ℕ) × List PolygonCall
    assign_pieces [] mapping = (mapping, [])
    assign_pieces ((g, []) ∷ rest) mapping = assign_pieces rest mapping
    assign_pieces ((g, i ∷ is) ∷ rest) mapping =
        let refused = assign_pieces rest mapping in
        let done = assign_pieces rest (put_str g.group (i ∷ is) mapping) in
        if accepts g.group (i ∷ is)
        then (done.0, set_test_group g.group (i ∷ is) ∷ (save_points i g.group g.points ∷ done.1))
        else refused

    unfoldable pub assign_tests_to_groups :
        List GroupConfig → Option (List TestInfo) → List (String × List ℕ) × List PolygonCall
    assign_tests_to_groups [] tests = ([], [])
    assign_tests_to_groups (g ∷ gs) none = ([], [])
    assign_tests_to_groups (g ∷ gs) (some tests) = elim (non_example_indices tests) [
      | [] ↦ ([], [])
      | i ∷ is ↦ assign_pieces (cut (g ∷ gs) (i ∷ is)) []
    ]
