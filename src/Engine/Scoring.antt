-- ===== src/Engine/Scoring.antt =====
-- backend/judge/app/engine/scoring.py with the types that it reads (spec.py, result.py, verdict.py):
-- from the results of the tests to a score.
use yandex_codeforces_analyz.Prelude.{
  ℕ, String, Bool, true, false, not, Option, none, some, List, [], ◌∷◌, ◌++◌, map, foldl,
  if◌then◌else◌, or_else, all_of, str_eq, Floats, get_key, put_key, ℤ,
}

pub data Verdict : Type 0 where
  ok wrong_answer time_limit memory_limit runtime_error presentation_error compile_error : Verdict
  internal_error : Verdict

-- `verdict is Verdict.OK`
abbrev pub is_ok : Verdict → Bool
is_ok Verdict.ok = true
is_ok _ = false

pub record TestCase (Bytes F : Type 0) : Type 0 where
  pub index : ℕ
  pub input_data : Bytes
  pub answer_data : Bytes
  pub group : Option String
  pub points : F

pub record TestResult (F : Type 0) : Type 0 where
  pub test_index : ℕ
  pub verdict : Verdict
  pub time_ms : ℤ
  pub memory_kb : ℤ
  pub comment : String
  pub points_ratio : Option F

-- `{r.test_index: r for r in results}`: the last result of an index stays
unfoldable pub index_results :
    {F : Type 0} → List (ℕ × TestResult F) → List (TestResult F) → List (ℕ × TestResult F)
index_results m [] = m
index_results m (r ∷ rs) = index_results (put_key r.test_index r m) rs

module _ (fl : Floats) where
  open fl use {Float, fone, fle}

  -- `o and o.verdict is Verdict.OK`
  abbrev pub passed : Option (TestResult Float) → Bool
  passed none = false
  passed (some r) = is_ok r.verdict

  -- `o.points_ratio if o and o.points_ratio is not None else 1.0`
  abbrev pub ratio_of : Option (TestResult Float) → Float
  ratio_of none = fone
  ratio_of (some r) = or_else r.points_ratio fone

  -- `min(ratios)`: the first of the least
  unfoldable pub least : Float → List Float → Float
  least a [] = a
  least a (b ∷ bs) = least (if not (fle a b) then b else a) bs

module _ (Bytes : Type 0) (fl : Floats) where
  open fl use {Float, fzero, fadd, fmul, round6}

  abbrev Case : Type 0
  Case = TestCase Bytes Float

  -- `grouped.setdefault(group, []).append(test)`
  unfoldable pub add_member : String → Case → List (String × List Case) → List (String × List Case)
  add_member g t [] = (g, t ∷ []) ∷ []
  add_member g t ((h, members) ∷ rest) =
      let others = add_member g t rest in
      if str_eq h g then (h, members ++ (t ∷ [])) ∷ rest else (h, members) ∷ others

  -- the first loop of `score_tests`: the total of the tests without a group, and the groups
  unfoldable pub score_single :
      List (ℕ × TestResult Float)
      → List Case
      → Float
      → List (String × List Case)
      → Float × List (String × List Case)
  score_single by_index [] total grouped = (total, grouped)
  score_single by_index (t ∷ ts) total grouped =
      let result = get_key t.index by_index in
      elim t.group [
        | none ↦
            score_single by_index ts
              (if passed fl result then fadd total (fmul t.points (ratio_of fl result)) else total)
              grouped
        | some g ↦ score_single by_index ts total (add_member g t grouped)
      ]

  abbrev pub outcomes_of :
      List (ℕ × TestResult Float) → List Case → List (Option (TestResult Float))
  outcomes_of by_index = map (λ t. get_key t.index by_index)

  -- what one group pays; a group of `grouped` has a member
  unfoldable pub group_pays : List (ℕ × TestResult Float) → List Case → Float → Float
  group_pays by_index [] total = total
  group_pays by_index (t ∷ ts) total =
      let members = t ∷ ts in
      let points = foldl fadd fzero (map (λ m. m.points) members) in
      let ratio =
        least fl (ratio_of fl (get_key t.index by_index))
          (map (ratio_of fl) (outcomes_of by_index ts)) in
      if not (all_of (passed fl) (outcomes_of by_index members))
      then total
      else fadd total (fmul points ratio)

  unfoldable pub score_groups :
      List (ℕ × TestResult Float) → List (String × List Case) → Float → Float
  unfolding group_pays least
  score_groups by_index [] total = total
  score_groups by_index ((g, members) ∷ rest) total =
      score_groups by_index rest (group_pays by_index members total)

  unfoldable pub score_tests : List Case → List (TestResult Float) → Float
  score_tests tests results =
      let by_index = index_results [] results in
      let (total, grouped) = score_single by_index tests fzero [] in
      round6 (score_groups by_index grouped total)
