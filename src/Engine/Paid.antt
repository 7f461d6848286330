-- ===== src/Engine/Paid.antt =====
-- The score of backend/judge/app/engine/scoring.py is never negative.
use yandex_codeforces_analyz.Prelude.{
  ℕ, String, ◌≡◌, refl, ap, ◌∙◌, subst, inl, inr, true, List, [], ◌∷◌, ◌==◌, Bool-cases,
  Option-cases, or_else, Every, Floats, IsLawful, get_key, put_key, get_key-put_key,
}
use yandex_codeforces_analyz.Engine.Scoring.{
  TestCase, TestResult, index_results, ratio_of, add_member, score_single, group_pays, score_groups,
  score_tests,
}
use yandex_codeforces_analyz.Engine.Scores.{Payable, unrounded, score_tests_mono}
use yandex_codeforces_analyz.Engine.Amounts.{NotNegative}

module _ (Bytes : Type 0) (fl : Floats) (law : IsLawful fl) where
  open fl use {Float, fzero, fone, round6}
  open law use {round6-fzero, fzero-le-one}

  abbrev Case : Type 0
  Case = TestCase Bytes Float

  group_pays_nothing : (members : List Case) (a : Float) → group_pays Bytes fl [] members a ≡ a
  unfolding group_pays get_key
  group_pays_nothing [] a = refl
  group_pays_nothing (t ∷ ts) a = refl

  groups_pay_nothing :
      (grouped : List (String × List Case)) (a : Float) → score_groups Bytes fl [] grouped a ≡ a
  unfolding score_groups
  groups_pay_nothing [] a = refl
  groups_pay_nothing ((g, members) ∷ rest) a =
      groups_pay_nothing rest (group_pays Bytes fl [] members a) ∙ group_pays_nothing members a

  singles_pay_nothing :
      (tests : List Case) (a : Float) (grouped : List (String × List Case))
      → unrounded Bytes fl law [] (score_single Bytes fl [] tests a grouped) ≡ a
  unfolding score_single get_key
  singles_pay_nothing [] a grouped = groups_pay_nothing grouped a
  singles_pay_nothing (t ∷ ts) a grouped = elim (Option-cases t.group) [
    | inl single ↦ simp single (singles_pay_nothing ts a grouped)
    | inr (g, here) ↦ simp here (singles_pay_nothing ts a (add_member Bytes fl g t grouped))
  ]

  -- no results, no points
  score_tests-nil : (tests : List Case) → score_tests Bytes fl tests [] ≡ fzero
  unfolding score_tests index_results
  score_tests-nil tests = ap round6 (singles_pay_nothing tests fzero []) ∙ round6-fzero

  abbrev pub RatioOk : TestResult Float → Type 0
  RatioOk r = NotNegative fl law (or_else r.points_ratio fone)

  abbrev AllRatios : List (ℕ × TestResult Float) → Type 0
  AllRatios m = (i : ℕ) → NotNegative fl law (ratio_of fl (get_key i m))

  put_key-AllRatios :
      (k : ℕ) (r : TestResult Float) (m : List (ℕ × TestResult Float))
      → RatioOk r
      → AllRatios m
      → AllRatios (put_key k r m)
  put_key-AllRatios k r m h all i = elim (Bool-cases (k == i)) [
    | inl e ↦ rw (get_key-put_key i k r m) (rw e h)
    | inr f ↦ rw (get_key-put_key i k r m) (rw f (all i))
  ]

  index_results-AllRatios :
      (m : List (ℕ × TestResult Float)) (results : List (TestResult Float))
      → Every RatioOk results
      → AllRatios m
      → AllRatios (index_results m results)
  unfolding index_results
  index_results-AllRatios m [] ratios all = all
  index_results-AllRatios m (r ∷ rs) ratios all =
      index_results-AllRatios (put_key r.test_index r m) rs ratios.1
        (put_key-AllRatios r.test_index r m ratios.0 all)

  pub score_tests-NotNegative :
      (tests : List Case) (results : List (TestResult Float))
      → Every (Payable Bytes fl law) tests
      → Every RatioOk results
      → NotNegative fl law (score_tests Bytes fl tests results)
  unfolding index_results get_key
  score_tests-NotNegative tests results pay ratios =
      subst (λ x. fl.fle x (score_tests Bytes fl tests results) ≡ true) (score_tests-nil tests)
        (score_tests_mono Bytes fl law tests [] results pay λ i. record {
          passes = λ h. cc;
          pays = λ h. cc;
          from_zero = fzero-le-one;
          from_zero' = index_results-AllRatios [] results ratios (λ j. fzero-le-one) i;
        })
