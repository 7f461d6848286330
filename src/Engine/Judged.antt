-- ===== src/Engine/Judged.antt =====
-- What a result of `JudgingEngine.judge` says (backend/judge/app/engine/judge.py).
use yandex_codeforces_analyz.Prelude.{
  String, ◌≡◌, refl, sym, ap, ap₂, ◌∙◌, subst, ◌≢◌, ◌⊎◌, inl, inr, Bool, true, not, none, some,
  List, [], ◌∷◌, ◌++◌, map, arith, Bool-cases, Option-cases, or_else, first_where, Every, Floats,
  IsLawful,
}
use yandex_codeforces_analyz.Sandbox.{
  Result, ok, err, sandbox_error, value_error, unknown_language, ◌>>=◌, Ensures, Ensures-bind,
  Ensures-ok, RunLimits, Session, from_problem,
}
use yandex_codeforces_analyz.Languages.{Language, CompileResult, get_language}
use yandex_codeforces_analyz.Engine.Scoring.{Verdict, is_ok, TestCase, TestResult, score_tests}
use yandex_codeforces_analyz.Engine.{
  ProblemSpec, SubmissionSpec, JudgeResult, run_tests, aggregate, not_run, build_checker,
  judge_compiled, judge_in_sandbox, on_sandbox_error, judge, first_failed_test,
}
use yandex_codeforces_analyz.Engine.Scores.{Payable}
use yandex_codeforces_analyz.Engine.Paid.{score_tests-NotNegative}
use yandex_codeforces_analyz.Engine.Verdicts.{IsRun, all_run, stopped, went_on, run_tests-IsRun}

module _ (fl : Floats) (law : IsLawful fl) (se : Session) where
  open fl use {Float, fzero, fone, fle}
  open se use {Box, Bytes, open_box}

  abbrev Run : Bool → List (TestCase Bytes Float) → List (TestResult Float) → Type 0
  Run = IsRun fl law se

  -- what a judge result says
  pub record IsJudged (problem : ProblemSpec Bytes Float) (res : JudgeResult Float) : Type 0 where
    pub accepted :
        res.verdict ≡ Verdict.ok
        → (map (λ r. r.test_index) res.tests ≡ map (λ t. t.index) problem.tests)
          × Every (λ r. r.verdict ≡ Verdict.ok) res.tests
    pub compile_error_unrun : res.verdict ≡ Verdict.compile_error → res.tests ≡ []
    pub ratios : Every (λ r. fle fzero (or_else r.points_ratio fone) ≡ true) res.tests
    pub scored : (res.score ≡ fzero) ⊎ (res.score ≡ score_tests Bytes fl problem.tests res.tests)
    pub first_failure :
        res.verdict ≢ Verdict.ok
        → (res.tests ≡ [])
          ⊎ ((passed : List (TestResult Float)) × (r : TestResult Float) × (later : List
                (TestResult Float))
              × (res.tests ≡ passed ++ (r ∷ later))
              × Every (λ q. q.verdict ≡ Verdict.ok) passed
              × (res.verdict ≡ r.verdict)
              × (first_failed_test res ≡ some r.test_index)
              × (problem.stop_on_first_failure ≡ true → later ≡ []))

  failing : TestResult Float → Bool
  failing r = not (is_ok r.verdict)

  ok_of_test : (r : TestResult Float) → is_ok r.verdict ≡ true → r.verdict ≡ Verdict.ok
  ok_of_test r h = ground arith

  all_passed :
      {stop : Bool} {tests : List (TestCase Bytes Float)} {rs : List (TestResult Float)}
      → Run stop tests rs
      → first_where (λ r. not (is_ok r.verdict)) rs ≡ none
      → (map (λ r. r.test_index) rs ≡ map (λ t. t.index) tests)
        × Every (λ r. r.verdict ≡ Verdict.ok) rs
  all_passed all_run h = (refl, tt)
  all_passed (stopped test tests r result bad stops) h = absurd (ground arith)
  all_passed (went_on test tests r rs result good run) h =
      let rest = all_passed run (ground arith) in
      (ap₂ ◌∷◌ result.same_index rest.0, (ground arith, rest.1))

  ratios_of_Run :
      {stop : Bool} {tests : List (TestCase Bytes Float)} {rs : List (TestResult Float)}
      → Run stop tests rs
      → Every (λ r. fle fzero (or_else r.points_ratio fone) ≡ true) rs
  ratios_of_Run all_run = tt
  ratios_of_Run (stopped test tests r result bad stops) = (result.from_zero, tt)
  ratios_of_Run (went_on test tests r rs result good run) = (result.from_zero, ratios_of_Run run)

  -- the failure that decides the verdict
  abbrev Failure : Bool → List (TestResult Float) → TestResult Float → Type 0
  Failure stop rs f =
      (passed : List (TestResult Float)) × (later : List (TestResult Float)) × (rs
        ≡ passed ++ (f ∷ later))
      × Every (λ q. q.verdict ≡ Verdict.ok) passed
      × (stop ≡ true → later ≡ [])
      × (f.verdict ≢ Verdict.compile_error)

  first_failing :
      {stop : Bool} {tests : List (TestCase Bytes Float)} {rs : List (TestResult Float)}
      (f : TestResult Float)
      → Run stop tests rs
      → first_where (λ r. not (is_ok r.verdict)) rs ≡ some f
      → Failure stop rs f
  first_failing f all_run h = absurd (ground arith)
  first_failing f (stopped test tests r result bad stops) h =
      ([], [], ground arith, tt, λ _. refl, λ e. ground (arith, result.no_compile_error))
  first_failing f (went_on test tests r rs result good run) h =
      elim (Bool-cases (is_ok r.verdict)) [
        | inl fine ↦
            let rest = first_failing f run (ground arith) in
            (r ∷ rest.0, rest.1, ap (◌∷◌ r) rest.2, (ok_of_test r fine, rest.3), rest.4, rest.5)
        | inr bad ↦ (
          [],
          rs,
          ground arith,
          tt,
          λ s. absurd (ground arith),
          λ e. ground (arith, result.no_compile_error),
        )
      ]

  verdict-aggregate :
      (problem : ProblemSpec Bytes Float) (rs : List (TestResult Float))
      → (first_where (λ r. not (is_ok r.verdict)) rs ≡ none
          → (aggregate fl se problem rs).verdict ≡ Verdict.ok)
        × ((f : TestResult Float)
            → first_where (λ r. not (is_ok r.verdict)) rs ≡ some f
            → ((aggregate fl se problem rs).verdict ≡ f.verdict)
              × (first_failed_test (aggregate fl se problem rs) ≡ some f.test_index))
  unfolding aggregate first_failed_test
  verdict-aggregate problem rs =
      (λ h. rw (h, aggregate), λ f h. (rw (h, aggregate), rw (h, first_failed_test, aggregate)))

  first_where_fails :
      (rs : List (TestResult Float)) (f : TestResult Float)
      → first_where (λ r. not (is_ok r.verdict)) rs ≡ some f
      → f.verdict ≢ Verdict.ok
  first_where_fails [] f h = absurd (ground arith)
  first_where_fails (r ∷ rs) f h = elim (Bool-cases (is_ok r.verdict)) [
    | inl fine ↦ first_where_fails rs f (ground arith)
    | inr bad ↦ λ e. ground arith
  ]

  aggregate-IsJudged :
      (problem : ProblemSpec Bytes Float) (rs : List (TestResult Float))
      → Run problem.stop_on_first_failure problem.tests rs
      → IsJudged problem (aggregate fl se problem rs)
  aggregate-IsJudged problem rs run =
      elim (Option-cases (first_where (λ r. not (is_ok r.verdict)) rs)) [
        | inl clean ↦
            let verdict = (verdict-aggregate problem rs).0 clean in
            record {
              accepted = λ _. unfold aggregate in all_passed run clean;
              compile_error_unrun = λ e. absurd (ground arith);
              ratios = unfold aggregate in ratios_of_Run run;
              scored = unfold aggregate in inr refl;
              first_failure = λ n. absurd (n verdict);
            }
        | inr (f, failed) ↦
            let (verdict, index) = (verdict-aggregate problem rs).1 f failed in
            let (passed, later, split, fine, stops, no_ce) = first_failing f run failed in
            record {
              accepted = λ e. absurd (first_where_fails rs f failed (sym verdict ∙ e));
              compile_error_unrun = λ e. absurd (no_ce (sym verdict ∙ e));
              ratios = unfold aggregate in ratios_of_Run run;
              scored = unfold aggregate in inr refl;
              first_failure = λ n.
                  inr (passed, f, later, unfold aggregate in split, fine, verdict, index, stops);
            }
      ]

  not_run-IsJudged :
      (problem : ProblemSpec Bytes Float) (verdict : Verdict) (log : String)
      → verdict ≢ Verdict.ok
      → IsJudged problem (not_run fl se verdict log)
  not_run-IsJudged problem verdict log n = record {
    accepted = λ e. absurd (n e);
    compile_error_unrun = λ e. refl;
    ratios = tt;
    scored = inl refl;
    first_failure = λ _. inl refl;
  }

  module _ (registry : List (Language Float)) (problem : ProblemSpec Bytes Float) where
    tests_run-IsJudged :
        (argv : List String) (limits : RunLimits) (box : Box)
        → Ensures (IsJudged problem) (
            run_tests fl se argv limits problem.stop_on_first_failure problem.tests box
            >>= λ results. ok (aggregate fl se problem results))
    tests_run-IsJudged argv limits box =
        Ensures-bind _ (run_tests fl se argv limits problem.stop_on_first_failure problem.tests box)
          _
          λ rs e. Ensures-ok _ _ (
            aggregate-IsJudged problem rs (
              (run_tests-IsRun fl law se argv limits problem.stop_on_first_failure problem.tests
                  box).holds
                rs e))

    judge_compiled-IsJudged :
        (language : Language Float) (limits : RunLimits) (compiled : CompileResult) (box : Box)
        → Ensures
            (IsJudged problem)
            (judge_compiled fl se registry problem language limits compiled box)
    unfolding judge_compiled
    judge_compiled-IsJudged language limits compiled box = elim (Bool-cases compiled.is_ok) [
      | inr broken ↦
          rw (broken, judge_compiled)
            (Ensures-ok _ _ (not_run-IsJudged problem _ compiled.log λ e. ground arith))
      | inl built ↦
          rw (built, judge_compiled)
            (Ensures-bind {A = Bool × Box} _ (build_checker fl se registry problem box) _ λ ready _.
              elim (Bool-cases ready.0) [
                | inr f ↦ rw f (Ensures-ok _ _ (not_run-IsJudged problem _ _ λ e. ground arith))
                | inl t ↦ rw t (tests_run-IsJudged _ limits ready.1)
              ])
    ]

    judge_in_sandbox-IsJudged :
        (submission : SubmissionSpec Bytes) (language : Language Float) (limits : RunLimits)
        → Ensures
            (IsJudged problem)
            (judge_in_sandbox fl se registry problem submission language limits)
    unfolding judge_in_sandbox
    judge_in_sandbox-IsJudged submission language limits =
        Ensures-bind {A = CompileResult × Box} _ _ _
          λ c _. judge_compiled-IsJudged language limits c.0 c.1

    on_sandbox_error-IsJudged :
        (m : Result (JudgeResult Float))
        → Ensures (IsJudged problem) m
        → Ensures (IsJudged problem) (on_sandbox_error fl se registry m)
    on_sandbox_error-IsJudged (ok res) h = h
    on_sandbox_error-IsJudged (err (sandbox_error text)) h =
        Ensures-ok _ _ (not_run-IsJudged problem _ text λ e. ground arith)
    on_sandbox_error-IsJudged (err (value_error text)) h = record { holds = λ r e. cc }
    on_sandbox_error-IsJudged (err (unknown_language id)) h = record { holds = λ r e. cc }

    -- A result of the judge is accepted only if every test of the problem was run, in order, and
    -- passed; a compile error is only reported where no test was run; no ratio of points is
    -- negative; the score is 0 or that of `score_tests`; and any other verdict with tests is that of the first failing test, whose index is
    -- reported, with all tests before it passed and, if the problem stops at failures, none after.
    pub judge-IsJudged :
        (submission : SubmissionSpec Bytes) (res : JudgeResult Float)
        → judge fl se registry problem submission ≡ ok res
        → IsJudged problem res
    unfolding judge
    judge-IsJudged submission res h =
        (Ensures-bind (IsJudged problem) (get_language registry submission.language_id) _
            λ language _.
              Ensures-bind _
                (from_problem fl problem.time_limit_ms problem.memory_limit_mb
                  language.tl_multiplier)
                _
                λ limits _.
                  on_sandbox_error-IsJudged _
                    (judge_in_sandbox-IsJudged submission language limits)).holds
          res h

    -- Where the points of the tests are not negative, the score of a judge result is not negative.
    pub judge_score-NotNegative :
        (submission : SubmissionSpec Bytes) (res : JudgeResult Float)
        → Every (Payable Bytes fl law) problem.tests
        → judge fl se registry problem submission ≡ ok res
        → fle fzero res.score ≡ true
    judge_score-NotNegative submission res pay h =
        let judged = judge-IsJudged submission res h in
        elim judged.scored [
          | inl e ↦
              subst (λ x. fle fzero x ≡ true) (sym e) (ground (arith, law.fle_total fzero fzero))
          | inr e ↦
              subst (λ x. fle fzero x ≡ true) (sym e)
                (score_tests-NotNegative Bytes fl law problem.tests res.tests pay judged.ratios)
        ]
