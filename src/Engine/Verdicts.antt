-- ===== src/Engine/Verdicts.antt =====
-- The verdict of backend/judge/app/engine/judge.py against the results of the tests.
use yandex_codeforces_analyz.Prelude.{
  String, ◌≡◌, refl, ◌≢◌, ◌⊎◌, inl, inr, Bool, true, false, not, ◌&&◌, Option, none, some, List, [],
  ◌∷◌, arith, Bool-cases, Option-cases, or_else, str_is_empty, Floats, IsLawful, strip, first_word,
  after_marker, no_float, nan, number, Reading,
}
use yandex_codeforces_analyz.Sandbox.{
  Ensures, Ensures-bind, Ensures-ok, RunStatus, RunResult, RunLimits, Session,
}
use yandex_codeforces_analyz.Engine.Scoring.{Verdict, is_ok, TestCase, TestResult}
use yandex_codeforces_analyz.Engine.{
  CheckOutcome, from_run_status, exit_to_verdict, check_outcome, clamp, reading_points, tail_points,
  parse_points, input_name, output_name, answer_name, run_checker, finish_test, run_test, run_tests,
}

module _ (fl : Floats) where
  open fl use {Float, fzero, fone, fle}

  -- what the checker's outcome never is: a compile error, or a ratio outside 0..1
  pub record IsCheck (c : CheckOutcome Float) : Type 0 where
    pub no_compile_error : c.verdict ≢ Verdict.compile_error
    pub from_zero : fle fzero (or_else c.points_ratio fone) ≡ true
    pub to_one : fle (or_else c.points_ratio fone) fone ≡ true

  module _ (law : IsLawful fl) where
    open law use {fle_total, fle_trans, fzero-le-one}

    clamp_bounds : (x : Float) → (fle fzero (clamp fl x) ≡ true) × (fle (clamp fl x) fone ≡ true)
    unfolding clamp
    clamp_bounds x = (
      ground (
        arith,
        fle_total fzero x,
        fle_total fone x,
        fzero-le-one,
        fle_total fzero fzero,
        fle_total fone fone,
        fle_total fzero fone,
      ),
      ground (
        arith,
        fle_total fzero x,
        fle_total fone x,
        fzero-le-one,
        fle_total fone fone,
        fle_total fzero fzero,
      ),
    )

    abbrev InUnit : Float → Type 0
    InUnit x = (fle fzero x ≡ true) × (fle x fone ≡ true)

    zero_InUnit : InUnit fzero
    zero_InUnit = (ground (arith, fle_total fzero fzero), fzero-le-one)

    one_InUnit : InUnit fone
    one_InUnit = (fzero-le-one, ground (arith, fle_total fone fone))

    reading_points_bounds : (r : Reading Float) → InUnit (or_else (reading_points fl r) fzero)
    unfolding reading_points
    reading_points_bounds no_float = zero_InUnit
    reading_points_bounds nan = one_InUnit
    reading_points_bounds (number x) = clamp_bounds x

    tail_points_bounds : (t : Option String) → InUnit (or_else (tail_points fl t) fzero)
    unfolding tail_points
    tail_points_bounds none = zero_InUnit
    tail_points_bounds (some tail) = elim (Bool-cases (str_is_empty (first_word tail))) [
      | inl e ↦ rw e zero_InUnit
      | inr f ↦ rw f (reading_points_bounds (fl.parse_float (first_word tail)))
    ]

    parse_points_bounds : (comment : String) → InUnit (or_else (parse_points fl comment) fzero)
    unfolding parse_points
    parse_points_bounds comment = tail_points_bounds (after_marker "points " comment)

    -- Whatever the checker does, its outcome is no compile error and its ratio lies in 0..1.
    pub check_outcome-IsCheck :
        (result : RunResult) (comment : String) → IsCheck (check_outcome fl result comment)
    unfolding check_outcome exit_to_verdict
    check_outcome-IsCheck result comment = record {
      no_compile_error = λ e. ground arith;
      from_zero = ground (arith, parse_points_bounds comment, one_InUnit);
      to_one = ground (arith, parse_points_bounds comment, one_InUnit);
    }

    module _ (se : Session) where
      open se use {Box, Bytes, put_file, read_file, run_program, decode}

      -- what holds of the result of one test
      pub record IsResultOf (test : TestCase Bytes Float) (r : TestResult Float) : Type 0 where
        pub same_index : r.test_index ≡ test.index
        pub no_compile_error : r.verdict ≢ Verdict.compile_error
        pub from_zero : fle fzero (or_else r.points_ratio fone) ≡ true
        pub to_one : fle (or_else r.points_ratio fone) fone ≡ true

      run_checker-IsCheck :
          (i o a : String) (box : Box) → Ensures (λ r. IsCheck r.0) (run_checker fl se i o a box)
      unfolding run_checker
      run_checker-IsCheck i o a box = Ensures-bind _ (run_program _ _ _ _ _ box) _ λ run _.
          Ensures-bind _ (read_file "checker.err" (some 1024) run.1) _
            λ raw _. Ensures-ok _ _ (check_outcome-IsCheck run.0 (strip (decode raw)))

      status_no_compile_error :
          (s : RunStatus) (v : Verdict) → from_run_status s ≡ some v → v ≢ Verdict.compile_error
      unfolding from_run_status
      status_no_compile_error s v h e = ground arith

      finish_test-IsResultOf :
          (test : TestCase Bytes Float) (run : RunResult) (box : Box)
          → Ensures (λ r. IsResultOf test r.0) (finish_test fl se test run box)
      unfolding finish_test
      finish_test-IsResultOf test run box = elim (Option-cases (from_run_status run.status)) [
        | inl clean ↦
            rw (clean, finish_test)
              (Ensures-bind _ (run_checker fl se input_name output_name answer_name box) _ λ c e.
                let check =
                  (run_checker-IsCheck input_name output_name answer_name box).holds c e in
                Ensures-ok _ _ (record {
                  same_index = refl;
                  no_compile_error = check.no_compile_error;
                  from_zero = check.from_zero;
                  to_one = check.to_one;
                }))
        | inr (v, failed) ↦
            rw (failed, finish_test)
              (Ensures-ok _ _ (record {
                same_index = refl;
                no_compile_error = status_no_compile_error run.status v failed;
                from_zero = one_InUnit.0;
                to_one = one_InUnit.1;
              }))
      ]

      run_test-IsResultOf :
          (argv : List String) (limits : RunLimits) (test : TestCase Bytes Float) (box : Box)
          → Ensures (λ r. IsResultOf test r.0) (run_test fl se argv limits test box)
      unfolding run_test
      run_test-IsResultOf argv limits test box =
          Ensures-bind {A = RunResult × Box} _ _ _ λ run _. finish_test-IsResultOf test run.0 run.1

      -- the tests that were run, in order: each passed or the judging went on all the same, and a
      -- failure that stops it is the last
      pub data IsRun (stop : Bool)
          : List (TestCase Bytes Float) → List (TestResult Float) → Type 0 where
        all_run : IsRun stop [] []
        stopped :
            (test : TestCase Bytes Float) (tests : List (TestCase Bytes Float))
            (r : TestResult Float)
            → IsResultOf test r
            → is_ok r.verdict ≡ false
            → stop ≡ true
            → IsRun stop (test ∷ tests) (r ∷ [])
        went_on :
            (test : TestCase Bytes Float) (tests : List (TestCase Bytes Float))
            (r : TestResult Float) (rs : List (TestResult Float))
            → IsResultOf test r
            → (is_ok r.verdict ≡ true) ⊎ (stop ≡ false)
            → IsRun stop tests rs
            → IsRun stop (test ∷ tests) (r ∷ rs)

      pub run_tests-IsRun :
          (argv : List String) (limits : RunLimits) (stop : Bool)
          (tests : List (TestCase Bytes Float)) (box : Box)
          → Ensures (IsRun stop tests) (run_tests fl se argv limits stop tests box)
      unfolding run_tests
      run_tests-IsRun argv limits stop [] box = Ensures-ok _ _ all_run
      run_tests-IsRun argv limits stop (test ∷ tests) box =
          Ensures-bind _ (run_test fl se argv limits test box) _ λ r e.
            let result = (run_test-IsResultOf argv limits test box).holds r e in
            elim (Bool-cases (not (is_ok r.0.verdict) && stop)) [
              | inl t ↦
                  rw t
                    (Ensures-ok _ _ (stopped test tests r.0 result (ground arith) (ground arith)))
              | inr f ↦ rw f (
                  Ensures-bind _ (run_tests fl se argv limits stop tests r.1) _ λ rs e'.
                    Ensures-ok _ _ (
                      went_on test tests r.0 rs result (ground arith)
                        ((run_tests-IsRun argv limits stop tests r.1).holds rs e')))
            ]
