-- ===== src/Engine/Tests.antt =====
-- Runs of the judge on a box of its own, and each theorem at a concrete input.
use yandex_codeforces_analyz.Prelude.{
  ℕ, String, ◌≡◌, refl, true, Option, some, none, List, [], ◌∷◌, pos, Bool-cases, ◌==◌, inl, inr,
  str_eq, get_key, put_key, strip, lstrip, rstrip, split_once, if◌then◌else◌,
}
use yandex_codeforces_analyz.Samples.{whole, whole_lawful}
use yandex_codeforces_analyz.Sandbox.{
  ok, err, sandbox_error, RunStatus, RunResult, from_problem, check_limits, ok_run, runtime_error,
  Session,
}
use yandex_codeforces_analyz.Languages.{
  Language, cpp, python, get_language, compile_source, run_command, source_file, render,
}
use yandex_codeforces_analyz.Engine.Scoring.{
  Verdict, TestCase, TestResult, score_tests, index_results, score_groups, score_single, group_pays,
}
use yandex_codeforces_analyz.Engine.Scores.{Dominated, score_tests_mono}
use yandex_codeforces_analyz.Engine.Verdicts.{IsCheck, check_outcome-IsCheck}
use yandex_codeforces_analyz.Engine.{
  ProblemSpec, SubmissionSpec, JudgeResult, check_outcome, exit_to_verdict, from_run_status,
  run_checker, finish_test, run_test, run_tests, aggregate, build_checker, judge_compiled,
  judge_in_sandbox, judge, first_failed_test, max_time_ms,
}
use yandex_codeforces_analyz.Engine.Judged.{IsJudged, judge-IsJudged, judge_score-NotNegative}

abbrev ended : RunStatus → ℕ → String → RunResult
ended status code message = record {
  status = status;
  exit_code = pos code;
  signal = none;
  cpu_time_ms = pos 7;
  wall_time_ms = pos 8;
  memory_kb = pos 100;
  message = message;
}

-- a box that holds its last file: a program fails on the input "crash", and the checker rejects
-- the answer "no"
abbrev runs : List String → Option String → String → RunResult
runs argv stdin content = elim stdin [
  | some name ↦ ended ok_run 0 ""
  | none ↦ if str_eq content "no" then ended runtime_error 1 "wrong" else ended ok_run 0 ""
]

abbrev toy : Session
toy = record {
  Box = String;
  Bytes = String;
  open_box = ok "";
  put_file = λ name content box. ok content;
  read_file = λ name limit box. ok "";
  run_program = λ argv limits stdin stdout stderr box. ok (runs argv stdin box, box);
  decode = λ s. s;
}

abbrev case_of : ℕ → String → TestCase String ℕ
case_of i answer = record {
  index = i;
  input_data = "in";
  answer_data = answer;
  group = none;
  points = 5;
}

abbrev problem : ProblemSpec String ℕ
problem = record {
  tests = case_of 1 "yes" ∷ case_of 2 "no" ∷ case_of 3 "yes" ∷ [];
  checker_source = "checker";
  time_limit_ms = 1000;
  memory_limit_mb = 64;
  stop_on_first_failure = true;
  checker_language_id = "cpp";
}

abbrev submission : SubmissionSpec String
submission = record { source = "source"; language_id = "python"; files = [] }

abbrev registry : List (Language ℕ)
registry = cpp whole ∷ python whole ∷ []

abbrev result_of : ℕ → Verdict → TestResult ℕ
result_of i v = record {
  test_index = i;
  verdict = v;
  time_ms = pos 7;
  memory_kb = pos 100;
  comment = "";
  points_ratio = none;
}

abbrev judged : JudgeResult ℕ
judged = record {
  verdict = Verdict.wrong_answer;
  score = 5;
  tests = result_of 1 Verdict.ok ∷ result_of 2 Verdict.wrong_answer ∷ [];
  compile_log = "";
}

problem-judged : judge whole toy registry problem submission ≡ ok judged
unfolding judge get_language cpp python from_problem judge_in_sandbox compile_source judge_compiled
    build_checker run_tests run_test finish_test run_checker from_run_status check_outcome
    exit_to_verdict aggregate score_tests score_groups score_single index_results get_key put_key
    group_pays strip lstrip rstrip render run_command source_file check_limits split_once
problem-judged = refl

second_test_failed : first_failed_test judged ≡ some 2
unfolding first_failed_test
second_test_failed = refl

slowest_test : max_time_ms judged ≡ pos 7
unfolding max_time_ms
slowest_test = refl

judge-IsJudged_example : IsJudged whole whole_lawful toy problem judged
judge-IsJudged_example =
    judge-IsJudged whole whole_lawful toy registry problem submission judged problem-judged

judge_score-NotNegative_example : whole.fle whole.fzero judged.score ≡ true
judge_score-NotNegative_example =
    judge_score-NotNegative whole whole_lawful toy registry problem submission judged
      (refl, (refl, (refl, tt))) problem-judged

-- a box in which no program can be started
abbrev broken : Session
broken = record {
  Box = String;
  Bytes = String;
  open_box = ok "";
  put_file = λ name content box. ok content;
  read_file = λ name limit box. ok "";
  run_program = λ argv limits stdin stdout stderr box. err (sandbox_error "isolate is gone");
  decode = λ s. s;
}

check_outcome-IsCheck_example :
    IsCheck whole (check_outcome whole (ended runtime_error 7 "") "points 3")
check_outcome-IsCheck_example =
    check_outcome-IsCheck whole whole_lawful (ended runtime_error 7 "") "points 3"

abbrev one_case : List (TestCase String ℕ)
one_case = case_of 1 "yes" ∷ []

some_result :
    (i : ℕ)
    → Dominated String whole whole_lawful
        (get_key i (index_results [] []))
        (get_key i (index_results [] (result_of 1 Verdict.ok ∷ [])))
unfolding index_results get_key put_key
some_result i = elim (Bool-cases (1 == i)) [
  | inl e ↦
      simp e (record { passes = λ h. refl; pays = λ h. refl; from_zero = refl; from_zero' = refl })
  | inr f ↦
      simp f (record { passes = λ h. h; pays = λ h. refl; from_zero = refl; from_zero' = refl })
]

score_tests_mono_example :
    whole.fle
      (score_tests String whole one_case [])
      (score_tests String whole one_case (result_of 1 Verdict.ok ∷ []))
    ≡ true
score_tests_mono_example =
    score_tests_mono String whole whole_lawful one_case [] (result_of 1 Verdict.ok ∷ []) (refl, tt)
      some_result
