-- ===== src/Engine.antt =====
-- backend/judge/app/engine: compile a submission, run every test, check, and aggregate (verdict.py,
-- checker.py, result.py, spec.py, scoring.py, judge.py). The box is a `Session`. The progress hook
-- only reports to the caller and the logger only logs: they are left out.
pub mod Scoring
pub mod Verdicts
pub mod Scores
mod Paid
mod Amounts
pub mod Judged
mod Failures
mod Tests
use yandex_codeforces_analyz.Prelude.{
  ℕ, zero, suc, ◌+◌, ◌-◌, ◌*◌, ◌/◌, ◌%◌, ◌≤◌, ◌<◌, min, max, String, ◌≡◌, refl, sym, ap, ap₂, ◌∙◌,
  subst, fun_ext, ◌≢◌, ◌↔◌, ◌⊎◌, inl, inr, Bool, true, false, not, ◌&&◌, ◌||◌, Option, none, some,
  List, [], ◌∷◌, ◌++◌, map, foldl, append-nil, append_assoc, arith, ltb, leb, ◌==◌, if◌then◌else◌,
  ltb→lt, leb→le, ==_iff, Bool-cases, Option-cases, or_else, is_some, length, get_elem?, take, drop,
  all_of, any_of, select, count_of, first_where, Every, length-append, take-append-drop,
  count_of-le, sum_by, str_eq, str_eq_iff, str_append, str_take, str_is_empty, str_or, show, join,
  Floats, IsLawful, get_key, put_key, modify, set_default, has_key, keys, values, get_key-put_key,
  get_key-modify, get_key-set_default, keys-modify, get_key_missing, dict_laws, insert_by, sort_by,
  sort_by-perm, IsSorted, IsWeakOrder, sort_by-IsSorted, ℤ, pos, negsuc, leb_ℤ, eq_ℤ, max_ℤ, or_ℤ,
  lstrip, rstrip, strip, first_word, after_prefix, after_marker, splitlines, split_once, parse_int,
  get_str, put_str, no_float, nan, number, Reading,
}
use yandex_codeforces_analyz.Sandbox.{
  Error, Result, ok, err, sandbox_error, value_error, unknown_language, ◌>>=◌, RunStatus, RunResult,
  RunLimits, ok_run, runtime_error, time_limit, memory_limit, output_limit, internal_error,
  default_limits, from_problem, Session,
}
use yandex_codeforces_analyz.Languages.{
  Language, CompileResult, get_language, source_file, run_command, compile_source, default_binary,
}
use Scoring.{Verdict, is_ok, TestCase, TestResult, score_tests}

-- verdict.py: `from_run_status`
unfoldable pub from_run_status : RunStatus → Option Verdict
from_run_status ok_run = none
from_run_status time_limit = some Verdict.time_limit
from_run_status memory_limit = some Verdict.memory_limit
from_run_status runtime_error = some Verdict.runtime_error
from_run_status output_limit = some Verdict.runtime_error
from_run_status internal_error = some Verdict.internal_error

-- spec.py, over the type of bytes
pub record ProblemSpec (Bytes F : Type 0) : Type 0 where
  pub tests : List (TestCase Bytes F)
  pub checker_source : Bytes
  pub time_limit_ms : ℕ
  pub memory_limit_mb : ℕ
  pub stop_on_first_failure : Bool
  pub checker_language_id : String

pub record SubmissionSpec (Bytes : Type 0) : Type 0 where
  pub source : Bytes
  pub language_id : String
  pub files : List (String × Bytes)

-- result.py
pub record JudgeResult (F : Type 0) : Type 0 where
  pub verdict : Verdict
  pub score : F
  pub tests : List (TestResult F)
  pub compile_log : String

-- checker.py
pub record CheckOutcome (F : Type 0) : Type 0 where
  pub verdict : Verdict
  pub comment : String
  pub points_ratio : Option F

-- `_EXIT_TO_VERDICT`
unfoldable pub exit_to_verdict : ℤ → Option Verdict
exit_to_verdict code =
    if eq_ℤ code (pos 0)
    then some Verdict.ok
    else if eq_ℤ code (pos 1)
    then some Verdict.wrong_answer
    else if eq_ℤ code (pos 2) || eq_ℤ code (pos 4) || eq_ℤ code (pos 8)
    then some Verdict.presentation_error
    else if eq_ℤ code (pos 3)
    then some Verdict.internal_error
    else none

abbrev checker_binary : String
checker_binary = "checker"

-- `_CHECKER_LIMITS`
abbrev checker_limits : RunLimits
checker_limits = default_limits 10000 524288 4

-- `str(n)` for an integer
show_ℤ : ℤ → String
show_ℤ (pos n) = show n
show_ℤ (negsuc n) = str_append "-" (show (suc n))

abbrev input_name : String
input_name = "input.txt"

abbrev output_name : String
output_name = "output.txt"

abbrev answer_name : String
answer_name = "answer.txt"

module _ (fl : Floats) where
  open fl use {Float, fzero, fone, fle, parse_float}

  -- `max(0.0, min(1.0, x))`; `min` and `max` keep their first argument at a NaN
  unfoldable pub clamp : Float → Float
  clamp x = let m = if not (fle fone x) then x else fone in if not (fle m fzero) then m else fzero

  -- `_parse_points`: the number that was read, the text after the marker, and the comment
  unfoldable pub reading_points : Reading Float → Option Float
  unfolding clamp
  reading_points no_float = none
  reading_points nan = some fone
  reading_points (number x) = some (clamp x)

  unfoldable pub tail_points : Option String → Option Float
  unfolding reading_points
  tail_points none = none
  tail_points (some tail) =
      if str_is_empty (first_word tail)
      then none
      else reading_points (parse_float (first_word tail))

  unfoldable pub parse_points : String → Option Float
  unfolding tail_points
  parse_points comment = tail_points (after_marker "points " comment)

  -- the part of `run_checker` after the run and the reading of the comment
  unfoldable pub check_outcome : RunResult → String → CheckOutcome Float
  unfolding parse_points exit_to_verdict show_ℤ
  check_outcome result comment =
      let broken : String → CheckOutcome Float =
        λ text. record { verdict = Verdict.internal_error; comment = text; points_ratio = none } in
      let by_code : CheckOutcome Float = elim (exit_to_verdict result.exit_code) [
        | none ↦ broken (str_or comment (str_append "checker exit code " (show_ℤ result.exit_code)))
        | some verdict ↦ record { verdict = verdict; comment = comment; points_ratio = none }
      ] in
      let by_points : CheckOutcome Float =
        if eq_ℤ result.exit_code (pos 7)
        then record {
          verdict = Verdict.ok;
          comment = comment;
          points_ratio = some (or_else (parse_points comment) fzero);
        }
        else by_code in
      elim result.status [
        | time_limit ↦ broken "checker timed out"
        | internal_error ↦ broken (str_or comment result.message)
        | _ ↦ by_points
      ]

module _ (fl : Floats) (se : Session) where
  open fl use {Float, fzero}
  open se use {Box, Bytes, open_box, put_file, read_file, run_program, decode}

  -- `run_checker`
  unfoldable pub run_checker : String → String → String → Box → Result (CheckOutcome Float × Box)
  run_checker input output answer box =
      run_program ("./checker" ∷ input ∷ output ∷ answer ∷ []) checker_limits none none
        (some "checker.err") box
      >>= λ (result, after). read_file "checker.err" (some 1024) after >>= λ raw.
          ok (check_outcome fl result (strip (decode raw)), after)

  -- `_run_test` on a run that was not clean, and on one that the checker looked at
  abbrev pub failed_test : TestCase Bytes Float → RunResult → Verdict → TestResult Float
  failed_test test run verdict = record {
    test_index = test.index;
    verdict = verdict;
    time_ms = run.cpu_time_ms;
    memory_kb = run.memory_kb;
    comment = run.message;
    points_ratio = none;
  }

  abbrev pub checked_test : TestCase Bytes Float → RunResult → CheckOutcome Float → TestResult Float
  checked_test test run outcome = record {
    test_index = test.index;
    verdict = outcome.verdict;
    time_ms = run.cpu_time_ms;
    memory_kb = run.memory_kb;
    comment = outcome.comment;
    points_ratio = outcome.points_ratio;
  }

  -- `_run_test` after the run of the submission
  unfoldable pub finish_test :
      TestCase Bytes Float → RunResult → Box → Result (TestResult Float × Box)
  unfolding run_checker
  finish_test test run box = elim (from_run_status run.status) [
    | some verdict ↦ ok (failed_test test run verdict, box)
    | none ↦ run_checker input_name output_name answer_name box >>= λ (outcome, after).
        ok (checked_test test run outcome, after)
  ]

  unfoldable pub run_test :
      List String → RunLimits → TestCase Bytes Float → Box → Result (TestResult Float × Box)
  unfolding finish_test
  run_test argv limits test box =
      put_file input_name test.input_data box
      >>= put_file answer_name test.answer_data
      >>= run_program argv limits (some input_name) (some output_name) none
      >>= λ (run, after). finish_test test run after

  -- the loop of `_judge_in_sandbox` over the tests
  unfoldable pub run_tests :
      List String
      → RunLimits
      → Bool
      → List (TestCase Bytes Float)
      → Box
      → Result (List (TestResult Float))
  run_tests argv limits stop [] box = ok []
  run_tests argv limits stop (test ∷ tests) box =
      run_test argv limits test box >>= λ (result, after).
      if not (is_ok result.verdict) && stop
      then ok (result ∷ [])
      else run_tests argv limits stop tests after >>= λ results. ok (result ∷ results)

  -- `_aggregate`
  unfoldable pub aggregate : ProblemSpec Bytes Float → List (TestResult Float) → JudgeResult Float
  aggregate problem results = record {
    verdict = elim (first_where (λ r. not (is_ok r.verdict)) results) [
      | none ↦ Verdict.ok
      | some failure ↦ failure.verdict
    ];
    score = score_tests Bytes fl problem.tests results;
    tests = results;
    compile_log = "";
  }

  -- a result that ends the judging before the first test
  abbrev pub not_run : Verdict → String → JudgeResult Float
  not_run verdict log = record { verdict = verdict; score = fzero; tests = []; compile_log = log }

  module _ (registry : List (Language Float)) where
    -- `_build_checker`
    unfoldable pub build_checker : ProblemSpec Bytes Float → Box → Result (Bool × Box)
    build_checker problem box = get_language registry problem.checker_language_id >>= λ language.
        compile_source se language problem.checker_source [] checker_binary box
        >>= λ (compiled, after). ok (compiled.is_ok, after)

    -- `_judge_in_sandbox` after the compilation of the submission
    unfoldable pub judge_compiled :
        ProblemSpec Bytes Float
        → Language Float
        → RunLimits
        → CompileResult
        → Box
        → Result (JudgeResult Float)
    judge_compiled problem language limits compiled box =
        if not compiled.is_ok
        then ok (
            not_run
              (if compiled.is_internal_error then Verdict.internal_error else Verdict.compile_error)
              compiled.log)
        else build_checker problem box >>= λ (ready, after).
            if not ready
            then ok (not_run Verdict.internal_error "checker failed to compile")
            else run_tests (run_command language compiled.source_name compiled.binary_name) limits
                problem.stop_on_first_failure problem.tests after
              >>= λ results. ok (aggregate problem results)

    unfoldable pub judge_in_sandbox :
        ProblemSpec Bytes Float
        → SubmissionSpec Bytes
        → Language Float
        → RunLimits
        → Result (JudgeResult Float)
    judge_in_sandbox problem submission language limits =
        open_box
        >>= compile_source se language submission.source submission.files default_binary
        >>= λ (compiled, after). judge_compiled problem language limits compiled after

    -- `except SandboxError`
    abbrev pub on_sandbox_error : Result (JudgeResult Float) → Result (JudgeResult Float)
    on_sandbox_error (ok result) = ok result
    on_sandbox_error (err (sandbox_error text)) = ok (not_run Verdict.internal_error text)
    on_sandbox_error (err (value_error text)) = err (value_error text)
    on_sandbox_error (err (unknown_language id)) = err (unknown_language id)

    -- `JudgingEngine.judge`
    unfoldable pub judge :
        ProblemSpec Bytes Float → SubmissionSpec Bytes → Result (JudgeResult Float)
    judge problem submission = get_language registry submission.language_id >>= λ language.
        from_problem fl problem.time_limit_ms problem.memory_limit_mb language.tl_multiplier
        >>= λ limits. on_sandbox_error (judge_in_sandbox problem submission language limits)

-- `JudgeResult.first_failed_test`, `max_time_ms` and `max_memory_kb`
unfoldable pub first_failed_test : {F : Type 0} → JudgeResult F → Option ℕ
first_failed_test r = elim (first_where (λ t. not (is_ok t.verdict)) r.tests) [
  | none ↦ none
  | some t ↦ some t.test_index
]

max_of : List ℤ → ℤ
max_of [] = pos 0
max_of (x ∷ []) = x
max_of (x ∷ y ∷ rest) = max_ℤ x (max_of (y ∷ rest))

unfoldable pub max_time_ms : {F : Type 0} → JudgeResult F → ℤ
unfolding max_of
max_time_ms r = max_of (map (λ t. t.time_ms) r.tests)

unfoldable pub max_memory_kb : {F : Type 0} → JudgeResult F → ℤ
unfolding max_of
max_memory_kb r = max_of (map (λ t. t.memory_kb) r.tests)
