-- ===== src/Grading/Tests.antt =====
-- Grading of a submission of a contest, and the theorem at a concrete input.
use yandex_codeforces_analyz.Prelude.{
  ℕ, String, ◌≡◌, refl, none, some, [], ◌∷◌, get_key, insert_by, sort_by, pos,
}
use yandex_codeforces_analyz.Samples.{whole}
use yandex_codeforces_analyz.Grading.{
  Submission, Tables, JudgeRequest, JudgeAnswer, Attempt, got, raised, test_payloads, request_of,
  check_problem, check_submission, answered, store_outcome, reported, insert_runs, grade_checked,
  grade, set_running,
}

abbrev queued : Submission ℕ
queued = record {
  problem_id = 2;
  user_id = some 9;
  contest_id = some 4;
  language = "cpp";
  source_sha = "aa";
  status = "queued";
  verdict = none;
  score = none;
  max_time_ms = none;
  max_memory_kb = none;
  first_failed_test = none;
  compile_log_sha = none;
  judged_at = none;
}

abbrev tables : Tables ℕ
tables = record {
  submissions = (1, queued) ∷ [];
  problems =
      (2, record { checker_sha = some "cc"; time_limit_ms = 1000; memory_limit_mb = 64 }) ∷ [];
  tests =
      record {
        problem_id = 2;
        index = 1;
        input_sha = "in";
        answer_sha = some "out";
        points = none;
        group_name = none;
      }
      ∷ [];
  runs = [];
  boards = [];
}

abbrev accepted : JudgeRequest String ℕ → Attempt (JudgeAnswer ℕ)
accepted request = got (record {
  verdict = "OK";
  score = some 1;
  max_time_ms = none;
  max_memory_kb = none;
  first_failed_test = none;
  compile_log = none;
  tests =
      record { index = 1; verdict = "OK"; time_ms = some (pos 5); memory_kb = none; comment = none }
      ∷ [];
})

abbrev down : JudgeRequest String ℕ → Attempt (JudgeAnswer ℕ)
down request = raised "JudgeUnavailable"

contest_graded :
    (grade whole String (λ sha. got sha) (λ b. b) (λ s. s) accepted 1 60 tables).1 ≡ got (1, "OK")
unfolding grade grade_checked check_submission check_problem answered request_of test_payloads
    get_key sort_by insert_by store_outcome reported insert_runs
contest_graded = refl

left_running :
    grade whole String (λ sha. got sha) (λ b. b) (λ s. s) down 1 60 tables
    ≡ (set_running whole String 1 tables, raised "JudgeUnavailable")
unfolding grade grade_checked check_submission check_problem answered request_of test_payloads
    get_key sort_by insert_by
left_running = refl

-- the submission has a run for the test already
abbrev graded_before : Tables ℕ
graded_before = record tables {
  runs =
      record {
        submission_id = 1;
        test_index = 1;
        verdict = "OK";
        time_ms = pos 5;
        memory_kb = pos 0;
        checker_comment = none;
      }
      ∷ [];
}

graded_again :
    grade whole String (λ sha. got sha) (λ b. b) (λ s. s) accepted 1 60 graded_before
    ≡ (set_running whole String 1 graded_before, raised "IntegrityError")
unfolding grade grade_checked check_submission check_problem answered request_of test_payloads
    get_key sort_by insert_by store_outcome reported insert_runs
graded_again = refl
