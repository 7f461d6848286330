-- ===== src/Grading/Outcome.antt =====
-- What grading leaves in the tables (`grade` of backend/api/judge/grading.py).
use yandex_codeforces_analyz.Prelude.{
  modify, ℕ, String, ◌≡◌, ◌≢◌, ◌⊎◌, true, false, Option, none, some, List, [], ◌∷◌, ◌++◌, map,
  Floats, get_key,
}
use yandex_codeforces_analyz.Grading.{
  Submission, JudgeProblem, JudgeTest, Tables, JudgeRequest, JudgeAnswer, Attempt, got, raised,
  run_of, stored, judged_columns, JudgeRun, insert_runs, integrity_error, has_log, commit_runs,
  request_of, ◌and_then◌, set_running, check_submission, drop_board,
}
use yandex_codeforces_analyz.Grading.Insert.{AreFree}

abbrev pub boards_of : Option ℕ → List ℕ
boards_of none = []
boards_of (some c) = c ∷ []

-- what holds of the value of an attempt, if it has one
record Ends {A : Type 0} (P : A → Type 0) (m : Attempt A) : Type 0 where
  holds : (a : A) → m ≡ got a → P a

module _ (fl : Floats) (Bytes : Type 0) (save : Bytes → String) (encode : String → Bytes) where
  open fl use {Float}

  module _ (fetch : String → Attempt Bytes)
      (judge_service : JudgeRequest Bytes Float → Attempt (JudgeAnswer Float)) where
    -- what comes of an answer: its verdict where its runs can be inserted; and where they cannot and
    -- there is no log, an exception that leaves the submission running
    abbrev pub EndsAs :
        ℕ → Tables Float → JudgeAnswer Float → Tables Float × Attempt (ℕ × String) → Type 0
    EndsAs id db answer out =
        ((runs : List JudgeRun)
          → insert_runs db.runs (map (run_of id) answer.tests) ≡ some runs
          → out.1 ≡ got (id, answer.verdict))
        × (insert_runs db.runs (map (run_of id) answer.tests) ≡ none
            → has_log answer ≡ false
            → out ≡ (set_running fl Bytes id db, raised integrity_error))

    -- what grading makes of the tables
    pub record IsGraded (id now : ℕ) (db : Tables Float) (out : Tables Float × Attempt (ℕ × String))
        : Type 0 where
      -- what an exception leaves
      pub raised_keeps :
          (e : String)
          → out.1 ≡ raised e
          → (out.0 ≡ db)
            ⊎ (out.0 ≡ set_running fl Bytes id db)
            ⊎ ((answer : JudgeAnswer Float) × (has_log answer ≡ true)
                × (insert_runs db.runs (map (run_of id) answer.tests) ≡ none)
                × (out.0 ≡ record db {
                  submissions =
                      modify id
                        (judged_columns fl Bytes save encode now answer)
                        (set_running fl Bytes id db).submissions;
                }))
      -- what a result says
      pub graded :
          (r : ℕ × String)
          → out.1 ≡ got r
          → (s : Submission Float) × (answer : JudgeAnswer Float) × (get_key id db.submissions
              ≡ some s)
            × (r ≡ (id, answer.verdict))
            × (get_key id out.0.submissions
                ≡ some (stored fl Bytes save encode now answer (record s { status = "running" })))
            × (out.0.runs ≡ db.runs ++ map (run_of id) answer.tests)
            × AreFree db.runs (map (run_of id) answer.tests)
            × (out.0.boards ≡ db.boards ++ boards_of s.contest_id)
      -- what comes of an answer of the judge
      pub ends :
          (s : Submission Float) (problem : JudgeProblem) (checker : String)
          (tests : List JudgeTest) (answer : JudgeAnswer Float)
          → check_submission fl Bytes id db (get_key id db.submissions)
            ≡ got (s, problem, checker, tests)
          → (request_of fl Bytes fetch s problem checker tests and_then judge_service) ≡ got answer
          → EndsAs id db answer out
      pub others : (j : ℕ) → j ≢ id → get_key j out.0.submissions ≡ get_key j db.submissions

    abbrev Dropped : Option ℕ → Tables Float → Tables Float
    Dropped = drop_board fl Bytes fetch save encode judge_service

    -- the same of the part of grading that follows the answer of the judge
    record IsAnswered (id now : ℕ) (db : Tables Float) (m : Attempt (JudgeAnswer Float))
        (out : Tables Float × Attempt (ℕ × String)) : Type 0 where
      raised_keeps :
          (e : String)
          → out.1 ≡ raised e
          → (out.0 ≡ set_running fl Bytes id db)
            ⊎ ((answer : JudgeAnswer Float) × (has_log answer ≡ true)
                × (insert_runs db.runs (map (run_of id) answer.tests) ≡ none)
                × (out.0 ≡ record db {
                  submissions =
                      modify id
                        (judged_columns fl Bytes save encode now answer)
                        (set_running fl Bytes id db).submissions;
                }))
      graded :
          (r : ℕ × String)
          → out.1 ≡ got r
          → (s : Submission Float) × (answer : JudgeAnswer Float) × (get_key id db.submissions
              ≡ some s)
            × (r ≡ (id, answer.verdict))
            × (get_key id out.0.submissions
                ≡ some (stored fl Bytes save encode now answer (record s { status = "running" })))
            × (out.0.runs ≡ db.runs ++ map (run_of id) answer.tests)
            × AreFree db.runs (map (run_of id) answer.tests)
            × (out.0.boards ≡ db.boards ++ boards_of s.contest_id)
      ends : (answer : JudgeAnswer Float) → m ≡ got answer → EndsAs id db answer out
      others : (j : ℕ) → j ≢ id → get_key j out.0.submissions ≡ get_key j db.submissions

    -- the tables after an exception of the last commit
    abbrev left : ℕ → ℕ → JudgeAnswer Float → Tables Float → Tables Float
    left id now answer db =
        (commit_runs fl Bytes save encode id now answer (set_running fl Bytes id db) none).0
