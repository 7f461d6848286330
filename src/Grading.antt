-- ===== src/Grading.antt =====
-- backend/api/judge/grading.py, with the columns of models/judge that it reads and writes, and the
-- payload of client.py: the job that turns a queued submission into a verdict. The tables are values,
-- an exception is `raised` with its text, and each commit is a new table; an exception rolls back to
-- the last one. The blob store, the judge service and `str.encode` are given: `put` of the store
-- commits, and its race of two writers of one blob is left out. `boards` lists the contests whose
-- cached board was dropped.
mod Insert
pub mod Outcome
mod Tests
use yandex_codeforces_analyz.Prelude.{
  ℕ, zero, suc, ◌+◌, ◌-◌, ◌*◌, ◌/◌, ◌%◌, ◌≤◌, ◌<◌, min, max, String, ◌≡◌, refl, sym, ap, ap₂, ◌∙◌,
  subst, fun_ext, ◌≢◌, ◌↔◌, ◌⊎◌, inl, inr, Bool, true, false, not, ◌&&◌, ◌||◌, Option, none, some,
  List, [], ◌∷◌, ◌++◌, map, foldl, append-nil, append_assoc, arith, ltb, leb, ◌==◌, if◌then◌else◌,
  ltb→lt, leb→le, ==_iff, Bool-cases, Option-cases, or_else, is_some, length, get_elem?, take, drop,
  all_of, any_of, select, count_of, first_where, Every, length-append, take-append-drop,
  count_of-le, sum_by, str_eq, str_eq_iff, str_append, str_take, str_is_empty, str_or, show, join,
  Floats, IsLawful, get_key, put_key, modify, set_default, has_key, keys, values, get_key-put_key,
  get_key-modify, get_key-set_default, keys-modify, get_key_missing, dict_laws, insert_by, sort_by,
  sort_by-perm, IsSorted, IsWeakOrder, sort_by-IsSorted, ℤ, pos, negsuc, leb_ℤ, eq_ℤ, max_ℤ, or_ℤ,
  lstrip, rstrip, strip, strip_edges, split, first_word, after_prefix, after_marker, splitlines,
  split_once, parse_int, get_str, put_str, no_float, nan, number, Reading,
}

pub record Submission (F : Type 0) : Type 0 where
  pub problem_id : ℕ
  pub user_id : Option ℕ
  pub contest_id : Option ℕ
  pub language : String
  pub source_sha : String
  pub status : String
  pub verdict : Option String
  pub score : Option F
  pub max_time_ms : Option ℤ
  pub max_memory_kb : Option ℤ
  pub first_failed_test : Option ℕ
  pub compile_log_sha : Option String
  pub judged_at : Option ℕ

pub record JudgeProblem : Type 0 where
  pub checker_sha : Option String
  pub time_limit_ms : ℕ
  pub memory_limit_mb : ℕ

pub record JudgeTest : Type 0 where
  pub problem_id : ℕ
  pub index : ℕ
  pub input_sha : String
  pub answer_sha : Option String
  pub points : Option ℕ
  pub group_name : Option String

-- the columns that are written: `points` never is
pub record JudgeRun : Type 0 where
  pub submission_id : ℕ
  pub test_index : ℕ
  pub verdict : String
  pub time_ms : ℤ
  pub memory_kb : ℤ
  pub checker_comment : Option String

pub record Tables (F : Type 0) : Type 0 where
  pub submissions : List (ℕ × Submission F)
  pub problems : List (ℕ × JudgeProblem)
  pub tests : List JudgeTest
  pub runs : List JudgeRun
  pub boards : List ℕ

-- client.py: a test of a request, and the request
pub record JudgeTestPayload (Bytes F : Type 0) : Type 0 where
  pub index : ℕ
  pub input_data : Bytes
  pub answer_data : Bytes
  pub points : F
  pub group : Option String

pub record JudgeRequest (Bytes F : Type 0) : Type 0 where
  pub source : Bytes
  pub language : String
  pub checker : Bytes
  pub tests : List (JudgeTestPayload Bytes F)
  pub time_limit_ms : ℕ
  pub memory_limit_mb : ℕ

-- the answer of the judge service; a key that is missing is `none`
pub record RunEntry : Type 0 where
  pub index : ℕ
  pub verdict : String
  pub time_ms : Option ℤ
  pub memory_kb : Option ℤ
  pub comment : Option String

pub record JudgeAnswer (F : Type 0) : Type 0 where
  pub verdict : String
  pub score : Option F
  pub max_time_ms : Option ℤ
  pub max_memory_kb : Option ℤ
  pub first_failed_test : Option ℕ
  pub compile_log : Option String
  pub tests : List RunEntry

pub data Attempt (A : Type 0) : Type 0 where
  got : A → Attempt A
  raised : String → Attempt A

infixl 5 ◌and_then◌
abbrev pub ◌and_then◌ : {A B : Type 0} → Attempt A → (A → Attempt B) → Attempt B
(got a) and_then f = f a
(raised e) and_then f = raised e

-- what a text makes of a missing value: `x or ""`, `x or None`
abbrev pub text_of : Option String → String
text_of o = or_else o ""

abbrev none_if_empty : Option String → Option String
none_if_empty o = if str_is_empty (text_of o) then none else o

abbrev pub run_of : ℕ → RunEntry → JudgeRun
run_of id e = record {
  submission_id = id;
  test_index = e.index;
  verdict = e.verdict;
  time_ms = or_else e.time_ms (pos 0);
  memory_kb = or_else e.memory_kb (pos 0);
  checker_comment = none_if_empty e.comment;
}

-- `UniqueConstraint("submission_id", "test_index")`
abbrev pub conflicts : JudgeRun → List JudgeRun → Bool
conflicts r rs =
    any_of (λ q. (q.submission_id == r.submission_id) && (q.test_index == r.test_index)) rs

-- the rows that a commit inserts, one by one; `none` is the `IntegrityError`
unfoldable pub insert_runs : List JudgeRun → List JudgeRun → Option (List JudgeRun)
insert_runs rs [] = some rs
insert_runs rs (n ∷ ns) = if conflicts n rs then none else insert_runs (rs ++ (n ∷ [])) ns

abbrev pub integrity_error : String
integrity_error = "IntegrityError"

abbrev pub has_log : {F : Type 0} → JudgeAnswer F → Bool
has_log answer = not (str_is_empty (text_of answer.compile_log))

module _ (fl : Floats) (Bytes : Type 0) where
  open fl use {Float, fzero, of_int}

  module _ (save : Bytes → String) (encode : String → Bytes) where
    -- the columns that `_store_outcome` sets before it stores the log
    unfoldable pub judged_columns : ℕ → JudgeAnswer Float → Submission Float → Submission Float
    judged_columns now answer s = record s {
      verdict = some answer.verdict;
      score = some (or_else answer.score fzero);
      max_time_ms = answer.max_time_ms;
      max_memory_kb = answer.max_memory_kb;
      first_failed_test = answer.first_failed_test;
      status = "judged";
      judged_at = some now;
    }

    -- all of its columns
    unfoldable pub stored : ℕ → JudgeAnswer Float → Submission Float → Submission Float
    unfolding judged_columns
    stored now answer s = record (judged_columns now answer s) {
      compile_log_sha =
          if has_log answer
          then some (save (encode (text_of answer.compile_log)))
          else s.compile_log_sha;
    }

    -- the end of `_store_outcome`: where the runs are refused, what the store of the log committed
    -- stays
    unfoldable pub commit_runs :
        ℕ
        → ℕ
        → JudgeAnswer Float
        → Tables Float
        → Option (List JudgeRun)
        → Tables Float × Attempt (Unit {0})
    commit_runs id now answer db none = (
      if has_log answer
          then record db { submissions = modify id (judged_columns now answer) db.submissions }
          else db,
      raised integrity_error,
    )
    commit_runs id now answer db (some runs) = (
      record db { submissions = modify id (stored now answer) db.submissions; runs = runs },
      got tt,
    )

    -- `_store_outcome`
    unfoldable pub store_outcome :
        ℕ → ℕ → JudgeAnswer Float → Tables Float → Tables Float × Attempt (Unit {0})
    unfolding commit_runs
    store_outcome id now answer db =
        commit_runs id now answer db (insert_runs db.runs (map (run_of id) answer.tests))

  module _ (fetch : String → Attempt Bytes) where
    unfoldable pub test_payloads : List JudgeTest → Attempt (List (JudgeTestPayload Bytes Float))
    test_payloads [] = got []
    test_payloads (t ∷ ts) = fetch t.input_sha and_then λ input.
        fetch (text_of t.answer_sha) and_then λ answer. test_payloads ts and_then λ rest. got (
          (record {
            index = t.index;
            input_data = input;
            answer_data = answer;
            points = of_int (or_else t.points 0);
            group = t.group_name;
          })
          ∷ rest)

    -- the arguments of `judge_submission`, in the order that they are fetched
    unfoldable pub request_of :
        Submission Float
        → JudgeProblem
        → String
        → List JudgeTest
        → Attempt (JudgeRequest Bytes Float)
    request_of s problem checker_sha tests = fetch s.source_sha and_then λ source.
        fetch checker_sha and_then λ checker. test_payloads tests and_then λ payloads. got (record {
          source = source;
          language = s.language;
          checker = checker;
          tests = payloads;
          time_limit_ms = problem.time_limit_ms;
          memory_limit_mb = problem.memory_limit_mb;
        })

  -- `select(JudgeTest).where(...).order_by(JudgeTest.index)`
  abbrev tests_of : ℕ → List JudgeTest → List JudgeTest
  tests_of problem_id tests =
      sort_by (λ a b. ltb a.index b.index) (select (λ t. t.problem_id == problem_id) tests)

  abbrev pub set_running : ℕ → Tables Float → Tables Float
  set_running id db = record db {
    submissions = modify id (λ s. record s { status = "running" }) db.submissions;
  }

  -- what `grade` goes on with after its checks
  abbrev pub Checked : Type 0
  Checked = Submission Float × JudgeProblem × String × List JudgeTest

  -- the checks at the start of `grade`: the submission, the problem, the checker and the tests
  unfoldable pub check_problem :
      Submission Float → List JudgeTest → Option JudgeProblem → Attempt Checked
  check_problem s tests none =
      raised (str_append "problem " (str_append (show s.problem_id) " is gone"))
  check_problem s tests (some problem) =
      if str_is_empty (text_of problem.checker_sha)
      then raised (str_append "problem " (str_append (show s.problem_id) " has no checker"))
      else if length tests == 0
      then raised (str_append "problem " (str_append (show s.problem_id) " has no tests"))
      else if any_of (λ t. not (is_some t.answer_sha)) tests
      then raised
          (str_append "problem " (str_append (show s.problem_id) " has tests without jury answers"))
      else got (s, problem, text_of problem.checker_sha, tests)

  unfoldable pub check_submission : ℕ → Tables Float → Option (Submission Float) → Attempt Checked
  check_submission id db none = raised (str_append "submission " (str_append (show id) " is gone"))
  check_submission id db (some s) =
      check_problem s (tests_of s.problem_id db.tests) (get_key s.problem_id db.problems)

  module _ (fetch : String → Attempt Bytes) (save : Bytes → String) (encode : String → Bytes)
      (judge_service : JudgeRequest Bytes Float → Attempt (JudgeAnswer Float)) where
    -- `on_submission_judged`
    abbrev pub drop_board : Option ℕ → Tables Float → Tables Float
    drop_board none db = db
    drop_board (some c) db = record db { boards = db.boards ++ (c ∷ []) }

    -- `grade` after `_store_outcome`
    unfoldable pub reported :
        ℕ
        → Submission Float
        → JudgeAnswer Float
        → Tables Float × Attempt (Unit {0})
        → Tables Float × Attempt (ℕ × String)
    reported id s answer (db, raised e) = (db, raised e)
    reported id s answer (db, got _) = (drop_board s.contest_id db, got (id, answer.verdict))

    -- `grade` after the answer of the judge service, or the exception that took its place
    unfoldable pub answered :
        ℕ
        → ℕ
        → Submission Float
        → Tables Float
        → Attempt (JudgeAnswer Float)
        → Tables Float × Attempt (ℕ × String)
    unfolding reported
    answered id now s db (raised e) = (db, raised e)
    answered id now s db (got answer) =
        reported id s answer (store_outcome save encode id now answer db)

    -- `grade` after its checks
    unfoldable pub grade_checked :
        ℕ → ℕ → Tables Float → Attempt Checked → Tables Float × Attempt (ℕ × String)
    unfolding answered
    grade_checked id now db (raised e) = (db, raised e)
    grade_checked id now db (got (s, problem, checker, tests)) =
        answered id now s (set_running id db)
          (request_of fetch s problem checker tests and_then judge_service)

    -- `grade`
    unfoldable pub grade : ℕ → ℕ → Tables Float → Tables Float × Attempt (ℕ × String)
    grade id now db = grade_checked id now db (check_submission id db (get_key id db.submissions))
