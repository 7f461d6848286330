-- ===== src/Engine/Failures.antt =====
-- What `JudgingEngine.judge` (backend/judge/app/engine/judge.py) makes of a sandbox that fails.
use yandex_codeforces_analyz.Prelude.{String, ◌≡◌, ◌⊎◌, List, Floats}
use yandex_codeforces_analyz.Sandbox.{
  Result, ok, err, sandbox_error, IsContained, default_limits, check_limits, Session,
}
use yandex_codeforces_analyz.Languages.{Language, get_language}
use yandex_codeforces_analyz.Engine.Scoring.{Verdict}
use yandex_codeforces_analyz.Engine.{ProblemSpec, JudgeResult, not_run}

-- the limits of the language's compilations are positive
abbrev pub CanCompile : {F : Type 0} → Language F → Type 0
CanCompile l =
    let limits = default_limits l.compile_time_ms l.compile_memory_kb l.compile_processes in
    check_limits limits ≡ ok limits

module _ (se : Session) (contained : IsContained se) where
  open se use {Box, Bytes, open_box, put_file, read_file, run_program}
  open contained use {opens, puts, reads, runs}

  module _ (fl : Floats) where
    open fl use {Float}

    module _ (registry : List (Language Float)) (problem : ProblemSpec Bytes Float)
        (checker : Language Float)
        (known : get_language registry problem.checker_language_id ≡ ok checker)
        (checks : CanCompile checker) where
      -- what the judge makes of the judging in the sandbox
      abbrev pub IsReturned : Result (JudgeResult Float) → JudgeResult Float → Type 0
      IsReturned inside res =
          (inside ≡ ok res)
          ⊎ ((text : String) × (inside ≡ err (sandbox_error text))
              × (res ≡ not_run fl se Verdict.internal_error text))
