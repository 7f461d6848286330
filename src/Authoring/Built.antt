-- ===== src/Authoring/Built.antt =====
-- What a result of `ProblemBuilder.build` says (backend/judge/app/authoring/builder.py).
use yandex_codeforces_analyz.Prelude.{
  ◌≤◌, String, ◌≡◌, refl, inl, inr, true, false, Option, none, some, List, [], ◌∷◌, ◌++◌, arith,
  Bool-cases, length,
}
use yandex_codeforces_analyz.Sandbox.{
  Result, ok, err, sandbox_error, value_error, unknown_language, ◌>>=◌, Ensures, Ensures-bind,
  Ensures-ok, Session,
}
use yandex_codeforces_analyz.Languages.{Language, CompileResult, get_language, compile_source}
use yandex_codeforces_analyz.Authoring.{
  ProblemSource, BuiltTest, BuildResult, Stage, made, failed_build, compile_parts, manual_loop,
  finish_build, build_in_box, as_failure, build,
}
use yandex_codeforces_analyz.Authoring.Stages.{
  IsFailure, Cause, Among, Holds, AsPlanned, planned_manual, planned_generated,
}
use yandex_codeforces_analyz.Authoring.Loops.{manual_loop-Builds}

module _ {F : Type 0} (se : Session) (no_bytes : se.Bytes)
    (shlex_split : String → Result (List String)) where
  open se use {Box, Bytes, open_box}

  -- the codes that a build compiles
  abbrev pub parts_of : ProblemSource Bytes F → List (String × Option Bytes × String)
  parts_of source =
      ("main solution", some source.main_solution, "main")
      ∷ ("generator", source.generator, "generator")
      ∷ ("validator", source.validator, "validator")
      ∷ []

  abbrev planned : ProblemSource Bytes F → List (Option String × F)
  planned source = planned_manual source.manual_tests ++ planned_generated source.generated_tests

  compile_parts-Holds :
      (language : Language F) (checker : Bytes) (all : List (String × Option Bytes × String))
      (parts : List (String × Option Bytes × String)) (box : Box)
      → ((x : String × Option Bytes × String) → Among x parts → Among x all)
      → Ensures
          (λ o. Holds (IsFailure se language all) (λ _. Unit) o.0)
          (compile_parts se no_bytes shlex_split language checker parts box)
  unfolding compile_parts
  compile_parts-Holds language checker all [] box within = Ensures-ok _ _ tt
  compile_parts-Holds language checker all ((label, none, binary) ∷ rest) box within =
      compile_parts-Holds language checker all rest box (λ x h. within x (inr h))
  compile_parts-Holds language checker all ((label, some code, binary) ∷ rest) box within =
      Ensures-bind {A = CompileResult × Box} _ (compile_source se language code [] binary box) _
        λ c e. elim (Bool-cases c.0.is_ok) [
          | inl t ↦
              rw t (compile_parts-Holds language checker all rest c.1 (λ x h. within x (inr h)))
          | inr f ↦ rw f (
              Ensures-ok _ _ (record {
                not_ok = refl;
                no_tests = refl;
                cause =
                    Cause.uncompiled label code binary box c.1 c.0 (within _ (inl refl)) e f refl;
              }))
        ]

  module _ (registry : List (Language F)) where
    -- why a build failed
    pub data Reason (source : ProblemSource Bytes F) (r : BuildResult Bytes F) : Type 0 where
      stage_failed :
          (language : Language F)
          → get_language registry source.language_id ≡ ok language
          → Cause se language (parts_of source) r.failed_stage
          → Reason source r
      nothing_planned :
          planned_manual source.manual_tests ++ planned_generated source.generated_tests ≡ []
          → r.failed_stage ≡ "tests"
          → Reason source r
      sandbox_broken :
          (text : String)
          → build_in_box se no_bytes shlex_split registry source ≡ err (sandbox_error text)
          → r.failed_stage ≡ "sandbox"
          → r.error ≡ text
          → Reason source r

    -- what a result of a build says of the problem
    pub record IsBuilt (source : ProblemSource Bytes F) (r : BuildResult Bytes F) : Type 0 where
      pub as_planned :
          r.is_ok ≡ true
          → AsPlanned 1
              (planned_manual source.manual_tests ++ planned_generated source.generated_tests)
              r.tests
      pub has_tests : r.is_ok ≡ true → 1 ≤ length r.tests
      pub same_problem :
          r.is_ok ≡ true
          → (r.checker ≡ source.checker)
            × (r.time_limit_ms ≡ source.time_limit_ms)
            × (r.memory_limit_mb ≡ source.memory_limit_mb)
      pub failure : r.is_ok ≡ false → (r.tests ≡ []) × Reason source r

    failed-IsBuilt :
        (source : ProblemSource Bytes F) (r : BuildResult Bytes F)
        → r.is_ok ≡ false
        → r.tests ≡ []
        → Reason source r
        → IsBuilt source r
    failed-IsBuilt source r not_ok no_tests reason = record {
      as_planned = λ e. absurd (ground arith);
      has_tests = λ e. absurd (ground arith);
      same_problem = λ e. absurd (ground arith);
      failure = λ _. (no_tests, reason);
    }

    module _ (source : ProblemSource Bytes F) (language : Language F)
        (known : get_language registry source.language_id ≡ ok language) where
      stage-IsBuilt :
          (r : BuildResult Bytes F) → IsFailure se language (parts_of source) r → IsBuilt source r
      stage-IsBuilt r h =
          failed-IsBuilt source r h.not_ok h.no_tests (Reason.stage_failed language known h.cause)

      no_plan : (ps : List (Option String × F)) → AsPlanned {Bytes = Bytes} 1 ps [] → ps ≡ []
      no_plan [] h = refl
      no_plan (p ∷ ps) h = absurd h

      finish_build-IsBuilt :
          (stage : Stage Bytes F (List (BuiltTest Bytes F)))
          → Holds (IsFailure se language (parts_of source)) (AsPlanned 1 (planned source)) stage
          → IsBuilt source (finish_build se no_bytes shlex_split source stage)
      unfolding finish_build
      finish_build-IsBuilt (failed_build r) h = stage-IsBuilt r h
      finish_build-IsBuilt (made []) h =
          failed-IsBuilt source _ refl refl
            (Reason.nothing_planned (no_plan (planned source) h) refl)
      finish_build-IsBuilt (made (t ∷ ts)) h = record {
        as_planned = λ _. h;
        has_tests = λ _. omega arith;
        same_problem = λ _. (refl, refl, refl);
        failure = λ e. absurd (ground arith);
      }

      compiled-IsBuilt :
          (o : Stage Bytes F Unit)
          → Holds (IsFailure se language (parts_of source)) (λ _. Unit) o
          → (box : Box)
          → Ensures (IsBuilt source) (elim o [
            | failed_build result ↦ ok result
            | made _ ↦
                manual_loop se no_bytes shlex_split language source.validator source.generated_tests
                  0 [] source.manual_tests box
                >>= λ stage. ok (finish_build se no_bytes shlex_split source stage)
          ])
      compiled-IsBuilt (failed_build r) h box = Ensures-ok _ _ (stage-IsBuilt r h)
      compiled-IsBuilt (made u) h box =
          Ensures-bind {A = Stage Bytes F (List (BuiltTest Bytes F))} _
            (manual_loop se no_bytes shlex_split language source.validator source.generated_tests 0
              [] source.manual_tests box)
            _
            λ stage e. Ensures-ok _ _ (
              finish_build-IsBuilt stage (
                (manual_loop-Builds se no_bytes shlex_split language (parts_of source)
                    source.validator source.generated_tests [] 0 [] source.manual_tests box refl
                    tt).holds
                  stage e))

    build_in_box-IsBuilt :
        (source : ProblemSource Bytes F)
        → Ensures (IsBuilt source) (build_in_box se no_bytes shlex_split registry source)
    unfolding build_in_box
    build_in_box-IsBuilt source =
        Ensures-bind {A = Language F} _ (get_language registry source.language_id) _
          λ language known.
            Ensures-bind {A = Stage Bytes F Unit × Box} _
              (open_box
                >>= compile_parts se no_bytes shlex_split language source.checker (parts_of source))
              _
              λ c e.
                compiled-IsBuilt source language known c.0
                  ((Ensures-bind {A = Box}
                      (λ o. Holds (IsFailure se language (parts_of source)) (λ _. Unit) o.0)
                      open_box _
                      λ box _.
                        compile_parts-Holds language source.checker (parts_of source)
                          (parts_of source) box (λ x h. h)).holds
                    c e)
                  c.1

    as_failure-IsBuilt :
        (source : ProblemSource Bytes F) (m : Result (BuildResult Bytes F))
        → build_in_box se no_bytes shlex_split registry source ≡ m
        → Ensures (IsBuilt source) m
        → Ensures (IsBuilt source) (as_failure se no_bytes shlex_split registry source m)
    as_failure-IsBuilt source (ok r) e h = h
    as_failure-IsBuilt source (err (sandbox_error text)) e h =
        Ensures-ok _ _ (failed-IsBuilt source _ refl refl (Reason.sandbox_broken text e refl refl))
    as_failure-IsBuilt source (err (value_error text)) e h = record { holds = λ r e'. cc }
    as_failure-IsBuilt source (err (unknown_language id)) e h = record { holds = λ r e'. cc }

    -- A build that succeeds has at least one test; its tests are numbered 1, 2, … in order, first the
    -- manual and then the generated ones, each with the group and the points it was planned with; and
    -- it has the checker and the limits of the problem. A build that fails has no test and names the
    -- stage that failed: `compile` and the name of a part that did not compile; `generator`,
    -- `validator` or `main solution`, where a run of that program did not end well; `tests`, where no
    -- test is planned; or `sandbox`, where the sandbox raised the error that the result reports.
    pub build-IsBuilt :
        (source : ProblemSource Bytes F) (res : BuildResult Bytes F)
        → build se no_bytes shlex_split registry source ≡ ok res
        → IsBuilt source res
    unfolding build
    build-IsBuilt source res h =
        (as_failure-IsBuilt source _ refl (build_in_box-IsBuilt source)).holds res h
