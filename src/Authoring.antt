-- ===== src/Authoring.antt =====
-- backend/judge/app/authoring: building the tests of a problem from the code of the jury (spec.py,
-- result.py, builder.py), over the same `Session` as the judge. `shlex.split` is given, with the
-- ValueError it raises on a quotation that is not closed. The lock around a build is not modelled here.
pub mod Stages
mod Loops
pub mod Built
mod Tests
use yandex_codeforces_analyz.Prelude.{
  ℕ, zero, suc, ◌+◌, ◌-◌, ◌*◌, ◌/◌, ◌%◌, ◌≤◌, ◌<◌, min, max, String, ◌≡◌, refl, sym, ap, ap₂, ◌∙◌,
  subst, fun_ext, ◌≢◌, ◌↔◌, ◌⊎◌, inl, inr, Bool, true, false, not, ◌&&◌, ◌||◌, Option, none, some,
  List, [], ◌∷◌, ◌++◌, map, foldl, append-nil, append_assoc, arith, ltb, leb, ◌==◌, if◌then◌else◌,
  ltb→lt, leb→le, ==_iff, Bool-cases, Option-cases, or_else, is_some, length, get_elem?, take, drop,
  all_of, any_of, select, count_of, first_where, Every, length-append, take-append-drop,
  count_of-le, sum_by, str_eq, str_eq_iff, str_append, str_take, str_is_empty, str_or, show, join,
  Floats, IsLawful, get_key, put_key, modify, set_default, has_key, keys, values, get_key-put_key,
  get_key-modify, get_key-set_default, keys-modify, get_key_missing, dict_laws, insert_by, sort_by,
  sort_by-perm, IsSorted, IsWeakOrder, sort_by-IsSorted, ℤ, pos, negsuc, leb_ℤ, eq_ℤ, max_ℤ, or_ℤ,
  lstrip, rstrip, strip, strip_edges, split, first_word, after_prefix, after_marker, splitlines,
  split_once, parse_int, get_str, put_str, no_float, nan, number, Reading,
}
use yandex_codeforces_analyz.Sandbox.{
  Error, Result, ok, err, sandbox_error, value_error, unknown_language, ◌>>=◌, RunResult, RunLimits,
  is_ok_run, status_value, default_limits, Session,
}
use yandex_codeforces_analyz.Languages.{
  Language, CompileResult, get_language, source_file, run_command, compile_source,
}

-- spec.py
pub record GeneratedTest (F : Type 0) : Type 0 where
  pub args : String
  pub group : Option String
  pub points : F

pub record ManualTest (Bytes F : Type 0) : Type 0 where
  pub input_data : Bytes
  pub group : Option String
  pub points : F

pub record ProblemSource (Bytes F : Type 0) : Type 0 where
  pub name : String
  pub main_solution : Bytes
  pub checker : Bytes
  pub generator : Option Bytes
  pub validator : Option Bytes
  pub manual_tests : List (ManualTest Bytes F)
  pub generated_tests : List (GeneratedTest F)
  pub time_limit_ms : ℕ
  pub memory_limit_mb : ℕ
  pub language_id : String

-- result.py
pub record BuiltTest (Bytes F : Type 0) : Type 0 where
  pub index : ℕ
  pub input_data : Bytes
  pub answer_data : Bytes
  pub group : Option String
  pub points : F
  pub origin : String

pub record BuildResult (Bytes F : Type 0) : Type 0 where
  pub is_ok : Bool
  pub tests : List (BuiltTest Bytes F)
  pub checker : Bytes
  pub time_limit_ms : ℕ
  pub memory_limit_mb : ℕ
  pub error : String
  pub failed_stage : String
  pub log : String

-- `BuildResult.total_points`
unfoldable pub total_points : {Bytes : Type 0} (fl : Floats) → BuildResult Bytes fl.Float → fl.Float
total_points fl r = fl.round6 (foldl fl.fadd fl.fzero (map (λ t. t.points) r.tests))

-- `_JURY_LIMITS` and `_MAX_MESSAGE`
abbrev pub jury_limits : RunLimits
jury_limits = default_limits 30000 1048576 8

abbrev max_message : ℕ
max_message = 2000

-- a value, or the result that ends the build
pub data Stage (Bytes F A : Type 0) : Type 0 where
  made : A → Stage Bytes F A
  failed_build : BuildResult Bytes F → Stage Bytes F A

-- a `BuildResult` with `ok=False` and the fields it is given
abbrev pub failure : {Bytes F : Type 0} → Bytes → String → String → String → BuildResult Bytes F
failure checker stage error log = record {
  is_ok = false;
  tests = [];
  checker = checker;
  time_limit_ms = 1000;
  memory_limit_mb = 256;
  error = error;
  failed_stage = stage;
  log = log;
}

abbrev named : ℕ → String → String
named index origin = str_append (show index) (str_append " (" (str_append origin ")"))

module _ (se : Session) where
  open se use {Box, Bytes, read_file, decode}

  -- `_read_log`
  unfoldable pub read_log : Box → Result String
  read_log box = read_file "stage.err" (some max_message) box >>= λ raw. ok (strip (decode raw))

-- the default `b""` of a result's checker and `shlex.split` are given
module _ {F : Type 0} (se : Session) (no_bytes : se.Bytes)
    (shlex_split : String → Result (List String)) where
  open se use {Box, Bytes, open_box, put_file, read_file, run_program, decode}

  abbrev run_argv : Language F → String → List String
  run_argv language binary = run_command language (source_file language binary) binary

  -- a stage whose program failed
  unfoldable pub failed_stage_at :
      {A : Type 0} → String → String → Box → Result (Stage Bytes F A × Box)
  unfolding read_log
  failed_stage_at stage error box =
      read_log se box >>= λ log. ok (failed_build (failure no_bytes stage error log), box)

  -- the compilations of `_build`, of the codes that there are
  unfoldable pub compile_parts :
      Language F
      → Bytes
      → List (String × Option Bytes × String)
      → Box
      → Result (Stage Bytes F Unit × Box)
  compile_parts language checker [] box = ok (made tt, box)
  compile_parts language checker ((label, none, binary) ∷ rest) box =
      compile_parts language checker rest box
  compile_parts language checker ((label, some code, binary) ∷ rest) box =
      compile_source se language code [] binary box >>= λ (compiled, after).
      if not compiled.is_ok
      then ok (
        failed_build (
            failure checker (str_append "compile " label) (str_append label " does not compile")
              (str_take max_message compiled.log)),
        after,
      )
      else compile_parts language checker rest after

  -- `_generate`
  unfoldable pub generate : Language F → String → Box → Result (Stage Bytes F Bytes × Box)
  unfolding failed_stage_at
  generate language args box = shlex_split args >>= λ words.
      run_program (run_argv language "generator" ++ words) jury_limits none (some "input.txt")
        (some "stage.err") box
      >>= λ (run, after).
          if not (is_ok_run run.status)
          then failed_stage_at "generator"
              (str_append "generator failed on '"
                (str_append args (str_append "': " (status_value run.status))))
              after
          else read_file "input.txt" none after >>= λ input. ok (made input, after)

  -- `_finish_test` after the validator
  unfoldable pub solve_test :
      Language F
      → ℕ
      → Bytes
      → Option String
      → F
      → String
      → Box
      → Result (Stage Bytes F (BuiltTest Bytes F) × Box)
  unfolding failed_stage_at
  solve_test language index input group points origin box =
      run_program (run_argv language "main") jury_limits (some "input.txt") (some "answer.txt")
        (some "stage.err") box
      >>= λ (solve, after).
          if not (is_ok_run solve.status)
          then failed_stage_at "main solution"
              (str_append "main solution failed on test "
                (str_append (named index origin) (str_append ": " (status_value solve.status))))
              after
          else read_file "answer.txt" none after >>= λ answer. ok (
            made (record {
              index = index;
              input_data = input;
              answer_data = answer;
              group = group;
              points = points;
              origin = origin;
            }),
            after,
          )

  unfoldable pub finish_test :
      Language F
      → Option Bytes
      → ℕ
      → Bytes
      → Option String
      → F
      → String
      → Box
      → Result (Stage Bytes F (BuiltTest Bytes F) × Box)
  unfolding solve_test failed_stage_at
  finish_test language validator index input group points origin box =
      put_file "input.txt" input box >>= λ ready.
      if not (is_some validator)
      then solve_test language index input group points origin ready
      else run_program (run_argv language "validator") jury_limits (some "input.txt") none
          (some "stage.err") ready
        >>= λ (check, after).
            if not (is_ok_run check.status)
            then failed_stage_at "validator"
                (str_append "test " (str_append (named index origin) " is invalid")) after
            else solve_test language index input group points origin after

  -- the two loops of `_build`: the index of the last test, the tests so far, and the ones to build
  unfoldable pub generated_loop :
      Language F
      → Option Bytes
      → ℕ
      → List (BuiltTest Bytes F)
      → List (GeneratedTest F)
      → Box
      → Result (Stage Bytes F (List (BuiltTest Bytes F)))
  generated_loop language validator index tests [] box = ok (made tests)
  generated_loop language validator index tests (t ∷ ts) box =
      generate language t.args box >>= λ (produced, box1). elim produced [
        | failed_build result ↦ ok (failed_build result)
        | made input ↦
            finish_test language validator (suc index) input t.group t.points
              (str_append "generated: " t.args) box1
            >>= λ (built, box2). elim built [
              | failed_build result ↦ ok (failed_build result)
              | made test ↦
                  generated_loop language validator (suc index) (tests ++ (test ∷ [])) ts box2
            ]
      ]

  unfoldable pub manual_loop :
      Language F
      → Option Bytes
      → List (GeneratedTest F)
      → ℕ
      → List (BuiltTest Bytes F)
      → List (ManualTest Bytes F)
      → Box
      → Result (Stage Bytes F (List (BuiltTest Bytes F)))
  manual_loop language validator planned index tests [] box =
      generated_loop language validator index tests planned box
  manual_loop language validator planned index tests (t ∷ ts) box =
      finish_test language validator (suc index) t.input_data t.group t.points "manual" box
      >>= λ (built, after). elim built [
        | failed_build result ↦ ok (failed_build result)
        | made test ↦
            manual_loop language validator planned (suc index) (tests ++ (test ∷ [])) ts after
      ]

  -- the end of `_build`
  unfoldable pub finish_build :
      ProblemSource Bytes F → Stage Bytes F (List (BuiltTest Bytes F)) → BuildResult Bytes F
  finish_build source (failed_build result) = result
  finish_build source (made []) = failure source.checker "tests" "the problem has no tests" ""
  finish_build source (made (t ∷ ts)) = record {
    is_ok = true;
    tests = t ∷ ts;
    checker = source.checker;
    time_limit_ms = source.time_limit_ms;
    memory_limit_mb = source.memory_limit_mb;
    error = "";
    failed_stage = "";
    log = "";
  }

  module _ (registry : List (Language F)) where
    -- `_build`
    unfoldable pub build_in_box : ProblemSource Bytes F → Result (BuildResult Bytes F)
    build_in_box source = get_language registry source.language_id >>= λ language.
        open_box
        >>= compile_parts language source.checker (
            ("main solution", some source.main_solution, "main")
            ∷ ("generator", source.generator, "generator")
            ∷ ("validator", source.validator, "validator")
            ∷ [])
        >>= λ (compiled, box). elim compiled [
          | failed_build result ↦ ok result
          | made _ ↦
              manual_loop language source.validator source.generated_tests 0 [] source.manual_tests
                box
              >>= λ stage. ok (finish_build source stage)
        ]

    abbrev pub as_failure :
        ProblemSource Bytes F → Result (BuildResult Bytes F) → Result (BuildResult Bytes F)
    as_failure source (err (sandbox_error text)) = ok (failure source.checker "sandbox" text "")
    as_failure source m = m

    -- `ProblemBuilder.build`, inside the lock
    unfoldable pub build : ProblemSource Bytes F → Result (BuildResult Bytes F)
    unfolding build_in_box
    build source = as_failure source (build_in_box source)
