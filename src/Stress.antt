-- ===== src/Stress.antt =====
-- backend/judge/app/stress: hunting for a test on which a candidate disagrees with the jury
-- (result.py, runner.py), over the same `Session` as the judge. The progress hook only reports and is
-- left out. `cut` is the slice of a byte string, and the seed is put into the arguments of the
-- generator for templates that hold no other braces than `{seed}`.
pub mod Hunt
mod Tests
use yandex_codeforces_analyz.Prelude.{
  ℕ, zero, suc, ◌+◌, ◌-◌, ◌*◌, ◌/◌, ◌%◌, ◌≤◌, ◌<◌, min, max, String, ◌≡◌, refl, sym, ap, ap₂, ◌∙◌,
  subst, fun_ext, ◌≢◌, ◌↔◌, ◌⊎◌, inl, inr, Bool, true, false, not, ◌&&◌, ◌||◌, Option, none, some,
  List, [], ◌∷◌, ◌++◌, map, foldl, append-nil, append_assoc, arith, ltb, leb, ◌==◌, if◌then◌else◌,
  ltb→lt, leb→le, ==_iff, Bool-cases, Option-cases, or_else, is_some, length, get_elem?, take, drop,
  all_of, any_of, select, count_of, first_where, Every, length-append, take-append-drop,
  count_of-le, sum_by, str_eq, str_eq_iff, str_append, str_take, str_is_empty, str_or, show, join,
  Floats, IsLawful, get_key, put_key, modify, set_default, has_key, keys, values, get_key-put_key,
  get_key-modify, get_key-set_default, keys-modify, get_key_missing, dict_laws, insert_by, sort_by,
  sort_by-perm, IsSorted, IsWeakOrder, sort_by-IsSorted, ℤ, pos, negsuc, leb_ℤ, eq_ℤ, max_ℤ, or_ℤ,
  lstrip, rstrip, strip, strip_edges, split, first_word, after_prefix, after_marker, splitlines,
  split_once, parse_int, get_str, put_str, no_float, nan, number, Reading,
}
use yandex_codeforces_analyz.Sandbox.{
  Error, Result, ok, err, sandbox_error, value_error, unknown_language, ◌>>=◌, RunResult, RunLimits,
  is_ok_run, default_limits, from_problem, Session,
}
use yandex_codeforces_analyz.Languages.{
  Language, CompileResult, get_language, source_file, run_command, compile_source,
}
use yandex_codeforces_analyz.Engine.Scoring.{Verdict, is_ok}
use yandex_codeforces_analyz.Engine.{CheckOutcome, from_run_status, run_checker}

-- result.py
pub record Counterexample (Bytes : Type 0) : Type 0 where
  pub seed : ℕ
  pub input_data : Bytes
  pub expected : Bytes
  pub actual : Bytes
  pub reason : String

pub record StressResult (Bytes : Type 0) : Type 0 where
  pub is_found : Bool
  pub iterations : ℕ
  pub counterexample : Option (Counterexample Bytes)
  pub error : String
  pub failed_stage : String

-- `StressResult.ok`
abbrev pub survived : {Bytes : Type 0} → StressResult Bytes → Bool
survived r = str_is_empty r.error && not r.is_found

-- `Verdict.value`
unfoldable pub verdict_value : Verdict → String
verdict_value Verdict.ok = "OK"
verdict_value Verdict.wrong_answer = "WA"
verdict_value Verdict.time_limit = "TLE"
verdict_value Verdict.memory_limit = "MLE"
verdict_value Verdict.runtime_error = "RE"
verdict_value Verdict.presentation_error = "PE"
verdict_value Verdict.compile_error = "CE"
verdict_value Verdict.internal_error = "XX"

-- `gen_args.format(seed=seed)`; the counter skips the letters of a field that was replaced
put_seed : ℕ → ℕ → String → String
put_seed skip seed String.[] = ""
put_seed (suc k) seed (String.◌∷◌ c s) = put_seed k seed s
put_seed zero seed (String.◌∷◌ c s) =
    let as_field = str_append (show seed) (put_seed 5 seed s) in
    let as_letter = String.◌∷◌ c (put_seed 0 seed s) in
    if is_some (after_prefix "{seed}" (String.◌∷◌ c s)) then as_field else as_letter

unfoldable pub seed_args : String → ℕ → List String
unfolding put_seed
seed_args gen_args seed = split (put_seed 0 seed gen_args)

-- `_JURY_LIMITS` and `_MAX_OUTPUT`
abbrev jury_limits : RunLimits
jury_limits = default_limits 30000 1048576 8

abbrev max_output : ℕ
max_output = 8192

-- a hunt that could not go on, and one that found a test
abbrev pub stuck : {Bytes : Type 0} → ℕ → String → String → StressResult Bytes
stuck iterations stage error = record {
  is_found = false;
  iterations = iterations;
  counterexample = none;
  error = error;
  failed_stage = stage;
}

abbrev pub found_at : {Bytes : Type 0} → ℕ → Counterexample Bytes → StressResult Bytes
found_at seed c = record {
  is_found = true;
  iterations = seed;
  counterexample = some c;
  error = "";
  failed_stage = "";
}

-- `crashed is not None and crashed is not Verdict.INTERNAL_ERROR`
abbrev is_blamed : Option Verdict → Option Verdict
is_blamed none = none
is_blamed (some Verdict.internal_error) = none
is_blamed (some v) = some v

module _ {F : Type 0} (se : Session) where
  open se use {Box, Bytes}

  -- the loop that compiles the candidate, the reference and the generator
  unfoldable pub compile_each :
      Language F → List (String × Bytes × String) → Box → Result (Option (StressResult Bytes) × Box)
  compile_each language [] box = ok (none, box)
  compile_each language ((label, code, binary) ∷ rest) box =
      compile_source se language code [] binary box >>= λ (compiled, after).
      if not compiled.is_ok
      then ok (
        some (
            stuck 0 (str_append "compile " label)
              (str_append label (str_append " does not compile: " (str_take 500 compiled.log)))),
        after,
      )
      else compile_each language rest after

module _ (fl : Floats) (se : Session) (cut : ℕ → se.Bytes → se.Bytes) where
  open fl use {Float}
  open se use {Box, Bytes, open_box, read_file, run_program}

  -- `_snapshot`
  unfoldable pub snapshot : ℕ → Bytes → String → Box → Result (Counterexample Bytes)
  snapshot seed test_input reason box =
      read_file "expected.txt" (some max_output) box >>= λ expected.
      read_file "actual.txt" (some max_output) box >>= λ actual. ok (record {
        seed = seed;
        input_data = cut max_output test_input;
        expected = expected;
        actual = actual;
        reason = reason;
      })

  abbrev stop_at : ℕ → Bytes → String → Box → Result (Option (StressResult Bytes) × Box)
  stop_at seed test_input reason box =
      snapshot seed test_input reason box >>= λ c. ok (some (found_at seed c), box)

  -- one round of the hunt after the checker
  unfoldable pub after_check :
      ℕ → Bytes → String → Verdict → Box → Result (Option (StressResult Bytes) × Box)
  after_check seed test_input comment Verdict.internal_error box =
      ok (some (stuck (seed - 1) "checker" (str_or comment "the checker broke")), box)
  after_check seed test_input comment Verdict.ok box = ok (none, box)
  after_check seed test_input comment v box =
      stop_at seed test_input (strip_edges (str_append (verdict_value v) (str_append ": " comment)))
        box

  -- one round of the hunt after the run of the candidate
  unfoldable pub judge_round :
      ℕ → Bytes → RunResult → Box → Result (Option (StressResult Bytes) × Box)
  judge_round seed test_input run box = elim (is_blamed (from_run_status run.status)) [
    | some crashed ↦ stop_at seed test_input (verdict_value crashed) box
    | none ↦ run_checker fl se "input.txt" "actual.txt" "expected.txt" box >>= λ (outcome, after).
        after_check seed test_input outcome.comment outcome.verdict after
  ]

  -- one round of the hunt, with the commands; `none`: the candidate survived it
  unfoldable pub round :
      List String
      → List String
      → List String
      → String
      → RunLimits
      → ℕ
      → Box
      → Result (Option (StressResult Bytes) × Box)
  unfolding judge_round after_check
  round gen_argv reference_argv candidate_argv gen_args limits seed box =
      run_program (gen_argv ++ seed_args gen_args seed) jury_limits none (some "input.txt")
        (some "stage.err") box
      >>= λ (made, box1).
          if not (is_ok_run made.status)
          then ok (
            some
                (stuck (seed - 1) "generator" (str_append "generator failed on seed " (show seed))),
            box1,
          )
          else read_file "input.txt" none box1 >>= λ test_input.
              run_program reference_argv jury_limits (some "input.txt") (some "expected.txt") none
                box1
              >>= λ (jury, box2).
                  if not (is_ok_run jury.status)
                  then ok (
                    some (
                        stuck (seed - 1) "reference"
                          (str_append "the jury solution failed on seed " (show seed))),
                    box2,
                  )
                  else run_program candidate_argv limits (some "input.txt") (some "actual.txt") none
                      box2
                    >>= λ (run, box3). judge_round seed test_input run box3

  -- the loop over the seeds: `left` rounds from `seed` on, out of `iterations`
  unfoldable pub hunt_from :
      (ℕ → Box → Result (Option (StressResult Bytes) × Box))
      → ℕ
      → ℕ
      → ℕ
      → Box
      → Result (StressResult Bytes)
  hunt_from play iterations zero seed box = ok (stuck iterations "" "")
  hunt_from play iterations (suc left) seed box = play seed box >>= λ (outcome, after).
      elim outcome [
        | some result ↦ ok result
        | none ↦ hunt_from play iterations left (suc seed) after
      ]

  module _ (registry : List (Language Float)) where
    -- `_hunt` after the three compilations
    unfoldable pub hunt_compiled :
        Language Float → Bytes → String → ℕ → RunLimits → Box → Result (StressResult Bytes)
    hunt_compiled language checker gen_args iterations limits box =
        get_language registry "cpp" >>= λ cpp.
        compile_source se cpp checker [] "checker" box >>= λ (built, after).
        if not built.is_ok
        then ok (
            stuck 0 "compile checker"
              (str_append "checker does not compile: " (str_take 500 built.log)))
        else hunt_from
            (round (run_command language (source_file language "generator") "generator")
              (run_command language (source_file language "reference") "reference")
              (run_command language (source_file language "candidate") "candidate") gen_args limits)
            iterations iterations 1 after

    -- `_hunt`
    unfoldable pub hunt_in_box :
        Bytes → Bytes → Bytes → Bytes → String → ℕ → ℕ → ℕ → String → Result (StressResult Bytes)
    hunt_in_box candidate reference generator checker gen_args iterations time_limit_ms
          memory_limit_mb language_id =
        get_language registry language_id >>= λ language.
        from_problem fl time_limit_ms memory_limit_mb language.tl_multiplier >>= λ limits.
        open_box
        >>= compile_each se language (
            ("candidate", candidate, "candidate")
            ∷ ("reference", reference, "reference")
            ∷ ("generator", generator, "generator")
            ∷ [])
        >>= λ (broken, box). elim broken [
          | some result ↦ ok result
          | none ↦ hunt_compiled language checker gen_args iterations limits box
        ]

    -- `except SandboxError`
    abbrev pub as_stuck : Result (StressResult Bytes) → Result (StressResult Bytes)
    as_stuck (err (sandbox_error text)) = ok (stuck 0 "sandbox" text)
    as_stuck m = m

    -- `StressTester.hunt`
    unfoldable pub hunt :
        Bytes → Bytes → Bytes → Bytes → String → ℕ → ℕ → ℕ → String → Result (StressResult Bytes)
    unfolding hunt_in_box
    hunt candidate reference generator checker gen_args iterations time_limit_ms memory_limit_mb
          language_id =
        as_stuck (
          hunt_in_box candidate reference generator checker gen_args iterations time_limit_ms
            memory_limit_mb language_id)
