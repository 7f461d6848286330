-- ===== src/Authoring/Tests.antt =====
-- A build on a box of its own, and the theorem at a concrete input.
use yandex_codeforces_analyz.Prelude.{
  ℕ, suc, String, ◌≡◌, refl, true, none, some, List, [], ◌∷◌, pos, after_prefix, split_once,
}
use yandex_codeforces_analyz.Samples.{whole}
use yandex_codeforces_analyz.Sandbox.{ok, ok_run, Session, check_limits, Result}
use yandex_codeforces_analyz.Languages.{
  Language, cpp, get_language, compile_source, run_command, source_file, render,
}
use yandex_codeforces_analyz.Authoring.{
  ProblemSource, BuildResult, compile_parts, generate, solve_test, finish_test, generated_loop,
  manual_loop, finish_build, build_in_box, build,
}
use yandex_codeforces_analyz.Authoring.Built.{IsBuilt, build-IsBuilt}

abbrev toy : Session
toy = record {
  Box = ℕ;
  Bytes = String;
  open_box = ok 0;
  put_file = λ name content box. ok box;
  read_file = λ name limit box. ok name;
  run_program = λ argv limits stdin stdout stderr box. ok (
    record {
      status = ok_run;
      exit_code = pos 0;
      signal = none;
      cpu_time_ms = pos 7;
      wall_time_ms = pos 8;
      memory_kb = pos 100;
      message = "";
    },
    suc box,
  );
  decode = λ s. s;
}

abbrev words_of : String → Result (List String)
words_of s = ok (s ∷ [])

abbrev problem : ProblemSource String ℕ
problem = record {
  name = "sum";
  main_solution = "main";
  checker = "checker";
  generator = some "generator";
  validator = none;
  manual_tests = record { input_data = "1 2"; group = none; points = 0 } ∷ [];
  generated_tests = record { args = "-n 5"; group = some "a"; points = 7 } ∷ [];
  time_limit_ms = 2000;
  memory_limit_mb = 64;
  language_id = "cpp";
}

abbrev registry : List (Language ℕ)
registry = cpp whole ∷ []

abbrev built : BuildResult String ℕ
built = record {
  is_ok = true;
  tests =
      record {
        index = 1;
        input_data = "1 2";
        answer_data = "answer.txt";
        group = none;
        points = 0;
        origin = "manual";
      }
      ∷ record {
        index = 2;
        input_data = "input.txt";
        answer_data = "answer.txt";
        group = some "a";
        points = 7;
        origin = "generated: -n 5";
      }
      ∷ [];
  checker = "checker";
  time_limit_ms = 2000;
  memory_limit_mb = 64;
  error = "";
  failed_stage = "";
  log = "";
}

problem-built : build toy "" words_of registry problem ≡ ok built
unfolding build build_in_box get_language cpp compile_parts compile_source source_file split_once
    render after_prefix check_limits manual_loop generated_loop generate finish_test solve_test
    finish_build run_command
problem-built = refl

build-IsBuilt_example : IsBuilt {F = ℕ} toy "" words_of registry problem built
build-IsBuilt_example = build-IsBuilt toy "" words_of registry problem built problem-built
