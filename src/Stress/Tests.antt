-- ===== src/Stress/Tests.antt =====
-- Runs of the hunt on a box of its own, and the theorem at a concrete input.
use yandex_codeforces_analyz.Prelude.{
  ℕ, suc, String, ◌≡◌, refl, true, ◌&&◌, none, some, List, [], ◌∷◌, leb, if◌then◌else◌, str_eq,
  str_take, show, join, pos, lstrip, rstrip, strip, split, after_prefix, split_once,
}
use yandex_codeforces_analyz.Samples.{whole}
use yandex_codeforces_analyz.Sandbox.{
  ok, RunStatus, RunResult, ok_run, runtime_error, Session, from_problem, check_limits,
}
use yandex_codeforces_analyz.Languages.{
  Language, cpp, get_language, compile_source, run_command, source_file, render,
}
use yandex_codeforces_analyz.Engine.{from_run_status, run_checker, check_outcome, exit_to_verdict}
use yandex_codeforces_analyz.Stress.{
  StressResult, seed_args, hunt, hunt_in_box, hunt_compiled, hunt_from, compile_each, after_check,
  round, judge_round, snapshot, verdict_value,
}
use yandex_codeforces_analyz.Stress.Hunt.{IsHunt, hunt-IsHunt}

seed_in_arguments : seed_args " -n {seed}  x " 12 ≡ "-n" ∷ "12" ∷ "x" ∷ []
unfolding seed_args show split after_prefix
seed_in_arguments = refl

abbrev ended : RunStatus → RunResult
ended status = record {
  status = status;
  exit_code = pos 0;
  signal = none;
  cpu_time_ms = pos 7;
  wall_time_ms = pos 8;
  memory_kb = pos 100;
  message = "";
}

-- a box of which only the number of runs is known: the candidate crashes in the second round, after
-- the four compilations
abbrev crashes : List String → ℕ → RunStatus
crashes argv runs =
    if str_eq (join " " argv) "./candidate" && leb 10 runs then runtime_error else ok_run

abbrev toy : Session
toy = record {
  Box = ℕ;
  Bytes = String;
  open_box = ok 0;
  put_file = λ name content box. ok box;
  read_file = λ name limit box. ok name;
  run_program = λ argv limits stdin stdout stderr box. ok (ended (crashes argv box), suc box);
  decode = λ s. s;
}

abbrev broken_at_two : StressResult String
broken_at_two = record {
  is_found = true;
  iterations = 2;
  counterexample = some (record {
    seed = 2;
    input_data = "input.txt";
    expected = "expected.txt";
    actual = "actual.txt";
    reason = "RE";
  });
  error = "";
  failed_stage = "";
}

abbrev registry : List (Language ℕ)
registry = cpp whole ∷ []

candidate_broken :
    hunt whole toy str_take registry "a" "b" "c" "d" "{seed}" 5 1000 64 "cpp" ≡ ok broken_at_two
unfolding hunt hunt_in_box get_language cpp from_problem check_limits compile_each compile_source
    join render after_prefix source_file split_once hunt_compiled hunt_from round run_command
    seed_args split show after_check judge_round snapshot verdict_value from_run_status run_checker
    check_outcome exit_to_verdict strip lstrip rstrip str_take
candidate_broken = refl

hunt-IsHunt_example : IsHunt 5 broken_at_two
hunt-IsHunt_example =
    hunt-IsHunt whole toy str_take registry "a" "b" "c" "d" "{seed}" 5 1000 64 "cpp" broken_at_two
      candidate_broken
