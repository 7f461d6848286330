-- ===== src/Runner/Tests.antt =====
-- A worker with three requests of two sessions.
use mathlib.Core.Option
use yandex_codeforces_analyz.Prelude.{
  ◌≤◌, ◌≡◌, refl, ◌⊎◌, false, none, some, [], Every, get_key, modify,
}
use yandex_codeforces_analyz.Runner.{
  Run, chat, generate, running, is_queued, RunTask, WorkerState, enqueue, new_run, candidates,
  is_candidate, running_sessions, claimable, start_row, take_run, claim, Work, claimed, restart,
  fail_row, recover_stale, first_state, worked, enqueued, IsReachable, at_first, after,
}
use yandex_codeforces_analyz.Runner.Rows.{IsSafe}
use yandex_codeforces_analyz.Runner.Safe.{IsReachable-IsSafe}
use yandex_codeforces_analyz.Runner.Drain.{no_work, more_work, work_left, Works-end}
use yandex_codeforces_analyz.Runner.Rest.{IsBlocked, Work-or_rest, restart-claim}
use yandex_codeforces_analyz.Runner.Sweep.{recover_stale-executed}

abbrev one_waits : WorkerState
one_waits = enqueue 5 generate none first_state

abbrev two_wait : WorkerState
two_wait = enqueue 5 chat none one_waits

abbrev three_wait : WorkerState
three_wait = enqueue 8 chat none two_wait

three_wait-IsReachable : IsReachable three_wait
three_wait-IsReachable =
    after two_wait three_wait
      (after one_waits two_wait
        (after first_state one_waits at_first (enqueued 5 generate first_state))
        (enqueued 5 chat one_waits))
      (enqueued 8 chat two_wait)

abbrev first_taken : WorkerState
first_taken = take_run 100 0 (new_run 5 generate none) three_wait

first_claim : claim 100 three_wait ≡ some (0, first_taken)
unfolding claim claimable candidates is_candidate running_sessions enqueue new_run
first_claim = refl

first_taken-IsReachable : IsReachable first_taken
first_taken-IsReachable =
    after three_wait first_taken three_wait-IsReachable
      (worked three_wait first_taken (claimed 100 0 three_wait first_taken first_claim))

IsReachable-IsSafe_example : IsSafe first_taken
IsReachable-IsSafe_example = IsReachable-IsSafe first_taken first_taken-IsReachable

Works-end_example : 1 ≤ work_left three_wait
Works-end_example = Works-end 1 three_wait first_taken three_wait-IsReachable (
    more_work 0 three_wait first_taken first_taken
      (claimed 100 0 three_wait first_taken first_claim) (no_work first_taken))

Work-or_rest_example :
    ((t : WorkerState) × Work first_taken t)
    ⊎ ((first_taken.tasks ≡ []) × Every (IsBlocked first_taken.runs) first_taken.runs)
Work-or_rest_example = Work-or_rest 100 first_taken first_taken-IsReachable

-- the session of the run in execution is passed over
second_claim : Option.map (λ c. c.0) (claim 101 first_taken) ≡ some 2
unfolding claim claimable candidates is_candidate running_sessions enqueue new_run start_row
    take_run modify
second_claim = refl

abbrev taken_row : Run
taken_row = record {
  session_id = 5;
  kind = generate;
  status = running;
  parent_run_id = none;
  cancel_requested = false;
  heartbeat_at = some 100;
}

abbrev taken_task : RunTask
taken_task = record { session = 5; task_kind = generate; ended = false }

task_found : get_key 0 first_taken.tasks ≡ some taken_task
unfolding get_key take_run new_run
task_found = refl

row_found : get_key 0 first_taken.runs ≡ some taken_row
unfolding get_key take_run new_run enqueue modify start_row
row_found = refl

recover_stale-executed_example : get_key 0 (recover_stale 9000 first_taken).runs ≡ some taken_row
recover_stale-executed_example =
    recover_stale-executed 9000 0 0 taken_row taken_task first_taken first_taken-IsReachable
      task_found row_found refl

abbrev one_taken : WorkerState
one_taken = take_run 100 0 (new_run 5 generate none) one_waits

nothing_waits : claim 7 (restart one_taken) ≡ none
unfolding claim claimable candidates is_candidate restart take_run enqueue new_run modify start_row
    fail_row
nothing_waits = refl

restart-claim_example : Every (λ e. is_queued e.1.status ≡ false) (restart one_taken).runs
restart-claim_example = restart-claim 7 one_taken nothing_waits
