-- ===== src/Runner/Sweep.antt =====
-- runner.py: the periodic sweep of `recover` leaves alone what is being executed.
use yandex_codeforces_analyz.Prelude.{
  ℕ, ◌≡◌, refl, ap, ◌∙◌, true, false, some, List, [], ◌∷◌, map, arith, if◌then◌else◌, get_key,
}
use yandex_codeforces_analyz.Runner.{
  Run, failed, RunTask, WorkerState, has_number, is_abandoned, recover_stale, IsReachable,
}
use yandex_codeforces_analyz.Runner.Table.{has_number-task}
use yandex_codeforces_analyz.Runner.Safe.{IsReachable-IsSafe}

get_key-map :
    {V : Type 0} (f : V → V) (k : ℕ) (m : List (ℕ × V)) (v : V)
    → get_key k m ≡ some v
    → get_key k (map (λ e. (e.0, f e.1)) m) ≡ some (f v)
unfolding get_key
get_key-map f k [] v h = absurd cc
get_key-map f k ((j, u) ∷ m) v h = ground (arith, h, get_key-map f k m v)

busy_is_kept :
    (now : ℕ) (s : WorkerState) (r : Run)
    → has_number r.session_id s.busy_sessions ≡ true
    → is_abandoned now s r ≡ false
unfolding is_abandoned
busy_is_kept now s r h = ground (arith, h)

-- The sweep that fails the runs with an old heartbeat never fails a run of a session in which the
-- worker is executing one, however old that run's heartbeat is: the row stays as it is.
pub recover_stale-executed :
    (now id k : ℕ) (r : Run) (t : RunTask) (s : WorkerState)
    → IsReachable s
    → get_key k s.tasks ≡ some t
    → get_key id s.runs ≡ some r
    → r.session_id ≡ t.session
    → get_key id (recover_stale now s).runs ≡ some r
unfolding recover_stale
recover_stale-executed now id k r t s reach task row same =
    get_key-map (λ r. if is_abandoned now s r then record r { status = failed } else r) id s.runs r
      row
    ∙ ap some (rw kept refl)
  where
    busy : has_number r.session_id s.busy_sessions ≡ true
    busy = rw (same, (IsReachable-IsSafe s reach).busy_tasks) (has_number-task k s.tasks t task)

    kept : is_abandoned now s r ≡ false
    kept = busy_is_kept now s r busy
