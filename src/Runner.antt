-- ===== src/Runner.antt =====
-- services/ai-authoring/authoring/pipeline/runner.py: the worker of the AI authoring service, with
-- the route that cancels a run (api/routes.py) and the columns of models.py that they use. The
-- table of runs is a list in the order of `created_at`, under natural numbers for ids; the clock
-- and what a handler ends with are given. A database transaction is one step, and so is a stretch
-- of the worker's own bookkeeping between two awaits: the event loop runs these in any order. Two
-- pairs are one step each: the commit of a claim with the bookkeeping after it (`take_run`), and the
-- commits of a status and of the build that it chains (`finish`). Row locks of the database, messages, progress texts and the refresh of snapshots are left out.
pub mod Table
pub mod Rows
pub mod Safe
pub mod Drain
pub mod Rest
pub mod Sweep
mod Tests
use yandex_codeforces_analyz.Prelude.{
  ℕ, zero, suc, ◌+◌, ◌-◌, ◌*◌, ◌/◌, ◌%◌, ◌≤◌, ◌<◌, min, max, String, ◌≡◌, refl, sym, ap, ap₂, ◌∙◌,
  subst, fun_ext, ◌≢◌, ◌↔◌, ◌⊎◌, inl, inr, Bool, true, false, not, ◌&&◌, ◌||◌, Option, none, some,
  List, [], ◌∷◌, ◌++◌, map, foldl, append-nil, append_assoc, arith, ltb, leb, ◌==◌, if◌then◌else◌,
  ltb→lt, leb→le, ==_iff, Bool-cases, Option-cases, or_else, is_some, length, get_elem?, take, drop,
  all_of, any_of, select, count_of, first_where, Every, length-append, take-append-drop,
  count_of-le, sum_by, str_eq, str_eq_iff, str_append, str_take, str_is_empty, str_or, show, join,
  Floats, IsLawful, get_key, put_key, modify, set_default, has_key, keys, values, get_key-put_key,
  get_key-modify, get_key-set_default, keys-modify, get_key_missing, dict_laws, insert_by, sort_by,
  sort_by-perm, IsSorted, IsWeakOrder, sort_by-IsSorted, ℤ, pos, negsuc, leb_ℤ, eq_ℤ, max_ℤ, or_ℤ,
  lstrip, rstrip, strip, strip_edges, split, first_word, after_prefix, after_marker, splitlines,
  split_once, parse_int, get_str, put_str, no_float, nan, number, Reading, read_digits-two_digits,
  after_prefix-append, after_prefix-differs, two_digits, read_digits, heads_differ, modified,
  append_named, after_prefix_complete, str_eq_refl, str_eq_comm, get_str-nil, get_str-put_str,
}

-- models.py; a kind without a handler is `unknown`
pub data RunKind : Type 0 where
  chat generate groups build unknown : RunKind

pub data RunStatus : Type 0 where
  queued running done failed needs_user cancelled : RunStatus

abbrev pub is_build : RunKind → Bool
is_build build = true
is_build _ = false

abbrev pub is_queued : RunStatus → Bool
is_queued queued = true
is_queued _ = false

abbrev pub is_running : RunStatus → Bool
is_running running = true
is_running _ = false

abbrev pub is_done : RunStatus → Bool
is_done done = true
is_done _ = false

pub record Run : Type 0 where
  pub session_id : ℕ
  pub kind : RunKind
  pub status : RunStatus
  pub parent_run_id : Option ℕ
  pub cancel_requested : Bool
  pub heartbeat_at : Option ℕ

-- a task of the event loop that executes a run, from `claim` to the end of `execute`; `ended` is
-- whether the run's end is written
pub record RunTask : Type 0 where
  pub session : ℕ
  pub task_kind : RunKind
  pub ended : Bool

-- the table, the id of the next run, and the worker's `_busy_sessions` and `_run_sessions`
pub record WorkerState : Type 0 where
  pub runs : List (ℕ × Run)
  pub next_id : ℕ
  pub busy_sessions : List ℕ
  pub tasks : List (ℕ × RunTask)

abbrev pub has_number : ℕ → List ℕ → Bool
has_number n [] = false
has_number n (m ∷ ms) = (m == n) || has_number n ms

-- `busy.discard(n)`
abbrev pub discard : ℕ → List ℕ → List ℕ
discard n ms = select (λ m. not (m == n)) ms

-- `tasks.pop(run_id)`
abbrev pub drop_key {ℓ} : {V : Type ℓ} → ℕ → List (ℕ × V) → List (ℕ × V)
drop_key k [] = []
drop_key k ((j, v) ∷ m) = let rest = drop_key k m in if j == k then m else (j, v) ∷ rest

unfoldable pub new_run : ℕ → RunKind → Option ℕ → Run
new_run session kind parent = record {
  session_id = session;
  kind = kind;
  status = queued;
  parent_run_id = parent;
  cancel_requested = false;
  heartbeat_at = none;
}

-- `enqueue`
unfoldable pub enqueue : ℕ → RunKind → Option ℕ → WorkerState → WorkerState
enqueue session kind parent s = record s {
  runs = s.runs ++ (s.next_id, new_run session kind parent) ∷ [];
  next_id = s.next_id + 1;
}

-- `route_cancel_run`, for a run of the caller
unfoldable pub cancel_row : Run → Run
cancel_row r =
    if is_queued r.status
    then record r { status = cancelled }
    else if is_running r.status
    then record r { cancel_requested = true }
    else r

unfoldable pub cancel_run : ℕ → WorkerState → WorkerState
cancel_run id s = record s { runs = modify id cancel_row s.runs }

-- the sessions of the runs that are running
unfoldable pub running_sessions : List (ℕ × Run) → List ℕ
running_sessions runs = map (λ e. e.1.session_id) (select (λ e. is_running e.1.status) runs)

unfoldable pub is_candidate : List (ℕ × Run) → ℕ × Run → Bool
is_candidate runs e =
    is_queued e.1.status && not (has_number e.1.session_id (running_sessions runs))

-- the ten rows of the query
unfoldable pub candidates : List (ℕ × Run) → List (ℕ × Run)
candidates runs = take 10 (select (is_candidate runs) runs)

-- the run that `claim` takes
unfoldable pub claimable : WorkerState → Option (ℕ × Run)
claimable s = first_where (λ e. not (has_number e.1.session_id s.busy_sessions)) (candidates s.runs)

unfoldable pub start_row : ℕ → Run → Run
start_row now r = record r { status = running; heartbeat_at = some now }

unfoldable pub take_run : ℕ → ℕ → Run → WorkerState → WorkerState
take_run now id r s = record s {
  runs = modify id (start_row now) s.runs;
  busy_sessions = r.session_id ∷ s.busy_sessions;
  tasks = (id, record { session = r.session_id; task_kind = r.kind; ended = false }) ∷ s.tasks;
}

-- `claim`, at a time
unfoldable pub claim : ℕ → WorkerState → Option (ℕ × WorkerState)
claim now s = elim (claimable s) [ none ↦ none | some (id, r) ↦ some (id, take_run now id r s) ]

-- what a handler ends with: the flags of its result, or one of the exceptions
pub data Handled : Type 0 where
  returned : (user build_flag forced : Bool) → Handled
  run_cancelled pipeline_error llm_error polygon_error crashed : Handled

unfoldable pub status_of : Handled → RunStatus
status_of (returned user build_flag forced) = if user then needs_user else done
status_of run_cancelled = cancelled
status_of _ = failed

-- `result.get("build") and (auto_build or result.get("force_build"))`
unfoldable pub wants_build : Bool → Handled → Bool
wants_build auto (returned user build_flag forced) = build_flag && (auto || forced)
wants_build auto _ = false

-- a kind without a handler is a `PipelineError`
unfoldable pub handled_as : RunKind → Handled → Handled
handled_as unknown h = pipeline_error
handled_as _ h = h

unfoldable pub has_queued_build : ℕ → List (ℕ × Run) → Bool
has_queued_build session runs =
    any_of (λ e. (e.1.session_id == session) && (is_build e.1.kind && is_queued e.1.status)) runs

unfoldable pub end_row : RunStatus → Run → Run
end_row st r = record r { status = st }

abbrev pub end_task : RunTask → RunTask
end_task t = record t { ended = true }

unfoldable pub write_status : ℕ → RunStatus → WorkerState → WorkerState
write_status id st s = record s {
  runs = modify id (end_row st) s.runs;
  tasks = modify id end_task s.tasks;
}

-- the build run that follows
unfoldable pub chain_build : Bool → ℕ → RunTask → Handled → WorkerState → WorkerState
chain_build auto id t h s =
    if is_done (status_of h)
      && (wants_build auto h
          && (not (is_build t.task_kind) && not (has_queued_build t.session s.runs)))
    then enqueue t.session build (some id) s
    else s

-- the end of `_execute`, with the session's setting `auto_build`
unfoldable pub finish : Bool → ℕ → RunTask → Handled → WorkerState → WorkerState
finish auto id t h s =
    chain_build auto id t (handled_as t.task_kind h)
      (write_status id (status_of (handled_as t.task_kind h)) s)

-- `_force_fail`: only a run that is running is changed
unfoldable pub fail_row : Run → Run
fail_row r = if is_running r.status then record r { status = failed } else r

unfoldable pub force_fail : ℕ → WorkerState → WorkerState
force_fail id s = record s { runs = modify id fail_row s.runs; tasks = modify id end_task s.tasks }

-- an end that could not be written to the database
unfoldable pub lose_end : ℕ → WorkerState → WorkerState
lose_end id s = record s { tasks = modify id end_task s.tasks }

-- the `finally` of `execute`
unfoldable pub release : ℕ → RunTask → WorkerState → WorkerState
release id t s = record s {
  busy_sessions = discard t.session s.busy_sessions;
  tasks = drop_key id s.tasks;
}

-- `recover`: the runs that were left behind
unfoldable pub is_stale : ℕ → Option ℕ → Bool
is_stale now none = true
is_stale now (some beat) = ltb (beat + 300) now

unfoldable pub is_abandoned : ℕ → WorkerState → Run → Bool
is_abandoned now s r =
    is_running r.status
    && (is_stale now r.heartbeat_at && not (has_number r.session_id s.busy_sessions))

unfoldable pub recover_stale : ℕ → WorkerState → WorkerState
recover_stale now s = record s {
  runs =
      map (λ e. (e.0, if is_abandoned now s e.1 then record e.1 { status = failed } else e.1))
        s.runs;
}

-- a new process, which starts with `recover(all_running=True)`
unfoldable pub restart : WorkerState → WorkerState
restart s = record s {
  runs = map (λ e. (e.0, fail_row e.1)) s.runs;
  busy_sessions = [];
  tasks = [];
}

-- `_heartbeat`
unfoldable pub beat : ℕ → ℕ → WorkerState → WorkerState
beat now id s = record s { runs = modify id (λ r. record r { heartbeat_at = some now }) s.runs }

-- what the worker does on its own
pub data Work : WorkerState → WorkerState → Type 0 where
  claimed : (now id : ℕ) (s t : WorkerState) → claim now s ≡ some (id, t) → Work s t
  finished :
      (auto : Bool) (id : ℕ) (task : RunTask) (h : Handled) (s : WorkerState)
      → get_key id s.tasks ≡ some task
      → task.ended ≡ false
      → Work s (finish auto id task h s)
  forced :
      (id : ℕ) (task : RunTask) (s : WorkerState)
      → get_key id s.tasks ≡ some task
      → task.ended ≡ false
      → Work s (force_fail id s)
  lost :
      (id : ℕ) (task : RunTask) (s : WorkerState)
      → get_key id s.tasks ≡ some task
      → task.ended ≡ false
      → Work s (lose_end id s)
  released :
      (id : ℕ) (task : RunTask) (s : WorkerState)
      → get_key id s.tasks ≡ some task
      → task.ended ≡ true
      → Work s (release id task s)

-- with the requests of users, the heartbeat, the periodic sweep and restarts
pub data Step : WorkerState → WorkerState → Type 0 where
  worked : (s t : WorkerState) → Work s t → Step s t
  enqueued : (session : ℕ) (kind : RunKind) (s : WorkerState) → Step s (enqueue session kind none s)
  asked_to_cancel : (id : ℕ) (s : WorkerState) → Step s (cancel_run id s)
  beaten : (now id : ℕ) (s : WorkerState) → Step s (beat now id s)
  swept : (now : ℕ) (s : WorkerState) → Step s (recover_stale now s)
  restarted : (s : WorkerState) → Step s (restart s)

abbrev pub first_state : WorkerState
first_state = record { runs = []; next_id = 0; busy_sessions = []; tasks = [] }

-- the states that the service can come to
pub data IsReachable : WorkerState → Type 0 where
  at_first : IsReachable first_state
  after : (s t : WorkerState) → IsReachable s → Step s t → IsReachable t
