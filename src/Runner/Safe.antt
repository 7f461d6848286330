-- ===== src/Runner/Safe.antt =====
-- runner.py: runs of one session never overlap.
use yandex_codeforces_analyz.Prelude.{
  Every-select, Every-selected, Every-take, Every-both, first_where-holds, ℕ, ◌≤◌, ◌≡◌, refl, sym,
  ap, ◌∙◌, subst, ◌≢◌, inl, inr, Bool, true, false, not, none, some, List, [], ◌∷◌, map, arith,
  ◌==◌, if◌then◌else◌, ==_iff, Bool-cases, Option-cases, get_key, modify, keys-modify, Every-select,
  Every-selected, Every-take, Every-both, first_where-holds,
}
use yandex_codeforces_analyz.Runner.{
  Run, failed, RunTask, WorkerState, has_number, discard, cancel_row, cancel_run, running_sessions,
  is_candidate, candidates, claimable, start_row, take_run, claim, handled_as, finish, fail_row,
  force_fail, lose_end, release, is_abandoned, recover_stale, restart, beat, Work, claimed,
  finished, forced, lost, released, Step, worked, enqueued, asked_to_cancel, beaten, swept,
  restarted, IsReachable, at_first, after,
}
use yandex_codeforces_analyz.Runner.Table.{
  IsNoDup, IsBelow, IsNoDup-discard, IsHeld, Every-IsHeld, count, count-modify-suc,
  count-modify-other, runs_in, count-none, task_sessions, discard-task,
}
use yandex_codeforces_analyz.Runner.Rows.{
  IsSafe, IsCalm, IsSafe-modify, IsSafe-map, IsSafe-end, enqueue-IsSafe, cancel_row-IsCalm,
  fail_row-IsCalm, write_status-IsSafe, chain_build-IsSafe,
}

release-IsSafe :
    (id : ℕ) (t : RunTask) (s : WorkerState)
    → get_key id s.tasks ≡ some t
    → IsSafe s
    → IsSafe (release id t s)
unfolding release
release-IsSafe id t s e h = record {
  ids_differ = h.ids_differ;
  ids_below = h.ids_below;
  one_running = h.one_running;
  busy_tasks = ap (discard t.session) h.busy_tasks ∙ discard-task id s.tasks t h.sessions_differ e;
  sessions_differ =
      subst IsNoDup (discard-task id s.tasks t h.sessions_differ e)
        (IsNoDup-discard t.session (task_sessions s.tasks) h.sessions_differ);
}

-- what `claim` looks for
pub record IsClaimable (s : WorkerState) (e : ℕ × Run) : Type 0 where
  pub in_table : IsHeld s.runs e
  pub waits : is_candidate s.runs e ≡ true
  pub idle : not (has_number e.1.session_id s.busy_sessions) ≡ true

pub claimable-IsClaimable :
    (s : WorkerState) (e : ℕ × Run) → IsSafe s → claimable s ≡ some e → IsClaimable s e
unfolding claimable candidates
claimable-IsClaimable s e h c = record { in_table = found.0.0; waits = found.0.1; idle = found.1 }
  where
    P : ℕ × Run → Type 0
    P d = IsHeld s.runs d × (is_candidate s.runs d ≡ true)

    found : P e × (not (has_number e.1.session_id s.busy_sessions) ≡ true)
    found =
        first_where-holds P _ (candidates s.runs) e
          (Every-take P 10 _ (
            Every-both (IsHeld s.runs) (λ d. is_candidate s.runs d ≡ true) P _ (λ d x y. (x, y))
              (Every-select (IsHeld s.runs) (is_candidate s.runs) s.runs
                (Every-IsHeld s.runs h.ids_differ))
              (Every-selected (is_candidate s.runs) s.runs)))
          c

pub candidate-idle :
    (runs : List (ℕ × Run)) (e : ℕ × Run)
    → is_candidate runs e ≡ true
    → has_number e.1.session_id (running_sessions runs) ≡ false
unfolding is_candidate
candidate-idle runs e h = ground (arith, h)

start_row-other :
    (now k : ℕ) (r : Run) → (r.session_id == k) ≡ false → runs_in k (start_row now r) ≡ false
unfolding start_row
start_row-other now k r h = h

pub some-injective : {A : Type 0} {a b : A} → some a ≡ some b → a ≡ b
some-injective e = cc

pub none-some : {A : Type 0} {a : A} → none ≢ some a
none-some e = absurd cc

sweep-IsCalm :
    (now : ℕ) (s : WorkerState)
    → IsCalm (λ r. if is_abandoned now s r then record r { status = failed } else r)
sweep-IsCalm now s k r h = go (is_abandoned now s r) h
  where
    go :
        (b : Bool)
        → runs_in k (if b then record r { status = failed } else r) ≡ true
        → runs_in k r ≡ true
    go true h = absurd cc
    go false h = h

-- a new process has no tasks
restarted-IsSafe :
    (s : WorkerState) → IsSafe s → IsSafe (record s { busy_sessions = []; tasks = [] })
restarted-IsSafe s h = record {
  ids_differ = h.ids_differ;
  ids_below = h.ids_below;
  one_running = h.one_running;
  busy_tasks = refl;
  sessions_differ = tt;
}

take_run-IsSafe :
    (now id : ℕ) (r : Run) (s : WorkerState)
    → IsClaimable s (id, r)
    → IsSafe s
    → IsSafe (take_run now id r s)
unfolding take_run
take_run-IsSafe now id r s c h = record {
  ids_differ = subst IsNoDup (sym (keys-modify id (start_row now) s.runs)) h.ids_differ;
  ids_below = subst (IsBelow s.next_id) (sym (keys-modify id (start_row now) s.runs)) h.ids_below;
  one_running = one;
  busy_tasks = ap (◌∷◌ r.session_id) h.busy_tasks;
  sessions_differ = (
    subst (λ ns. has_number r.session_id ns ≡ false) h.busy_tasks (ground (arith, c.idle)),
    h.sessions_differ,
  );
}
  where
    one : (k : ℕ) → count (runs_in k) (modify id (start_row now) s.runs) ≤ 1
    one k = elim (Bool-cases (r.session_id == k)) [
      | inl t ↦ omega (
        arith,
        count-modify-suc (runs_in k) id (start_row now) s.runs,
        count-none k s.runs (
            subst (λ n. has_number n (running_sessions s.runs) ≡ false)
              ((==_iff r.session_id k).0 t) (candidate-idle s.runs (id, r) c.waits)),
      )
      | inr f ↦ omega (
        arith,
        h.one_running k,
        count-modify-other (runs_in k) id (start_row now) s.runs r c.in_table
            (start_row-other now k r f),
      )
    ]

claim-IsSafe : (now id : ℕ) (s t : WorkerState) → claim now s ≡ some (id, t) → IsSafe s → IsSafe t
unfolding claim
claim-IsSafe now id s t c h = elim (Option-cases (claimable s)) [
  | inl e ↦ absurd (none-some (rw (e, claim) at c))
  | inr (e, found) ↦
      subst IsSafe (ap (λ (x : ℕ × WorkerState). x.1) (some-injective (rw (found, claim) at c)))
        (take_run-IsSafe now e.0 e.1 s (claimable-IsClaimable s e h found) h)
]

pub Work-IsSafe : (s t : WorkerState) → Work s t → IsSafe s → IsSafe t
unfolding force_fail lose_end finish
Work-IsSafe _ _ (claimed now id s t c) h = claim-IsSafe now id s t c h
Work-IsSafe _ _ (finished auto id task handled s e o) h =
    chain_build-IsSafe auto id task (handled_as task.task_kind handled) _
      (write_status-IsSafe id (handled_as task.task_kind handled) s h)
Work-IsSafe _ _ (forced id task s e o) h =
    IsSafe-end id (record s { runs = modify id fail_row s.runs })
      (IsSafe-modify id fail_row s fail_row-IsCalm h)
Work-IsSafe _ _ (lost id task s e o) h = IsSafe-end id s h
Work-IsSafe _ _ (released id task s e o) h = release-IsSafe id task s e h

Step-IsSafe : (s t : WorkerState) → Step s t → IsSafe s → IsSafe t
unfolding cancel_run beat recover_stale restart
Step-IsSafe _ _ (worked s t w) h = Work-IsSafe s t w h
Step-IsSafe _ _ (enqueued session kind s) h = enqueue-IsSafe session kind none s h
Step-IsSafe _ _ (asked_to_cancel id s) h = IsSafe-modify id cancel_row s cancel_row-IsCalm h
Step-IsSafe _ _ (beaten now id s) h = IsSafe-modify id _ s (λ k r e. e) h
Step-IsSafe _ _ (swept now s) h = IsSafe-map _ s (sweep-IsCalm now s) h
Step-IsSafe _ _ (restarted s) h =
    restarted-IsSafe (record s { runs = map (λ e. (e.0, fail_row e.1)) s.runs })
      (IsSafe-map fail_row s fail_row-IsCalm h)

-- Whatever users, handlers and the database do, and in whatever order the worker's tasks, sweeps
-- and restarts happen: at most one run of a session is marked as running, and the runs that are
-- being executed at once belong to different sessions.
pub IsReachable-IsSafe : (s : WorkerState) → IsReachable s → IsSafe s
IsReachable-IsSafe _ at_first = record {
  ids_differ = tt;
  ids_below = tt;
  one_running = λ k. omega arith;
  busy_tasks = refl;
  sessions_differ = tt;
}
IsReachable-IsSafe _ (after r s reach step) = Step-IsSafe r s step (IsReachable-IsSafe r reach)
