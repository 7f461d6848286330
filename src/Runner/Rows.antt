-- ===== src/Runner/Rows.antt =====
-- runner.py: what is safe, and the changes of rows that keep it so: a new run, an end, a request to
-- cancel.
use yandex_codeforces_analyz.Prelude.{
  ℕ, ◌+◌, ◌≤◌, ◌≡◌, refl, sym, ◌∙◌, subst, Bool, true, false, not, ◌&&◌, Option, some, List, map,
  arith, if◌then◌else◌, modify, keys, keys-modify,
}
use yandex_codeforces_analyz.Runner.{
  Run, RunKind, RunTask, WorkerState, new_run, enqueue, cancel_row, Handled, returned,
  run_cancelled, pipeline_error, llm_error, polygon_error, crashed, status_of, end_row, end_task,
  write_status, chain_build, fail_row, is_done, wants_build, has_queued_build, is_build, build,
}
use yandex_codeforces_analyz.Runner.Table.{
  IsNoDup, IsBelow, IsBelow-le, IsNoDup-append, IsBelow-append, keys-append, count, count-append,
  count-modify-le, count-map-le, keys-map, runs_in, task_sessions, task_sessions-end,
}

-- The ids of the table differ, at most one run of a session is marked as running, and the tasks of
-- the worker execute runs of different sessions, which are its busy ones.
pub record IsSafe (s : WorkerState) : Type 0 where
  pub ids_differ : IsNoDup (keys s.runs)
  pub ids_below : IsBelow s.next_id (keys s.runs)
  pub one_running : (k : ℕ) → count (runs_in k) s.runs ≤ 1
  pub busy_tasks : s.busy_sessions ≡ task_sessions s.tasks
  pub sessions_differ : IsNoDup (task_sessions s.tasks)

-- a change of a row that makes no run of any session running
abbrev pub IsCalm : (Run → Run) → Type 0
IsCalm f = (k : ℕ) (r : Run) → runs_in k (f r) ≡ true → runs_in k r ≡ true

IsSafe-rows :
    (runs : List (ℕ × Run)) (s : WorkerState)
    → keys runs ≡ keys s.runs
    → ((k : ℕ) → count (runs_in k) runs ≤ count (runs_in k) s.runs)
    → IsSafe s
    → IsSafe (record s { runs = runs })
IsSafe-rows runs s same le h = record {
  ids_differ = subst IsNoDup (sym same) h.ids_differ;
  ids_below = subst (IsBelow s.next_id) (sym same) h.ids_below;
  one_running = λ k. omega (arith, le k, h.one_running k);
  busy_tasks = h.busy_tasks;
  sessions_differ = h.sessions_differ;
}

pub IsSafe-modify :
    (id : ℕ) (f : Run → Run) (s : WorkerState)
    → IsCalm f
    → IsSafe s
    → IsSafe (record s { runs = modify id f s.runs })
IsSafe-modify id f s calm =
    IsSafe-rows (modify id f s.runs) s (keys-modify id f s.runs)
      λ k. count-modify-le (runs_in k) id f s.runs (calm k)

pub IsSafe-map :
    (f : Run → Run) (s : WorkerState)
    → IsCalm f
    → IsSafe s
    → IsSafe (record s { runs = map (λ e. (e.0, f e.1)) s.runs })
IsSafe-map f s calm =
    IsSafe-rows (map (λ e. (e.0, f e.1)) s.runs) s (keys-map f s.runs)
      λ k. count-map-le (runs_in k) f s.runs (calm k)

-- the task of a run comes to its end
pub IsSafe-end :
    (id : ℕ) (s : WorkerState) → IsSafe s → IsSafe (record s { tasks = modify id end_task s.tasks })
IsSafe-end id s h = record {
  ids_differ = h.ids_differ;
  ids_below = h.ids_below;
  one_running = h.one_running;
  busy_tasks = h.busy_tasks ∙ sym (task_sessions-end id s.tasks);
  sessions_differ = subst IsNoDup (sym (task_sessions-end id s.tasks)) h.sessions_differ;
}

pub enqueue-IsSafe :
    (session : ℕ) (kind : RunKind) (parent : Option ℕ) (s : WorkerState)
    → IsSafe s
    → IsSafe (enqueue session kind parent s)
unfolding enqueue new_run
enqueue-IsSafe session kind parent s h = record {
  ids_differ =
      subst IsNoDup (sym (keys-append s.runs s.next_id _))
        (IsNoDup-append s.next_id (keys s.runs) h.ids_differ h.ids_below);
  ids_below = subst (IsBelow (s.next_id + 1)) (sym (keys-append s.runs s.next_id _)) (
      IsBelow-append (s.next_id + 1) s.next_id (keys s.runs) (omega arith)
        (IsBelow-le s.next_id (s.next_id + 1) (keys s.runs) (omega arith) h.ids_below));
  one_running = λ k. omega (
    arith,
    count-append (runs_in k) s.runs s.next_id (new_run session kind parent) refl,
    h.one_running k,
  );
  busy_tasks = h.busy_tasks;
  sessions_differ = h.sessions_differ;
}

pub cancel_row-IsCalm : IsCalm cancel_row
unfolding cancel_row
cancel_row-IsCalm k r h = ground (arith, h)

pub fail_row-IsCalm : IsCalm fail_row
unfolding fail_row
fail_row-IsCalm k r h = ground (arith, h)

end_row-IsCalm : (h : Handled) → IsCalm (end_row (status_of h))
unfolding end_row status_of
end_row-IsCalm (returned true b f) k r e = absurd cc
end_row-IsCalm (returned false b f) k r e = absurd cc
end_row-IsCalm run_cancelled k r e = absurd cc
end_row-IsCalm pipeline_error k r e = absurd cc
end_row-IsCalm llm_error k r e = absurd cc
end_row-IsCalm polygon_error k r e = absurd cc
end_row-IsCalm crashed k r e = absurd cc

pub write_status-IsSafe :
    (id : ℕ) (h : Handled) (s : WorkerState) → IsSafe s → IsSafe (write_status id (status_of h) s)
unfolding write_status
write_status-IsSafe id h s safe =
    IsSafe-end id (record s { runs = modify id (end_row (status_of h)) s.runs })
      (IsSafe-modify id (end_row (status_of h)) s (end_row-IsCalm h) safe)

pub chain_build-IsSafe :
    (auto : Bool) (id : ℕ) (t : RunTask) (h : Handled) (s : WorkerState)
    → IsSafe s
    → IsSafe (chain_build auto id t h s)
unfolding chain_build
chain_build-IsSafe auto id t h s safe = go (
    is_done (status_of h)
    && (wants_build auto h
        && (not (is_build t.task_kind) && not (has_queued_build t.session s.runs))))
  where
    go : (b : Bool) → IsSafe (if b then enqueue t.session build (some id) s else s)
    go true = enqueue-IsSafe t.session build (some id) s safe
    go false = safe
