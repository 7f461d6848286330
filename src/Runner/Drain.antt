-- ===== src/Runner/Drain.antt =====
-- runner.py: without new requests the worker comes to rest, and it rests only when nothing can be
-- taken.
use yandex_codeforces_analyz.Prelude.{
  ℕ, suc, ◌+◌, ◌≤◌, ◌<◌, ◌≡◌, ap, subst, inl, inr, Bool, true, false, not, ◌&&◌, Option, some, List,
  [], ◌∷◌, ◌++◌, arith, ◌==◌, if◌then◌else◌, Bool-cases, Option-cases, sum_by, get_key, modify,
}
use yandex_codeforces_analyz.Runner.{
  Run, is_queued, is_build, RunTask, WorkerState, drop_key, new_run, enqueue, is_candidate,
  claimable, start_row, take_run, claim, Handled, returned, run_cancelled, pipeline_error,
  llm_error, polygon_error, crashed, status_of, handled_as, end_row, end_task, write_status,
  chain_build, finish, fail_row, force_fail, lose_end, release, Work, claimed, finished, forced,
  lost, released, IsReachable, is_done, wants_build, has_queued_build, build,
}
use yandex_codeforces_analyz.Runner.Rows.{IsSafe}
use yandex_codeforces_analyz.Runner.Safe.{
  IsReachable-IsSafe, IsClaimable, claimable-IsClaimable, Work-IsSafe, some-injective, none-some,
}

-- The work that a run and a task may still cause: a build run that waits is taken, ended and
-- released; any other run may in addition be followed by a build run.
unfoldable pub run_work : Run → ℕ
run_work r = if is_queued r.status then if is_build r.kind then 3 else 6 else 0

unfoldable pub task_work : RunTask → ℕ
task_work t = if t.ended then 1 else if is_build t.task_kind then 2 else 5

abbrev pub work_of : {V : Type 0} → (V → ℕ) → List (ℕ × V) → ℕ
work_of w m = sum_by (λ e. w e.1) m

unfoldable pub work_left : WorkerState → ℕ
work_left s = work_of run_work s.runs + work_of task_work s.tasks

module _ {V : Type 0} (w : V → ℕ) where
  work_of-modify :
      (k : ℕ) (f : V → V) (m : List (ℕ × V)) (v : V)
      → get_key k m ≡ some v
      → work_of w (modify k f m) + w v ≡ work_of w m + w (f v)
  unfolding modify get_key
  work_of-modify k f [] v e = absurd cc
  work_of-modify k f ((j, u) ∷ m) v e = elim (Bool-cases (j == k)) [
    | inl t ↦ rw t (
        subst (λ x. w (f u) + work_of w m + w x ≡ w u + work_of w m + w (f x))
          (some-injective (rw t at e)) (omega arith))
    | inr n ↦ rw n (omega (arith, work_of-modify k f m v (rw n at e)))
  ]

  work_of-modify_le :
      (k : ℕ) (f : V → V) (m : List (ℕ × V))
      → ((v : V) → w (f v) ≤ w v)
      → work_of w (modify k f m) ≤ work_of w m
  unfolding modify
  work_of-modify_le k f [] h = omega arith
  work_of-modify_le k f ((j, u) ∷ m) h = ground (arith, work_of-modify_le k f m h, h u)

  work_of-drop_key :
      (k : ℕ) (m : List (ℕ × V)) (v : V)
      → get_key k m ≡ some v
      → work_of w (drop_key k m) + w v ≡ work_of w m
  unfolding get_key
  work_of-drop_key k [] v e = absurd cc
  work_of-drop_key k ((j, u) ∷ m) v e = elim (Bool-cases (j == k)) [
    | inl t ↦ rw t (
        subst (λ x. work_of w m + w x ≡ w u + work_of w m) (some-injective (rw t at e))
          (omega arith))
    | inr n ↦ rw n (omega (arith, work_of-drop_key k m v (rw n at e)))
  ]

  work_of-append :
      (m : List (ℕ × V)) (k : ℕ) (v : V) → work_of w (m ++ (k, v) ∷ []) ≡ work_of w m + w v
  work_of-append [] k v = omega arith
  work_of-append ((j, u) ∷ m) k v = omega (arith, work_of-append m k v)

end_row-work : (h : Handled) (r : Run) → run_work (end_row (status_of h) r) ≤ run_work r
unfolding run_work end_row status_of
end_row-work (returned true b f) r = omega arith
end_row-work (returned false b f) r = omega arith
end_row-work run_cancelled r = omega arith
end_row-work pipeline_error r = omega arith
end_row-work llm_error r = omega arith
end_row-work polygon_error r = omega arith
end_row-work crashed r = omega arith

fail_row-work : (r : Run) → run_work (fail_row r) ≤ run_work r
unfolding run_work fail_row
fail_row-work r = ground arith

-- the end of a task is written
task_ends :
    (id : ℕ) (t : RunTask) (m : List (ℕ × RunTask))
    → get_key id m ≡ some t
    → t.ended ≡ false
    → work_of task_work (modify id end_task m) + (if is_build t.task_kind then 1 else 4)
      ≡ work_of task_work m
unfolding task_work
task_ends id t m e o = ground (arith, work_of-modify task_work id end_task m t e)

take_run-work :
    (now id : ℕ) (r : Run) (s : WorkerState)
    → IsClaimable s (id, r)
    → work_left (take_run now id r s) < work_left s
unfolding take_run work_left task_work run_work start_row is_candidate
take_run-work now id r s c =
    ground (arith, work_of-modify run_work id (start_row now) s.runs r c.in_table, c.waits)

enqueue-work :
    (session : ℕ) (parent : Option ℕ) (s : WorkerState)
    → work_left (enqueue session build parent s) ≡ work_left s + 3
unfolding work_left enqueue new_run run_work
enqueue-work session parent s =
    omega (arith, work_of-append run_work s.runs s.next_id (new_run session build parent))

chain_build-work :
    (auto : Bool) (id : ℕ) (t : RunTask) (h : Handled) (s : WorkerState)
    → work_left (chain_build auto id t h s) ≤ work_left s + (if is_build t.task_kind then 0 else 3)
unfolding chain_build
chain_build-work auto id t h s =
    go (is_done (status_of h)) (wants_build auto h) (is_build t.task_kind)
      (has_queued_build t.session s.runs)
  where
    go :
        (d w k q : Bool)
        → work_left
            (if d && (w && (not k && not q)) then enqueue t.session build (some id) s else s)
          ≤ work_left s + (if k then 0 else 3)
    go d w k q = ground (arith, enqueue-work t.session (some id) s)

write_status-work :
    (id : ℕ) (t : RunTask) (h : Handled) (s : WorkerState)
    → get_key id s.tasks ≡ some t
    → t.ended ≡ false
    → work_left (write_status id (status_of h) s) + (if is_build t.task_kind then 1 else 4)
      ≤ work_left s
unfolding work_left write_status
write_status-work id t h s e o = omega (
  arith,
  task_ends id t s.tasks e o,
  work_of-modify_le run_work id (end_row (status_of h)) s.runs (end_row-work h),
)

finish-work :
    (auto : Bool) (id : ℕ) (t : RunTask) (h : Handled) (s : WorkerState)
    → get_key id s.tasks ≡ some t
    → t.ended ≡ false
    → work_left (finish auto id t h s) < work_left s
unfolding finish
finish-work auto id t h s e o = ground (
  arith,
  chain_build-work auto id t (handled_as t.task_kind h)
      (write_status id (status_of (handled_as t.task_kind h)) s),
  write_status-work id t (handled_as t.task_kind h) s e o,
)

end_less :
    (id : ℕ) (f : Run → Run) (t : RunTask) (s : WorkerState)
    → ((r : Run) → run_work (f r) ≤ run_work r)
    → get_key id s.tasks ≡ some t
    → t.ended ≡ false
    → work_of run_work (modify id f s.runs) + work_of task_work (modify id end_task s.tasks)
      < work_of run_work s.runs + work_of task_work s.tasks
end_less id f t s calm e o =
    ground (arith, task_ends id t s.tasks e o, work_of-modify_le run_work id f s.runs calm)

release-work :
    (id : ℕ) (t : RunTask) (s : WorkerState)
    → get_key id s.tasks ≡ some t
    → t.ended ≡ true
    → work_left (release id t s) < work_left s
unfolding release work_left task_work
release-work id t s e o = ground (arith, work_of-drop_key task_work id s.tasks t e)

claim-work :
    (now id : ℕ) (s t : WorkerState)
    → IsSafe s
    → claim now s ≡ some (id, t)
    → work_left t < work_left s
unfolding claim
claim-work now id s t h c = elim (Option-cases (claimable s)) [
  | inl e ↦ absurd (none-some (rw (e, claim) at c))
  | inr (e, found) ↦
      subst (λ x. work_left x < work_left s)
        (ap (λ (x : ℕ × WorkerState). x.1) (some-injective (rw (found, claim) at c)))
        (take_run-work now e.0 e.1 s (claimable-IsClaimable s e h found))
]

Work-lowers : (s t : WorkerState) → IsSafe s → Work s t → work_left t < work_left s
unfolding force_fail lose_end work_left
Work-lowers _ _ h (claimed now id s t c) = claim-work now id s t h c
Work-lowers _ _ h (finished auto id task handled s e o) = finish-work auto id task handled s e o
Work-lowers _ _ h (forced id task s e o) = end_less id fail_row task s fail_row-work e o
Work-lowers _ _ h (lost id task s e o) = ground (arith, task_ends id task s.tasks e o)
Work-lowers _ _ h (released id task s e o) = release-work id task s e o

-- so many steps of work on end
pub data Works : ℕ → WorkerState → WorkerState → Type 0 where
  no_work : (s : WorkerState) → Works 0 s s
  more_work : (n : ℕ) (s t u : WorkerState) → Work s t → Works n t u → Works (suc n) s u

Works-lower : (n : ℕ) (s t : WorkerState) → IsSafe s → Works n s t → n + work_left t ≤ work_left s
Works-lower _ _ _ h (no_work s) = omega arith
Works-lower _ _ _ h (more_work n s t u w ws) =
    omega (arith, Work-lowers s t h w, Works-lower n t u (Work-IsSafe s t w h) ws)

-- Without new requests the worker comes to rest: from a state that the service can come to, it can
-- do at most as many steps as `work_left` counts, that is at most six for each run that waits, five
-- for each run in execution and one for each task that is only to be released, whatever the
-- handlers end with.
pub Works-end : (n : ℕ) (s t : WorkerState) → IsReachable s → Works n s t → n ≤ work_left s
Works-end n s t reach ws = omega (arith, Works-lower n s t (IsReachable-IsSafe s reach) ws)
