-- ===== src/Runner/Rest.antt =====
-- runner.py: where the worker rests, what waits is held back by a run that was left behind.
use yandex_codeforces_analyz.Prelude.{
  ℕ, suc, ◌≡◌, refl, ap, ◌∙◌, ◌≢◌, ◌⊎◌, inl, inr, Bool, true, false, not, none, some, List, [], ◌∷◌,
  map, arith, Bool-cases, Option-cases, take, select, first_where, Every, get_key,
}
use yandex_codeforces_analyz.Runner.{
  Run, is_queued, RunTask, WorkerState, has_number, running_sessions, is_candidate, candidates,
  claimable, claim, returned, finish, release, Work, claimed, finished, released, IsReachable,
  restart, fail_row,
}
use yandex_codeforces_analyz.Runner.Table.{task_sessions}
use yandex_codeforces_analyz.Runner.Rows.{IsSafe}
use yandex_codeforces_analyz.Runner.Safe.{IsReachable-IsSafe}

module _ {A : Type 0} where
  first_where-none :
      (p : A → Bool) (xs : List A) → ((x : A) → p x ≡ true) → first_where p xs ≡ none → xs ≡ []
  first_where-none p [] all e = refl
  first_where-none p (x ∷ xs) all e = absurd (clash (rw (all x) at e))
    where
      clash : some x ≢ none
      clash c = absurd cc

  take-nil : (n : ℕ) (xs : List A) → take (suc n) xs ≡ [] → xs ≡ []
  take-nil n [] e = refl
  take-nil n (x ∷ xs) e = absurd cc

  select-nil : (p : A → Bool) (xs : List A) → select p xs ≡ [] → Every (λ x. p x ≡ false) xs
  select-nil p [] e = tt
  select-nil p (x ∷ xs) e = elim (Bool-cases (p x)) [
    | inl t ↦ absurd (clash (select p xs) (rw t at e))
    | inr f ↦ (f, select-nil p xs (rw f at e))
  ]
    where
      clash : (ys : List A) → ◌≢◌ {A = List A} (x ∷ ys) []
      clash ys c = absurd cc

-- a run that waits belongs to a session that has a run marked as running
abbrev pub IsBlocked : List (ℕ × Run) → ℕ × Run → Type 0
IsBlocked runs e =
    is_queued e.1.status ≡ true → has_number e.1.session_id (running_sessions runs) ≡ true

blocked :
    (runs l : List (ℕ × Run))
    → Every (λ e. is_candidate runs e ≡ false) l
    → Every (IsBlocked runs) l
unfolding is_candidate
blocked runs [] h = tt
blocked runs (e ∷ l) h = (λ q. ground (arith, h.0, q), blocked runs l h.1)

claim-none : (now : ℕ) (s : WorkerState) → claim now s ≡ none → claimable s ≡ none
unfolding claim
claim-none now s h = elim (Option-cases (claimable s)) [
  | inl e ↦ e
  | inr (e, found) ↦ absurd (clash _ (rw (found, claim) at h))
]
  where
    clash : (x : ℕ × WorkerState) → some x ≢ none
    clash x c = absurd cc

idle-IsBlocked :
    (now : ℕ) (s : WorkerState)
    → s.busy_sessions ≡ []
    → claim now s ≡ none
    → Every (IsBlocked s.runs) s.runs
unfolding claimable candidates
idle-IsBlocked now s idle h = blocked s.runs s.runs (
    select-nil (is_candidate s.runs) s.runs (
      take-nil 9 _ (
        first_where-none (λ e. not (has_number e.1.session_id s.busy_sessions)) _
          (λ e. rw idle refl) (claim-none now s h))))

get_key-head : {V : Type 0} (k : ℕ) (v : V) (m : List (ℕ × V)) → get_key k ((k, v) ∷ m) ≡ some v
unfolding get_key
get_key-head k v m = ground arith

-- The worker never stands still while there is something to do: in every state that the service can
-- come to, a step of work is possible, or nothing is being executed and each run that waits is of a
-- session of which some run is marked as running.
pub Work-or_rest :
    (now : ℕ) (s : WorkerState)
    → IsReachable s
    → ((t : WorkerState) × Work s t) ⊎ ((s.tasks ≡ []) × Every (IsBlocked s.runs) s.runs)
Work-or_rest now s reach = go s.tasks refl
  where
    safe : IsSafe s
    safe = IsReachable-IsSafe s reach

    at_head :
        (id : ℕ) (t : RunTask) (m : List (ℕ × RunTask))
        → s.tasks ≡ (id, t) ∷ m
        → get_key id s.tasks ≡ some t
    at_head id t m e = rw e (get_key-head id t m)

    go :
        (m : List (ℕ × RunTask))
        → s.tasks ≡ m
        → ((t : WorkerState) × Work s t) ⊎ ((s.tasks ≡ []) × Every (IsBlocked s.runs) s.runs)
    go [] e = elim (Option-cases (claim now s)) [
      | inl c ↦ inr (e, idle-IsBlocked now s (safe.busy_tasks ∙ ap task_sessions e) c)
      | inr ((id, t), c) ↦ inl (t, claimed now id s t c)
    ]
    go ((id, t) ∷ m) e = elim (Bool-cases t.ended) [
      | inl h ↦ inl (release id t s, released id t s (at_head id t m e) h)
      | inr h ↦ inl (
        finish true id t (returned false false false) s,
        finished true id t (returned false false false) s (at_head id t m e) h,
      )
    ]

no_running : (m : List (ℕ × Run)) → running_sessions (map (λ e. (e.0, fail_row e.1)) m) ≡ []
unfolding running_sessions fail_row
no_running [] = refl
no_running ((j, r) ∷ m) = ground (arith, no_running m)

unblocked :
    (runs l : List (ℕ × Run))
    → running_sessions runs ≡ []
    → Every (IsBlocked runs) l
    → Every (λ e. is_queued e.1.status ≡ false) l
unblocked runs [] none_running h = tt
unblocked runs (e ∷ l) none_running h =
    (waits_not (is_queued e.1.status) h.0, unblocked runs l none_running h.1)
  where
    waits_not :
        (q : Bool)
        → (q ≡ true → has_number e.1.session_id (running_sessions runs) ≡ true)
        → q ≡ false
    waits_not false b = refl
    waits_not true b = absurd (ground (arith, rw none_running at (b refl)))

-- A restart unblocks what waits: when the worker that has just started finds nothing to take, no
-- run waits.
pub restart-claim :
    (now : ℕ) (s : WorkerState)
    → claim now (restart s) ≡ none
    → Every (λ e. is_queued e.1.status ≡ false) (restart s).runs
unfolding restart
restart-claim now s h =
    unblocked (restart s).runs (restart s).runs (no_running s.runs)
      (idle-IsBlocked now (restart s) refl h)
