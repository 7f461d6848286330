-- ===== src/Runner/Table.antt =====
-- The table of runs and the worker's tasks: ids that differ, and how many runs pass a test.
use yandex_codeforces_analyz.Prelude.{
  ℕ, ◌+◌, ◌≤◌, ◌<◌, ◌≡◌, refl, sym, ap, subst, inl, inr, Bool, true, false, ◌&&◌, some, List, [],
  ◌∷◌, ◌++◌, map, arith, ◌==◌, Bool-cases, count_of, Every, get_key, modify, keys,
}
use yandex_codeforces_analyz.Runner.{
  Run, RunTask, has_number, discard, drop_key, running_sessions, is_running, end_task,
}

-- no number twice
abbrev pub IsNoDup : List ℕ → Type 0
IsNoDup [] = Unit
IsNoDup (n ∷ ns) = (has_number n ns ≡ false) × IsNoDup ns

abbrev pub IsBelow : ℕ → List ℕ → Type 0
IsBelow b ns = Every (λ n. n < b) ns

pub IsBelow-le : (a b : ℕ) (ns : List ℕ) → a ≤ b → IsBelow a ns → IsBelow b ns
IsBelow-le a b [] le h = tt
IsBelow-le a b (n ∷ ns) le h = (omega (arith, h.0), IsBelow-le a b ns le h.1)

has_number-append :
    (n k : ℕ) (ns : List ℕ)
    → has_number n ns ≡ false
    → (k == n) ≡ false
    → has_number n (ns ++ k ∷ []) ≡ false
has_number-append n k [] h e = ground arith
has_number-append n k (m ∷ ms) h e = ground (arith, has_number-append n k ms)

has_number-discard :
    (n k : ℕ) (ns : List ℕ) → has_number n ns ≡ false → has_number n (discard k ns) ≡ false
has_number-discard n k [] h = refl
has_number-discard n k (m ∷ ms) h = ground (arith, has_number-discard n k ms)

pub IsNoDup-discard : (k : ℕ) (ns : List ℕ) → IsNoDup ns → IsNoDup (discard k ns)
IsNoDup-discard k [] h = tt
IsNoDup-discard k (m ∷ ms) h = elim (Bool-cases (m == k)) [
  | inl t ↦ rw t (IsNoDup-discard k ms h.1)
  | inr f ↦ rw f (has_number-discard m k ms h.0, IsNoDup-discard k ms h.1)
]

pub IsNoDup-append : (n : ℕ) (ns : List ℕ) → IsNoDup ns → IsBelow n ns → IsNoDup (ns ++ n ∷ [])
IsNoDup-append n [] h b = (refl, tt)
IsNoDup-append n (m ∷ ms) h b =
    (has_number-append m n ms h.0 (ground (arith, b.0)), IsNoDup-append n ms h.1 b.1)

pub IsBelow-append : (b n : ℕ) (ns : List ℕ) → n < b → IsBelow b ns → IsBelow b (ns ++ n ∷ [])
IsBelow-append b n [] h all = (h, tt)
IsBelow-append b n (m ∷ ms) h all = (all.0, IsBelow-append b n ms h all.1)

pub keys-append :
    {V : Type 0} (m : List (ℕ × V)) (k : ℕ) (v : V) → keys (m ++ (k, v) ∷ []) ≡ keys m ++ k ∷ []
keys-append [] k v = refl
keys-append ((j, w) ∷ m) k v = ap (◌∷◌ j) (keys-append m k v)

-- a row can be found under its id
abbrev pub IsHeld : {V : Type 0} → List (ℕ × V) → ℕ × V → Type 0
IsHeld m e = get_key e.0 m ≡ some e.1

IsHeld-cons :
    {V : Type 0} (j : ℕ) (v : V) (m l : List (ℕ × V))
    → has_number j (keys l) ≡ false
    → Every (IsHeld m) l
    → Every (IsHeld ((j, v) ∷ m)) l
unfolding get_key
IsHeld-cons j v m [] n h = tt
IsHeld-cons j v m ((i, w) ∷ l) n h =
    (ground (arith, n, h.0), IsHeld-cons j v m l (ground (arith, n)) h.1)

pub Every-IsHeld : {V : Type 0} (m : List (ℕ × V)) → IsNoDup (keys m) → Every (IsHeld m) m
unfolding get_key
Every-IsHeld [] h = tt
Every-IsHeld ((j, v) ∷ m) h = (ground arith, IsHeld-cons j v m m h.0 (Every-IsHeld m h.1))

-- how many values pass a test
abbrev pub count : {V : Type 0} → (V → Bool) → List (ℕ × V) → ℕ
count p m = count_of (λ e. p e.1) m

some-injective : {A : Type 0} {a b : A} → some a ≡ some b → a ≡ b
some-injective e = cc

pub count-append :
    {V : Type 0} (p : V → Bool) (m : List (ℕ × V)) (k : ℕ) (v : V)
    → p v ≡ false
    → count p (m ++ (k, v) ∷ []) ≡ count p m
count-append p [] k v h = ground arith
count-append p ((j, w) ∷ m) k v h = ground (arith, count-append p m k v h)

module _ {V : Type 0} (p : V → Bool) (k : ℕ) (f : V → V) where
  -- a change that makes no value pass
  pub count-modify-le :
      (m : List (ℕ × V))
      → ((v : V) → p (f v) ≡ true → p v ≡ true)
      → count p (modify k f m) ≤ count p m
  unfolding modify
  count-modify-le [] h = omega arith
  count-modify-le ((j, v) ∷ m) h = ground (arith, count-modify-le m h, h v)

  pub count-modify-suc : (m : List (ℕ × V)) → count p (modify k f m) ≤ count p m + 1
  unfolding modify
  count-modify-suc [] = omega arith
  count-modify-suc ((j, v) ∷ m) = ground (arith, count-modify-suc m)

  pub count-modify-other :
      (m : List (ℕ × V)) (v : V)
      → get_key k m ≡ some v
      → p (f v) ≡ false
      → count p (modify k f m) ≤ count p m
  unfolding modify get_key
  count-modify-other [] v e h = omega arith
  count-modify-other ((j, w) ∷ m) v e h = elim (Bool-cases (j == k)) [
    | inl t ↦
        rw t (ground (arith, subst (λ x. p (f x) ≡ false) (sym (some-injective (rw t at e))) h))
    | inr n ↦ rw n (ground (arith, count-modify-other m v (rw n at e) h))
  ]

pub count-map-le :
    {V : Type 0} (p : V → Bool) (f : V → V) (m : List (ℕ × V))
    → ((v : V) → p (f v) ≡ true → p v ≡ true)
    → count p (map (λ e. (e.0, f e.1)) m) ≤ count p m
count-map-le p f [] h = omega arith
count-map-le p f ((j, v) ∷ m) h = ground (arith, count-map-le p f m h, h v)

pub keys-map :
    {V : Type 0} (f : V → V) (m : List (ℕ × V)) → keys (map (λ e. (e.0, f e.1)) m) ≡ keys m
keys-map f [] = refl
keys-map f ((j, v) ∷ m) = ap (◌∷◌ j) (keys-map f m)

-- a run of the session is running
abbrev pub runs_in : ℕ → Run → Bool
runs_in k r = is_running r.status && (r.session_id == k)

pub count-none :
    (k : ℕ) (runs : List (ℕ × Run))
    → has_number k (running_sessions runs) ≡ false
    → count (runs_in k) runs ≡ 0
unfolding running_sessions
count-none k [] h = refl
count-none k ((j, r) ∷ m) h = elim (Bool-cases (is_running r.status)) [
  | inl t ↦ ground (arith, t, h, count-none k m)
  | inr n ↦ ground (arith, n, h, count-none k m)
]

-- the sessions of the tasks
abbrev pub task_sessions : List (ℕ × RunTask) → List ℕ
task_sessions m = map (λ e. e.1.session) m

pub task_sessions-end :
    (k : ℕ) (m : List (ℕ × RunTask)) → task_sessions (modify k end_task m) ≡ task_sessions m
unfolding modify
task_sessions-end k [] = refl
task_sessions-end k ((j, t) ∷ m) = ground (arith, task_sessions-end k m)

pub has_number-task :
    (k : ℕ) (m : List (ℕ × RunTask)) (t : RunTask)
    → get_key k m ≡ some t
    → has_number t.session (task_sessions m) ≡ true
unfolding get_key
has_number-task k [] t h = absurd cc
has_number-task k ((j, u) ∷ m) t h = elim (Bool-cases (j == k)) [
  | inl e ↦ ground (arith, ap (λ (x : RunTask). x.session) (some-injective (rw e at h)))
  | inr n ↦ ground (arith, has_number-task k m t (rw n at h))
]

discard-absent : (n : ℕ) (ns : List ℕ) → has_number n ns ≡ false → discard n ns ≡ ns
discard-absent n [] h = refl
discard-absent n (m ∷ ms) h = ground (arith, h, discard-absent n ms)

absent :
    (a b : ℕ) (ns : List ℕ) → has_number a ns ≡ false → has_number b ns ≡ true → (a == b) ≡ false
absent a b [] f t = absurd cc
absent a b (n ∷ ns) f t = ground (arith, absent a b ns)

pub discard-task :
    (k : ℕ) (m : List (ℕ × RunTask)) (t : RunTask)
    → IsNoDup (task_sessions m)
    → get_key k m ≡ some t
    → discard t.session (task_sessions m) ≡ task_sessions (drop_key k m)
unfolding get_key
discard-task k [] t d h = absurd cc
discard-task k ((j, u) ∷ m) t d h = elim (Bool-cases (j == k)) [
  | inl e ↦ rw e (
      subst (λ x. discard x.session (task_sessions ((j, u) ∷ m)) ≡ task_sessions m)
        (some-injective (rw e at h))
        (ground (arith, discard-absent u.session (task_sessions m) d.0)))
  | inr n ↦ rw n (
      ground (
        arith,
        discard-task k m t d.1 (rw n at h),
        has_number-task k m t (rw n at h),
        d.0,
        absent u.session t.session (task_sessions m) d.0 (has_number-task k m t (rw n at h)),
      ))
]
