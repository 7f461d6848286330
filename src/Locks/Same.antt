-- ===== src/Locks/Same.antt =====
-- lock.py: both locks keep the promise of `BuildLock`, as long as no time runs out. The promise is a
-- table of the problems in work, with the token of the build that holds each.
use yandex_codeforces_analyz.Prelude.{
  str_eq_apart, str_eq-append, str_eq_refl, get_str-nil, ℕ, ◌<◌, String, ◌≡◌, refl, sym, ap, ◌∙◌,
  inl, inr, Bool, true, false, not, ◌&&◌, Option, none, some, List, [], ◌∷◌, arith, if◌then◌else◌,
  Bool-cases, Option-cases, is_some, select, str_eq, str_eq_iff, get_str, str_eq_refl, get_str-nil,
  str_eq-append,
}
use yandex_codeforces_analyz.Locks.{
  has_text, local_enter, local_leave, Redis, IsRedis, lock_name, redis_enter, redis_leave,
}

-- BuildLock: to enter `hold`, and to leave it
pub record BuildLock : Type 1 where
  pub State : Type 0
  -- problem, token; `none` is `LockBusy`
  pub enter : String → String → State → Option State
  pub leave : String → String → State → State

abbrev pub local_lock : BuildLock
local_lock = record {
  State = List String;
  enter = λ key token held. local_enter key held;
  leave = λ key token held. local_leave key held;
}

abbrev pub redis_lock : Redis → ℕ → ℕ → BuildLock
redis_lock redis now ttl = record {
  State = redis.Store;
  enter = λ key token st. redis_enter redis now key token ttl st;
  leave = λ key token st. redis_leave redis now key token st;
}

-- what a build asks for: to enter with a new token, or to leave
pub data Request : Type 0 where
  comes goes : (key token : String) → Request

abbrev pub drop_str : String → List (String × String) → List (String × String)
drop_str k m = select (λ e. not (str_eq e.0 k)) m

abbrev pub is_held_by : String → Option String → Bool
is_held_by token none = false
is_held_by token (some other) = str_eq other token

-- The promise: who comes to a free problem gets it. Only the build that holds it leaves it.
unfoldable pub promised : List Request → List (String × String) → List Bool
promised [] m = []
promised (comes key token ∷ rest) m =
    let granted = promised rest ((key, token) ∷ m) in
    let refused = promised rest m in
    elim (get_str key m) [ none ↦ true ∷ granted | some other ↦ false ∷ refused ]
promised (goes key token ∷ rest) m =
    let freed = promised rest (drop_str key m) in
    let unmoved = promised rest m in if is_held_by token (get_str key m) then freed else unmoved

-- the answers of a lock, to builds that leave only what they hold
unfoldable pub answers :
    (lock : BuildLock) → List Request → lock.State → List (String × String) → List Bool
answers lock [] s m = []
answers lock (comes key token ∷ rest) s m =
    let refused = answers lock rest s m in
    elim (lock.enter key token s) [
      | none ↦ false ∷ refused
      | some t ↦ true ∷ answers lock rest t ((key, token) ∷ m)
    ]
answers lock (goes key token ∷ rest) s m =
    let freed = answers lock rest (lock.leave key token s) (drop_str key m) in
    let unmoved = answers lock rest s m in
    if is_held_by token (get_str key m) then freed else unmoved

-- a relation of a lock's states with the table that every request keeps
record IsFaithful (lock : BuildLock) (R : lock.State → List (String × String) → Type 0)
    : Type 0 where
  grants :
      (key token : String) (s : lock.State) (m : List (String × String))
      → R s m
      → get_str key m ≡ none
      → (t : lock.State) × (lock.enter key token s ≡ some t) × R t ((key, token) ∷ m)
  refuses :
      (key token other : String) (s : lock.State) (m : List (String × String))
      → R s m
      → get_str key m ≡ some other
      → lock.enter key token s ≡ none
  frees :
      (key token : String) (s : lock.State) (m : List (String × String))
      → R s m
      → get_str key m ≡ some token
      → R (lock.leave key token s) (drop_str key m)

held_by : (token : String) (o : Option String) → is_held_by token o ≡ true → o ≡ some token
held_by token none h = absurd cc
held_by token (some other) h = ap some ((str_eq_iff other token).0 h)

answers-promised :
    (lock : BuildLock) (R : lock.State → List (String × String) → Type 0)
    → IsFaithful lock R
    → (requests : List Request) (s : lock.State) (m : List (String × String)) → R s m
    → answers lock requests s m ≡ promised requests m
unfolding answers promised
answers-promised lock R f [] s m r = refl
answers-promised lock R f (comes key token ∷ rest) s m r = elim (Option-cases (get_str key m)) [
  | inl free ↦
      rw (free, (f.grants key token s m r free).1, answers, promised)
        (ap (◌∷◌ true) (
          answers-promised lock R f rest (f.grants key token s m r free).0 ((key, token) ∷ m)
            (f.grants key token s m r free).2))
  | inr (other, held) ↦
      rw (held, f.refuses key token other s m r held, answers, promised)
        (ap (◌∷◌ false) (answers-promised lock R f rest s m r))
]
answers-promised lock R f (goes key token ∷ rest) s m r =
    elim (Bool-cases (is_held_by token (get_str key m))) [
      | inl t ↦ rw t (
          answers-promised lock R f rest (lock.leave key token s) (drop_str key m)
            (f.frees key token s m r (held_by token (get_str key m) t)))
      | inr n ↦ rw n (answers-promised lock R f rest s m r)
    ]

get_str-drop_str :
    (j k : String) (m : List (String × String))
    → get_str j (drop_str k m) ≡ (if str_eq k j then none else get_str j m)
unfolding get_str
get_str-drop_str j k [] = ground arith
get_str-drop_str j k ((i, v) ∷ m) = elim (Bool-cases (str_eq i k)) [
  | inl t ↦ ground (arith, t, get_str-drop_str j k m, ap (λ x. str_eq x j) ((str_eq_iff i k).0 t))
  | inr f ↦ ground (arith, f, get_str-drop_str j k m, str_eq_apart i j k f)
]

has_text-leave :
    (j k : String) (held : List String)
    → has_text j (local_leave k held) ≡ not (str_eq k j) && has_text j held
unfolding local_leave
has_text-leave j k [] = ground arith
has_text-leave j k (i ∷ held) = elim (Bool-cases (str_eq i k)) [
  | inl t ↦ ground (arith, t, has_text-leave j k held, ap (λ x. str_eq x j) ((str_eq_iff i k).0 t))
  | inr f ↦ ground (arith, f, has_text-leave j k held, str_eq_apart i j k f)
]

abbrev IsLocal : List String → List (String × String) → Type 0
IsLocal held m = (key : String) → has_text key held ≡ is_some (get_str key m)

IsLocal-IsFaithful : IsFaithful local_lock IsLocal
unfolding local_enter get_str
IsLocal-IsFaithful = record {
  grants = λ key token held m r free.
      (key ∷ held, rw (r key, free, local_enter) refl, λ j. ground (arith, r j));
  refuses = λ key token other held m r e. rw (r key, e, local_enter) refl;
  frees = λ key token held m r e j.
      rw (has_text-leave j key held, get_str-drop_str j key m) (ground (arith, r j));
}

-- The lock of one process keeps the promise: it gives the promised answers to every sequence of
-- requests.
pub local_lock-promised :
    (requests : List Request) → answers local_lock requests [] [] ≡ promised requests []
local_lock-promised requests =
    answers-promised local_lock IsLocal IsLocal-IsFaithful requests [] [] nobody
  where
    nobody : IsLocal [] []
    nobody key = rw (get_str-nil {V = String} key) refl

module _ (redis : Redis) (law : IsRedis redis) (now ttl : ℕ) (lasts : 0 < ttl) where
  abbrev IsStored : redis.Store → List (String × String) → Type 0
  IsStored st m = (key : String) → redis.get now (lock_name key) st ≡ get_str key m

  put-IsStored :
      (key token : String) (st : redis.Store) (m : List (String × String))
      → IsStored st m
      → IsStored (redis.put now (lock_name key) token ttl st) ((key, token) ∷ m)
  unfolding get_str
  put-IsStored key token st m r j = elim (Bool-cases (str_eq key j)) [
    | inl t ↦ rw t (
        ap (λ k. redis.get now (lock_name k) (redis.put now (lock_name key) token ttl st))
          (sym ((str_eq_iff key j).0 t))
        ∙ law.get-put now now (lock_name key) token ttl st (omega arith)
        ∙ ground (arith, lasts))
    | inr f ↦ rw f (
        law.get-put_other now now (lock_name key) (lock_name j) token ttl st
          (str_eq-append "judge:build:" key j ∙ f)
        ∙ r j)
  ]

  del-IsStored :
      (key j : String) (st : redis.Store) (m : List (String × String))
      → IsStored st m
      → redis.get now (lock_name j) (redis.del (lock_name key) st)
        ≡ (if str_eq key j then none else get_str j m)
  del-IsStored key j st m r = elim (Bool-cases (str_eq key j)) [
    | inl t ↦ rw t (
        ap (λ k. redis.get now (lock_name k) (redis.del (lock_name key) st))
          (sym ((str_eq_iff key j).0 t))
        ∙ law.get-del now (lock_name key) st)
    | inr f ↦ rw f (
        law.get-del_other now (lock_name key) (lock_name j) st
          (str_eq-append "judge:build:" key j ∙ f)
        ∙ r j)
  ]

  IsStored-IsFaithful : IsFaithful (redis_lock redis now ttl) IsStored
  unfolding redis_enter redis_leave
  IsStored-IsFaithful = record {
    grants = λ key token st m r free. (
      redis.put now (lock_name key) token ttl st,
      rw (r key, free, redis_enter) refl,
      put-IsStored key token st m r,
    );
    refuses = λ key token other st m r e. rw (r key, e, redis_enter) refl;
    frees = λ key token st m r e j.
        rw (r key ∙ e, str_eq_refl token, get_str-drop_str j key m, redis_leave)
          (del-IsStored key j st m r);
  }

  -- The lock of Redis keeps the promise: from a store in which no problem is locked, and as long as
  -- no time runs out, it gives the promised answers to every sequence of requests. The conditions:
  -- Redis behaves as documented, and the time to live is not zero.
  pub redis_lock-promised :
      (requests : List Request) (st : redis.Store)
      → ((key : String) → redis.get now (lock_name key) st ≡ none)
      → answers (redis_lock redis now ttl) requests st [] ≡ promised requests []
  redis_lock-promised requests st free =
      answers-promised (redis_lock redis now ttl) IsStored IsStored-IsFaithful requests st []
        λ key. free key ∙ sym (get_str-nil key)
