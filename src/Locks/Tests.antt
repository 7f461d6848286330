-- ===== src/Locks/Tests.antt =====
-- A small Redis, and builds of two problems.
use yandex_codeforces_analyz.Prelude.{
  ℕ, ◌+◌, ◌≤◌, String, ◌≡◌, refl, true, false, Option, none, some, List, [], ◌∷◌, arith, ltb,
  if◌then◌else◌, count_of, get_str, put_str, str_eq_refl, get_str-nil, get_str-put_str,
}
use yandex_codeforces_analyz.Locks.{
  Redis, IsRedis, lock_name, redis_enter, Builds, entered, enters, IsReached, at_start, then_step,
}
use yandex_codeforces_analyz.Locks.Exclusive.{holds_now, reached-exclusive}
use yandex_codeforces_analyz.Locks.Same.{
  comes, goes, Request, answers, promised, local_lock, redis_lock, local_lock-promised,
  redis_lock-promised,
}

-- name, token and the time at which the key runs out
abbrev Cells : Type 0
Cells = List (String × (String × ℕ))

abbrev alive : ℕ → Option (String × ℕ) → Option String
alive now none = none
alive now (some (token, runs_out)) = if ltb now runs_out then some token else none

abbrev small_redis : Redis
small_redis = record {
  Store = Cells;
  get = λ now name st. alive now (get_str name st);
  del = λ name st. put_str name ("", 0) st;
  put = λ now name token ttl st. put_str name (token, now + ttl) st;
}

small_redis-IsRedis : IsRedis small_redis
small_redis-IsRedis = record {
  get-put = λ now later name token ttl st le.
      rw (get_str-put_str name name (token, now + ttl) st, str_eq_refl name) refl;
  get-put_other = λ now later name other token ttl st f.
      rw (get_str-put_str other name (token, now + ttl) st, f) refl;
  get-del =
      λ now name st. rw (get_str-put_str name name ("", 0) st, str_eq_refl name) (ground arith);
  get-del_other = λ now name other st f. rw (get_str-put_str other name ("", 0) st, f) refl;
}

abbrev no_builds : Builds small_redis
no_builds = record { now = 0; store = []; holders = [] }

abbrev one_build : Builds small_redis
one_build =
    entered small_redis "aplusb" "t1" 600000 (("judge:build:aplusb", ("t1", 600000)) ∷ []) no_builds

first_enters :
    redis_enter small_redis 0 "aplusb" "t1" 600000 []
    ≡ some (("judge:build:aplusb", ("t1", 600000)) ∷ [])
unfolding redis_enter get_str put_str
first_enters = refl

one_build-IsReached : IsReached small_redis one_build
one_build-IsReached =
    then_step no_builds one_build (at_start [])
      (enters "aplusb" "t1" 600000 _ no_builds refl first_enters)

reached-exclusive_example :
    count_of (holds_now small_redis small_redis-IsRedis one_build.now "aplusb") one_build.holders
    ≤ 1
reached-exclusive_example =
    reached-exclusive small_redis small_redis-IsRedis one_build "aplusb" one_build-IsReached

-- the second build is refused while the first holds the lock
abbrev requests : List Request
requests =
    comes "aplusb" "t1"
    ∷ (comes "aplusb" "t2" ∷ (comes "sum" "t3" ∷ (goes "aplusb" "t1" ∷ (comes "aplusb" "t4" ∷ []))))

answers_are : promised requests [] ≡ true ∷ (false ∷ (true ∷ (true ∷ [])))
unfolding promised get_str
answers_are = refl

local_lock-promised_example : answers local_lock requests [] [] ≡ promised requests []
local_lock-promised_example = local_lock-promised requests

redis_lock-promised_example :
    answers (redis_lock small_redis 5 600000) requests [] [] ≡ promised requests []
redis_lock-promised_example =
    redis_lock-promised small_redis small_redis-IsRedis 5 600000 (omega arith) requests []
      λ key. rw (get_str-nil {V = String × ℕ} (lock_name key)) refl
