-- ===== src/Locks.antt =====
-- backend/judge/app/authoring/lock.py: the locks that keep two workers from building one problem at
-- once. Redis is a service outside this repository: `Redis` is what the lock uses of it, at a time,
-- and `IsRedis` its documented behaviour. A build holds a lock from the entry of `hold` to its
-- `finally`; the entry and the release are atomic, and the steps of several builds mix freely.
mod Covered
pub mod Exclusive
pub mod Same
mod Tests
use yandex_codeforces_analyz.Prelude.{
  ℕ, zero, suc, ◌+◌, ◌-◌, ◌*◌, ◌/◌, ◌%◌, ◌≤◌, ◌<◌, min, max, String, ◌≡◌, refl, sym, ap, ap₂, ◌∙◌,
  subst, fun_ext, ◌≢◌, ◌↔◌, ◌⊎◌, inl, inr, Bool, true, false, not, ◌&&◌, ◌||◌, Option, none, some,
  List, [], ◌∷◌, ◌++◌, map, foldl, append-nil, append_assoc, arith, ltb, leb, ◌==◌, if◌then◌else◌,
  ltb→lt, leb→le, ==_iff, Bool-cases, Option-cases, or_else, is_some, length, get_elem?, take, drop,
  all_of, any_of, select, count_of, first_where, Every, length-append, take-append-drop,
  count_of-le, sum_by, str_eq, str_eq_iff, str_append, str_take, str_is_empty, str_or, show, join,
  Floats, IsLawful, get_key, put_key, modify, set_default, has_key, keys, values, get_key-put_key,
  get_key-modify, get_key-set_default, keys-modify, get_key_missing, dict_laws, insert_by, sort_by,
  sort_by-perm, IsSorted, IsWeakOrder, sort_by-IsSorted, ℤ, pos, negsuc, leb_ℤ, eq_ℤ, max_ℤ, or_ℤ,
  lstrip, rstrip, strip, strip_edges, split, first_word, after_prefix, after_marker, splitlines,
  split_once, parse_int, get_str, put_str, no_float, nan, number, Reading, read_digits-two_digits,
  after_prefix-append, after_prefix-differs, two_digits, read_digits, heads_differ, modified,
  append_named, after_prefix_complete, str_eq_refl, str_eq_comm, get_str-nil, get_str-put_str,
  Every-select, Every-selected, Every-take, Every-both, first_where-holds,
}

-- LocalBuildLock: `none` is `LockBusy`
abbrev pub has_text : String → List String → Bool
has_text k [] = false
has_text k (n ∷ ns) = str_eq n k || has_text k ns

unfoldable pub local_enter : String → List String → Option (List String)
local_enter key held = if has_text key held then none else some (key ∷ held)

-- `discard`
unfoldable pub local_leave : String → List String → List String
local_leave key held = select (λ k. not (str_eq k key)) held

pub record Redis : Type 1 where
  pub Store : Type 0
  -- GET and DEL at a time
  pub get : ℕ → String → Store → Option String
  pub del : String → Store → Store
  -- SET name token NX PX ttl at a time, where the name is free
  pub put : ℕ → String → String → ℕ → Store → Store

-- A key that is set can be read until its time is over and then no more, a deleted key cannot be
-- read, and SET and DEL leave the other keys alone.
pub record IsRedis (redis : Redis) : Type 0 where
  pub get-put :
      (now later : ℕ) (name token : String) (ttl : ℕ) (st : redis.Store)
      → now ≤ later
      → redis.get later name (redis.put now name token ttl st)
        ≡ (if ltb later (now + ttl) then some token else none)
  pub get-put_other :
      (now later : ℕ) (name other token : String) (ttl : ℕ) (st : redis.Store)
      → str_eq name other ≡ false
      → redis.get later other (redis.put now name token ttl st) ≡ redis.get later other st
  pub get-del :
      (now : ℕ) (name : String) (st : redis.Store) → redis.get now name (redis.del name st) ≡ none
  pub get-del_other :
      (now : ℕ) (name other : String) (st : redis.Store)
      → str_eq name other ≡ false
      → redis.get now other (redis.del name st) ≡ redis.get now other st

-- `f"judge:build:{key}"`
abbrev pub lock_name : String → String
lock_name key = str_append "judge:build:" key

-- a build that is inside `hold`, with the time at which its key runs out
pub record Holder : Type 0 where
  pub token : String
  pub key : String
  pub runs_out : ℕ

abbrev pub is_not : String → Holder → Bool
is_not token h = not (str_eq h.token token)

module _ (redis : Redis) where
  open redis use {Store, get, del, put}

  -- RedisBuildLock, up to the `yield`: `none` is `LockBusy`
  unfoldable pub redis_enter : ℕ → String → String → ℕ → Store → Option Store
  redis_enter now key token ttl st = elim (get now (lock_name key) st) [
    | none ↦ some (put now (lock_name key) token ttl st)
    | some other ↦ none
  ]

  -- the script `_RELEASE`
  unfoldable pub redis_leave : ℕ → String → String → Store → Store
  redis_leave now key token st = elim (get now (lock_name key) st) [
    | none ↦ st
    | some other ↦ if str_eq other token then del (lock_name key) st else st
  ]

  -- the clock, the store, and the builds inside `hold`
  pub record Builds : Type 0 where
    pub now : ℕ
    pub store : Store
    pub holders : List Holder

  unfoldable pub entered : String → String → ℕ → Store → Builds → Builds
  entered key token ttl st b = record {
    now = b.now;
    store = st;
    holders = record { token = token; key = key; runs_out = b.now + ttl } ∷ b.holders;
  }

  unfoldable pub left : Holder → Builds → Builds
  left h b = record {
    now = b.now;
    store = redis_leave b.now h.key h.token b.store;
    holders = select (is_not h.token) b.holders;
  }

  unfoldable pub failed_to_leave : Holder → Builds → Builds
  failed_to_leave h b = record {
    now = b.now;
    store = b.store;
    holders = select (is_not h.token) b.holders;
  }

  -- The tokens are random (uuid4), so a new one is none of those in use.
  pub data LockStep : Builds → Builds → Type 0 where
    ticked : (later : ℕ) (b : Builds) → b.now ≤ later → LockStep b (record b { now = later })
    enters :
        (key token : String) (ttl : ℕ) (st : Store) (b : Builds)
        → all_of (is_not token) b.holders ≡ true
        → redis_enter b.now key token ttl b.store ≡ some st
        → LockStep b (entered key token ttl st b)
    leaves : (h : Holder) (b : Builds) → LockStep b (left h b)
    -- Redis cannot be reached
    leaves_nothing : (h : Holder) (b : Builds) → LockStep b (failed_to_leave h b)

  pub data IsReached : Builds → Type 0 where
    at_start : (st : Store) → IsReached (record { now = 0; store = st; holders = [] })
    then_step : (b c : Builds) → IsReached b → LockStep b c → IsReached c
