-- ===== src/Locks/Exclusive.antt =====
-- lock.py: two builds of one problem never hold the lock of Redis at once, as long as their time is
-- not over.
use yandex_codeforces_analyz.Prelude.{
  Every-select, Every-selected, Every-both, ℕ, ◌≤◌, String, ◌≡◌, refl, sym, ap, ◌∙◌, subst, ◌≢◌,
  inl, inr, Bool, true, false, ◌&&◌, none, some, List, [], ◌∷◌, arith, ltb, Bool-cases,
  Option-cases, all_of, select, count_of, Every, str_eq, str_eq_iff, Every-select, Every-selected,
  Every-both,
}
use yandex_codeforces_analyz.Locks.{
  Redis, IsRedis, lock_name, Holder, redis_enter, redis_leave, Builds, is_not, entered, left,
  failed_to_leave, LockStep, ticked, enters, leaves, leaves_nothing, IsReached, at_start, then_step,
}
use yandex_codeforces_analyz.Locks.Covered.{
  IsCovered, AreCovered, Every-tick, all_of-select, IsCovered-put, IsCovered-redis_leave,
}

module _ (redis : Redis) (law : IsRedis redis) where
  open redis use {Store, get, del, put}

  -- the tokens of the builds differ
  abbrev AreDistinct : List Holder → Type 0
  AreDistinct [] = Unit
  AreDistinct (h ∷ hs) = (all_of (is_not h.token) hs ≡ true) × AreDistinct hs

  AreDistinct-select :
      (token : String) (hs : List Holder) → AreDistinct hs → AreDistinct (select (is_not token) hs)
  AreDistinct-select token [] d = tt
  AreDistinct-select token (h ∷ hs) d = elim (Bool-cases (is_not token h)) [
    | inl t ↦ rw t (
      all_of-select redis law (is_not h.token) (is_not token) hs d.0,
      AreDistinct-select token hs d.1,
    )
    | inr f ↦ rw f (AreDistinct-select token hs d.1)
  ]

  record IsKept (b : Builds redis) : Type 0 where
    covered : AreCovered redis law b
    distinct : AreDistinct b.holders

  Every-put :
      (now ttl : ℕ) (key token : String) (st : Store) (hs : List Holder)
      → get now (lock_name key) st ≡ none
      → Every (IsCovered redis law now st) hs
      → Every (IsCovered redis law now (put now (lock_name key) token ttl st)) hs
  Every-put now ttl key token st [] e all = tt
  Every-put now ttl key token st (h ∷ hs) e all = (
    IsCovered-put redis law now ttl key token st h e all.0,
    Every-put now ttl key token st hs e all.1,
  )

  none-some : {a : Store} → none ≢ some a
  none-some e = absurd cc

  some-store : {a c : Store} → some a ≡ some c → a ≡ c
  some-store e = cc

  put-IsKept :
      (key token : String) (ttl : ℕ) (b : Builds redis)
      → all_of (is_not token) b.holders ≡ true
      → get b.now (lock_name key) b.store ≡ none
      → IsKept b
      → IsKept (entered redis key token ttl (put b.now (lock_name key) token ttl b.store) b)
  unfolding entered
  put-IsKept key token ttl b new free k = record {
    covered = (
      (λ later le live.
          law.get-put b.now later (lock_name key) token ttl b.store le ∙ ground (arith, live)),
      Every-put b.now ttl key token b.store b.holders free k.covered,
    );
    distinct = (new, k.distinct);
  }

  enter-IsKept :
      (key token : String) (ttl : ℕ) (st : Store) (b : Builds redis)
      → all_of (is_not token) b.holders ≡ true
      → redis_enter redis b.now key token ttl b.store ≡ some st
      → IsKept b
      → IsKept (entered redis key token ttl st b)
  unfolding entered redis_enter
  enter-IsKept key token ttl st b new e k =
      elim (Option-cases (get b.now (lock_name key) b.store)) [
        | inr (other, held) ↦ absurd (none-some (rw (held, redis_enter) at e))
        | inl free ↦
            subst (λ x. IsKept (entered redis key token ttl x b))
              (some-store (rw (free, redis_enter) at e)) (put-IsKept key token ttl b new free k)
      ]

  leave-IsKept : (h : Holder) (b : Builds redis) → IsKept b → IsKept (left redis h b)
  unfolding left
  leave-IsKept h b k = record {
    covered =
        Every-both (IsCovered redis law b.now b.store) (λ g. is_not h.token g ≡ true)
          (IsCovered redis law b.now (redis_leave redis b.now h.key h.token b.store)) _
          (λ g c n. IsCovered-redis_leave redis law b.now h.key h.token b.store g n c)
          (Every-select (IsCovered redis law b.now b.store) (is_not h.token) b.holders k.covered)
          (Every-selected (is_not h.token) b.holders);
    distinct = AreDistinct-select h.token b.holders k.distinct;
  }

  step-IsKept : (b c : Builds redis) → LockStep redis b c → IsKept b → IsKept c
  unfolding failed_to_leave
  step-IsKept _ _ (ticked later b le) k = record {
    covered = Every-tick redis law b.now later b.store b.holders le k.covered;
    distinct = k.distinct;
  }
  step-IsKept _ _ (enters key token ttl st b new e) k = enter-IsKept key token ttl st b new e k
  step-IsKept _ _ (leaves h b) k = leave-IsKept h b k
  step-IsKept _ _ (leaves_nothing h b) k = record {
    covered = Every-select (IsCovered redis law b.now b.store) (is_not h.token) b.holders k.covered;
    distinct = AreDistinct-select h.token b.holders k.distinct;
  }

  reached-IsKept : (b : Builds redis) → IsReached redis b → IsKept b
  reached-IsKept _ (at_start st) = record { covered = tt; distinct = tt }
  reached-IsKept _ (then_step b c r s) = step-IsKept b c s (reached-IsKept b r)

  -- a build that holds the lock of a problem, its time not over
  abbrev pub holds_now : ℕ → String → Holder → Bool
  holds_now now key h = str_eq h.key key && ltb now h.runs_out

  one_token :
      (now : ℕ) (st : Store) (key : String) (h g : Holder)
      → IsCovered redis law now st h
      → IsCovered redis law now st g
      → holds_now now key h ≡ true
      → is_not h.token g ≡ true
      → holds_now now key g ≡ false
  one_token now st key h g ch cg live differs = elim (Bool-cases (holds_now now key g)) [
    | inr f ↦ f
    | inl t ↦ absurd (
        ground (
          arith,
          differs,
          (str_eq_iff g.token h.token).1 (some-injective (sym (stored g cg t) ∙ stored h ch live)),
        ))
  ]
    where
      some-injective : {x y : String} → some x ≡ some y → x ≡ y
      some-injective e = cc

      stored :
          (f : Holder)
          → IsCovered redis law now st f
          → holds_now now key f ≡ true
          → get now (lock_name key) st ≡ some f.token
      stored f c l =
          ap (λ k. get now (lock_name k) st) (sym ((str_eq_iff f.key key).0 (ground (arith, l))))
          ∙ c now (omega arith) (ground (arith, l))

  no_other :
      (now : ℕ) (st : Store) (key : String) (h : Holder) (hs : List Holder)
      → IsCovered redis law now st h
      → Every (IsCovered redis law now st) hs
      → holds_now now key h ≡ true
      → all_of (is_not h.token) hs ≡ true
      → count_of (holds_now now key) hs ≡ 0
  no_other now st key h [] ch all live differ = refl
  no_other now st key h (g ∷ hs) ch all live differ = ground (
    arith,
    one_token now st key h g ch all.0 live (ground (arith, differ)),
    no_other now st key h hs ch all.1 live (ground (arith, differ)),
  )

  at_most_one :
      (now : ℕ) (st : Store) (key : String) (hs : List Holder)
      → Every (IsCovered redis law now st) hs
      → AreDistinct hs
      → count_of (holds_now now key) hs ≤ 1
  at_most_one now st key [] all d = omega arith
  at_most_one now st key (h ∷ hs) all d = elim (Bool-cases (holds_now now key h)) [
    | inl t ↦ rw t (omega (arith, no_other now st key h hs all.0 all.1 t d.0))
    | inr f ↦ rw f (at_most_one now st key hs all.1 d.1)
  ]

  -- However the entries and releases of builds and the passing of time mix, and whether or not a
  -- release reaches Redis: at most one build holds the lock of a problem with its time not over.
  -- The conditions: Redis behaves as documented, and the token of a new build is none of those in
  -- use.
  pub reached-exclusive :
      (b : Builds redis) (key : String)
      → IsReached redis b
      → count_of (holds_now b.now key) b.holders ≤ 1
  reached-exclusive b key r =
      at_most_one b.now b.store key b.holders (reached-IsKept b r).covered
        (reached-IsKept b r).distinct
