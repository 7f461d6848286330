-- ===== src/Locks/Covered.antt =====
-- lock.py: while the time of a holder is not over, the store of Redis has its token, whatever other
-- builds do.
use yandex_codeforces_analyz.Prelude.{
  str_eq-append, ℕ, ◌≤◌, ◌<◌, String, ◌≡◌, refl, sym, ap, ◌∙◌, ◌≢◌, inl, inr, Bool, true, none,
  some, List, [], ◌∷◌, arith, Bool-cases, Option-cases, all_of, select, Every, str_eq, str_eq_iff,
}
use yandex_codeforces_analyz.Locks.{Redis, IsRedis, lock_name, Holder, redis_leave, Builds, is_not}

module _ (redis : Redis) (law : IsRedis redis) where
  open redis use {Store, get, del, put}

  -- while its time is not over, the store holds the token of the holder
  abbrev pub IsCovered : ℕ → Store → Holder → Type 0
  IsCovered now st h =
      (later : ℕ) → now ≤ later → later < h.runs_out → get later (lock_name h.key) st ≡ some h.token

  abbrev pub AreCovered : Builds redis → Type 0
  AreCovered b = Every (IsCovered b.now b.store) b.holders

  pub Every-tick :
      (now later : ℕ) (st : Store) (hs : List Holder)
      → now ≤ later
      → Every (IsCovered now st) hs
      → Every (IsCovered later st) hs
  Every-tick now later st [] le all = tt
  Every-tick now later st (h ∷ hs) le all =
      ((λ t a b. all.0 t (omega (arith, a, le)) b), Every-tick now later st hs le all.1)

  pub all_of-select :
      (p q : Holder → Bool) (hs : List Holder) → all_of p hs ≡ true → all_of p (select q hs) ≡ true
  all_of-select p q [] h = refl
  all_of-select p q (x ∷ xs) h = ground (arith, all_of-select p q xs)

  -- another key, or a holder whose time is over
  pub IsCovered-put :
      (now ttl : ℕ) (key token : String) (st : Store) (h : Holder)
      → get now (lock_name key) st ≡ none
      → IsCovered now st h
      → IsCovered now (put now (lock_name key) token ttl st) h
  IsCovered-put now ttl key token st h none_there c = elim (Bool-cases (str_eq key h.key)) [
    | inl t ↦ λ later le live. absurd (
        clash (
          sym (c now (omega arith) (omega (arith, le, live)))
          ∙ ap (λ k. get now (lock_name k) st) (sym ((str_eq_iff key h.key).0 t))
          ∙ none_there))
    | inr f ↦ λ later le live.
        law.get-put_other now later (lock_name key) (lock_name h.key) token ttl st
          (str_eq-append "judge:build:" key h.key ∙ f)
        ∙ c later le live
  ]
    where
      clash : some h.token ≢ none
      clash e = absurd cc

  pub IsCovered-redis_leave :
      (now : ℕ) (key token : String) (st : Store) (h : Holder)
      → is_not token h ≡ true
      → IsCovered now st h
      → IsCovered now (redis_leave redis now key token st) h
  unfolding redis_leave
  IsCovered-redis_leave now key token st h differs c =
      elim (Option-cases (get now (lock_name key) st)) [
        | inl e ↦ rw (e, redis_leave) c
        | inr (other, e) ↦ elim (Bool-cases (str_eq other token)) [
          | inl t ↦ rw (e, t, redis_leave) (deleted other e t)
          | inr f ↦ rw (e, f, redis_leave) c
        ]
      ]
    where
      some-injective : {a b : String} → some a ≡ some b → a ≡ b
      some-injective x = cc

      deleted :
          (other : String)
          → get now (lock_name key) st ≡ some other
          → str_eq other token ≡ true
          → IsCovered now (del (lock_name key) st) h
      deleted other e t = elim (Bool-cases (str_eq key h.key)) [
        | inl s ↦ λ later le live. absurd (
            ground (
              arith,
              differs,
              t,
              ap (λ x. str_eq x token)
                  (some-injective (
                    sym (c now (omega arith) (omega (arith, le, live)))
                    ∙ ap (λ k. get now (lock_name k) st) (sym ((str_eq_iff key h.key).0 s))
                    ∙ e)),
            ))
        | inr f ↦ λ later le live.
            law.get-del_other later (lock_name key) (lock_name h.key) st
              (str_eq-append "judge:build:" key h.key ∙ f)
            ∙ c later le live
      ]
