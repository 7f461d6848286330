-- ===== src/Archive/Bounds.antt =====
-- jobs.py: the table stays small, and a job is found by its owner.
use yandex_codeforces_analyz.Prelude.{
  ℕ, zero, suc, ◌+◌, ◌-◌, ◌≤◌, String, ◌≡◌, refl, sym, ap, ◌∙◌, inl, inr, Bool, true, false, not,
  ◌&&◌, none, some, List, [], ◌∷◌, ◌++◌, arith, leb, ◌==◌, if◌then◌else◌, leb→le, Bool-cases,
  length, take, drop, select, count_of, Every, length-append, take-append-drop, count_of-le, str_eq,
  insert_by, sort_by, put_str, str_eq_refl, get_str-put_str,
}
use yandex_codeforces_analyz.Archive.{
  ImportJob, max_jobs, created_before, pop_job, pop_all, evict, new_job, create_job, get_job,
}

module _ {A : Type 0} (p : A → Bool) where
  count_of-append : (xs ys : List A) → count_of p (xs ++ ys) ≡ count_of p xs + count_of p ys
  count_of-append [] ys = omega arith
  count_of-append (x ∷ xs) ys = ground (arith, count_of-append xs ys)

  length-select : (xs : List A) → length (select p xs) ≡ count_of p xs
  length-select [] = refl
  length-select (x ∷ xs) = ground (arith, length-select xs)

  module _ (lt : A → A → Bool) where
    count_of-insert_by :
        (x : A) (xs : List A) → count_of p (insert_by lt x xs) ≡ count_of p (x ∷ xs)
    unfolding insert_by
    count_of-insert_by x [] = refl
    count_of-insert_by x (y ∷ ys) = ground (arith, count_of-insert_by x ys)

    count_of-sort_by : (xs : List A) → count_of p (sort_by lt xs) ≡ count_of p xs
    unfolding sort_by
    count_of-sort_by [] = refl
    count_of-sort_by (x ∷ xs) =
        ground (arith, count_of-insert_by x (sort_by lt xs), count_of-sort_by xs)

count_of-all : (jobs : List (String × ImportJob)) → length jobs ≡ count_of (λ e. true) jobs
count_of-all [] = refl
count_of-all (e ∷ jobs) = ap (λ n. suc n) (count_of-all jobs)

length-take :
    (n : ℕ) (jobs : List (String × ImportJob)) → n ≤ length jobs → length (take n jobs) ≡ n
length-take zero jobs h = refl
length-take (suc n) [] h = absurd (omega arith)
length-take (suc n) (e ∷ jobs) h = ap (λ k. suc k) (length-take n jobs (omega arith))

-- a job that is not one of the evicted
stays : List (String × ImportJob) → String × ImportJob → Bool
stays [] e = true
stays (g ∷ gone) e = not (str_eq e.0 g.0) && stays gone e

count_of-select :
    (p q : String × ImportJob → Bool) (jobs : List (String × ImportJob))
    → count_of p (select q jobs) ≡ count_of (λ e. q e && p e) jobs
count_of-select p q [] = refl
count_of-select p q (e ∷ jobs) = ground (arith, count_of-select p q jobs)

length-pop_all :
    (gone jobs : List (String × ImportJob))
    → length (pop_all gone jobs) ≡ count_of (stays gone) jobs
unfolding pop_all stays
length-pop_all [] jobs = count_of-all jobs
length-pop_all (g ∷ gone) jobs =
    length-pop_all gone (pop_job g.0 jobs) ∙ count_of-select (stays gone) _ jobs

stays-later :
    (g : String × ImportJob) (gone es : List (String × ImportJob))
    → Every (λ e. stays gone e ≡ false) es
    → Every (λ e. stays (g ∷ gone) e ≡ false) es
unfolding stays
stays-later g gone [] h = tt
stays-later g gone (e ∷ es) h = (ground (arith, h.0), stays-later g gone es h.1)

none_stays : (gone : List (String × ImportJob)) → Every (λ e. stays gone e ≡ false) gone
unfolding stays
none_stays [] = tt
none_stays (g ∷ gone) = (ground (arith, str_eq_refl g.0), stays-later g gone gone (none_stays gone))

count_of-none :
    (p : String × ImportJob → Bool) (es : List (String × ImportJob))
    → Every (λ e. p e ≡ false) es
    → count_of p es ≡ 0
count_of-none p [] h = refl
count_of-none p (e ∷ es) h = ground (arith, h.0, count_of-none p es h.1)

-- the oldest jobs are gone
length-pop_oldest :
    (n : ℕ) (jobs : List (String × ImportJob))
    → n ≤ length jobs
    → length (pop_all (take n (sort_by created_before jobs)) jobs) + n ≤ length jobs
length-pop_oldest n jobs h = omega (
  arith,
  length-pop_all oldest jobs,
  count_of-sort_by (stays oldest) created_before jobs,
  ap (count_of (stays oldest)) (sym (take-append-drop n sorted)),
  count_of-append (stays oldest) oldest (drop n sorted),
  count_of-none (stays oldest) oldest (none_stays oldest),
  count_of-le (stays oldest) (drop n sorted),
  length-take n sorted (omega (arith, same_length)),
  same_length,
  ap (λ (xs : List (String × ImportJob)). length xs) (sym (take-append-drop n sorted)),
  length-append oldest (drop n sorted),
)
  where
    sorted : List (String × ImportJob)
    sorted = sort_by created_before jobs

    oldest : List (String × ImportJob)
    oldest = take n sorted

    same_length : length sorted ≡ length jobs
    same_length =
        count_of-all sorted
        ∙ count_of-sort_by (λ e. true) created_before jobs
        ∙ sym (count_of-all jobs)

length-put_str :
    (k : String) (v : ImportJob) (jobs : List (String × ImportJob))
    → length (put_str k v jobs) ≤ length jobs + 1
unfolding put_str
length-put_str k v [] = omega arith
length-put_str k v (e ∷ jobs) = ground (arith, length-put_str k v jobs)

-- After a new job the table holds at most thirty jobs, however many it held before.
pub length-create_job :
    (jid : String) (now user_id : ℕ) (name : String) (jobs : List (String × ImportJob))
    → length (create_job jid now user_id name jobs) ≤ 30
unfolding create_job evict
length-create_job jid now user_id name jobs = elim (Bool-cases (leb max_jobs (length jobs))) [
  | inl t ↦ omega (
    arith,
    length-put_str jid (new_job jid user_id name now) (evict jobs),
    leb→le max_jobs (length jobs) t,
    evicted t,
    length-pop_oldest (length jobs - 30 + 1) jobs (ground (arith, t)),
  )
  | inr f ↦ ground (arith, f, length-put_str jid (new_job jid user_id name now) jobs)
]
  where
    evicted :
        leb max_jobs (length jobs) ≡ true
        → length (evict jobs)
          ≡ length (pop_all (take (length jobs - 30 + 1) (sort_by created_before jobs)) jobs)
    evicted t = rw t refl

-- After `create_job` the new job is found by the user it was created for, and by nobody else.
pub get_job-create_job :
    (jid : String) (now owner user_id : ℕ) (name : String) (jobs : List (String × ImportJob))
    → get_job jid user_id (create_job jid now owner name jobs)
      ≡ (if owner == user_id then some (new_job jid owner name now) else none)
unfolding get_job create_job new_job
get_job-create_job jid now owner user_id name jobs =
    rw (get_str-put_str jid jid (new_job jid owner name now) (evict jobs), str_eq_refl jid, get_job)
      (ground arith)
