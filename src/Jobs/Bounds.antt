-- ===== src/Jobs/Bounds.antt =====
-- A pass of the worker (`Worker.run_once` of backend/jobs/worker.py): every entry acknowledged, no job
-- lost, and a bounded number of retries.
use yandex_codeforces_analyz.Prelude.{
  ℕ, ◌+◌, ◌-◌, ◌≤◌, String, ◌≡◌, refl, sym, ap, ap₂, ◌∙◌, subst, ◌≢◌, ◌⊎◌, inl, inr, Bool, true,
  false, none, some, List, [], ◌∷◌, ◌++◌, map, arith, ◌==◌, Bool-cases, length, count_of,
  length-append, get_key,
}
use yandex_codeforces_analyz.Jobs.{
  Job, Table, JobStatus, queued, running, done, failed, Call, push, ack, Delivery, Handler, process,
  process_all, run_once,
}
use yandex_codeforces_analyz.Jobs.Settled.{
  process-IsSettled, process-unclaimed, process_other, claimable_cases,
}

-- the entries that are acknowledged, and the jobs that are pushed, in order
unfoldable pub acked : List Call → List String
acked [] = []
acked (push k ∷ calls) = acked calls
acked (ack e ∷ calls) = e ∷ acked calls

unfoldable pub pushed : List Call → List ℕ
pushed [] = []
pushed (push k ∷ calls) = k ∷ pushed calls
pushed (ack e ∷ calls) = pushed calls

acked-append : (xs ys : List Call) → acked (xs ++ ys) ≡ acked xs ++ acked ys
unfolding acked
acked-append [] ys = refl
acked-append (push k ∷ xs) ys = acked-append xs ys
acked-append (ack e ∷ xs) ys = ap (◌∷◌ e) (acked-append xs ys)

pub pushed-append : (xs ys : List Call) → pushed (xs ++ ys) ≡ pushed xs ++ pushed ys
unfolding pushed
pushed-append [] ys = refl
pushed-append (push k ∷ xs) ys = ap (◌∷◌ k) (pushed-append xs ys)
pushed-append (ack e ∷ xs) ys = pushed-append xs ys

-- how often `k` is pushed
abbrev pub pushes : ℕ → List ℕ → ℕ
pushes k ks = count_of (λ x. x == k) ks

pub pushes-append : (k : ℕ) (xs ys : List ℕ) → pushes k (xs ++ ys) ≡ pushes k xs + pushes k ys
pushes-append k [] ys = ground arith
pushes-append k (a ∷ xs) ys = ground (arith, pushes-append k xs ys)

pub status_cases : (s : JobStatus) → (s ≡ queued) ⊎ (s ≢ queued)
status_cases queued = inl refl
status_cases running = inr λ e. cc
status_cases done = inr λ e. cc
status_cases failed = inr λ e. cc

map_entries :
    (xs ys : List Delivery)
    → map (λ d. d.entry) (xs ++ ys) ≡ map (λ d. d.entry) xs ++ map (λ d. d.entry) ys
map_entries [] ys = refl
map_entries (a ∷ xs) ys = ap (◌∷◌ a.entry) (map_entries xs ys)

module _ {P R : Type 0} (empty : R) (max_attempts : ℕ)
    (handlers : List (String × Handler P R)) where
  abbrev Served : Bool → Delivery → Table P R → Table P R × List Call
  Served = process empty max_attempts handlers

  process_acks :
      (reclaimed : Bool) (d : Delivery) (db : Table P R)
      → acked (Served reclaimed d db).1 ≡ d.entry ∷ []
  unfolding acked
  process_acks reclaimed d db = elim (claimable_cases reclaimed d.job_id db) [
    | inl refused ↦
        ap (λ o. acked o.1) (process-unclaimed empty max_attempts handlers reclaimed d db refused)
    | inr (r, found, c) ↦
        let s = process-IsSettled empty max_attempts handlers reclaimed d db r found c in
        elim (status_cases s.row.status) [
          | inl again ↦ ap acked (s.retried again).0
          | inr ended ↦ ap acked (s.ended ended)
        ]
  ]

  process_all_acks :
      (reclaimed : Bool) (ds : List Delivery) (db : Table P R)
      → acked (process_all empty max_attempts handlers reclaimed ds db).1 ≡ map (λ d. d.entry) ds
  unfolding acked process_all
  process_all_acks reclaimed [] db = refl
  process_all_acks reclaimed (d ∷ ds) db =
      acked-append (Served reclaimed d db).1 _
      ∙ ap₂ ◌++◌ (process_acks reclaimed d db)
          (process_all_acks reclaimed ds (Served reclaimed d db).0)

  -- A pass acknowledges exactly the entries that it was given, each once and in order, whatever the
  -- handlers do, and counts them.
  pub run_once_acks :
      (abandoned fresh : List Delivery) (db : Table P R)
      → let out = run_once empty max_attempts handlers abandoned fresh db in
        (acked out.1.1 ≡ map (λ d. d.entry) (abandoned ++ fresh))
        × (out.0 ≡ length (abandoned ++ fresh))
  unfolding run_once
  run_once_acks abandoned fresh db = (
    acked-append (process_all empty max_attempts handlers true abandoned db).1 _
        ∙ ap₂ ◌++◌ (process_all_acks true abandoned db) (
            process_all_acks false fresh
              (process_all empty max_attempts handlers true abandoned db).0)
        ∙ sym (map_entries abandoned fresh),
    sym (length-append abandoned fresh),
  )

  -- the attempts that the job `k` has left
  abbrev pub attempts_left : ℕ → Table P R → ℕ
  attempts_left k db = elim (get_key k db) [ none ↦ 0 | some r ↦ max_attempts - r.attempts ]

  left_of_row :
      (k : ℕ) (db : Table P R) (r : Job P R)
      → get_key k db ≡ some r
      → attempts_left k db ≡ max_attempts - r.attempts
  left_of_row k db r h = rw (h, attempts_left) refl

  left_same :
      (k : ℕ) (db db' : Table P R)
      → get_key k db' ≡ get_key k db
      → attempts_left k db' ≡ attempts_left k db
  left_same k db db' h = rw (h, attempts_left) refl

  process_pushes_own :
      (reclaimed : Bool) (d : Delivery) (db : Table P R)
      → pushes d.job_id (pushed (Served reclaimed d db).1)
          + attempts_left d.job_id (Served reclaimed d db).0
        ≤ attempts_left d.job_id db
  unfolding pushed
  process_pushes_own reclaimed d db = elim (claimable_cases reclaimed d.job_id db) [
    | inl refused ↦
        rw (process-unclaimed empty max_attempts handlers reclaimed d db refused) (omega arith)
    | inr (r, found, c) ↦
        let s = process-IsSettled empty max_attempts handlers reclaimed d db r found c in
        let before = left_of_row d.job_id db r found in
        let after = left_of_row d.job_id (Served reclaimed d db).0 s.row s.stored in
        elim (status_cases s.row.status) [
          | inl again ↦
              let (calls, grow, more) = s.retried again in
              rw (before, after, calls) (ground (arith, grow, more))
          | inr ended ↦
              rw (before, after, s.ended ended)
                (elim s.attempts_grow [ inl e ↦ ground (arith, e) | inr e ↦ ground (arith, e) ])
        ]
  ]

  process_pushes_other :
      (reclaimed : Bool) (k : ℕ) (d : Delivery) (db : Table P R)
      → k ≢ d.job_id
      → pushes k (pushed (Served reclaimed d db).1) ≡ 0
  unfolding pushed
  process_pushes_other reclaimed k d db n = elim (claimable_cases reclaimed d.job_id db) [
    | inl refused ↦
        ap (λ o. pushes k (pushed o.1))
          (process-unclaimed empty max_attempts handlers reclaimed d db refused)
    | inr (r, found, c) ↦
        let s = process-IsSettled empty max_attempts handlers reclaimed d db r found c in
        elim (status_cases s.row.status) [
          | inl again ↦ ap (λ o. pushes k (pushed o)) (s.retried again).0 ∙ ground arith
          | inr ended ↦ ap (λ o. pushes k (pushed o)) (s.ended ended)
        ]
  ]

  process_pushes :
      (reclaimed : Bool) (k : ℕ) (d : Delivery) (db : Table P R)
      → pushes k (pushed (Served reclaimed d db).1) + attempts_left k (Served reclaimed d db).0
        ≤ attempts_left k db
  process_pushes reclaimed k d db = elim (Bool-cases (d.job_id == k)) [
    | inl same ↦
        subst
          (λ x.
            pushes x (pushed (Served reclaimed d db).1) + attempts_left x (Served reclaimed d db).0
            ≤ attempts_left x db)
          (ground arith) (process_pushes_own reclaimed d db)
    | inr other ↦
        rw
          (
            process_pushes_other reclaimed k d db (ground arith),
            left_same k db (Served reclaimed d db).0
                (process_other empty max_attempts handlers reclaimed k d db (ground arith)),
          )
          (omega arith)
  ]

  process_all-pushes :
      (reclaimed : Bool) (k : ℕ) (ds : List Delivery) (db : Table P R)
      → let out = process_all empty max_attempts handlers reclaimed ds db in
        pushes k (pushed out.1) + attempts_left k out.0 ≤ attempts_left k db
  unfolding process_all pushed
  process_all-pushes reclaimed k [] db = omega arith
  process_all-pushes reclaimed k (d ∷ ds) db =
      rw
        (
          pushed-append (Served reclaimed d db).1
              (process_all empty max_attempts handlers reclaimed ds (Served reclaimed d db).0).1,
          pushes-append k (pushed (Served reclaimed d db).1) (
              pushed
                (process_all empty max_attempts handlers reclaimed ds (Served reclaimed d db).0).1),
        )
        (ground (
          arith,
          process_pushes reclaimed k d db,
          process_all-pushes reclaimed k ds (Served reclaimed d db).0,
        ))

  -- Whatever is delivered to it and however the handlers end, a pass pushes a job again at most as
  -- often as the job has attempts left under `max_attempts`, and uses these attempts up.
  pub run_once-pushes :
      (abandoned fresh : List Delivery) (db : Table P R) (k : ℕ)
      → let out = (run_once empty max_attempts handlers abandoned fresh db).1 in
        pushes k (pushed out.1) + attempts_left k out.0 ≤ attempts_left k db
  unfolding run_once
  run_once-pushes abandoned fresh db k =
      let between = process_all empty max_attempts handlers true abandoned db in
      rw
        (
          pushed-append between.1 (process_all empty max_attempts handlers false fresh between.0).1,
          pushes-append k (pushed between.1)
              (pushed (process_all empty max_attempts handlers false fresh between.0).1),
        )
        (ground (
          arith,
          process_all-pushes true k abandoned db,
          process_all-pushes false k fresh between.0,
        ))
