-- ===== src/Jobs/Kept.antt =====
-- No job is lost by a pass of the worker (`Worker.run_once` of backend/jobs/worker.py).
use yandex_codeforces_analyz.Prelude.{
  ℕ, ◌<◌, String, ◌≡◌, sym, ap, ◌∙◌, subst, ◌≢◌, ◌⊎◌, inl, inr, Bool, true, false, some, List, [],
  ◌∷◌, arith, ◌==◌, Bool-cases, Every, get_key,
}
use yandex_codeforces_analyz.Jobs.{
  Job, Table, JobStatus, queued, running, Call, Delivery, Handler, process, process_all, run_once,
}
use yandex_codeforces_analyz.Jobs.Settled.{
  process-IsSettled, process-unclaimed, process_other, claimable_cases, some-injective,
}
use yandex_codeforces_analyz.Jobs.Bounds.{pushed, pushes, pushed-append, pushes-append}

-- the row of `k` has the status `s`
abbrev pub HasStatus : {P R : Type 0} → JobStatus → ℕ → Table P R → Type 0
HasStatus {P} {R} s k db = (r : Job P R) × (get_key k db ≡ some r) × (r.status ≡ s)

-- `k` is the job of no delivery
abbrev pub Undelivered : ℕ → List Delivery → Type 0
Undelivered k ds = Every (λ d. d.job_id ≢ k) ds

module _ {P R : Type 0} (empty : R) (max_attempts : ℕ)
    (handlers : List (String × Handler P R)) where
  abbrev Served : Bool → Delivery → Table P R → Table P R × List Call
  Served = process empty max_attempts handlers

  HasStatus-process :
      (reclaimed : Bool) (s : JobStatus) (k : ℕ) (d : Delivery) (db : Table P R)
      → d.job_id ≢ k
      → HasStatus s k (Served reclaimed d db).0
      → HasStatus s k db
  HasStatus-process reclaimed s k d db n (r, found, e) = (
    r,
    sym (process_other empty max_attempts handlers reclaimed k d db λ x. n (sym x)) ∙ found,
    e,
  )

  -- a job that one delivery leaves queued
  process_queued_own :
      (reclaimed : Bool) (d : Delivery) (db : Table P R)
      → HasStatus queued d.job_id (Served reclaimed d db).0
      → 0 < pushes d.job_id (pushed (Served reclaimed d db).1)
  unfolding pushed
  process_queued_own reclaimed d db (q, stored, e) = elim (claimable_cases reclaimed d.job_id db) [
    | inl refused ↦
        let same = process-unclaimed empty max_attempts handlers reclaimed d db refused in
        let free = refused q (sym (ap (λ o. get_key d.job_id o.0) same) ∙ stored) in
        absurd (ground (arith, free, e))
    | inr (r, found, c) ↦
        let s = process-IsSettled empty max_attempts handlers reclaimed d db r found c in
        let again = ap (λ j. j.status) (some-injective (sym s.stored ∙ stored)) ∙ e in
        rw (s.retried again).0 (ground arith)
  ]

  process_running_own :
      (reclaimed : Bool) (d : Delivery) (db : Table P R)
      → HasStatus running d.job_id (Served reclaimed d db).0
      → HasStatus running d.job_id db × (reclaimed ≡ false)
  process_running_own reclaimed d db (q, stored, e) = elim (claimable_cases reclaimed d.job_id db) [
    | inl refused ↦
        let same = process-unclaimed empty max_attempts handlers reclaimed d db refused in
        let before = sym (ap (λ o. get_key d.job_id o.0) same) ∙ stored in
        ((q, before, e), ground (arith, refused q before, e))
    | inr (r, found, c) ↦
        let s = process-IsSettled empty max_attempts handlers reclaimed d db r found c in
        absurd (s.not_running (ap (λ j. j.status) (some-injective (sym s.stored ∙ stored)) ∙ e))
  ]

  process_all-queued :
      (reclaimed : Bool) (k : ℕ) (ds : List Delivery) (db : Table P R)
      → let out = process_all empty max_attempts handlers reclaimed ds db in
        HasStatus queued k out.0
        → (0 < pushes k (pushed out.1)) ⊎ (HasStatus queued k db × Undelivered k ds)
  unfolding process_all
  process_all-queued reclaimed k [] db h = inr (h, tt)
  process_all-queued reclaimed k (d ∷ ds) db h =
      let after = Served reclaimed d db in
      let out = process_all empty max_attempts handlers reclaimed ds after.0 in
      let split =
        ap (pushes k) (pushed-append after.1 out.1)
        ∙ pushes-append k (pushed after.1) (pushed out.1) in
      elim (process_all-queued reclaimed k ds after.0 h) [
        | inl later ↦ inl (rw split (ground (arith, later)))
        | inr (before, rest) ↦ elim (Bool-cases (d.job_id == k)) [
          | inl same ↦
              let here : HasStatus queued k after.0 → 0 < pushes k (pushed after.1) =
                subst (λ x. HasStatus queued x after.0 → 0 < pushes x (pushed after.1))
                  (ground arith) (process_queued_own reclaimed d db) in
              inl (rw split (ground (arith, here before)))
          | inr other ↦
              let n : d.job_id ≢ k = λ e. ground arith in
              inr (HasStatus-process reclaimed queued k d db n before, (n, rest))
        ]
      ]

  process_all_running :
      (reclaimed : Bool) (k : ℕ) (ds : List Delivery) (db : Table P R)
      → HasStatus running k (process_all empty max_attempts handlers reclaimed ds db).0
      → HasStatus running k db × ((reclaimed ≡ false) ⊎ Undelivered k ds)
  unfolding process_all
  process_all_running reclaimed k [] db h = (h, inr tt)
  process_all_running reclaimed k (d ∷ ds) db h =
      let after = Served reclaimed d db in
      let (before, rest) = process_all_running reclaimed k ds after.0 h in
      elim (Bool-cases (d.job_id == k)) [
        | inl same ↦
            let own =
              subst
                (λ x. HasStatus running x after.0 → HasStatus running x db × (reclaimed ≡ false))
                (ground arith) (process_running_own reclaimed d db) before in
            (own.0, inl own.1)
        | inr other ↦
            let n : d.job_id ≢ k = λ e. ground arith in
            (
              HasStatus-process reclaimed running k d db n before,
              elim rest [ inl f ↦ inl f | inr u ↦ inr (n, u) ],
            )
      ]

  -- A pass loses no job: one that is queued after it was pushed again in it, or was queued before it
  -- and in none of its deliveries; and one that is running after it was running before it and is not
  -- among the abandoned jobs that were delivered.
  pub run_once_keeps :
      (abandoned fresh : List Delivery) (db : Table P R) (k : ℕ)
      → let out = (run_once empty max_attempts handlers abandoned fresh db).1 in
        (HasStatus queued k out.0
          → (0 < pushes k (pushed out.1))
            ⊎ (HasStatus queued k db × Undelivered k abandoned × Undelivered k fresh))
        × (HasStatus running k out.0 → HasStatus running k db × Undelivered k abandoned)
  unfolding run_once
  run_once_keeps abandoned fresh db k =
      let between = process_all empty max_attempts handlers true abandoned db in
      let last = process_all empty max_attempts handlers false fresh between.0 in
      let split =
        ap (pushes k) (pushed-append between.1 last.1)
        ∙ pushes-append k (pushed between.1) (pushed last.1) in
      (
        λ h. elim (process_all-queued false k fresh between.0 h) [
          | inl later ↦ inl (rw split (ground (arith, later)))
          | inr (before, free) ↦ elim (process_all-queued true k abandoned db before) [
            | inl early ↦ inl (rw split (ground (arith, early)))
            | inr (first, free') ↦ inr (first, free', free)
          ]
        ],
        λ h.
            let (before, _) = process_all_running false k fresh between.0 h in
            let (first, which) = process_all_running true k abandoned db before in
            (first, elim which [ inl e ↦ absurd (ground arith) | inr u ↦ u ]),
      )
