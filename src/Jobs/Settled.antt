-- ===== src/Jobs/Settled.antt =====
-- One delivery (`Worker._process` of backend/jobs/worker.py): what becomes of the job.
use yandex_codeforces_analyz.Prelude.{
  modified, ℕ, ◌+◌, ◌<◌, String, ◌≡◌, refl, sym, ap, ◌∙◌, subst, ◌≢◌, ◌⊎◌, inl, inr, Bool, true,
  false, Option, none, some, List, [], ◌∷◌, arith, ltb, ltb→lt, Bool-cases, Option-cases, or_else,
  is_some, str_append, get_key, modify, get_key-modify, ℤ, pos,
}
use yandex_codeforces_analyz.Jobs.{
  Job, Table, queued, running, done, Call, push, ack, Outcome, returned, raised, Delivery, Handler,
  is_claimable, clamp_percent, start, claim, set_progress, complete, finish, fail, record_failure,
  find_handler, report, reject, settle, handle, serve, process,
}

Outcome-cases :
    {R : Type 0} (o : Outcome R)
    → ((result : Option R) × (o ≡ returned result)) ⊎ ((error : String) × (o ≡ raised error))
Outcome-cases (returned result) = inl (result, refl)
Outcome-cases (raised error) = inr (error, refl)

pub some-injective : {A : Type 0} {a b : A} → some a ≡ some b → a ≡ b
some-injective e = cc

no_more : (n : ℕ) → ltb n n ≡ false
no_more n = ground arith

module _ {P R : Type 0} where
  modified_other :
      (j k : ℕ) (f : Job P R → Job P R) (db : Table P R)
      → j ≢ k
      → get_key j (modify k f db) ≡ get_key j db
  modified_other j k f db n = ground (arith, get_key-modify j k f db)

  pub claim_taken :
      (reclaim : Bool) (now k : ℕ) (db : Table P R) (r : Job P R)
      → get_key k db ≡ some r
      → is_claimable reclaim r.status ≡ true
      → claim reclaim now k db ≡ (some (start now r), modify k (start now) db)
  unfolding claim
  claim_taken reclaim now k db r h c =
      rw (h, claim, c) (ap (λ o. (o, modify k (start now) db)) (modified k (start now) db r h))

  pub claim_refused :
      (reclaim : Bool) (now k : ℕ) (db : Table P R)
      → ((r : Job P R) → get_key k db ≡ some r → is_claimable reclaim r.status ≡ false)
      → claim reclaim now k db ≡ (none, db)
  unfolding claim
  claim_refused reclaim now k db h = elim (Option-cases (get_key k db)) [
    | inl missing ↦ rw (missing, claim) refl
    | inr (r, found) ↦ rw (found, claim, h r found) refl
  ]

  pub claimable_cases :
      (reclaim : Bool) (k : ℕ) (db : Table P R)
      → ((r : Job P R) → get_key k db ≡ some r → is_claimable reclaim r.status ≡ false)
        ⊎ ((r : Job P R) × (get_key k db ≡ some r) × (is_claimable reclaim r.status ≡ true))
  claimable_cases reclaim k db = elim (Option-cases (get_key k db)) [
    | inl missing ↦ inl λ r e. absurd (ground arith)
    | inr (r, found) ↦ elim (Bool-cases (is_claimable reclaim r.status)) [
      | inl t ↦ inr (r, found, t)
      | inr f ↦ inl λ q e.
          subst {A = Job P R} (λ x. is_claimable reclaim x.status ≡ false)
            (some-injective (sym found ∙ e)) f
    ]
  ]

  report_row :
      (k : ℕ) (ps : List ℤ) (db : Table P R) (r : Job P R)
      → get_key k db ≡ some r
      → (p : ℤ) × (get_key k (report k ps db) ≡ some (record r { progress = p }))
  unfolding report set_progress
  report_row k [] db r h = (r.progress, h)
  report_row k (p ∷ ps) db r h =
      let rest =
        report_row k ps (set_progress k p db) (record r { progress = clamp_percent p })
          (modified k _ db r h) in
      (rest.0, rest.1)

  report_other :
      (j k : ℕ) (ps : List ℤ) (db : Table P R) → j ≢ k → get_key j (report k ps db) ≡ get_key j db
  unfolding report set_progress
  report_other j k [] db n = refl
  report_other j k (p ∷ ps) db n =
      report_other j k ps (set_progress k p db) n ∙ modified_other j k _ db n

  module _ (empty : R) (max_attempts : ℕ) where
    -- what a delivery makes of the row of its job
    pub record IsSettled (d : Delivery) (r : Job P R) (out : Table P R × List Call) : Type 0 where
      pub row : Job P R
      pub stored : get_key d.job_id out.0 ≡ some row
      pub not_running : row.status ≢ running
      pub retried :
          row.status ≡ queued
          → (out.1 ≡ push d.job_id ∷ ack d.entry ∷ [])
            × (row.attempts ≡ r.attempts + 1)
            × (row.attempts < max_attempts)
      pub ended : row.status ≢ queued → out.1 ≡ ack d.entry ∷ []
      pub complete_done : row.status ≡ done → (row.progress ≡ pos 100) × (is_some row.result ≡ true)
      pub attempts_grow : (row.attempts ≡ r.attempts + 1) ⊎ (row.attempts ≡ max_attempts)

    settle-IsSettled :
        (d : Delivery) (r : Job P R) (outcome : Outcome R) (db : Table P R) (p : ℤ)
        → get_key d.job_id db ≡ some (record (start d.now r) { progress = p })
        → IsSettled d r (settle empty max_attempts d (start d.now r) outcome db)
    unfolding settle complete fail
    settle-IsSettled d r (returned result) db p h = record {
      row = finish d.later (or_else result empty) (record (start d.now r) { progress = p });
      stored = modified d.job_id _ db _ h;
      not_running = λ e. cc;
      retried = λ e. absurd (ground arith);
      ended = λ n. refl;
      complete_done = λ e. (refl, refl);
      attempts_grow = inl refl;
    }
    settle-IsSettled d r (raised error) db p h =
        elim (Bool-cases (ltb (r.attempts + 1) max_attempts)) [
          | inl t ↦ record {
            row = record_failure true d.later error (record (start d.now r) { progress = p });
            stored = rw t (modified d.job_id _ db _ h);
            not_running = λ e. cc;
            retried = λ e. (rw t refl, refl, ltb→lt _ _ t);
            ended = λ n. absurd (n refl);
            complete_done = λ e. absurd (ground arith);
            attempts_grow = inl refl;
          }
          | inr f ↦ record {
            row = record_failure false d.later error (record (start d.now r) { progress = p });
            stored = rw f (modified d.job_id _ db _ h);
            not_running = λ e. cc;
            retried = λ e. absurd (ground arith);
            ended = λ n. rw f refl;
            complete_done = λ e. absurd (ground arith);
            attempts_grow = inl refl;
          }
        ]

    reject-IsSettled :
        (d : Delivery) (r j : Job P R) (db : Table P R)
        → get_key d.job_id db ≡ some j
        → IsSettled d r (reject empty max_attempts d j db)
    unfolding reject fail
    reject-IsSettled d r j db h = record {
      row =
          record_failure false d.later (str_append "no handler for job type: " j.job_type)
            (record j { attempts = max_attempts });
      stored = rw (no_more max_attempts) (
          modified d.job_id _ _ _
            (modified d.job_id (λ q. record q { attempts = max_attempts }) db j h));
      not_running = λ e. cc;
      retried = λ e. absurd (ground arith);
      ended = λ n. refl;
      complete_done = λ e. absurd (ground arith);
      attempts_grow = inr refl;
    }

    module _ (handlers : List (String × Handler P R)) where
      handle-IsSettled :
          (d : Delivery) (r : Job P R) (db : Table P R)
          → get_key d.job_id db ≡ some (start d.now r)
          → IsSettled d r (handle empty max_attempts handlers d (start d.now r) db)
      unfolding handle
      handle-IsSettled d r db h = elim (Option-cases (find_handler r.job_type handlers)) [
        | inl missing ↦ rw (missing, handle) (reject-IsSettled d r (start d.now r) db h)
        | inr (handler, found) ↦
            let (p, reported) =
              report_row d.job_id (handler d.now r.payload).0 db (start d.now r) h in
            rw (found, handle)
              (settle-IsSettled d r (handler d.now r.payload).1
                (report d.job_id (handler d.now r.payload).0 db) p reported)
      ]

      -- A delivery of a job that can be claimed settles it: its row is no longer running; if it is
      -- queued again, its id was pushed before the entry was acknowledged, one attempt was used and
      -- attempts are left; otherwise the entry was only acknowledged; a job that is done has
      -- progress 100 and a result.
      pub process-IsSettled :
          (reclaimed : Bool) (d : Delivery) (db : Table P R) (r : Job P R)
          → get_key d.job_id db ≡ some r
          → is_claimable reclaimed r.status ≡ true
          → IsSettled d r (process empty max_attempts handlers reclaimed d db)
      unfolding process
      process-IsSettled reclaimed d db r h c =
          subst (λ t. IsSettled d r (serve empty max_attempts handlers d t))
            (sym (claim_taken reclaimed d.now d.job_id db r h c))
            (handle-IsSettled d r (modify d.job_id (start d.now) db)
              (modified d.job_id (start d.now) db r h))

      -- A delivery of a job that is missing or cannot be claimed leaves the table as it is, and its
      -- entry is acknowledged.
      pub process-unclaimed :
          (reclaimed : Bool) (d : Delivery) (db : Table P R)
          → ((r : Job P R) → get_key d.job_id db ≡ some r → is_claimable reclaimed r.status ≡ false)
          → process empty max_attempts handlers reclaimed d db ≡ (db, ack d.entry ∷ [])
      unfolding process
      process-unclaimed reclaimed d db h =
          ap (serve empty max_attempts handlers d) (claim_refused reclaimed d.now d.job_id db h)

      handle_other :
          (j : ℕ) (d : Delivery) (r : Job P R) (db : Table P R)
          → j ≢ d.job_id
          → get_key j (handle empty max_attempts handlers d r db).0 ≡ get_key j db
      unfolding handle reject settle fail complete
      handle_other j d r db n = elim (Option-cases (find_handler r.job_type handlers)) [
        | inl missing ↦
            rw (missing, handle)
              (modified_other j d.job_id _ _ n ∙ modified_other j d.job_id _ db n)
        | inr (handler, found) ↦
            rw (found, handle)
              (elim (Outcome-cases (handler d.now r.payload).1) [
                | inl (result, e) ↦
                    rw (e, settle)
                      (modified_other j d.job_id _ _ n ∙ report_other j d.job_id _ db n)
                | inr (error, e) ↦
                    rw (e, settle)
                      (modified_other j d.job_id _ _ n ∙ report_other j d.job_id _ db n)
              ])
      ]

      pub process_other :
          (reclaimed : Bool) (j : ℕ) (d : Delivery) (db : Table P R)
          → j ≢ d.job_id
          → get_key j (process empty max_attempts handlers reclaimed d db).0 ≡ get_key j db
      unfolding process
      process_other reclaimed j d db n = elim (claimable_cases reclaimed d.job_id db) [
        | inl refused ↦
            ap (λ t. get_key j (serve empty max_attempts handlers d t).0)
              (claim_refused reclaimed d.now d.job_id db refused)
        | inr (r, found, c) ↦
            ap (λ t. get_key j (serve empty max_attempts handlers d t).0)
              (claim_taken reclaimed d.now d.job_id db r found c)
            ∙ (handle_other j d _ _ n ∙ modified_other j d.job_id _ db n)
      ]
