-- ===== src/Jobs.antt =====
-- backend/jobs: the rows of the jobs table and their transitions (queue.py, models/jobs/job.py), and
-- the worker that runs the handlers (worker.py). A row is written column by column, as the session
-- flushes it, and the object that `claim` returned keeps the values it was read with, as
-- `expire_on_commit` is off. A job id is a number, `str` and `uuid.UUID` of it are left out. The
-- transport, the clock and the handlers are given: a delivery carries its entry, its job and the
-- times of its start and its end, and a call of the transport is a value of `Call`.
pub mod Settled
pub mod Bounds
pub mod Kept
mod Tests
use yandex_codeforces_analyz.Prelude.{
  ℕ, zero, suc, ◌+◌, ◌-◌, ◌*◌, ◌/◌, ◌%◌, ◌≤◌, ◌<◌, min, max, String, ◌≡◌, refl, sym, ap, ap₂, ◌∙◌,
  subst, fun_ext, ◌≢◌, ◌↔◌, ◌⊎◌, inl, inr, Bool, true, false, not, ◌&&◌, ◌||◌, Option, none, some,
  List, [], ◌∷◌, ◌++◌, map, foldl, append-nil, append_assoc, arith, ltb, leb, ◌==◌, if◌then◌else◌,
  ltb→lt, leb→le, ==_iff, Bool-cases, Option-cases, or_else, is_some, length, get_elem?, take, drop,
  all_of, any_of, select, count_of, first_where, Every, length-append, take-append-drop,
  count_of-le, sum_by, str_eq, str_eq_iff, str_append, str_take, str_is_empty, str_or, show, join,
  Floats, IsLawful, get_key, put_key, modify, set_default, has_key, keys, values, get_key-put_key,
  get_key-modify, get_key-set_default, keys-modify, get_key_missing, dict_laws, insert_by, sort_by,
  sort_by-perm, IsSorted, IsWeakOrder, sort_by-IsSorted, ℤ, pos, negsuc, leb_ℤ, eq_ℤ, max_ℤ, or_ℤ,
  lstrip, rstrip, strip, first_word, after_prefix, after_marker, splitlines, split_once, parse_int,
  get_str, put_str, no_float, nan, number, Reading,
}
use yandex_codeforces_analyz.Sandbox.{Result, ok, err, value_error}

pub data JobStatus : Type 0 where
  queued running done failed : JobStatus

-- the row, over the types of a payload and of a result
pub record Job (P R : Type 0) : Type 0 where
  pub job_type : String
  pub status : JobStatus
  pub progress : ℤ
  pub attempts : ℕ
  pub user_id : Option ℕ
  pub payload : P
  pub result : Option R
  pub error : Option String
  pub created_at : ℕ
  pub started_at : Option ℕ
  pub finished_at : Option ℕ

-- what the worker calls of the transport
pub data Call : Type 0 where
  push : ℕ → Call
  ack : String → Call

-- how a handler ends: it returns, or it raises, with the text `TypeName: message`
pub data Outcome (R : Type 0) : Type 0 where
  returned : Option R → Outcome R
  raised : String → Outcome R

pub record Delivery : Type 0 where
  pub entry : String
  pub job_id : ℕ
  pub now : ℕ
  pub later : ℕ

-- `status in allowed` of `claim`
abbrev pub is_claimable : Bool → JobStatus → Bool
is_claimable reclaim queued = true
is_claimable reclaim running = reclaim
is_claimable reclaim _ = false

-- `max(0, min(100, percent))`
unfoldable pub clamp_percent : ℤ → ℤ
clamp_percent (negsuc n) = pos 0
clamp_percent (pos n) = pos (if ltb n 100 then n else 100)

-- the rows by their ids
abbrev pub Table : Type 0 → Type 0 → Type 0
Table P R = List (ℕ × Job P R)

-- a handler, which sees the time and the payload: its calls of `progress`, and its end
abbrev pub Handler : Type 0 → Type 0 → Type 0
Handler P R = ℕ → P → List ℤ × Outcome R

module _ {P R : Type 0} where
  -- `enqueue`, with the id and the time that the row gets
  unfoldable pub enqueue : ℕ → ℕ → String → P → Option ℕ → Table P R → Table P R × List Call
  enqueue id now job_type payload user_id db = (
    put_key id
        (record {
          job_type = job_type;
          status = queued;
          progress = pos 0;
          attempts = 0;
          user_id = user_id;
          payload = payload;
          result = none;
          error = none;
          created_at = now;
          started_at = none;
          finished_at = none;
        })
        db,
    push id ∷ [],
  )

  abbrev pub start : ℕ → Job P R → Job P R
  start now j = record j { status = running; started_at = some now; attempts = j.attempts + 1 }

  -- `claim`: the update of the row and the row that is read after it
  unfoldable pub claim : Bool → ℕ → ℕ → Table P R → Option (Job P R) × Table P R
  claim reclaim now k db = elim (get_key k db) [
    | none ↦ (none, db)
    | some j ↦
        if is_claimable reclaim j.status
        then (get_key k (modify k (start now) db), modify k (start now) db)
        else (none, db)
  ]

  unfoldable pub set_progress : ℕ → ℤ → Table P R → Table P R
  set_progress k percent db = modify k (λ j. record j { progress = clamp_percent percent }) db

  abbrev pub finish : ℕ → R → Job P R → Job P R
  finish later result j = record j {
    status = done;
    progress = pos 100;
    result = some result;
    finished_at = some later;
  }

  unfoldable pub complete : ℕ → ℕ → R → Table P R → Table P R
  complete later k result db = modify k (finish later result) db

  abbrev pub record_failure : Bool → ℕ → String → Job P R → Job P R
  record_failure retry later error j = record j {
    error = some error;
    status = if retry then queued else failed;
    finished_at = if retry then j.finished_at else some later;
  }

  -- `fail`, with the attempts of the object that the caller holds
  unfoldable pub fail : ℕ → ℕ → ℕ → ℕ → String → Table P R → Bool × Table P R
  fail max_attempts attempts later k error db =
      let retry = ltb attempts max_attempts in
      (retry, modify k (record_failure retry later error) db)

  unfoldable pub find_handler : String → List (String × Handler P R) → Option (Handler P R)
  find_handler t [] = none
  find_handler t ((u, h) ∷ rest) =
      let found = find_handler t rest in if str_eq u t then some h else found

  -- `Worker.register`
  unfoldable pub register :
      String → Handler P R → List (String × Handler P R) → Result (List (String × Handler P R))
  register t h handlers =
      if is_some (find_handler t handlers)
      then err (value_error (str_append "handler already registered: " t))
      else ok (handlers ++ ((t, h) ∷ []))

  -- the calls of `progress`, one after the other
  unfoldable pub report : ℕ → List ℤ → Table P R → Table P R
  report k [] db = db
  report k (p ∷ ps) db = report k ps (set_progress k p db)

  module _ (empty : R) (max_attempts : ℕ) where
    -- `_process` for a type without a handler: no attempt is left
    unfoldable pub reject : Delivery → Job P R → Table P R → Table P R × List Call
    reject d j db = (
      (fail max_attempts max_attempts d.later d.job_id
          (str_append "no handler for job type: " j.job_type)
          (modify d.job_id (λ r. record r { attempts = max_attempts }) db)).1,
      ack d.entry ∷ [],
    )

    -- `_process` after the end of the handler
    unfoldable pub settle : Delivery → Job P R → Outcome R → Table P R → Table P R × List Call
    settle d j (returned result) db =
        (complete d.later d.job_id (or_else result empty) db, ack d.entry ∷ [])
    settle d j (raised error) db =
        let (retry, after) = fail max_attempts j.attempts d.later d.job_id error db in
        (after, if retry then push d.job_id ∷ ack d.entry ∷ [] else ack d.entry ∷ [])

    module _ (handlers : List (String × Handler P R)) where
      -- `_process` on the object that was claimed
      unfoldable pub handle : Delivery → Job P R → Table P R → Table P R × List Call
      unfolding reject settle
      handle d j db = elim (find_handler j.job_type handlers) [
        | none ↦ reject d j db
        | some handler ↦
            let (reports, outcome) = handler d.now j.payload in
            settle d j outcome (report d.job_id reports db)
      ]

      -- `_process` after the claim
      abbrev pub serve : Delivery → Option (Job P R) × Table P R → Table P R × List Call
      serve d (none, after) = (after, ack d.entry ∷ [])
      serve d (some j, after) = handle d j after

      -- `Worker._process`
      unfoldable pub process : Bool → Delivery → Table P R → Table P R × List Call
      process reclaimed d db = serve d (claim reclaimed d.now d.job_id db)

      unfoldable pub process_all : Bool → List Delivery → Table P R → Table P R × List Call
      process_all reclaimed [] db = (db, [])
      process_all reclaimed (d ∷ ds) db =
          let (after, calls) = process reclaimed d db in
          let (last, more) = process_all reclaimed ds after in (last, calls ++ more)

      -- `Worker.run_once`, with what `reclaim` and `pull` deliver
      unfoldable pub run_once :
          List Delivery → List Delivery → Table P R → ℕ × (Table P R × List Call)
      run_once abandoned fresh db =
          let (between, calls) = process_all true abandoned db in
          let (last, more) = process_all false fresh between in
          (length abandoned + length fresh, (last, calls ++ more))
