-- ===== src/Jobs/Tests.antt =====
-- Runs of the worker, and each theorem at a concrete input.
use yandex_codeforces_analyz.Prelude.{
  ℕ, ◌+◌, ◌≤◌, ◌<◌, String, ◌≡◌, refl, ◌⊎◌, false, none, List, [], ◌∷◌, ltb, if◌then◌else◌, get_key,
  put_key, modify, pos,
}
use yandex_codeforces_analyz.Jobs.{
  Job, Table, queued, running, Call, push, ack, returned, raised, Delivery, Handler, clamp_percent,
  enqueue, claim, set_progress, complete, fail, find_handler, report, reject, settle, handle,
  process, process_all, run_once,
}
use yandex_codeforces_analyz.Jobs.Settled.{IsSettled, process-IsSettled}
use yandex_codeforces_analyz.Jobs.Bounds.{
  acked, pushed, pushes, attempts_left, run_once_acks, run_once-pushes,
}
use yandex_codeforces_analyz.Jobs.Kept.{HasStatus, Undelivered, run_once_keeps}

-- a handler that reports half of its work and fails at its first two times
abbrev flaky : Handler String String
flaky now payload =
    (pos 50 ∷ pos 140 ∷ [], if ltb now 2 then raised "ValueError: busy" else returned none)

abbrev handlers : List (String × Handler String String)
handlers = ("judge", flaky) ∷ []

abbrev delivery : String → ℕ → Delivery
delivery entry now = record { entry = entry; job_id = 7; now = now; later = now + 1 }

abbrev fresh_job : Job String String
fresh_job = record {
  job_type = "judge";
  status = queued;
  progress = pos 0;
  attempts = 0;
  user_id = none;
  payload = "submission";
  result = none;
  error = none;
  created_at = 0;
  started_at = none;
  finished_at = none;
}

abbrev table : Table String String
table = (7, fresh_job) ∷ []

enqueued : enqueue 7 0 "judge" "submission" none [] ≡ (table, push 7 ∷ [])
unfolding enqueue put_key
enqueued = refl

abbrev pass : ℕ × (Table String String × List Call)
pass = run_once "{}" 3 handlers (delivery "a" 1 ∷ []) (delivery "b" 2 ∷ delivery "c" 3 ∷ []) table

retried_then_done : pass.1.1 ≡ push 7 ∷ ack "a" ∷ ack "b" ∷ ack "c" ∷ []
unfolding run_once process_all process handle settle reject claim report set_progress complete fail
    find_handler get_key modify clamp_percent
retried_then_done = refl

process-IsSettled_example :
    IsSettled "{}" 3
      (delivery "a" 1)
      fresh_job
      (process "{}" 3 handlers false (delivery "a" 1) table)
unfolding get_key
process-IsSettled_example =
    process-IsSettled "{}" 3 handlers false (delivery "a" 1) table fresh_job refl refl

run_once_acks_example : (acked pass.1.1 ≡ "a" ∷ "b" ∷ "c" ∷ []) × (pass.0 ≡ 3)
run_once_acks_example =
    run_once_acks "{}" 3 handlers (delivery "a" 1 ∷ []) (delivery "b" 2 ∷ delivery "c" 3 ∷ []) table

run_once-pushes_example :
    pushes 7 (pushed pass.1.1) + attempts_left "{}" 3 handlers 7 pass.1.0
    ≤ attempts_left "{}" 3 handlers 7 table
run_once-pushes_example =
    run_once-pushes "{}" 3 handlers (delivery "a" 1 ∷ []) (delivery "b" 2 ∷ delivery "c" 3 ∷ [])
      table 7

run_once_keeps_example :
    (HasStatus queued 7 pass.1.0
      → (0 < pushes 7 (pushed pass.1.1))
        ⊎ (HasStatus queued 7 table
            × Undelivered 7 (delivery "a" 1 ∷ [])
            × Undelivered 7 (delivery "b" 2 ∷ delivery "c" 3 ∷ [])))
    × (HasStatus running 7 pass.1.0
        → HasStatus running 7 table × Undelivered 7 (delivery "a" 1 ∷ []))
run_once_keeps_example =
    run_once_keeps "{}" 3 handlers (delivery "a" 1 ∷ []) (delivery "b" 2 ∷ delivery "c" 3 ∷ [])
      table 7
