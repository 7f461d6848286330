-- ===== src/Lib.antt =====
-- YandexCodeforcesAnalyzer: the judge, the job queue and the contest board of the backend.
--
-- The program judges submissions in isolate boxes, runs background jobs from a queue, builds and
-- stress-tests problems with the code of the jury, and shows the board of a contest. The files follow
-- these parts:
--
-- Scoreboard (backend/api/judge/scoreboard.py): `build_rows` folds the submissions of a contest into
--   the cells of its participants, `rank` sorts the rows and `places` numbers them; the proofs are in
--   Rows, Cells, Order and Places.
-- Sandbox (backend/judge/app/sandbox): Sandbox.antt has the limits, the outcome of a run and the
--   interface of a box, Meta the meta file of isolate (`parse_meta`, `classify`, `build_result`),
--   Command its command line, Pool the leases of box ids, and Pool/Leases their interleavings.
-- Languages (backend/judge/app/languages): the registry and `compile_source`.
-- Engine (backend/judge/app/engine): Scoring has `score_tests`, Engine.antt the checker and the judge;
--   the proofs are in Amounts, Scores, Paid, Verdicts, Judged and Failures.
-- Stress (backend/judge/app/stress): `hunt`. Authoring (backend/judge/app/authoring): `build`, with the
--   proofs in Stages, Loops and Built.
-- Grading (backend/api/judge/grading.py, backend/models/judge): `grade`, from the tables to the tables,
--   with the unique constraint of the runs; the proofs are in Insert and Outcome.
-- The script lines and groups of a problem (services/ai-authoring/authoring/pipeline/groups.py):
--   Plan.antt has the lines and Plan/Assign the assignment of tests to groups; the proofs are in Lines and
--   Partition.
-- Packaging (backend/judge/app/packaging): `export` and `materialize` of the native format; the proofs
--   are in Members, Files, Held, RoundTrip and Complete.
-- Locks (backend/judge/app/authoring/lock.py): the locks of a build, alone (Covered, Exclusive) and against their
--   promise (Same).
-- Repair (backend/api/user/gpt/services/build/package_loop.py): `build_and_poll`, over the record
--   `Services` (Interface), with one build and its wait (Wait); the proofs are in Rounds, Polls, Watch and Tries.
-- Scoring (backend/api/user/gpt/services/build/scoring_groups.py): `assign_tests_to_groups`, with its
--   proofs in Slices.
-- Archive (backend/api/user/polygon/archive/jobs.py): the table of import jobs, with its proofs in
--   Bounds.
-- Runner (services/ai-authoring/authoring/pipeline/runner.py): the worker of the runs, as steps in any
--   order; the proofs are in Table, Rows, Safe, Drain, Rest and Sweep.
-- Jobs (backend/jobs, backend/models/jobs): the rows of the jobs table and the worker; the proofs are
--   in Settled, Bounds and Kept.
--
-- How they interact: Engine, Stress and Authoring run programs through the record `Session` of Sandbox
-- and compile through Languages; Stress reuses the checker of Engine. Coroutines are functions into
-- `Result`, whose error is the exception; the state of a box is passed on from call to call.
--
-- Parameters: `Floats` is Python's float with the operations that the code uses, and `IsLawful` what
-- the proofs use of it: an order, and addition, multiplication and rounding that respect it. NaN is
-- left out but where a text is read as a number, and so are the infinities: the laws do not hold of
-- them, and `round` of one raises where `seconds_to_ms` returns. Samples has whole numbers as an instance. `Session`
-- is isolate's box with what put_file, read_file and run do. The handlers of the worker, the deliveries
-- of Redis, the clock, shlex.split, zipfile and json (`Libraries`), the keys of Redis (`Redis`, with
-- `IsRedis`), Polygon and the language model as `Services` on a state of the world, the blob store and the judge service are arguments. Numbers that
-- the code never makes negative are ℕ.
--
-- Bounds: all loops are structural recursion, but for the digits of `str(n)`, which have n + 1 units of
-- fuel, one more than a division by ten can use up, and for the two loops of `build_and_poll`: a wait
-- looks at most 60 times and has 61 units, and the repair makes at most 12 attempts and has 13.
--
-- Not modelled: the web routes, the database and Redis behind them, the clients of Polygon, Codeforces,
-- Yandex, ejudge and nlogn, the prompts of the language models, the plagiarism engine (C++) and the frontend; progress
-- hooks and logging, which only report.
pub mod Prelude
mod Samples
pub mod Scoreboard
pub mod Sandbox
pub mod Languages
pub mod Engine
pub mod Jobs
pub mod Stress
pub mod Authoring
pub mod Plan
pub mod Grading
pub mod Packaging
pub mod Repair
pub mod Runner
pub mod Locks
pub mod Scoring
pub mod Archive
