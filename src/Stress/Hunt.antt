-- ===== src/Stress/Hunt.antt =====
-- What a result of `StressTester.hunt` says (backend/judge/app/stress/runner.py).
use yandex_codeforces_analyz.Prelude.{
  append_named, ℕ, zero, suc, ◌+◌, ◌-◌, ◌≤◌, String, ◌≡◌, refl, sym, subst, ◌⊎◌, inl, inr, true,
  false, Option, none, some, List, [], ◌∷◌, arith, Bool-cases, Option-cases, str_append,
  str_is_empty, str_or, Floats,
}
use yandex_codeforces_analyz.Sandbox.{
  Result, ok, err, sandbox_error, value_error, unknown_language, ◌>>=◌, RunResult, RunLimits,
  is_ok_run, Ensures, Ensures-bind, Ensures-ok, from_problem, Session,
}
use yandex_codeforces_analyz.Languages.{Language, CompileResult, get_language, compile_source}
use yandex_codeforces_analyz.Engine.Scoring.{Verdict}
use yandex_codeforces_analyz.Engine.{CheckOutcome, from_run_status, run_checker}
use yandex_codeforces_analyz.Stress.{
  Counterexample, StressResult, stuck, found_at, compile_each, is_blamed, snapshot, stop_at,
  after_check, judge_round, round, hunt_from, hunt_compiled, hunt_in_box, as_stuck, hunt,
}

module _ {Bytes : Type 0} where
  -- a result that names a test of the seed, and one that blames a stage
  abbrev FoundAt : ℕ → StressResult Bytes → Type 0
  FoundAt seed r = (c : Counterexample Bytes) × (c.seed ≡ seed) × (r ≡ found_at seed c)

  abbrev StuckAt : ℕ → StressResult Bytes → Type 0
  StuckAt n r =
      (stage : String) × (error : String) × (str_is_empty stage ≡ false) × (r ≡ stuck n stage error)

  abbrev Ends : ℕ → Option (StressResult Bytes) → Type 0
  Ends seed none = Unit
  Ends seed (some r) = FoundAt seed r ⊎ StuckAt (seed - 1) r

  abbrev Broken : Option (StressResult Bytes) → Type 0
  Broken none = Unit
  Broken (some r) = StuckAt 0 r

  -- what a result of a hunt of so many iterations says
  pub record IsHunt (iterations : ℕ) (r : StressResult Bytes) : Type 0 where
    pub within : r.iterations ≤ iterations
    pub broken :
        r.is_found ≡ true
        → (r.failed_stage ≡ "")
          × ((c : Counterexample Bytes) × (r.counterexample ≡ some c)
              × (c.seed ≡ r.iterations)
              × (1 ≤ c.seed))
    pub unbroken : r.is_found ≡ false → r.counterexample ≡ none
    pub survived_all : r.is_found ≡ false → r.failed_stage ≡ "" → r.iterations ≡ iterations

  found-IsHunt :
      (iterations seed : ℕ) (r : StressResult Bytes)
      → 1 ≤ seed
      → seed ≤ iterations
      → FoundAt seed r
      → IsHunt iterations r
  found-IsHunt iterations seed r low high (c, same, e) = subst (IsHunt iterations) (sym e) (record {
    within = high;
    broken = λ _. (refl, (c, refl, same, ground (arith, same)));
    unbroken = λ n. absurd (ground arith);
    survived_all = λ n. absurd (ground arith);
  })

  stuck-IsHunt :
      (iterations n : ℕ) (r : StressResult Bytes)
      → n ≤ iterations
      → StuckAt n r
      → IsHunt iterations r
  stuck-IsHunt iterations n r high (stage, error, named, e) =
      subst (IsHunt iterations) (sym e) (record {
        within = high;
        broken = λ n'. absurd (ground arith);
        unbroken = λ _. refl;
        survived_all =
            λ _ blank. absurd (ground (arith, subst (λ s. str_is_empty s ≡ false) blank named));
      })

module _ (fl : Floats) (se : Session) (cut : ℕ → se.Bytes → se.Bytes) where
  open fl use {Float}
  open se use {Box, Bytes, open_box, read_file, run_program}

  snapshot_seed :
      (seed : ℕ) (input : Bytes) (reason : String) (box : Box)
      → Ensures (λ c. c.seed ≡ seed) (snapshot fl se cut seed input reason box)
  unfolding snapshot
  snapshot_seed seed input reason box =
      Ensures-bind _ (read_file "expected.txt" _ box) _
        λ a _. Ensures-bind _ (read_file "actual.txt" _ box) _ λ b _. Ensures-ok _ _ refl

  abbrev EndsRound : ℕ → Result (Option (StressResult Bytes) × Box) → Type 0
  EndsRound seed m = Ensures (λ o. Ends seed o.0) m

  stop_at-Ends :
      (seed : ℕ) (input : Bytes) (reason : String) (box : Box)
      → EndsRound seed (stop_at fl se cut seed input reason box)
  stop_at-Ends seed input reason box =
      Ensures-bind _ (snapshot fl se cut seed input reason box) _
        λ c e. Ensures-ok _ _ (inl (c, (snapshot_seed seed input reason box).holds c e, refl))

  after_check-Ends :
      (seed : ℕ) (input : Bytes) (comment : String) (v : Verdict) (box : Box)
      → EndsRound seed (after_check fl se cut seed input comment v box)
  unfolding after_check
  after_check-Ends seed input comment Verdict.internal_error box =
      Ensures-ok _ _ (inr ("checker", str_or comment "the checker broke", refl, refl))
  after_check-Ends seed input comment Verdict.ok box = Ensures-ok _ _ tt
  after_check-Ends seed input comment Verdict.wrong_answer box = stop_at-Ends seed input _ box
  after_check-Ends seed input comment Verdict.time_limit box = stop_at-Ends seed input _ box
  after_check-Ends seed input comment Verdict.memory_limit box = stop_at-Ends seed input _ box
  after_check-Ends seed input comment Verdict.runtime_error box = stop_at-Ends seed input _ box
  after_check-Ends seed input comment Verdict.presentation_error box = stop_at-Ends seed input _ box
  after_check-Ends seed input comment Verdict.compile_error box = stop_at-Ends seed input _ box

  judge_round-Ends :
      (seed : ℕ) (input : Bytes) (run : RunResult) (box : Box)
      → EndsRound seed (judge_round fl se cut seed input run box)
  unfolding judge_round
  judge_round-Ends seed input run box =
      elim (Option-cases (is_blamed (from_run_status run.status))) [
        | inr (v, crashed) ↦ rw (crashed, judge_round) (stop_at-Ends seed input _ box)
        | inl clean ↦
            rw (clean, judge_round)
              (Ensures-bind {A = CheckOutcome Float × Box} _
                (run_checker fl se "input.txt" "actual.txt" "expected.txt" box) _
                λ o _. after_check-Ends seed input o.0.comment o.0.verdict o.1)
      ]

  round-Ends :
      (gen jury candidate : List String) (args : String) (limits : RunLimits) (seed : ℕ) (box : Box)
      → EndsRound seed (round fl se cut gen jury candidate args limits seed box)
  unfolding round
  round-Ends gen jury candidate args limits seed box =
      Ensures-bind {A = RunResult × Box} _ (run_program _ _ _ _ _ box) _ λ made _.
        elim (Bool-cases (is_ok_run made.0.status)) [
          | inr f ↦ rw f (Ensures-ok _ _ (inr ("generator", _, refl, refl)))
          | inl t ↦ rw t (
              Ensures-bind _ (read_file "input.txt" none made.1) _ λ input _.
                Ensures-bind {A = RunResult × Box} _ (run_program jury _ _ _ _ made.1) _ λ solved _.
                  elim (Bool-cases (is_ok_run solved.0.status)) [
                    | inr f ↦ rw f (Ensures-ok _ _ (inr ("reference", _, refl, refl)))
                    | inl t' ↦ rw t' (
                        Ensures-bind {A = RunResult × Box} _
                          (run_program candidate _ _ _ _ solved.1) _
                          λ run _. judge_round-Ends seed input run.0 run.1)
                  ])
        ]

  next-IsHunt :
      (iterations seed : ℕ) (o : Option (StressResult Bytes))
      → 1 ≤ seed
      → seed ≤ iterations
      → (rest : Result (StressResult Bytes)) → Ensures (IsHunt iterations) rest
      → Ends seed o
      → Ensures (IsHunt iterations) (elim o [ some result ↦ ok result | none ↦ rest ])
  next-IsHunt iterations seed none low high rest all h = all
  next-IsHunt iterations seed (some r) low high rest all (inl here) =
      Ensures-ok _ _ (found-IsHunt iterations seed r low high here)
  next-IsHunt iterations seed (some r) low high rest all (inr there) =
      Ensures-ok _ _ (stuck-IsHunt iterations (seed - 1) r (omega arith) there)

  ready-IsHunt :
      (iterations : ℕ) (o : Option (StressResult Bytes)) (rest : Result (StressResult Bytes))
      → Ensures (IsHunt iterations) rest
      → Broken o
      → Ensures (IsHunt iterations) (elim o [ some result ↦ ok result | none ↦ rest ])
  ready-IsHunt iterations none rest all h = all
  ready-IsHunt iterations (some r) rest all there =
      Ensures-ok _ _ (stuck-IsHunt iterations 0 r (omega arith) there)

  hunt_from-IsHunt :
      (play : ℕ → Box → Result (Option (StressResult Bytes) × Box)) (iterations left seed : ℕ)
      (box : Box)
      → ((s : ℕ) (b : Box) → EndsRound s (play s b))
      → 1 ≤ seed
      → seed + left ≡ iterations + 1
      → Ensures (IsHunt iterations) (hunt_from fl se cut play iterations left seed box)
  unfolding hunt_from
  hunt_from-IsHunt play iterations zero seed box ends low all = Ensures-ok _ _ (record {
    within = omega arith;
    broken = λ n. absurd (ground arith);
    unbroken = λ _. refl;
    survived_all = λ _ _. refl;
  })
  hunt_from-IsHunt play iterations (suc left) seed box ends low all =
      Ensures-bind {A = Option (StressResult Bytes) × Box} _ (play seed box) _ λ p e.
        next-IsHunt iterations seed p.0 low (omega arith)
          (hunt_from fl se cut play iterations left (suc seed) p.1)
          (hunt_from-IsHunt play iterations left (suc seed) p.1 ends (omega arith) (omega arith))
          ((ends seed box).holds p e)

  module _ {F : Type 0} where
    compile_each-Broken :
        (language : Language F) (sources : List (String × Bytes × String)) (box : Box)
        → Ensures (λ o. Broken o.0) (compile_each se language sources box)
    unfolding compile_each
    compile_each-Broken language [] box = Ensures-ok _ _ tt
    compile_each-Broken language ((label, code, binary) ∷ rest) box =
        Ensures-bind {A = CompileResult × Box} _ (compile_source se language code [] binary box) _
          λ c _. elim (Bool-cases c.0.is_ok) [
            | inl t ↦ rw t (compile_each-Broken language rest c.1)
            | inr f ↦ rw f (
                Ensures-ok _ _
                  (str_append "compile " label, _, append_named "compile " label refl, refl))
          ]

  module _ (registry : List (Language Float)) where
    hunt_compiled-IsHunt :
        (language : Language Float) (checker : Bytes) (args : String) (iterations : ℕ)
        (limits : RunLimits) (box : Box)
        → Ensures
            (IsHunt iterations)
            (hunt_compiled fl se cut registry language checker args iterations limits box)
    unfolding hunt_compiled
    hunt_compiled-IsHunt language checker args iterations limits box =
        Ensures-bind {A = Language Float} _ (get_language registry "cpp") _ λ cpp _.
          Ensures-bind {A = CompileResult × Box} _ (compile_source se cpp checker [] "checker" box)
            _
            λ c _. elim (Bool-cases c.0.is_ok) [
              | inr f ↦ rw f (
                  Ensures-ok _ _
                    (stuck-IsHunt iterations 0 _ (omega arith) ("compile checker", _, refl, refl)))
              | inl t ↦ rw t (
                  hunt_from-IsHunt _ iterations iterations 1 c.1
                    (λ s b. round-Ends _ _ _ args limits s b) (omega arith) (omega arith))
            ]

    as_stuck-IsHunt :
        (iterations : ℕ) (m : Result (StressResult Bytes))
        → Ensures (IsHunt iterations) m
        → Ensures (IsHunt iterations) (as_stuck fl se cut registry m)
    as_stuck-IsHunt iterations (ok r) h = h
    as_stuck-IsHunt iterations (err (sandbox_error text)) h =
        Ensures-ok _ _ (stuck-IsHunt iterations 0 _ (omega arith) ("sandbox", text, refl, refl))
    as_stuck-IsHunt iterations (err (value_error text)) h = record { holds = λ r e. cc }
    as_stuck-IsHunt iterations (err (unknown_language id)) h = record { holds = λ r e. cc }

    compile_each_of :
        (language : Language Float) (sources : List (String × Bytes × String)) (m : Result Box)
        → Ensures (λ o. Broken o.0) (m >>= compile_each se language sources)
    compile_each_of language sources m =
        Ensures-bind _ m _ λ box _. compile_each-Broken language sources box

    -- A hunt never reports more iterations than it was given. A test that it found comes with its
    -- seed, which is the number of iterations and at least 1, and with no failed stage; a hunt that
    -- found none has no test to show, and one that found none and names no failed stage went through
    -- all its iterations.
    pub hunt-IsHunt :
        (candidate reference generator checker : Bytes) (args : String) (iterations time memory : ℕ)
        (id : String) (res : StressResult Bytes)
        → hunt fl se cut registry candidate reference generator checker args iterations time memory
            id
          ≡ ok res
        → IsHunt iterations res
    unfolding hunt hunt_in_box
    hunt-IsHunt candidate reference generator checker args iterations time memory id res h =
        (as_stuck-IsHunt iterations _ (
            Ensures-bind {A = Language Float} _ (get_language registry id) _ λ language _.
              Ensures-bind {A = RunLimits} _ (from_problem fl time memory language.tl_multiplier) _
                λ limits _. Ensures-bind {A = Option (StressResult Bytes) × Box} _ _ _ λ p e.
                  ready-IsHunt iterations p.0
                    (hunt_compiled fl se cut registry language checker args iterations limits p.1)
                    (hunt_compiled-IsHunt language checker args iterations limits p.1)
                    ((compile_each_of language _ open_box).holds p e))).holds
          res h
