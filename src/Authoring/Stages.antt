-- ===== src/Authoring/Stages.antt =====
-- One stage of a build, and the plan of its tests (backend/judge/app/authoring/builder.py).
use yandex_codeforces_analyz.Prelude.{
  ℕ, suc, ◌+◌, String, ◌≡◌, refl, subst, inl, inr, false, Option, none, some, ◌⊎◌, str_append, List,
  [], ◌∷◌, ◌++◌, map, arith, Bool-cases, is_some, length,
}
use yandex_codeforces_analyz.Sandbox.{
  Result, ok, RunResult, is_ok_run, Ensures, Ensures-bind, Ensures-ok, Session,
}
use yandex_codeforces_analyz.Languages.{
  Language, CompileResult, compile_source, run_command, source_file,
}
use yandex_codeforces_analyz.Authoring.{
  GeneratedTest, ManualTest, BuiltTest, BuildResult, Stage, made, failed_build, read_log,
  jury_limits, failed_stage_at, generate, solve_test, finish_test,
}

module _ {Bytes F : Type 0} where
  -- what holds of a stage: of its value, or of the result that ends the build
  abbrev pub Holds :
      {A : Type 0} → (BuildResult Bytes F → Type 0) → (A → Type 0) → Stage Bytes F A → Type 0
  Holds Q P (made a) = P a
  Holds Q P (failed_build r) = Q r

  -- the test has the index, the group and the points that it was planned with
  pub record IsAsPlanned (index : ℕ) (group : Option String) (points : F) (t : BuiltTest Bytes F)
      : Type 0 where
    pub same_index : t.index ≡ index
    pub same_group : t.group ≡ group
    pub same_points : t.points ≡ points

  -- tests that are numbered from the given index on, with the groups and the points that are planned
  abbrev pub AsPlanned : ℕ → List (Option String × F) → List (BuiltTest Bytes F) → Type 0
  AsPlanned index [] [] = Unit
  AsPlanned index [] (t ∷ ts) = ⊥
  AsPlanned index (p ∷ ps) [] = ⊥
  AsPlanned index (p ∷ ps) (t ∷ ts) = IsAsPlanned index p.0 p.1 t × AsPlanned (suc index) ps ts

  pub AsPlanned-snoc :
      (first : ℕ) (ps : List (Option String × F)) (ts : List (BuiltTest Bytes F))
      (p : Option String × F) (t : BuiltTest Bytes F)
      → AsPlanned first ps ts
      → IsAsPlanned (first + length ts) p.0 p.1 t
      → AsPlanned first (ps ++ (p ∷ [])) (ts ++ (t ∷ []))
  AsPlanned-snoc first [] [] p t h last =
      (subst (λ i. IsAsPlanned i p.0 p.1 t) (omega arith) last, tt)
  AsPlanned-snoc first [] (u ∷ ts) p t h last = absurd h
  AsPlanned-snoc first (q ∷ ps) [] p t h last = absurd h
  AsPlanned-snoc first (q ∷ ps) (u ∷ ts) p t h last = (
    h.0,
    AsPlanned-snoc (suc first) ps ts p t h.1
        (subst (λ i. IsAsPlanned i p.0 p.1 t) (omega arith) last),
  )

  abbrev pub planned_manual : List (ManualTest Bytes F) → List (Option String × F)
  planned_manual ts = map (λ t. (t.group, t.points)) ts

abbrev pub planned_generated : {F : Type 0} → List (GeneratedTest F) → List (Option String × F)
planned_generated ts = map (λ t. (t.group, t.points)) ts

-- a member of a list
abbrev pub Among : {A : Type 0} → A → List A → Type 0
Among x [] = ⊥
Among x (y ∷ ys) = (y ≡ x) ⊎ Among x ys

module _ {F : Type 0} (se : Session) (language : Language F) where
  open se use {Box, Bytes, run_program}

  -- the command of a program of the jury
  abbrev pub command_of : String → List String
  command_of binary = run_command language (source_file language binary) binary

  -- Why a stage is named: the program of that name did not compile, or the run of the program that
  -- the stage stands for did not end well. `parts` are the programs that are compiled.
  pub data Cause (parts : List (String × Option Bytes × String)) (stage : String) : Type 0 where
    uncompiled :
        (label : String) (code : Bytes) (binary : String) (box after : Box) (c : CompileResult)
        → Among (label, some code, binary) parts
        → compile_source se language code [] binary box ≡ ok (c, after)
        → c.is_ok ≡ false
        → stage ≡ str_append "compile " label
        → Cause parts stage
    generator_failed :
        (words : List String) (box after : Box) (run : RunResult)
        → run_program
            (command_of "generator" ++ words)
            jury_limits
            none
            (some "input.txt")
            (some "stage.err")
            box
          ≡ ok (run, after)
        → is_ok_run run.status ≡ false
        → stage ≡ "generator"
        → Cause parts stage
    validator_failed :
        (box after : Box) (run : RunResult)
        → run_program
            (command_of "validator")
            jury_limits
            (some "input.txt")
            none
            (some "stage.err")
            box
          ≡ ok (run, after)
        → is_ok_run run.status ≡ false
        → stage ≡ "validator"
        → Cause parts stage
    solution_failed :
        (box after : Box) (run : RunResult)
        → run_program
            (command_of "main")
            jury_limits
            (some "input.txt")
            (some "answer.txt")
            (some "stage.err")
            box
          ≡ ok (run, after)
        → is_ok_run run.status ≡ false
        → stage ≡ "main solution"
        → Cause parts stage

  -- a result that ends a build early: it has no tests, and the stage that it names failed
  pub record IsFailure (parts : List (String × Option Bytes × String)) (r : BuildResult Bytes F)
      : Type 0 where
    pub not_ok : r.is_ok ≡ false
    pub no_tests : r.tests ≡ []
    pub cause : Cause parts r.failed_stage

module _ {F : Type 0} (se : Session) (no_bytes : se.Bytes)
    (shlex_split : String → Result (List String)) (language : Language F)
    (parts : List (String × Option se.Bytes × String)) where
  open se use {Box, Bytes, open_box, put_file, read_file, run_program, decode}

  abbrev Failed : BuildResult Bytes F → Type 0
  Failed = IsFailure se language parts

  failed_stage_at-Holds :
      {A : Type 0} (P : A → Type 0) (stage error : String) (box : Box)
      → Cause se language parts stage
      → Ensures
          (λ o. Holds Failed P o.0)
          (failed_stage_at {F = F} se no_bytes shlex_split stage error box)
  unfolding failed_stage_at
  failed_stage_at-Holds P stage error box h =
      Ensures-bind _ (read_log se box) _
        λ log _. Ensures-ok _ _ (record { not_ok = refl; no_tests = refl; cause = h })

  solve_test-Holds :
      (index : ℕ) (input : Bytes) (group : Option String) (points : F) (origin : String) (box : Box)
      → Ensures
          (λ o. Holds Failed (IsAsPlanned index group points) o.0)
          (solve_test se no_bytes shlex_split language index input group points origin box)
  unfolding solve_test
  solve_test-Holds index input group points origin box =
      Ensures-bind {A = RunResult × Box} _ (run_program _ _ _ _ _ box) _ λ run e.
        elim (Bool-cases (is_ok_run run.0.status)) [
          | inr f ↦ rw f (
              failed_stage_at-Holds _ "main solution" _ run.1
                (Cause.solution_failed _ run.1 run.0 e f refl))
          | inl t ↦ rw t (
              Ensures-bind _ (read_file "answer.txt" none run.1) _ λ answer _.
                Ensures-ok _ _
                  (record { same_index = refl; same_group = refl; same_points = refl }))
        ]

  pub finish_test-Holds :
      (validator : Option Bytes) (index : ℕ) (input : Bytes) (group : Option String) (points : F)
      (origin : String) (box : Box)
      → Ensures
          (λ o. Holds Failed (IsAsPlanned index group points) o.0)
          (finish_test se no_bytes shlex_split language validator index input group points origin
            box)
  unfolding finish_test
  finish_test-Holds validator index input group points origin box =
      Ensures-bind {A = Box} _ (put_file "input.txt" input box) _ λ ready _.
        elim (Bool-cases (is_some validator)) [
          | inr f ↦ rw f (solve_test-Holds index input group points origin ready)
          | inl t ↦ rw t (
              Ensures-bind {A = RunResult × Box} _ (run_program _ _ _ _ _ ready) _ λ check e.
                elim (Bool-cases (is_ok_run check.0.status)) [
                  | inr f ↦ rw f (
                      failed_stage_at-Holds _ "validator" _ check.1
                        (Cause.validator_failed _ check.1 check.0 e f refl))
                  | inl t' ↦ rw t' (solve_test-Holds index input group points origin check.1)
                ])
        ]

  pub generate-Holds :
      (args : String) (box : Box)
      → Ensures
          (λ o. Holds Failed (λ _. Unit) o.0)
          (generate se no_bytes shlex_split language args box)
  unfolding generate
  generate-Holds args box = Ensures-bind {A = List String} _ (shlex_split args) _ λ words _.
      Ensures-bind {A = RunResult × Box} _ (run_program _ _ _ _ _ box) _ λ run e.
        elim (Bool-cases (is_ok_run run.0.status)) [
          | inr f ↦ rw f (
              failed_stage_at-Holds _ "generator" _ run.1
                (Cause.generator_failed words _ run.1 run.0 e f refl))
          | inl t ↦
              rw t
                (Ensures-bind _ (read_file "input.txt" none run.1) _ λ input _. Ensures-ok _ _ tt)
        ]
