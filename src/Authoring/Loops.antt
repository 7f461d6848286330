-- ===== src/Authoring/Loops.antt =====
-- The two loops of `_build` over the tests (backend/judge/app/authoring/builder.py).
use yandex_codeforces_analyz.Prelude.{
  ℕ, suc, String, ◌≡◌, sym, subst, Option, List, [], ◌∷◌, ◌++◌, append-nil, append_assoc, arith,
  length, length-append,
}
use yandex_codeforces_analyz.Sandbox.{Result, ok, Ensures, Ensures-bind, Ensures-ok, Session}
use yandex_codeforces_analyz.Languages.{Language}
use yandex_codeforces_analyz.Authoring.{
  GeneratedTest, ManualTest, BuiltTest, BuildResult, Stage, made, failed_build, generate,
  finish_test, generated_loop, manual_loop,
}
use yandex_codeforces_analyz.Authoring.Stages.{
  IsFailure, Holds, IsAsPlanned, AsPlanned, AsPlanned-snoc, planned_manual, planned_generated,
  finish_test-Holds, generate-Holds,
}

module _ {F : Type 0} (se : Session) (no_bytes : se.Bytes)
    (shlex_split : String → Result (List String)) (language : Language F)
    (parts : List (String × Option se.Bytes × String)) where
  open se use {Box, Bytes, open_box, put_file, read_file, run_program, decode}

  abbrev pub Failed : BuildResult Bytes F → Type 0
  Failed = IsFailure se language parts

  -- the tests built so far, and those that the rest of the loops adds
  abbrev pub Builds :
      List (Option String × F) → Result (Stage Bytes F (List (BuiltTest Bytes F))) → Type 0
  Builds ps m = Ensures (Holds Failed (AsPlanned 1 ps)) m

  on_stage :
      {A B : Type 0} (P : A → Type 0) (Q : B → Type 0) (o : Stage Bytes F A)
      (next : A → Result (Stage Bytes F B))
      → Holds Failed P o
      → ((a : A) → P a → Ensures (Holds Failed Q) (next a))
      → Ensures (Holds Failed Q) (elim o [ made a ↦ next a | failed_build r ↦ ok (failed_build r) ])
  on_stage P Q (made a) next h k = k a h
  on_stage P Q (failed_build r) next h k = Ensures-ok _ _ h

  one_more :
      (so_far rest : List (Option String × F)) (p : Option String × F) (n : ℕ)
      (tests : List (BuiltTest Bytes F)) (t : BuiltTest Bytes F)
      → n ≡ length tests
      → AsPlanned 1 so_far tests
      → IsAsPlanned (suc n) p.0 p.1 t
      → (AsPlanned 1 (so_far ++ (p ∷ [])) (tests ++ (t ∷ []))
          × (suc n ≡ length (tests ++ (t ∷ []))))
        × ((so_far ++ (p ∷ [])) ++ rest ≡ so_far ++ (p ∷ rest))
  one_more so_far rest p n tests t size h new = (
    (
      AsPlanned-snoc 1 so_far tests p t h
          (subst (λ i. IsAsPlanned i p.0 p.1 t) (omega (arith, size)) new),
      ground (arith, size, length-append tests (t ∷ [])),
    ),
    append_assoc so_far (p ∷ []) rest,
  )

  generated_loop-Builds :
      (validator : Option Bytes) (so_far : List (Option String × F)) (n : ℕ)
      (tests : List (BuiltTest Bytes F)) (ts : List (GeneratedTest F)) (box : Box)
      → n ≡ length tests
      → AsPlanned 1 so_far tests
      → Builds
          (so_far ++ planned_generated ts)
          (generated_loop se no_bytes shlex_split language validator n tests ts box)
  unfolding generated_loop
  generated_loop-Builds validator so_far n tests [] box size h =
      Ensures-ok _ _ (subst (λ ps. AsPlanned 1 ps tests) (sym (append-nil so_far)) h)
  generated_loop-Builds validator so_far n tests (t ∷ ts) box size h =
      Ensures-bind {A = Stage Bytes F Bytes × Box} _
        (generate se no_bytes shlex_split language t.args box) _
        λ input e.
          on_stage (λ _. Unit) _ input.0 _
            ((generate-Holds se no_bytes shlex_split language parts t.args box).holds input e)
            λ bytes _.
              Ensures-bind {A = Stage Bytes F (BuiltTest Bytes F) × Box} _
                (finish_test se no_bytes shlex_split language validator (suc n) bytes t.group
                  t.points _ input.1)
                _
                λ built e'.
                  on_stage (IsAsPlanned (suc n) t.group t.points) _ built.0 _
                    ((finish_test-Holds se no_bytes shlex_split language parts validator (suc n)
                        bytes t.group t.points _ input.1).holds
                      built e')
                    λ test new.
                      let ((more, size'), same) =
                        one_more so_far (planned_generated ts) (t.group, t.points) n tests test size
                          h new in
                      subst
                        (λ ps. Builds ps (
                          generated_loop se no_bytes shlex_split language validator (suc n)
                            (tests ++ (test ∷ [])) ts built.1))
                        same
                        (generated_loop-Builds validator (so_far ++ ((t.group, t.points) ∷ []))
                          (suc n) (tests ++ (test ∷ [])) ts built.1 size' more)

  pub manual_loop-Builds :
      (validator : Option Bytes) (planned : List (GeneratedTest F))
      (so_far : List (Option String × F)) (n : ℕ) (tests : List (BuiltTest Bytes F))
      (ts : List (ManualTest Bytes F)) (box : Box)
      → n ≡ length tests
      → AsPlanned 1 so_far tests
      → Builds
          (so_far ++ (planned_manual ts ++ planned_generated planned))
          (manual_loop se no_bytes shlex_split language validator planned n tests ts box)
  unfolding manual_loop
  manual_loop-Builds validator planned so_far n tests [] box size h =
      generated_loop-Builds validator so_far n tests planned box size h
  manual_loop-Builds validator planned so_far n tests (t ∷ ts) box size h =
      Ensures-bind {A = Stage Bytes F (BuiltTest Bytes F) × Box} _
        (finish_test se no_bytes shlex_split language validator (suc n) t.input_data t.group
          t.points _ box)
        _
        λ built e'.
          on_stage (IsAsPlanned (suc n) t.group t.points) _ built.0 _
            ((finish_test-Holds se no_bytes shlex_split language parts validator (suc n)
                t.input_data t.group t.points _ box).holds
              built e')
            λ test new.
              let ((more, size'), same) =
                one_more so_far (planned_manual ts ++ planned_generated planned) (t.group, t.points)
                  n tests test size h new in
              subst
                (λ ps. Builds ps (
                  manual_loop se no_bytes shlex_split language validator planned (suc n)
                    (tests ++ (test ∷ [])) ts built.1))
                same
                (manual_loop-Builds validator planned (so_far ++ ((t.group, t.points) ∷ [])) (suc n)
                  (tests ++ (test ∷ [])) ts built.1 size' more)
