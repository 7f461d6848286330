-- ===== src/Scoreboard/Cells.antt =====
-- The cells of a row (backend/api/judge/scoreboard.py, the loop of `build_rows`) against what ICPC
-- and IOI scoring mean, stated on the submissions themselves.
use yandex_codeforces_analyz.Prelude.{
  ℕ, ◌+◌, String, ◌≡◌, refl, sym, ap, ◌∙◌, subst, ◌⊎◌, inl, Bool, true, false, not, ◌&&◌, ◌||◌,
  Option, none, some, List, [], ◌∷◌, arith, ◌==◌, if◌then◌else◌, or_else, length, any_of, select,
  count_of, first_where, Every, str_eq, Floats, IsLawful, get_key, set_default, get_key-modify,
  get_key-set_default,
}
use mathlib.Core.Option.{some-injective}
use yandex_codeforces_analyz.Scoreboard.{
  scoring_ioi, SubmissionFact, ProblemCell, ScoreboardRow, fmax, new_cell, new_row, ioi_cell,
  icpc_cell, step_cell, add_cell,
}
use yandex_codeforces_analyz.Scoreboard.Rows.{fold_row, own_facts, row_of}

module _ (fl : Floats) where
  open fl use {Float, fzero, fone, fle}

  abbrev pub is_ok : SubmissionFact Float → Bool
  is_ok f = str_eq f.verdict "OK"

  -- everything but an accepted submission and a compile error: the verdict XX, an internal error of
  -- the judge, is an attempt too
  abbrev pub is_attempt : SubmissionFact Float → Bool
  is_attempt f = not (is_ok f) && not (str_eq f.verdict "CE")

  -- the submissions that stand before the first accepted one
  pub until_ok : List (SubmissionFact Float) → List (SubmissionFact Float)
  until_ok [] = []
  until_ok (f ∷ fs) = let rest = until_ok fs in if is_ok f then [] else f ∷ rest

  -- the submissions on one problem
  abbrev pub on_problem : ℕ → List (SubmissionFact Float) → List (SubmissionFact Float)
  on_problem p = select (λ f. f.problem_id == p)

  abbrev pub minute_of : Option (SubmissionFact Float) → Option ℕ
  minute_of none = none
  minute_of (some f) = some f.minute

  -- an ICPC cell, as the rules of the contest state it
  pub icpc_expected : ℕ → List (SubmissionFact Float) → ProblemCell Float
  icpc_expected p fs = record {
    problem_id = p;
    solved = any_of is_ok fs;
    attempts = count_of is_attempt (until_ok fs);
    score = if any_of is_ok fs then fone else fzero;
    solved_at = minute_of (first_where is_ok fs);
  }

  fold_cell : String → ProblemCell Float → List (SubmissionFact Float) → ProblemCell Float
  fold_cell scoring c [] = c
  fold_cell scoring c (f ∷ fs) = fold_cell scoring (step_cell fl scoring f c) fs

  -- the cell of a problem after some submissions on it
  abbrev touched :
      String
      → ℕ
      → Option (ProblemCell Float)
      → List (SubmissionFact Float)
      → Option (ProblemCell Float)
  touched scoring p c [] = c
  touched scoring p c (f ∷ fs) =
      some (fold_cell scoring (step_cell fl scoring f (or_else c (new_cell fl p))) fs)

  get_key-add_cell :
      (scoring : String) (p : ℕ) (f : SubmissionFact Float) (row : ScoreboardRow Float)
      → get_key p (add_cell fl scoring f row).cells ≡ (
          if f.problem_id == p
          then some (step_cell fl scoring f (or_else (get_key p row.cells) (new_cell fl p)))
          else get_key p row.cells)
  unfolding add_cell
  get_key-add_cell scoring p f row = ground (
    arith,
    get_key-modify p f.problem_id (step_cell fl scoring f)
        (set_default f.problem_id (new_cell fl f.problem_id) row.cells),
    get_key-set_default p f.problem_id (new_cell fl f.problem_id) row.cells,
  )

  touched-some :
      (scoring : String) (p : ℕ) (c : ProblemCell Float) (fs : List (SubmissionFact Float))
      → touched scoring p (some c) fs ≡ some (fold_cell scoring c fs)
  unfolding fold_cell
  touched-some scoring p c [] = refl
  touched-some scoring p c (f ∷ fs) = refl

  get_key-fold_row :
      (scoring : String) (p : ℕ) (row : ScoreboardRow Float) (fs : List (SubmissionFact Float))
      → get_key p (fold_row fl scoring row fs).cells
        ≡ touched scoring p (get_key p row.cells) (on_problem p fs)
  unfolding fold_row fold_cell
  get_key-fold_row scoring p row [] = refl
  get_key-fold_row scoring p row (f ∷ fs) = ground (
    arith,
    get_key-fold_row scoring p (add_cell fl scoring f row) fs,
    get_key-add_cell scoring p f row,
    touched-some scoring p (step_cell fl scoring f (or_else (get_key p row.cells) (new_cell fl p)))
        (on_problem p fs),
  )

  icpc_solved :
      (scoring : String) (c : ProblemCell Float) (fs : List (SubmissionFact Float))
      → str_eq scoring scoring_ioi ≡ false
      → c.solved ≡ true
      → fold_cell scoring c fs ≡ c
  unfolding fold_cell step_cell icpc_cell
  icpc_solved scoring c [] i s = refl
  icpc_solved scoring c (f ∷ fs) i s = ground (arith, icpc_solved scoring c fs i s)

  icpc_fold :
      (scoring : String) (c : ProblemCell Float) (fs : List (SubmissionFact Float))
      → str_eq scoring scoring_ioi ≡ false
      → c.solved ≡ false
      → c.solved_at ≡ none
      → fold_cell scoring c fs ≡ record {
        problem_id = c.problem_id;
        solved = any_of is_ok fs;
        attempts = c.attempts + count_of is_attempt (until_ok fs);
        score = if any_of is_ok fs then fone else c.score;
        solved_at = minute_of (first_where is_ok fs);
      }
  unfolding fold_cell step_cell icpc_cell until_ok
  icpc_fold scoring c [] i s a = ground arith
  icpc_fold scoring c (f ∷ fs) i s a = ground (
    arith,
    icpc_solved scoring (step_cell fl scoring f c) fs i,
    icpc_fold scoring (step_cell fl scoring f c) fs i,
  )

  -- a problem has a cell exactly when there is a submission on it
  abbrev pub if_tried : List (SubmissionFact Float) → ProblemCell Float → Option (ProblemCell Float)
  if_tried [] c = none
  if_tried (f ∷ fs) c = some c

  touched-none :
      (scoring : String) (p : ℕ) (fs : List (SubmissionFact Float))
      → touched scoring p none fs ≡ if_tried fs (fold_cell scoring (new_cell fl p) fs)
  unfolding fold_cell
  touched-none scoring p [] = refl
  touched-none scoring p (f ∷ fs) = refl

  get_key-row_of :
      (scoring : String) (submissions : List (SubmissionFact Float)) (u : ℕ)
      (person : String × Bool) (p : ℕ)
      → let mine = on_problem p (own_facts fl u submissions) in
        get_key p (row_of fl scoring submissions (u, person)).cells
        ≡ if_tried mine (fold_cell scoring (new_cell fl p) mine)
  unfolding row_of new_row get_key
  get_key-row_of scoring submissions u person p =
      get_key-fold_row scoring p (new_row fl u person) (own_facts fl u submissions)
      ∙ touched-none scoring p (on_problem p (own_facts fl u submissions))

  icpc_fold_new :
      (scoring : String) (p : ℕ) (fs : List (SubmissionFact Float))
      → str_eq scoring scoring_ioi ≡ false
      → fold_cell scoring (new_cell fl p) fs ≡ icpc_expected p fs
  unfolding new_cell icpc_expected
  icpc_fold_new scoring p fs i = icpc_fold scoring (new_cell fl p) fs i refl refl ∙ ground arith

  -- Under any scoring but IOI: a participant's cell for a problem exists exactly when there is a
  -- submission of that participant on it, is solved exactly when one of them is accepted, counts
  -- as attempts all the submissions before the first accepted one but the compile errors, those with
  -- the verdict XX of a judge that failed among them, scores 1 if solved and else 0, and holds the
  -- minute of the first accepted one.
  pub icpc_cell_lem :
      (scoring : String) (submissions : List (SubmissionFact Float)) (u : ℕ)
      (person : String × Bool) (p : ℕ)
      → str_eq scoring scoring_ioi ≡ false
      → let mine = on_problem p (own_facts fl u submissions) in
        get_key p (row_of fl scoring submissions (u, person)).cells
        ≡ if_tried mine (icpc_expected p mine)
  icpc_cell_lem scoring submissions u person p i =
      let mine = on_problem p (own_facts fl u submissions) in
      get_key-row_of scoring submissions u person p
      ∙ ap (if_tried mine) (icpc_fold_new scoring p mine i)

  -- what IOI scoring promises of a cell
  pub record IsIoiCell (fs : List (SubmissionFact Float)) (c : ProblemCell Float) : Type 0 where
    pub counts_all : c.attempts ≡ length fs
    pub solved_iff : c.solved ≡ any_of is_ok fs
    pub first_solve : c.solved_at ≡ minute_of (first_where is_ok fs)
    pub at_least : Every (λ f. fle f.score c.score ≡ true) fs
    pub reached : (c.score ≡ fzero) ⊎ (any_of (λ f. fle c.score f.score) fs ≡ true)
    pub not_negative : fle fzero c.score ≡ true

  earlier : Option ℕ → Option ℕ → Option ℕ
  earlier none o = o
  earlier (some m) o = some m

  ioi_step :
      (scoring : String) (c : ProblemCell Float) (f : SubmissionFact Float)
      → str_eq scoring scoring_ioi ≡ true
      → let d = step_cell fl scoring f c in
        (d.attempts ≡ c.attempts + 1)
        × (d.solved ≡ (c.solved || is_ok f))
        × (d.solved_at ≡ (if is_ok f then earlier c.solved_at (some f.minute) else c.solved_at))
        × (d.score ≡ fmax fl c.score f.score)
  unfolding step_cell ioi_cell earlier
  ioi_step scoring c f i = ground arith

  ioi_counts :
      (scoring : String) (c : ProblemCell Float) (fs : List (SubmissionFact Float))
      → str_eq scoring scoring_ioi ≡ true
      → let d = fold_cell scoring c fs in
        (d.attempts ≡ c.attempts + length fs)
        × (d.solved ≡ (c.solved || any_of is_ok fs))
        × (d.solved_at ≡ earlier c.solved_at (minute_of (first_where is_ok fs)))
  unfolding fold_cell earlier
  ioi_counts scoring c [] i = ground arith
  ioi_counts scoring c (f ∷ fs) i =
      let step = ioi_step scoring c f i in
      let rest = ioi_counts scoring (step_cell fl scoring f c) fs i in
      (
        omega (arith, rest.0, step.0),
        ground (arith, rest.1, step.1),
        ground (arith, rest.2, step.2),
      )

  module _ (law : IsLawful fl) where
    open law use {fle_total, fle_trans}

    fmax_bounds :
        (a b : Float)
        → (fle a (fmax fl a b) ≡ true)
          × (fle b (fmax fl a b) ≡ true)
          × ((fmax fl a b ≡ a) ⊎ (fmax fl a b ≡ b))
    fmax_bounds a b = ground (arith, fle_total a b, fle_total a a, fle_total b b)

    ioi_at_least :
        (scoring : String) (c : ProblemCell Float) (fs : List (SubmissionFact Float))
        → str_eq scoring scoring_ioi ≡ true
        → let d = fold_cell scoring c fs in
          (fle c.score d.score ≡ true) × Every (λ f. fle f.score d.score ≡ true) fs
    unfolding fold_cell
    ioi_at_least scoring c [] i = (ground (arith, fle_total c.score c.score), tt)
    ioi_at_least scoring c (f ∷ fs) i =
        let e = (ioi_step scoring c f i).3 in
        let (bc, bf, _) = fmax_bounds c.score f.score in
        let (low, all) = ioi_at_least scoring (step_cell fl scoring f c) fs i in
        (
          fle_trans _ _ _ (ap (fle c.score) e ∙ bc) low,
          (fle_trans _ _ _ (ap (fle f.score) e ∙ bf) low, all),
        )

    ioi_reached :
        (scoring : String) (c : ProblemCell Float) (fs : List (SubmissionFact Float))
        → str_eq scoring scoring_ioi ≡ true
        → let d = fold_cell scoring c fs in
          (d.score ≡ c.score) ⊎ (any_of (λ f. fle d.score f.score) fs ≡ true)
    unfolding fold_cell
    ioi_reached scoring c [] i = inl refl
    ioi_reached scoring c (f ∷ fs) i =
        let d = (fold_cell scoring (step_cell fl scoring f c) fs).score in
        ground (
          arith,
          (ioi_step scoring c f i).3,
          fmax_bounds c.score f.score,
          ioi_reached scoring (step_cell fl scoring f c) fs i,
          fle_total d d,
        )

    ioi_fold_new :
        (scoring : String) (p : ℕ) (fs : List (SubmissionFact Float))
        → str_eq scoring scoring_ioi ≡ true
        → IsIoiCell fs (fold_cell scoring (new_cell fl p) fs)
    unfolding new_cell earlier
    ioi_fold_new scoring p fs i =
        let counts = ioi_counts scoring (new_cell fl p) fs i in
        let bounds = ioi_at_least scoring (new_cell fl p) fs i in
        record {
          counts_all = omega (arith, counts.0);
          solved_iff = counts.1;
          first_solve = counts.2;
          at_least = bounds.1;
          reached = ioi_reached scoring (new_cell fl p) fs i;
          not_negative = bounds.0;
        }

    -- Under IOI scoring, if a participant has a cell for a problem, it counts every submission on
    -- the problem as an attempt, is solved exactly when one of them is accepted, holds the minute
    -- of the first accepted one, and scores the best of their scores and 0: no submission has
    -- more, and the score is 0 or that of a submission.
    pub ioi_cell_lem :
        (scoring : String) (submissions : List (SubmissionFact Float)) (u : ℕ)
        (person : String × Bool) (p : ℕ) (c : ProblemCell Float)
        → str_eq scoring scoring_ioi ≡ true
        → get_key p (row_of fl scoring submissions (u, person)).cells ≡ some c
        → IsIoiCell (on_problem p (own_facts fl u submissions)) c
    ioi_cell_lem scoring submissions u person p c i h =
        from_tried (on_problem p (own_facts fl u submissions))
          (sym (get_key-row_of scoring submissions u person p) ∙ h)
      where
        from_tried :
            (fs : List (SubmissionFact Float))
            → if_tried fs (fold_cell scoring (new_cell fl p) fs) ≡ some c
            → IsIoiCell fs c
        from_tried [] e = cc
        from_tried (f ∷ fs) e =
            subst (λ x. IsIoiCell (f ∷ fs) x) (some-injective _ _ e)
              (ioi_fold_new scoring p (f ∷ fs) i)
