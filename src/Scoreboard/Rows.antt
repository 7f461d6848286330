-- ===== src/Scoreboard/Rows.antt =====
-- `build_rows` of backend/api/judge/scoreboard.py: a participant's row is folded from that
-- participant's own submissions alone.
use yandex_codeforces_analyz.Prelude.{
  ℕ, String, ◌≡◌, refl, sym, ap, ◌∙◌, inl, inr, Bool, false, ◌||◌, List, [], ◌∷◌, map, foldl, arith,
  ◌==◌, Bool-cases, select, Floats, modify, has_key, values, sort_by,
}
use yandex_codeforces_analyz.Scoreboard.{
  SubmissionFact, ScoreboardRow, new_row, add_cell, add_fact, first_rows, by_minute, rank,
  build_rows,
}

-- no key twice, which every Python `dict` has
abbrev pub Distinct {ℓ} : {V : Type ℓ} → List (ℕ × V) → Type 0
Distinct [] = Unit
Distinct ((k, v) ∷ m) = (has_key k m ≡ false) × Distinct m

module _ (fl : Floats) where
  open fl use {Float}

  -- the submissions of one participant, in the order of the contest
  unfoldable pub own_facts : ℕ → List (SubmissionFact Float) → List (SubmissionFact Float)
  own_facts u submissions = select (λ f. f.user_id == u) (sort_by (by_minute fl) submissions)

  unfoldable pub fold_row :
      String → ScoreboardRow Float → List (SubmissionFact Float) → ScoreboardRow Float
  fold_row scoring row [] = row
  fold_row scoring row (f ∷ fs) = fold_row scoring (add_cell fl scoring f row) fs

  -- a participant's row from the participant's own submissions
  unfoldable pub row_of :
      String → List (SubmissionFact Float) → ℕ × (String × Bool) → ScoreboardRow Float
  row_of scoring submissions (u, person) =
      fold_row scoring (new_row fl u person) (own_facts u submissions)

  module _ (scoring : String) where
    abbrev advance : List (SubmissionFact Float) → ℕ × ScoreboardRow Float → ℕ × ScoreboardRow Float
    advance fs (u, row) = (u, fold_row scoring row (select (λ f. f.user_id == u) fs))

    advance_others :
        (f : SubmissionFact Float) (fs : List (SubmissionFact Float))
        (rows : List (ℕ × ScoreboardRow Float))
        → has_key f.user_id rows ≡ false
        → map (advance (f ∷ fs)) rows ≡ map (advance fs) rows
    unfolding has_key
    advance_others f fs [] h = refl
    advance_others f fs ((u, row) ∷ rows) h = ground (arith, advance_others f fs rows)

    advance_modify :
        (f : SubmissionFact Float) (fs : List (SubmissionFact Float))
        (rows : List (ℕ × ScoreboardRow Float))
        → Distinct rows
        → map (advance fs) (add_fact fl scoring rows f) ≡ map (advance (f ∷ fs)) rows
    unfolding add_fact modify fold_row
    advance_modify f fs [] d = refl
    advance_modify f fs ((u, row) ∷ rows) d =
        ground (arith, advance_others f fs rows, advance_modify f fs rows d.1)

    has_key-modify :
        (k j : ℕ) (g : ScoreboardRow Float → ScoreboardRow Float)
        (rows : List (ℕ × ScoreboardRow Float))
        → has_key k (modify j g rows) ≡ has_key k rows
    unfolding has_key modify
    has_key-modify k j g [] = refl
    has_key-modify k j g ((u, row) ∷ rows) = ground (arith, has_key-modify k j g rows)

    Distinct-modify :
        (j : ℕ) (g : ScoreboardRow Float → ScoreboardRow Float)
        (rows : List (ℕ × ScoreboardRow Float))
        → Distinct rows
        → Distinct (modify j g rows)
    unfolding modify
    Distinct-modify j g [] d = tt
    Distinct-modify j g ((u, row) ∷ rows) d = elim (Bool-cases (u == j)) [
      | inl e ↦ rw e d
      | inr n ↦ rw n (has_key-modify u j g rows ∙ d.0, Distinct-modify j g rows d.1)
    ]

    advance_nil : (rows : List (ℕ × ScoreboardRow Float)) → map (advance []) rows ≡ rows
    unfolding fold_row
    advance_nil [] = refl
    advance_nil ((u, row) ∷ rows) = ap (◌∷◌ (u, row)) (advance_nil rows)

    fold_rows_lem :
        (fs : List (SubmissionFact Float)) (rows : List (ℕ × ScoreboardRow Float))
        → Distinct rows
        → foldl (add_fact fl scoring) rows fs ≡ map (advance fs) rows
    unfolding add_fact fold_row
    fold_rows_lem [] rows d = sym (advance_nil rows)
    fold_rows_lem (f ∷ fs) rows d =
        fold_rows_lem fs (add_fact fl scoring rows f)
          (Distinct-modify f.user_id (add_cell fl scoring f) rows d)
        ∙ advance_modify f fs rows d

    values-advance :
        (submissions : List (SubmissionFact Float)) (people : List (ℕ × (String × Bool)))
        → values (map (advance (sort_by (by_minute fl) submissions)) (first_rows fl people))
          ≡ map (row_of scoring submissions) people
    unfolding first_rows row_of own_facts
    values-advance submissions [] = refl
    values-advance submissions ((u, person) ∷ people) =
        ap (◌∷◌ (row_of scoring submissions (u, person))) (values-advance submissions people)

    has_key-first_rows :
        (k : ℕ) (people : List (ℕ × (String × Bool)))
        → has_key k (first_rows fl people) ≡ has_key k people
    unfolding has_key first_rows
    has_key-first_rows k [] = refl
    has_key-first_rows k ((u, person) ∷ people) = ap (◌||◌ (u == k)) (has_key-first_rows k people)

    Distinct-first_rows :
        (people : List (ℕ × (String × Bool))) → Distinct people → Distinct (first_rows fl people)
    unfolding first_rows
    Distinct-first_rows [] d = tt
    Distinct-first_rows ((u, person) ∷ people) d =
        (has_key-first_rows u people ∙ d.0, Distinct-first_rows people d.1)

    -- The board holds one row for each participant and no other, and the row depends on that
    -- participant's own submissions alone: the submissions of everybody else, participants or
    -- not, leave it as it is. The participants have distinct ids, as the keys of a `dict` do.
    pub build_rows-eq-rank :
        (lower : String → String) (submissions : List (SubmissionFact Float))
        (participants : List (ℕ × (String × Bool)))
        → Distinct participants
        → build_rows fl lower submissions participants scoring
          ≡ rank fl lower (map (row_of scoring submissions) participants) scoring
    unfolding build_rows
    build_rows-eq-rank lower submissions participants d =
        ap (λ rows. rank fl lower (values rows) scoring)
          (fold_rows_lem (sort_by (by_minute fl) submissions) (first_rows fl participants)
            (Distinct-first_rows participants d))
        ∙ ap (λ rows. rank fl lower rows scoring) (values-advance submissions participants)
