-- ===== src/Scoreboard/Places.antt =====
-- `places` of backend/api/judge/scoreboard.py against the usual definition of a place.
use yandex_codeforces_analyz.Prelude.{
  ℕ, suc, ◌+◌, String, ◌≡◌, refl, ap, ◌∙◌, fun_ext, inl, inr, Bool, true, false, not, ◌&&◌, ◌||◌,
  Option, none, some, List, [], ◌∷◌, map, arith, ltb, ◌==◌, if◌then◌else◌, Bool-cases, count_of,
  Every, Floats, IsLawful, IsSorted,
}
use yandex_codeforces_analyz.Scoreboard.{
  ScoreboardRow, PlaceKey, by_score, by_solved, flt, row_score, ioi_before, icpc_before,
  ranks_before, rank, place_key, key_eq, is_previous, places_from, places,
}
use yandex_codeforces_analyz.Scoreboard.Order.{rank-IsSorted}

module _ (fl : Floats) where
  open fl use {Float, fle}

  -- a strictly better key: a higher score, or more problems solved, or as many with less penalty
  pub key_beats : PlaceKey Float → PlaceKey Float → Bool
  key_beats (by_score a) (by_score b) = flt fl b a
  key_beats (by_solved s p) (by_solved t q) = ltb t s || (s == t) && ltb p q
  key_beats _ _ = false

  -- an official row with a strictly better key
  abbrev pub outranks : String → ScoreboardRow Float → ScoreboardRow Float → Bool
  outranks scoring r q =
      q.is_official && key_beats (place_key fl scoring q) (place_key fl scoring r)

  -- one more than the number of official rows that are strictly better; 0 for an unofficial row
  abbrev pub expected_place : String → List (ScoreboardRow Float) → ScoreboardRow Float → ℕ
  expected_place scoring rows r =
      if r.is_official then suc (count_of (outranks scoring r) rows) else 0

  module _ (law : IsLawful fl) (scoring : String) where
    open law use {fle_total, fle_trans}

    abbrev beats : ScoreboardRow Float → ScoreboardRow Float → Bool
    beats q r = key_beats (place_key fl scoring q) (place_key fl scoring r)

    abbrev same : ScoreboardRow Float → ScoreboardRow Float → Bool
    same q r = key_eq fl (place_key fl scoring q) (place_key fl scoring r)

    beats_asymm : (a b : ScoreboardRow Float) → beats a b ≡ true → beats b a ≡ false
    unfolding key_beats place_key
    beats_asymm a b h = ground (arith, fle_total (row_score fl a) (row_score fl b))

    beats_trans :
        (a b c : ScoreboardRow Float) → beats a b ≡ false → beats b c ≡ false → beats a c ≡ false
    unfolding key_beats place_key
    beats_trans a b c h k =
        ground (arith, fle_trans (row_score fl a) (row_score fl b) (row_score fl c))

    same-beats : (a b : ScoreboardRow Float) → same a b ≡ (not (beats a b) && not (beats b a))
    unfolding key_beats place_key key_eq
    same-beats a b = ground (arith, fle_total (row_score fl a) (row_score fl b))

    module _ (lower : String → String) where
      ranks_before-beats :
          (a b : ScoreboardRow Float)
          → ranks_before fl lower scoring a b ≡ false
          → beats a b ≡ false
      unfolding ranks_before ioi_before icpc_before key_beats place_key
      ranks_before-beats a b h = ground arith

    -- how many of the rows that were read outrank a row, once `r` is read too
    abbrev read_more : (ScoreboardRow Float → ℕ) → ScoreboardRow Float → ScoreboardRow Float → ℕ
    read_more c r q = c q + (if outranks scoring q r then 1 else 0)

    abbrev key_of : Option (ScoreboardRow Float) → Option (PlaceKey Float)
    key_of none = none
    key_of (some p) = some (place_key fl scoring p)

    abbrev NotAbove : ScoreboardRow Float → Option (ScoreboardRow Float) → Type 0
    NotAbove q none = Unit
    NotAbove q (some p) = beats q p ≡ false

    -- what the loop's variables say of a row that is still to come
    record Fits (c : ScoreboardRow Float → ℕ) (previous : Option (ScoreboardRow Float))
        (place seen : ℕ) (q : ScoreboardRow Float) : Type 0 where
      tied : is_previous fl (place_key fl scoring q) (key_of previous) ≡ true → suc (c q) ≡ place
      fresh : is_previous fl (place_key fl scoring q) (key_of previous) ≡ false → c q ≡ seen
      below : NotAbove q previous

    unofficial_step :
        (c : ScoreboardRow Float → ℕ) (previous : Option (ScoreboardRow Float)) (place seen : ℕ)
        (r q : ScoreboardRow Float)
        → r.is_official ≡ false
        → Fits c previous place seen q
        → Fits (read_more c r) previous place seen q
    unofficial_step c previous place seen r q u f = record {
      tied = λ h. ground (arith, f.tied h);
      fresh = λ h. ground (arith, f.fresh h);
      below = f.below;
    }

    tie_step :
        (c : ScoreboardRow Float → ℕ) (previous : Option (ScoreboardRow Float)) (place seen : ℕ)
        (r q : ScoreboardRow Float)
        → r.is_official ≡ true
        → is_previous fl (place_key fl scoring r) (key_of previous) ≡ true
        → beats q r ≡ false
        → Fits c previous place seen r
        → Fits c previous place seen q
        → Fits (read_more c r) previous place (seen + 1) q
    unfolding is_previous
    tie_step c none place seen r q o t b f g = cc
    tie_step c (some p) place seen r q o t b f g = record {
      tied = λ h. ground (
        arith,
        g.tied h,
        same-beats q p,
        same-beats r p,
        beats_trans p q r,
        beats_trans r p q,
        beats_trans r q p,
      );
      fresh = λ h.
          ground (
            arith,
            g.fresh h,
            same-beats q p,
            same-beats r p,
            beats_trans p r q,
            beats_trans q r p,
          );
      below = g.below;
    }

    next_step :
        (c : ScoreboardRow Float → ℕ) (previous : Option (ScoreboardRow Float)) (place seen : ℕ)
        (r q : ScoreboardRow Float)
        → r.is_official ≡ true
        → is_previous fl (place_key fl scoring r) (key_of previous) ≡ false
        → beats q r ≡ false
        → Fits c previous place seen r
        → Fits c previous place seen q
        → Fits (read_more c r) (some r) (seen + 1) (seen + 1) q
    unfolding is_previous
    next_step c none place seen r q o t b f g = record {
      tied = λ h. ground (arith, f.fresh t, g.fresh refl, same-beats q r);
      fresh = λ h. ground (arith, f.fresh t, g.fresh refl, same-beats q r);
      below = b;
    }
    next_step c (some p) place seen r q o t b f g = record {
      tied = λ h. ground (
        arith,
        f.fresh t,
        g.fresh,
        same-beats q r,
        same-beats q p,
        same-beats r p,
        beats_trans p q r,
      );
      fresh = λ h. ground (
        arith,
        f.fresh t,
        g.fresh,
        same-beats q r,
        same-beats q p,
        same-beats r p,
        beats_trans p q r,
      );
      below = b;
    }

    -- a step of the loop, for all the rows that are still to come
    step_all :
        {P Q : ScoreboardRow Float → Type 0} (r : ScoreboardRow Float)
        (rows : List (ScoreboardRow Float))
        → ((q : ScoreboardRow Float) → beats q r ≡ false → P q → Q q)
        → Every (λ q. beats q r ≡ false) rows
        → Every P rows
        → Every Q rows
    step_all r [] step below all = tt
    step_all r (q ∷ rows) step below all =
        (step q below.0 all.0, step_all r rows step below.1 all.1)

    none_outranks :
        (r : ScoreboardRow Float) (rows : List (ScoreboardRow Float))
        → Every (λ q. beats q r ≡ false) rows
        → count_of (outranks scoring r) rows ≡ 0
    none_outranks r [] below = refl
    none_outranks r (q ∷ rows) below = ground (arith, none_outranks r rows below.1)

    abbrev BeatsSorted : List (ScoreboardRow Float) → Type 0
    BeatsSorted [] = Unit
    BeatsSorted (r ∷ rows) = Every (λ q. beats q r ≡ false) rows × BeatsSorted rows

    -- the place of a row, when `c` of those that were read outrank it
    abbrev place_after :
        (ScoreboardRow Float → ℕ) → List (ScoreboardRow Float) → ScoreboardRow Float → ℕ
    place_after c rows q =
        if q.is_official then suc (c q + count_of (outranks scoring q) rows) else 0

    place_after-cons :
        (c : ScoreboardRow Float → ℕ) (r : ScoreboardRow Float) (rows : List (ScoreboardRow Float))
        → place_after (read_more c r) rows ≡ place_after c (r ∷ rows)
    place_after-cons c r rows = fun_ext (λ q. ground arith)

    place_after-head :
        (c : ScoreboardRow Float → ℕ) (r : ScoreboardRow Float) (rows : List (ScoreboardRow Float))
        → Every (λ q. beats q r ≡ false) rows
        → r.is_official ≡ true
        → place_after c (r ∷ rows) r ≡ suc (c r)
    place_after-head c r rows below o = ground (arith, none_outranks r rows below, beats_asymm r r)

    places_from_lem :
        (c : ScoreboardRow Float → ℕ) (rows : List (ScoreboardRow Float))
        (previous : Option (ScoreboardRow Float)) (place seen : ℕ)
        → BeatsSorted rows
        → Every (Fits c previous place seen) rows
        → places_from fl scoring rows (key_of previous) place seen ≡ map (place_after c rows) rows
    unfolding places_from
    places_from_lem c [] previous place seen s f = refl
    places_from_lem c (r ∷ rows) previous place seen s f = elim (Bool-cases r.is_official) [
      | inr u ↦
          let rest =
            places_from_lem (read_more c r) rows previous place seen s.1
              (step_all r rows (λ q _ g. unofficial_step c previous place seen r q u g) s.0 f.1) in
          ground (arith, rest, place_after-cons c r rows)
      | inl o ↦ elim (Bool-cases (is_previous fl (place_key fl scoring r) (key_of previous))) [
        | inl t ↦
            let rest =
              places_from_lem (read_more c r) rows previous place (seen + 1) s.1 (
                step_all r rows (λ q b g. tie_step c previous place seen r q o t b f.0 g) s.0
                  f.1) in
            ground
              (arith, rest, place_after-cons c r rows, place_after-head c r rows s.0 o, f.0.tied t)
        | inr n ↦
            let rest = places_from_lem (read_more c r) rows (some r) (seen + 1) (seen + 1) s.1 (
              step_all r rows (λ q b g. next_step c previous place seen r q o n b f.0 g) s.0 f.1) in
            ground
              (arith, rest, place_after-cons c r rows, place_after-head c r rows s.0 o, f.0.fresh n)
      ]
    ]

    first_Fits : (q : ScoreboardRow Float) → Fits (λ _. 0) none 0 0 q
    unfolding is_previous
    first_Fits q = record { tied = λ h. cc; fresh = λ h. refl; below = tt }

    Every-true :
        (P : ScoreboardRow Float → Type 0) (rows : List (ScoreboardRow Float))
        → ((q : ScoreboardRow Float) → P q)
        → Every P rows
    Every-true P [] all = tt
    Every-true P (q ∷ rows) all = (all q, Every-true P rows all)

    module _ (lower : String → String) where
      below_of_sorted :
          (r : ScoreboardRow Float) (rows : List (ScoreboardRow Float))
          → Every (λ q. ranks_before fl lower scoring q r ≡ false) rows
          → Every (λ q. beats q r ≡ false) rows
      below_of_sorted r [] s = tt
      below_of_sorted r (q ∷ rows) s =
          (ranks_before-beats lower q r s.0, below_of_sorted r rows s.1)

      BeatsSorted-of_sorted :
          (rows : List (ScoreboardRow Float))
          → IsSorted (ranks_before fl lower scoring) rows
          → BeatsSorted rows
      BeatsSorted-of_sorted [] s = tt
      BeatsSorted-of_sorted (r ∷ rows) s =
          (below_of_sorted r rows s.0, BeatsSorted-of_sorted rows s.1)

      -- The places of a ranked board: an unofficial row gets 0, and an official row one more than
      -- the number of official rows with a strictly better score (IOI), or strictly better solved
      -- count and penalty (ICPC). So ties share a place, and unofficial rows push nobody down.
      pub places-rank :
          (rows : List (ScoreboardRow Float))
          → let board = rank fl lower rows scoring in
            places fl board scoring ≡ map (expected_place scoring board) board
      unfolding places
      places-rank rows =
          let board = rank fl lower rows scoring in
          places_from_lem (λ _. 0) board none 0 0
            (BeatsSorted-of_sorted board (rank-IsSorted fl law lower rows scoring))
            (Every-true (Fits (λ _. 0) none 0 0) board λ q. first_Fits q)
          ∙ ap (λ f. map f board) (fun_ext λ q. ground arith)
