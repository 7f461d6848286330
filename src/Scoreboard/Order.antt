-- ===== src/Scoreboard/Order.antt =====
-- The order that `rank` sorts by (backend/api/judge/scoreboard.py) is a strict weak order.
use yandex_codeforces_analyz.Prelude.{
  ◌≤◌, String, ◌≡◌, refl, inl, inr, true, false, List, [], ◌∷◌, Every, arith, Bool-cases, str_eq,
  Floats, IsLawful, sort_by-perm, IsSorted, IsWeakOrder, sort_by-IsSorted,
}
use mathlib.Core.List.{Perm}
use yandex_codeforces_analyz.Scoreboard.{
  scoring_ioi, ScoreboardRow, row_solved, row_penalty, str_ltb, flt, row_score, ioi_before,
  icpc_before, ranks_before, rank,
}

str_ltb_asymm : (a b : String) → str_ltb a b ≡ true → str_ltb b a ≡ false
unfolding str_ltb
str_ltb_asymm String.[] String.[] h = refl
str_ltb_asymm String.[] (String.◌∷◌ d t) h = refl
str_ltb_asymm (String.◌∷◌ c s) String.[] h = cc
str_ltb_asymm (String.◌∷◌ c s) (String.◌∷◌ d t) h = ground (arith, str_ltb_asymm s t)

str_ltb_trans : (a b c : String) → str_ltb a b ≡ false → str_ltb b c ≡ false → str_ltb a c ≡ false
unfolding str_ltb
str_ltb_trans String.[] String.[] c h k = k
str_ltb_trans String.[] (String.◌∷◌ d t) c h k = cc
str_ltb_trans (String.◌∷◌ c s) b String.[] h k = refl
str_ltb_trans (String.◌∷◌ c s) String.[] (String.◌∷◌ e u) h k = cc
str_ltb_trans (String.◌∷◌ c s) (String.◌∷◌ d t) (String.◌∷◌ e u) h k =
    ground (arith, str_ltb_trans s t u)

module _ (fl : Floats) where
  open fl use {Float, fle}

  module _ (law : IsLawful fl) where
    open law use {fle_total, fle_trans}

    pub flt_asymm : (a b : Float) → flt fl a b ≡ true → flt fl b a ≡ false
    flt_asymm a b h = ground (arith, fle_total a b)

    pub flt_trans : (a b c : Float) → flt fl a b ≡ false → flt fl b c ≡ false → flt fl a c ≡ false
    flt_trans a b c h k = ground (arith, fle_trans c b a)

    module _ (lower : String → String) where
      ioi_before_order : IsWeakOrder (ioi_before fl lower)
      unfolding ioi_before
      ioi_before_order = (
        (λ a b h. ground (
          arith,
          fle_total (row_score fl a) (row_score fl b),
          str_ltb_asymm (lower a.display_name) (lower b.display_name),
        )),
        (λ a b c h k. ground (
          arith,
          fle_total (row_score fl a) (row_score fl b),
          fle_total (row_score fl b) (row_score fl c),
          fle_total (row_score fl a) (row_score fl c),
          fle_trans (row_score fl a) (row_score fl b) (row_score fl c),
          fle_trans (row_score fl c) (row_score fl b) (row_score fl a),
          fle_trans (row_score fl b) (row_score fl c) (row_score fl a),
          fle_trans (row_score fl c) (row_score fl a) (row_score fl b),
          str_ltb_trans (lower a.display_name) (lower b.display_name) (lower c.display_name),
        )),
      )

      icpc_before_order : IsWeakOrder (icpc_before fl lower)
      unfolding icpc_before
      icpc_before_order = (
        (λ a b h. ground (arith, str_ltb_asymm (lower a.display_name) (lower b.display_name))),
        (λ a b c h k. ground (
          arith,
          str_ltb_trans (lower a.display_name) (lower b.display_name) (lower c.display_name),
        )),
      )

      pub ranks_before_order : (scoring : String) → IsWeakOrder (ranks_before fl lower scoring)
      unfolding ranks_before
      ranks_before_order scoring = elim (Bool-cases (str_eq scoring scoring_ioi)) [
        | inl ioi ↦ rw ioi ioi_before_order
        | inr icpc ↦ rw icpc icpc_before_order
      ]

      pub rank-IsSorted :
          (rows : List (ScoreboardRow Float)) (scoring : String)
          → IsSorted (ranks_before fl lower scoring) (rank fl lower rows scoring)
      unfolding rank
      rank-IsSorted rows scoring =
          sort_by-IsSorted (ranks_before fl lower scoring) (ranks_before_order scoring) rows

      -- what IOI scoring asks of two rows that stand one above the other
      pub record IsIoiAbove (a b : ScoreboardRow Float) : Type 0 where
        pub score : fle (row_score fl b) (row_score fl a) ≡ true
        pub name :
            fle (row_score fl a) (row_score fl b) ≡ true
            → str_ltb (lower b.display_name) (lower a.display_name) ≡ false

      -- and what any other scoring asks of them
      pub record IsIcpcAbove (a b : ScoreboardRow Float) : Type 0 where
        pub solved : row_solved b ≤ row_solved a
        pub penalty : row_solved a ≡ row_solved b → row_penalty a ≤ row_penalty b
        pub name :
            row_solved a ≡ row_solved b
            → row_penalty a ≡ row_penalty b
            → str_ltb (lower b.display_name) (lower a.display_name) ≡ false

      pub record IsAbove (scoring : String) (a b : ScoreboardRow Float) : Type 0 where
        pub ioi : str_eq scoring scoring_ioi ≡ true → IsIoiAbove a b
        pub other : str_eq scoring scoring_ioi ≡ false → IsIcpcAbove a b

      -- the relation holds between each row and every row below it
      abbrev pub Down :
          (ScoreboardRow Float → ScoreboardRow Float → Type 0) → List (ScoreboardRow Float) → Type 0
      Down R [] = Unit
      Down R (a ∷ rows) = Every (R a) rows × Down R rows

      ioi_above : (a b : ScoreboardRow Float) → ioi_before fl lower b a ≡ false → IsIoiAbove a b
      unfolding ioi_before
      ioi_above a b h = record {
        score = ground (arith, fle_total (row_score fl a) (row_score fl b));
        name = λ e. ground (arith, fle_total (row_score fl a) (row_score fl b));
      }

      icpc_above : (a b : ScoreboardRow Float) → icpc_before fl lower b a ≡ false → IsIcpcAbove a b
      unfolding icpc_before
      icpc_above a b h = record {
        solved = ground arith;
        penalty = λ e. ground arith;
        name = λ e e'. ground arith;
      }

      above :
          (scoring : String) (a b : ScoreboardRow Float)
          → ranks_before fl lower scoring b a ≡ false
          → IsAbove scoring a b
      unfolding ranks_before
      above scoring a b h = record {
        ioi = λ e. ioi_above a b (ground arith);
        other = λ e. icpc_above a b (ground arith);
      }

      all_above :
          (scoring : String) (a : ScoreboardRow Float) (rows : List (ScoreboardRow Float))
          → Every (λ b. ranks_before fl lower scoring b a ≡ false) rows
          → Every (IsAbove scoring a) rows
      all_above scoring a [] h = tt
      all_above scoring a (b ∷ rows) h = (above scoring a b h.0, all_above scoring a rows h.1)

      down :
          (scoring : String) (rows : List (ScoreboardRow Float))
          → IsSorted (ranks_before fl lower scoring) rows
          → Down (IsAbove scoring) rows
      down scoring [] h = tt
      down scoring (a ∷ rows) h = (all_above scoring a rows h.0, down scoring rows h.1)

      -- Ranking keeps every row, drops and repeats none. Under IOI scoring each row has at least the
      -- score of every row below it, and where the scores are equal its name in lower case does not
      -- come after theirs. Under any other scoring each row has solved at least as many problems as
      -- every row below it, with no more penalty where it solved as many, and where both are equal
      -- its name in lower case does not come after theirs.
      pub rank_lem :
          (rows : List (ScoreboardRow Float)) (scoring : String)
          → Perm (rank fl lower rows scoring) rows
            × Down (IsAbove scoring) (rank fl lower rows scoring)
      unfolding rank
      rank_lem rows scoring = (
        sort_by-perm (ranks_before fl lower scoring) rows,
        down scoring (rank fl lower rows scoring) (rank-IsSorted rows scoring),
      )
