-- ===== src/Scoreboard.antt =====
-- backend/api/judge/scoreboard.py: the standings of a contest, folded from its submissions.
-- `minute` is never negative (`contests.scoreboard` takes the maximum with 0), so it is a ℕ, and a
-- key component such as `-row.solved` is compared the other way round in place of being negated.
-- `str.lower` needs Python's tables of letters and is the parameter `lower`.
pub mod Order
pub mod Rows
pub mod Cells
pub mod Places
mod Tests
use Prim.Native.Char.{code}
use yandex_codeforces_analyz.Prelude.{
  ℕ, zero, suc, ◌+◌, ◌-◌, ◌*◌, ◌/◌, ◌%◌, ◌≤◌, ◌<◌, min, max, String, ◌≡◌, refl, sym, ap, ap₂, ◌∙◌,
  subst, fun_ext, ◌≢◌, ◌↔◌, ◌⊎◌, inl, inr, Bool, true, false, not, ◌&&◌, ◌||◌, Option, none, some,
  List, [], ◌∷◌, ◌++◌, map, foldl, append-nil, append_assoc, arith, ltb, leb, ◌==◌, if◌then◌else◌,
  ltb→lt, leb→le, ==_iff, Bool-cases, Option-cases, or_else, is_some, length, get_elem?, take, drop,
  all_of, any_of, select, count_of, first_where, Every, length-append, take-append-drop,
  count_of-le, sum_by, str_eq, str_eq_iff, str_append, str_take, str_is_empty, str_or, show, join,
  Floats, IsLawful, get_key, put_key, modify, set_default, has_key, keys, values, get_key-put_key,
  get_key-modify, get_key-set_default, keys-modify, get_key_missing, dict_laws, insert_by, sort_by,
  sort_by-perm, IsSorted, IsWeakOrder, sort_by-IsSorted,
}

-- models/judge/contest.py: `ScoringKind.IOI.value`
abbrev pub scoring_ioi : String
scoring_ioi = "ioi"

abbrev pub penalty_minutes : ℕ
penalty_minutes = 20

pub record SubmissionFact (F : Type 0) : Type 0 where
  pub user_id : ℕ
  pub problem_id : ℕ
  pub verdict : String
  pub score : F
  pub minute : ℕ

pub record ProblemCell (F : Type 0) : Type 0 where
  pub problem_id : ℕ
  pub solved : Bool
  pub attempts : ℕ
  pub score : F
  pub solved_at : Option ℕ

pub record ScoreboardRow (F : Type 0) : Type 0 where
  pub user_id : ℕ
  pub display_name : String
  pub is_official : Bool
  pub cells : List (ℕ × ProblemCell F)

-- a place key, `(row.score,)` or `(row.solved, -row.penalty)`
pub data PlaceKey (F : Type 0) : Type 0 where
  by_score : F → PlaceKey F
  by_solved : ℕ → ℕ → PlaceKey F

-- `ProblemCell.penalty`
unfoldable pub cell_penalty : {F : Type 0} → ProblemCell F → ℕ
cell_penalty c = elim c.solved_at [
  | none ↦ 0
  | some minute ↦ if c.solved then minute + penalty_minutes * c.attempts else 0
]

-- `ScoreboardRow.solved`, `ScoreboardRow.penalty`
unfoldable pub row_solved : {F : Type 0} → ScoreboardRow F → ℕ
row_solved r = count_of (λ c. c.solved) (values r.cells)

unfoldable pub row_penalty : {F : Type 0} → ScoreboardRow F → ℕ
row_penalty r = sum_by cell_penalty (values r.cells)

-- `a < b` on texts: by code points, at the first difference
pub str_ltb : String → String → Bool
str_ltb String.[] String.[] = false
str_ltb String.[] (String.◌∷◌ d t) = true
str_ltb (String.◌∷◌ c s) String.[] = false
str_ltb (String.◌∷◌ c s) (String.◌∷◌ d t) =
    let rest = str_ltb s t in
    if ltb (code c) (code d) then true else if ltb (code d) (code c) then false else rest

module _ (fl : Floats) where
  open fl use {Float, fzero, fone, fadd, fle, round6}

  -- `a < b`, `a == b`, `max(a, b)`, `sum(...)`
  abbrev pub flt : Float → Float → Bool
  flt a b = not (fle b a)

  abbrev pub feq : Float → Float → Bool
  feq a b = fle a b && fle b a

  abbrev pub fmax : Float → Float → Float
  fmax a b = if flt a b then b else a

  abbrev pub fsum : List Float → Float
  fsum = foldl fadd fzero

  -- `ScoreboardRow.score`
  unfoldable pub row_score : ScoreboardRow Float → Float
  row_score r = round6 (fsum (map (λ c. c.score) (values r.cells)))

  unfoldable pub new_cell : ℕ → ProblemCell Float
  new_cell p = record {
    problem_id = p;
    solved = false;
    attempts = 0;
    score = fzero;
    solved_at = none;
  }

  unfoldable pub new_row : ℕ → String × Bool → ScoreboardRow Float
  new_row u (name, official) = record {
    user_id = u;
    display_name = name;
    is_official = official;
    cells = [];
  }

  -- the branch of the loop of `build_rows` for IOI scoring
  pub ioi_cell : SubmissionFact Float → ProblemCell Float → ProblemCell Float
  ioi_cell f c =
      let c' = record c { score = fmax c.score f.score; attempts = c.attempts + 1 } in
      if str_eq f.verdict "OK"
      then record c' {
        solved = true;
        solved_at = elim c.solved_at [ none ↦ some f.minute | some minute ↦ some minute ];
      }
      else c'

  -- the branch for ICPC scoring
  pub icpc_cell : SubmissionFact Float → ProblemCell Float → ProblemCell Float
  icpc_cell f c =
      if c.solved
      then c
      else if str_eq f.verdict "OK"
      then record c { solved = true; solved_at = some f.minute; score = fone }
      else if not (str_eq f.verdict "CE")
      then record c { attempts = c.attempts + 1 }
      else c

  unfoldable pub step_cell : String → SubmissionFact Float → ProblemCell Float → ProblemCell Float
  step_cell scoring f c = if str_eq scoring scoring_ioi then ioi_cell f c else icpc_cell f c

  -- one round of the loop of `build_rows`, on the row of the submission's author
  unfoldable pub add_cell :
      String → SubmissionFact Float → ScoreboardRow Float → ScoreboardRow Float
  add_cell scoring f row =
      let cells' = set_default f.problem_id (new_cell f.problem_id) row.cells in
      record row { cells = modify f.problem_id (step_cell scoring f) cells' }

  -- `rows.get(fact.user_id)`; a submission of somebody else is skipped
  unfoldable pub add_fact :
      String
      → List (ℕ × ScoreboardRow Float)
      → SubmissionFact Float
      → List (ℕ × ScoreboardRow Float)
  add_fact scoring rows f = modify f.user_id (add_cell scoring f) rows

  unfoldable pub first_rows : List (ℕ × (String × Bool)) → List (ℕ × ScoreboardRow Float)
  first_rows [] = []
  first_rows ((u, person) ∷ rest) = (u, new_row u person) ∷ first_rows rest

  unfoldable pub by_minute : SubmissionFact Float → SubmissionFact Float → Bool
  by_minute a b = ltb a.minute b.minute

  module _ (lower : String → String) where
    -- the keys of `rank`: `(-r.score, name)` and `(-r.solved, r.penalty, name)`
    pub ioi_before : ScoreboardRow Float → ScoreboardRow Float → Bool
    ioi_before a b =
        flt (row_score b) (row_score a)
        || feq (row_score a) (row_score b) && str_ltb (lower a.display_name) (lower b.display_name)

    pub icpc_before : ScoreboardRow Float → ScoreboardRow Float → Bool
    icpc_before a b =
        ltb (row_solved b) (row_solved a)
        || (row_solved a == row_solved b)
          && (ltb (row_penalty a) (row_penalty b)
              || (row_penalty a == row_penalty b)
                && str_ltb (lower a.display_name) (lower b.display_name))

    unfoldable pub ranks_before : String → ScoreboardRow Float → ScoreboardRow Float → Bool
    ranks_before scoring a b =
        if str_eq scoring scoring_ioi then ioi_before a b else icpc_before a b

    unfoldable pub rank : List (ScoreboardRow Float) → String → List (ScoreboardRow Float)
    rank rows scoring = sort_by (ranks_before scoring) rows

    unfoldable pub build_rows :
        List (SubmissionFact Float)
        → List (ℕ × (String × Bool))
        → String
        → List (ScoreboardRow Float)
    build_rows submissions participants scoring =
        let rows =
          foldl (add_fact scoring) (first_rows participants) (sort_by by_minute submissions) in
        rank (values rows) scoring

  unfoldable pub place_key : String → ScoreboardRow Float → PlaceKey Float
  place_key scoring r =
      if str_eq scoring scoring_ioi
      then by_score (row_score r)
      else by_solved (row_solved r) (row_penalty r)

  -- `key == previous_key`, where `previous_key` may still be `None`
  unfoldable pub key_eq : PlaceKey Float → PlaceKey Float → Bool
  key_eq (by_score a) (by_score b) = feq a b
  key_eq (by_solved s p) (by_solved t q) = (s == t) && (p == q)
  key_eq _ _ = false

  unfoldable pub is_previous : PlaceKey Float → Option (PlaceKey Float) → Bool
  unfolding key_eq
  is_previous k none = false
  is_previous k (some j) = key_eq k j

  -- the loop of `places` over the variables that it keeps
  pub places_from : String → List (ScoreboardRow Float) → Option (PlaceKey Float) → ℕ → ℕ → List ℕ
  places_from scoring [] previous_key previous_place official_seen = []
  places_from scoring (row ∷ rows) previous_key previous_place official_seen =
      let key = place_key scoring row in
      let seen = official_seen + 1 in
      let skip = 0 ∷ places_from scoring rows previous_key previous_place official_seen in
      let tie = previous_place ∷ places_from scoring rows previous_key previous_place seen in
      let next = seen ∷ places_from scoring rows (some key) seen seen in
      if not row.is_official then skip else if is_previous key previous_key then tie else next

  unfoldable pub places : List (ScoreboardRow Float) → String → List ℕ
  unfolding places_from
  places rows scoring = places_from scoring rows none 0 0
