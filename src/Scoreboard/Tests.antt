-- ===== src/Scoreboard/Tests.antt =====
-- Runs of the standings, and each theorem at a concrete contest.
use yandex_codeforces_analyz.Prelude.{
  ℕ, String, ◌≡◌, refl, Bool, true, false, some, List, [], ◌∷◌, map, get_key, modify, set_default,
  has_key, insert_by, sort_by,
}
use mathlib.Core.List.{Perm}
use yandex_codeforces_analyz.Samples.{whole, whole_lawful}
use yandex_codeforces_analyz.Scoreboard.{
  SubmissionFact, ProblemCell, ScoreboardRow, build_rows, rank, places, row_solved, row_penalty,
  cell_penalty, ranks_before, ioi_before, icpc_before, place_key, key_eq, is_previous, places_from,
  step_cell, ioi_cell, icpc_cell, add_cell, add_fact, first_rows, new_row, new_cell, by_minute,
  str_ltb,
}
use yandex_codeforces_analyz.Scoreboard.Order.{IsAbove, Down, rank_lem}
use yandex_codeforces_analyz.Scoreboard.Rows.{build_rows-eq-rank, row_of, own_facts, fold_row}
use yandex_codeforces_analyz.Scoreboard.Cells.{
  icpc_cell_lem, icpc_expected, if_tried, on_problem, ioi_cell_lem, IsIoiCell,
}
use yandex_codeforces_analyz.Scoreboard.Places.{places-rank, expected_place}

abbrev fact : ℕ → ℕ → String → ℕ → ℕ → SubmissionFact ℕ
fact u p v s m = record { user_id = u; problem_id = p; verdict = v; score = s; minute = m }

abbrev people : List (ℕ × (String × Bool))
people = (1, ("ann", true)) ∷ (2, ("bob", true)) ∷ (3, ("eve", false)) ∷ []

abbrev facts : List (SubmissionFact ℕ)
facts =
    fact 2 7 "OK" 40 9
    ∷ fact 1 7 "WA" 10 3
    ∷ fact 1 7 "CE" 0 4
    ∷ fact 1 7 "OK" 50 8
    ∷ fact 9 7 "OK" 50 1
    ∷ fact 3 7 "OK" 50 2
    ∷ fact 1 7 "WA" 20 30
    ∷ []

abbrev same_name : String → String
same_name s = s

abbrev board : List (ScoreboardRow ℕ)
board = build_rows whole same_name facts people "icpc"

icpc_places : places whole board "icpc" ≡ 0 ∷ 1 ∷ 2 ∷ []
unfolding build_rows rank places row_solved row_penalty cell_penalty ranks_before ioi_before
    icpc_before place_key is_previous key_eq places_from step_cell icpc_cell add_cell add_fact
    first_rows new_row new_cell by_minute str_ltb sort_by insert_by modify set_default
icpc_places = refl

icpc_penalties : map row_penalty board ≡ 2 ∷ 9 ∷ 28 ∷ []
unfolding build_rows rank row_solved row_penalty cell_penalty ranks_before ioi_before icpc_before
    step_cell icpc_cell add_cell add_fact first_rows new_row new_cell by_minute str_ltb sort_by
    insert_by modify set_default
icpc_penalties = refl

rank_lem_example :
    Perm (rank whole same_name board "ioi") board
    × Down whole whole_lawful same_name
        (IsAbove whole whole_lawful same_name "ioi")
        (rank whole same_name board "ioi")
rank_lem_example = rank_lem whole whole_lawful same_name board "ioi"

places-rank_example :
    let ranked = rank whole same_name board "ioi" in
    places whole ranked "ioi" ≡ map (expected_place whole "ioi" ranked) ranked
places-rank_example = places-rank whole whole_lawful "ioi" same_name board

build_rows-eq-rank_example :
    board ≡ rank whole same_name (map (row_of whole "icpc" facts) people) "icpc"
unfolding has_key
build_rows-eq-rank_example =
    build_rows-eq-rank whole "icpc" same_name facts people (refl, (refl, (refl, tt)))

icpc_cell_lem_example :
    let mine = on_problem whole 7 (own_facts whole 1 facts) in
    get_key 7 (row_of whole "icpc" facts (1, ("ann", true))).cells
    ≡ if_tried whole mine (icpc_expected whole 7 mine)
icpc_cell_lem_example = icpc_cell_lem whole "icpc" facts 1 ("ann", true) 7 refl

abbrev ann_ioi : ProblemCell ℕ
ann_ioi = record { problem_id = 7; solved = true; attempts = 4; score = 50; solved_at = some 8 }

ann_ioi_cell : get_key 7 (row_of whole "ioi" facts (1, ("ann", true))).cells ≡ some ann_ioi
unfolding row_of own_facts fold_row step_cell ioi_cell add_cell new_row new_cell by_minute sort_by
    insert_by modify set_default get_key
ann_ioi_cell = refl

ioi_cell_lem_example : IsIoiCell whole (on_problem whole 7 (own_facts whole 1 facts)) ann_ioi
ioi_cell_lem_example =
    ioi_cell_lem whole whole_lawful "ioi" facts 1 ("ann", true) 7 ann_ioi refl ann_ioi_cell
