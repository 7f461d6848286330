-- ===== src/Sandbox/Tests.antt =====
-- Runs of the sandbox's own code, and each theorem at a concrete input.
use yandex_codeforces_analyz.Prelude.{
  ◌+◌, ◌≤◌, String, ◌≡◌, refl, ◌≢◌, ◌↔◌, true, false, some, List, [], ◌∷◌, pos, negsuc, strip,
  splitlines, split_once, parse_int, get_str, put_str,
}
use yandex_codeforces_analyz.Samples.{whole}
use yandex_codeforces_analyz.Sandbox.{
  ok, err, value_error, RunLimits, ok_run, memory_limit, time_limit, default_limits, check_limits,
  effective_wall_time_ms,
}
use yandex_codeforces_analyz.Sandbox.Meta.{
  parse_meta, to_int, seconds_to_ms, classify, IsClean, IsSlow, classify_ok_iff,
  classify-limits_iff, sigxfsz,
}
use yandex_codeforces_analyz.Sandbox.Command.{ms_to_s}
use yandex_codeforces_analyz.Sandbox.Pool.{BoxPool, make_pool, session_end, lease_begin}
use yandex_codeforces_analyz.Sandbox.Pool.Leases.{
  World, acquire, Reach, here, next, count, is_in, boxes_exclusive, retired_box_returns,
}

abbrev meta_text : String
meta_text = "time:0.5\nstatus:SG\n\nno field\nmessage: killed: 9 \ntime:2"

fields_parsed :
    parse_meta meta_text ≡ ("time", "2") ∷ ("status", "SG") ∷ ("message", "killed: 9") ∷ []
unfolding parse_meta splitlines split_once strip put_str
fields_parsed = refl

signed_parsed : to_int (some "-1_0") ≡ negsuc 9
unfolding to_int parse_int
signed_parsed = refl

seconds_printed : ms_to_s 12034 ≡ "12.034"
unfolding ms_to_s
seconds_printed = refl

bad_limits :
    check_limits (default_limits 5 7 0) ≡ err (value_error "max_processes must be at least 1")
unfolding check_limits
bad_limits = refl

abbrev clean : List (String × String)
clean = ("time", "1") ∷ ("exitcode", "0") ∷ []

abbrev killed : List (String × String)
killed = ("cg-oom-killed", "1") ∷ ("status", "TO") ∷ []

abbrev limits : RunLimits
limits = default_limits 2000 1024 1

classify_ok_iff_example : (classify whole clean limits ≡ ok_run) ↔ IsClean whole clean limits
classify_ok_iff_example = classify_ok_iff whole clean limits

classify-limits_iff_example :
    ((classify whole killed limits ≡ memory_limit)
      ↔ (to_int (get_str "cg-oom-killed" killed) ≡ pos 1))
    × ((classify whole killed limits ≡ time_limit) ↔ (
        (to_int (get_str "cg-oom-killed" killed) ≢ pos 1)
        × (to_int (get_str "exitsig" killed) ≢ sigxfsz)
        × IsSlow whole killed limits))
classify-limits_iff_example = classify-limits_iff whole killed limits

clean_is_ok : classify whole clean limits ≡ ok_run
unfolding classify get_str to_int parse_int seconds_to_ms effective_wall_time_ms
clean_is_ok = refl

abbrev two_boxes : BoxPool
two_boxes = record { ids = 4 ∷ 5 ∷ []; free = 4 ∷ 5 ∷ []; broken = [] }

two_boxes_made : make_pool 2 4 ≡ ok two_boxes
unfolding make_pool
two_boxes_made = refl

abbrev one_left : World
one_left = record {
  pool = record { ids = 4 ∷ 5 ∷ []; free = 5 ∷ []; broken = [] };
  leased = 4 ∷ [];
}

one_taken : Reach (record { pool = two_boxes; leased = [] }) one_left
unfolding lease_begin
one_taken = next here (acquire (record { pool = two_boxes; leased = [] }) 4 one_left.pool refl)

boxes_exclusive_example :
    (count 4 one_left.pool.free + count 4 one_left.leased ≤ 1)
    × (is_in 4 one_left.pool.broken ≡ false
        → count 4 one_left.pool.free + count 4 one_left.leased ≡ count 4 one_left.pool.ids)
boxes_exclusive_example = boxes_exclusive 2 4 two_boxes one_left 4 two_boxes_made one_taken

abbrev last_box : BoxPool
last_box = record { ids = 4 ∷ []; free = []; broken = [] }

retired_box_returns_example :
    let q = session_end false true 4 last_box in
    (is_in 4 q.broken ≡ true) × (lease_begin q ≡ some (4, record q { free = [] }))
retired_box_returns_example = retired_box_returns 4 last_box refl
