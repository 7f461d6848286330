-- ===== src/Sandbox/Meta.antt =====
-- backend/judge/app/sandbox/meta.py: the meta file of isolate, where TLE and MLE are decided.
use yandex_codeforces_analyz.Prelude.{
  ℕ, ◌<◌, String, ◌≡◌, ◌≢◌, ◌↔◌, ◌⊎◌, Bool, true, false, not, ◌&&◌, ◌||◌, Option, none, some, List,
  [], foldl, arith, ltb, if◌then◌else◌, or_else, str_eq, str_eq_iff, str_is_empty, Floats, ℤ, pos,
  negsuc, leb_ℤ, eq_ℤ, or_ℤ, strip, splitlines, split_once, parse_int, get_str, put_str, no_float,
  nan, number,
}
use yandex_codeforces_analyz.Sandbox.{
  RunStatus, RunResult, RunLimits, ok_run, runtime_error, time_limit, memory_limit, output_limit,
  internal_error, effective_wall_time_ms,
}

abbrev pub sigxfsz : ℤ
sigxfsz = pos 25

-- one line of the loop of `parse_meta`
pub add_line : List (String × String) → String → List (String × String)
add_line fields raw =
    let line = strip raw in
    if str_is_empty line then fields else elim (split_once b':' line) [
      | none ↦ fields
      | some (key, value) ↦ put_str (strip key) (strip value) fields
    ]

unfoldable pub parse_meta : String → List (String × String)
unfolding add_line
parse_meta text = foldl add_line [] (splitlines text)

-- `_to_int`
unfoldable pub to_int : Option String → ℤ
to_int none = pos 0
to_int (some raw) =
    if str_is_empty raw then pos 0 else elim (parse_int raw) [ none ↦ pos 0 | some n ↦ n ]

eq_ℤ_iff : (a b : ℤ) → (eq_ℤ a b ≡ true) ↔ (a ≡ b)
eq_ℤ_iff (pos a) (pos b) = ground arith
eq_ℤ_iff (pos a) (negsuc b) = ground arith
eq_ℤ_iff (negsuc a) (pos b) = ground arith
eq_ℤ_iff (negsuc a) (negsuc b) = ground arith

module _ (fl : Floats) where
  open fl use {Float, fmul, of_int, round_int, parse_float}

  -- `_seconds_to_ms`; `round` refuses a NaN by the ValueError that is caught
  unfoldable pub seconds_to_ms : Option String → ℤ
  seconds_to_ms none = pos 0
  seconds_to_ms (some raw) = if str_is_empty raw then pos 0 else elim (parse_float raw) [
    | no_float ↦ pos 0
    | nan ↦ pos 0
    | number x ↦ round_int (fmul x (of_int 1000))
  ]

  -- `seconds >= limit > 0`
  abbrev pub reaches : ℤ → ℕ → Bool
  reaches ms limit = leb_ℤ (pos limit) ms && ltb 0 limit

  unfoldable pub classify : List (String × String) → RunLimits → RunStatus
  classify fields limits =
      let status = or_else (get_str "status" fields) "" in
      let signal = to_int (get_str "exitsig" fields) in
      if eq_ℤ (to_int (get_str "cg-oom-killed" fields)) (pos 1)
      then memory_limit
      else if eq_ℤ signal sigxfsz
      then output_limit
      else if str_eq status "TO"
      then time_limit
      else if reaches (seconds_to_ms (get_str "time" fields)) limits.cpu_time_ms
      then time_limit
      else if reaches (seconds_to_ms (get_str "time-wall" fields)) (effective_wall_time_ms limits)
      then time_limit
      else if str_eq status "XX"
      then internal_error
      else if str_eq status "SG" || str_eq status "RE"
      then runtime_error
      else if not (eq_ℤ (to_int (get_str "exitcode" fields)) (pos 0))
      then runtime_error
      else ok_run

  unfoldable pub build_result : String → RunLimits → RunResult
  build_result text limits =
      let fields = parse_meta text in
      let signal = to_int (get_str "exitsig" fields) in
      record {
        status = classify fields limits;
        exit_code = to_int (get_str "exitcode" fields);
        signal = if eq_ℤ signal (pos 0) then none else some signal;
        cpu_time_ms = seconds_to_ms (get_str "time" fields);
        wall_time_ms = seconds_to_ms (get_str "time-wall" fields);
        memory_kb = or_ℤ (to_int (get_str "max-rss" fields)) (to_int (get_str "cg-mem" fields));
        message = or_else (get_str "message" fields) "";
      }

  -- what a clean run shows in the meta file: no kill for memory, no output overrun, no timeout and
  -- no time at a limit, no failure of the program or of isolate, and the exit code 0
  pub record IsClean (fields : List (String × String)) (limits : RunLimits) : Type 0 where
    pub not_oom : to_int (get_str "cg-oom-killed" fields) ≢ pos 1
    pub no_overrun : to_int (get_str "exitsig" fields) ≢ sigxfsz
    pub not_timeout : or_else (get_str "status" fields) "" ≢ "TO"
    pub not_broken : or_else (get_str "status" fields) "" ≢ "XX"
    pub not_signalled : or_else (get_str "status" fields) "" ≢ "SG"
    pub not_failed : or_else (get_str "status" fields) "" ≢ "RE"
    pub cpu_below :
        0 < limits.cpu_time_ms
        → leb_ℤ (pos limits.cpu_time_ms) (seconds_to_ms (get_str "time" fields)) ≡ false
    pub wall_below :
        0 < effective_wall_time_ms limits
        → leb_ℤ (pos (effective_wall_time_ms limits)) (seconds_to_ms (get_str "time-wall" fields))
          ≡ false
    pub exit_zero : to_int (get_str "exitcode" fields) ≡ pos 0

  module _ (fields : List (String × String)) (limits : RunLimits) where
    abbrev status : String
    status = or_else (get_str "status" fields) ""

    abbrev oom : ℤ
    oom = to_int (get_str "cg-oom-killed" fields)

    abbrev signal : ℤ
    signal = to_int (get_str "exitsig" fields)

    abbrev exit_code : ℤ
    exit_code = to_int (get_str "exitcode" fields)

    ok_run-IsClean : classify fields limits ≡ ok_run → IsClean fields limits
    unfolding classify
    ok_run-IsClean h = record {
      not_oom = λ e. ground (arith, eq_ℤ_iff oom (pos 1));
      no_overrun = λ e. ground (arith, eq_ℤ_iff signal sigxfsz);
      not_timeout = λ e. ground (arith, str_eq_iff status "TO");
      not_broken = λ e. ground (arith, str_eq_iff status "XX");
      not_signalled = λ e. ground (arith, str_eq_iff status "SG");
      not_failed = λ e. ground (arith, str_eq_iff status "RE");
      cpu_below = λ l. ground arith;
      wall_below = λ l. ground arith;
      exit_zero = ground (arith, eq_ℤ_iff exit_code (pos 0));
    }

    IsClean-ok_run : IsClean fields limits → classify fields limits ≡ ok_run
    unfolding classify
    IsClean-ok_run c = ground (
      arith,
      eq_ℤ_iff oom (pos 1),
      eq_ℤ_iff signal sigxfsz,
      str_eq_iff status "TO",
      str_eq_iff status "XX",
      str_eq_iff status "SG",
      str_eq_iff status "RE",
      eq_ℤ_iff exit_code (pos 0),
      c.cpu_below,
      c.wall_below,
    )

    -- the ways to be too slow
    abbrev pub IsSlow : Type 0
    IsSlow =
        (status ≡ "TO")
        ⊎ ((0 < limits.cpu_time_ms)
              × (leb_ℤ (pos limits.cpu_time_ms) (seconds_to_ms (get_str "time" fields)) ≡ true)
            ⊎ (0 < effective_wall_time_ms limits)
              × (leb_ℤ (pos (effective_wall_time_ms limits))
                    (seconds_to_ms (get_str "time-wall" fields))
                  ≡ true))

    -- A run is classified as clean exactly when its meta file shows it: no kill for memory, no
    -- output overrun, none of the statuses TO, XX, SG and RE, the CPU and the wall time below their
    -- limits where these are positive, and the exit code 0.
    pub classify_ok_iff : (classify fields limits ≡ ok_run) ↔ IsClean fields limits
    classify_ok_iff = (ok_run-IsClean, IsClean-ok_run)

    -- A run is classified as a kill for memory exactly when isolate set the kill flag, whatever
    -- else the meta file says; and as too slow exactly when there was no such kill, no output
    -- overrun, and isolate reported a timeout or a positive limit was reached.
    pub classify-limits_iff :
        ((classify fields limits ≡ memory_limit) ↔ (oom ≡ pos 1))
        × ((classify fields limits ≡ time_limit) ↔ ((oom ≢ pos 1) × (signal ≢ sigxfsz) × IsSlow))
    unfolding classify
    classify-limits_iff = (
      (λ h. ground (arith, eq_ℤ_iff oom (pos 1)), λ h. ground (arith, eq_ℤ_iff oom (pos 1))),
      (
        λ h. (
          λ e. ground (arith, eq_ℤ_iff oom (pos 1)),
          λ e. ground (arith, eq_ℤ_iff signal sigxfsz),
          ground (arith, str_eq_iff status "TO"),
        ),
        λ h. ground (
          arith,
          eq_ℤ_iff oom (pos 1),
          eq_ℤ_iff signal sigxfsz,
          str_eq_iff status "TO",
          h.0,
          h.1,
        ),
      ),
    )
