-- ===== src/Archive.antt =====
-- backend/api/user/polygon/archive/jobs.py: the table of import jobs, which lives in memory. The new
-- id (uuid4) and the clock are arguments; the dictionaries for the status endpoint are not modelled.
pub mod Bounds
mod Tests
use yandex_codeforces_analyz.Prelude.{
  ℕ, zero, suc, ◌+◌, ◌-◌, ◌*◌, ◌/◌, ◌%◌, ◌≤◌, ◌<◌, min, max, String, ◌≡◌, refl, sym, ap, ap₂, ◌∙◌,
  subst, fun_ext, ◌≢◌, ◌↔◌, ◌⊎◌, inl, inr, Bool, true, false, not, ◌&&◌, ◌||◌, Option, none, some,
  List, [], ◌∷◌, ◌++◌, map, foldl, append-nil, append_assoc, arith, ltb, leb, ◌==◌, if◌then◌else◌,
  ltb→lt, leb→le, ==_iff, Bool-cases, Option-cases, or_else, is_some, length, get_elem?, take, drop,
  all_of, any_of, select, count_of, first_where, Every, length-append, take-append-drop,
  count_of-le, sum_by, str_eq, str_eq_iff, str_append, str_take, str_is_empty, str_or, show, join,
  Floats, IsLawful, get_key, put_key, modify, set_default, has_key, keys, values, get_key-put_key,
  get_key-modify, get_key-set_default, keys-modify, get_key_missing, dict_laws, insert_by, sort_by,
  sort_by-perm, IsSorted, IsWeakOrder, sort_by-IsSorted, ℤ, pos, negsuc, leb_ℤ, eq_ℤ, max_ℤ, or_ℤ,
  lstrip, rstrip, strip, strip_edges, split, first_word, after_prefix, after_marker, splitlines,
  split_once, parse_int, get_str, put_str, no_float, nan, number, Reading, read_digits-two_digits,
  after_prefix-append, after_prefix-differs, two_digits, read_digits, heads_differ, modified,
  append_named, after_prefix_complete, str_eq_refl, str_eq_comm, get_str-nil, get_str-put_str,
  Every-select, Every-selected, Every-take, Every-both, first_where-holds, str_eq-append,
  str_eq_apart,
}

-- the progress of one problem; `stage` is one of PROBLEM_STAGES
pub record ProblemStatus : Type 0 where
  pub name : String
  pub polygon_name : String
  pub polygon_id : Option ℕ
  pub stage : String
  pub problem_error : Option String
  pub solutions_total : ℕ
  pub solutions_done : ℕ
  pub tests_total : ℕ
  pub tests_done : ℕ
  pub groups_total : ℕ
  pub images_total : ℕ
  pub checker : Option String
  pub validator : Option String
  pub log : List String

-- `note`
unfoldable pub note : String → ProblemStatus → ProblemStatus
note msg s = record s { log = s.log ++ msg ∷ [] }

pub record ImportJob : Type 0 where
  pub id : String
  pub user_id : ℕ
  pub status : String
  pub error : Option String
  pub archive_name : String
  pub prefix : String
  pub problems : List ProblemStatus
  pub created_at : ℕ

abbrev pub max_jobs : ℕ
max_jobs = 30

abbrev pub created_before : String × ImportJob → String × ImportJob → Bool
created_before a b = ltb a.1.created_at b.1.created_at

-- `JOBS.pop(jid, None)`
abbrev pub pop_job : String → List (String × ImportJob) → List (String × ImportJob)
pop_job jid jobs = select (λ e. not (str_eq e.0 jid)) jobs

-- the loop over the oldest jobs
unfoldable pub pop_all :
    List (String × ImportJob) → List (String × ImportJob) → List (String × ImportJob)
pop_all [] jobs = jobs
pop_all (e ∷ es) jobs = pop_all es (pop_job e.0 jobs)

unfoldable pub evict : List (String × ImportJob) → List (String × ImportJob)
evict jobs =
    if leb max_jobs (length jobs)
    then pop_all (take (length jobs - max_jobs + 1) (sort_by created_before jobs)) jobs
    else jobs

unfoldable pub new_job : String → ℕ → String → ℕ → ImportJob
new_job jid user_id archive_name now = record {
  id = jid;
  user_id = user_id;
  status = "parsing";
  error = none;
  archive_name = archive_name;
  prefix = "";
  problems = [];
  created_at = now;
}

unfoldable pub create_job :
    String → ℕ → ℕ → String → List (String × ImportJob) → List (String × ImportJob)
create_job jid now user_id archive_name jobs =
    put_str jid (new_job jid user_id archive_name now) (evict jobs)

unfoldable pub get_job : String → ℕ → List (String × ImportJob) → Option ImportJob
get_job jid user_id jobs = elim (get_str jid jobs) [
  | none ↦ none
  | some job ↦ if not (job.user_id == user_id) then none else some job
]
