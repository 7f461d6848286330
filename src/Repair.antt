-- ===== src/Repair.antt =====
-- backend/api/user/gpt/services/build/package_loop.py: the build of a Polygon package, and its
-- repair by a language model. Polygon, the model and the database are the fields of `Services`,
-- functions on a state of the world that may raise; so are the functions of the other modules that
-- the loop calls (Interface). Wait has one build and the wait for it. The progress messages and the logger are left out.
mod Interface
mod Wait
pub mod Rounds
pub mod Polls
mod Watch
pub mod Tries
mod Tests
pub use Interface.{
  Reply, ok, raised, Io, follow, ◌>>=◌, pure, caught, attempt, PackageInfo, Upload, synced,
  rejected, GroupMap, Services,
}
pub use Wait.{Polled, ready, failed, timeout, unfinished, unknown_error, timeout_text, has_number}
unfoldable pub use Wait.{
  is_fresh, latest, fresh_latest, ids_of, package_ids, look, poll, build_once,
}
use yandex_codeforces_analyz.Prelude.{
  ℕ, zero, suc, ◌+◌, ◌-◌, ◌*◌, ◌/◌, ◌%◌, ◌≤◌, ◌<◌, min, max, String, ◌≡◌, refl, sym, ap, ap₂, ◌∙◌,
  subst, fun_ext, ◌≢◌, ◌↔◌, ◌⊎◌, inl, inr, Bool, true, false, not, ◌&&◌, ◌||◌, Option, none, some,
  List, [], ◌∷◌, ◌++◌, map, foldl, append-nil, append_assoc, arith, ltb, leb, ◌==◌, if◌then◌else◌,
  ltb→lt, leb→le, ==_iff, Bool-cases, Option-cases, or_else, is_some, length, get_elem?, take, drop,
  all_of, any_of, select, count_of, first_where, Every, length-append, take-append-drop,
  count_of-le, sum_by, str_eq, str_eq_iff, str_append, str_take, str_is_empty, str_or, show, join,
  Floats, IsLawful, get_key, put_key, modify, set_default, has_key, keys, values, get_key-put_key,
  get_key-modify, get_key-set_default, keys-modify, get_key_missing, dict_laws, insert_by, sort_by,
  sort_by-perm, IsSorted, IsWeakOrder, sort_by-IsSorted, ℤ, pos, negsuc, leb_ℤ, eq_ℤ, max_ℤ, or_ℤ,
  lstrip, rstrip, strip, strip_edges, split, first_word, after_prefix, after_marker, splitlines,
  split_once, parse_int, get_str, put_str, no_float, nan, number, Reading, read_digits-two_digits,
  after_prefix-append, after_prefix-differs, two_digits, read_digits, heads_differ, modified,
  append_named, after_prefix_complete,
}

pub data BuildResult : Type 0 where
  finished : Option ℕ → Option GroupMap → BuildResult
  manual_fix : Option String → String → BuildResult
  timed_out : String → BuildResult
  out_of_fuel : BuildResult

-- the loop's variables; `attempts` and `prev_errors` are dictionaries over the files
pub record Repairing : Type 0 where
  pub offender : String
  pub comment : String
  pub attempts : List (String × ℕ)
  pub prev_errors : List (String × List String)

abbrev pub total : List (String × ℕ) → ℕ
total m = sum_by (λ e. e.1) m

-- `attempts[offender] = attempts.get(offender, 0) + 1`
unfoldable pub tried : String → List (String × ℕ) → List (String × ℕ)
tried f m = put_str f (or_else (get_str f m) 0 + 1) m

-- `prev_errors_by_file.setdefault(offender, [])`, as its reader sees it
abbrev pub errors_of : String → List (String × List String) → List String
errors_of f m = or_else (get_str f m) []

unfoldable pub with_error : String → Repairing → Repairing
with_error c s = record s {
  prev_errors = put_str s.offender (errors_of s.offender s.prev_errors ++ c ∷ []) s.prev_errors;
}

-- `_FIX_COMPANIONS`
unfoldable pub companions : String → List String
companions f =
    if str_eq f "generator"
    then "script" ∷ []
    else if str_eq f "script"
    then "generator" ∷ []
    else []

-- the companions that have a text
unfoldable pub related : List String → List (String × String) → List (String × String)
related [] contents = []
related (f ∷ fs) contents =
    let rest = related fs contents in
    elim (get_str f contents) [
      | none ↦ rest
      | some text ↦ if str_is_empty text then rest else (f, text) ∷ rest
    ]

-- `if next_offender: offender = next_offender`
unfoldable pub next_offender : Option String → String → String
next_offender none f = f
next_offender (some g) f = str_or g f

unfoldable pub skip_text : String → String → String
skip_text f reason = str_append "Не удалось сделать решение «" (
    str_append f (
      str_append "» с гарантированным вердиктом его тега ("
        (str_append reason "). Удалите это решение или смените его тег в Polygon вручную.")))

module _ (sv : Services) where
  open sv use {
    World, get_packages, commit_changes, build_package, resolve_offending_file,
    get_all_file_contents, fix, parse_skip, sync_file, assign_tests_to_groups,
  }

  unfoldable pub finalize : Bool → Io World GroupMap
  finalize has_groups =
      if has_groups
      then (do mapping ← assign_tests_to_groups; _ ← attempt commit_changes; pure mapping)
      else pure []

  unfoldable pub give_up : Repairing → Io World BuildResult
  give_up s = pure (manual_fix (some s.offender) s.comment)

  -- after a build of the repaired file
  unfoldable pub after_build :
      (Repairing → Io World BuildResult) → Bool → Repairing → Polled → Io World BuildResult
  after_build next groups s (ready id) = do _ ← finalize groups; pure (finished id none)
  after_build next groups s (failed c) = do
    offender ← resolve_offending_file c
    next (record (with_error c s) { comment = c; offender = next_offender offender s.offender })
  after_build next groups s timeout = pure (timed_out timeout_text)
  after_build next groups s unfinished = pure out_of_fuel

  unfoldable pub rejection : String → String
  rejection e = str_append "Polygon rejected the uploaded file: " e

  unfoldable pub after_upload :
      (Repairing → Io World BuildResult) → Bool → Repairing → Upload → Io World BuildResult
  after_upload next groups s synced = do outcome ← build_once sv; after_build next groups s outcome
  after_upload next groups s (rejected e) =
      next (record (with_error (rejection e) s) { comment = rejection e })

  unfoldable pub upload :
      (Repairing → Io World BuildResult)
      → Bool
      → Repairing
      → String
      → Option String
      → Io World BuildResult
  upload next groups s fixed none = do
    answer ← sync_file s.offender fixed
    after_upload next groups s answer
  upload next groups s fixed (some reason) =
      pure (manual_fix (some s.offender) (skip_text s.offender reason))

  unfoldable pub after_fix :
      (Repairing → Io World BuildResult) → Bool → Repairing → Option String → Io World BuildResult
  after_fix next groups s none = give_up s
  after_fix next groups s (some fixed) = upload next groups s fixed (parse_skip fixed)

  unfoldable pub ask_fix : Repairing → List (String × String) → Io World (Option String)
  ask_fix s contents = attempt (
      fix s.offender (or_else (get_str s.offender contents) "") s.comment
        (errors_of s.offender s.prev_errors) (related (companions s.offender) contents))

  -- one attempt at the offending file
  unfoldable pub mend : (Repairing → Io World BuildResult) → Bool → Repairing → Io World BuildResult
  mend next groups s = do
    contents ← get_all_file_contents
    fixed ← ask_fix s contents
    after_fix next groups s fixed

  -- the body of the loop, once the attempt is counted
  unfoldable pub try_file :
      (Repairing → Io World BuildResult) → Bool → Repairing → Io World BuildResult
  try_file next groups s =
      if leb (or_else (get_str s.offender s.attempts) 0) 3 then mend next groups s else give_up s

  -- `while sum(attempts.values()) < max_total`
  unfoldable pub repair : ℕ → Bool → Repairing → Io World BuildResult
  repair zero groups s = pure out_of_fuel
  repair (suc fuel) groups s =
      if ltb (total s.attempts) 12
      then try_file (repair fuel groups) groups
          (record s { attempts = tried s.offender s.attempts })
      else give_up s

  unfoldable pub first_offender : Bool → String → Option String → Io World BuildResult
  first_offender groups c none = pure (manual_fix none c)
  first_offender groups c (some f) =
      if str_is_empty f
      then pure (manual_fix none c)
      else repair 13 groups (record { offender = f; comment = c; attempts = []; prev_errors = [] })

  unfoldable pub first_build : Bool → Polled → Io World BuildResult
  first_build groups (ready id) = do mapping ← finalize groups; pure (finished id (some mapping))
  first_build groups (failed c) = do
    offender ← resolve_offending_file c
    first_offender groups c offender
  first_build groups timeout = pure (timed_out timeout_text)
  first_build groups unfinished = pure out_of_fuel

  -- for a session with its Polygon problem, and whether there are scoring groups
  unfoldable pub build_and_poll : Option ℕ → Bool → Io World BuildResult
  build_and_poll problem_id groups =
      if or_else problem_id 0 == 0
      then pure (manual_fix none "Polygon problem id is not set")
      else (do outcome ← build_once sv; first_build groups outcome)
