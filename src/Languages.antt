-- ===== src/Languages.antt =====
-- backend/judge/app/languages: the registry of languages (registry.py) and the compilation of a
-- source inside a box (compile.py).
pub mod Registry
mod Tests
use yandex_codeforces_analyz.Prelude.{
  ℕ, zero, suc, ◌+◌, ◌-◌, ◌*◌, ◌/◌, ◌%◌, ◌≤◌, ◌<◌, min, max, String, ◌≡◌, refl, sym, ap, ap₂, ◌∙◌,
  subst, fun_ext, ◌≢◌, ◌↔◌, ◌⊎◌, inl, inr, Bool, true, false, not, ◌&&◌, ◌||◌, Option, none, some,
  List, [], ◌∷◌, ◌++◌, map, foldl, append-nil, append_assoc, arith, ltb, leb, ◌==◌, if◌then◌else◌,
  ltb→lt, leb→le, ==_iff, Bool-cases, Option-cases, or_else, is_some, length, get_elem?, take, drop,
  all_of, any_of, select, count_of, first_where, Every, length-append, take-append-drop,
  count_of-le, sum_by, str_eq, str_eq_iff, str_append, str_take, str_is_empty, str_or, show, join,
  Floats, IsLawful, get_key, put_key, modify, set_default, has_key, keys, values, get_key-put_key,
  get_key-modify, get_key-set_default, keys-modify, get_key_missing, dict_laws, insert_by, sort_by,
  sort_by-perm, IsSorted, IsWeakOrder, sort_by-IsSorted, ℤ, pos, negsuc, leb_ℤ, eq_ℤ, max_ℤ, or_ℤ,
  lstrip, rstrip, strip, first_word, after_prefix, after_marker, splitlines, split_once, parse_int,
  get_str, put_str, no_float, nan, number, Reading,
}
use yandex_codeforces_analyz.Sandbox.{
  Error, Result, ok, err, value_error, unknown_language, ◌>>=◌, RunStatus, RunResult, RunLimits,
  ok_run, time_limit, memory_limit, internal_error, is_ok_run, default_limits, check_limits,
  Session,
}

-- the name of the binary that a submission builds into
abbrev pub default_binary : String
default_binary = "main"

module _ (F : Type 0) where
  pub record Language : Type 0 where
    pub id : String
    pub name : String
    pub source_name : String
    pub run_argv : List String
    pub compile_argv : Option (List String)
    pub tl_multiplier : F
    pub compile_time_ms : ℕ
    pub compile_memory_kb : ℕ
    pub compile_processes : ℕ

-- `template.format(source=source, binary=binary)` for templates that hold no other braces; the
-- counter skips the letters of a field that was replaced
format_from : ℕ → String → String → String → String
format_from skip source binary String.[] = ""
format_from (suc k) source binary (String.◌∷◌ c s) = format_from k source binary s
format_from zero source binary (String.◌∷◌ c s) =
    let as_source = str_append source (format_from 7 source binary s) in
    let as_binary = str_append binary (format_from 7 source binary s) in
    let as_letter = String.◌∷◌ c (format_from 0 source binary s) in
    if is_some (after_prefix "{source}" (String.◌∷◌ c s))
    then as_source
    else if is_some (after_prefix "{binary}" (String.◌∷◌ c s))
    then as_binary
    else as_letter

-- `Language._render`
unfoldable pub render : List String → String → String → List String
unfolding format_from
render argv source binary = map (format_from 0 source binary) argv

-- `str.partition(".")`: the parts before and after the first dot
stem_and_ext : String → String × String
stem_and_ext s = elim (split_once b'.' s) [ none ↦ (s, "") | some parts ↦ parts ]

module _ {F : Type 0} where
  abbrev pub needs_compilation : Language F → Bool
  needs_compilation l = is_some l.compile_argv

  unfoldable pub run_command : Language F → String → String → List String
  run_command l source binary = render l.run_argv source binary

  unfoldable pub source_file : Language F → String → String
  unfolding stem_and_ext
  source_file l binary =
      let (stem, ext) = stem_and_ext l.source_name in
      if str_eq binary default_binary
      then l.source_name
      else str_append binary (str_append "_" (str_append stem (str_append "." ext)))

  -- `get`, on the registry as a list of languages in the order of registration
  unfoldable pub get_language : List (Language F) → String → Result (Language F)
  get_language [] id = err (unknown_language id)
  get_language (l ∷ rest) id =
      let found = get_language rest id in if str_eq l.id id then ok l else found

  -- `register`
  unfoldable pub register : List (Language F) → Language F → Result (List (Language F))
  register registry l =
      if any_of (λ r. str_eq r.id l.id) registry
      then err (value_error (str_append "language already registered: " l.id))
      else ok (registry ++ (l ∷ []))

-- the languages that are registered at first, with multipliers 1 and 3
module _ (fl : Floats) where
  open fl use {Float, fone, of_int}

  unfoldable pub cpp : Language Float
  cpp = record {
    id = "cpp";
    name = "C++ 17 (g++)";
    source_name = "main.cpp";
    run_argv = "./{binary}" ∷ [];
    compile_argv =
        some ("/usr/bin/g++" ∷ "-O2" ∷ "-std=c++17" ∷ "-o" ∷ "{binary}" ∷ "{source}" ∷ []);
    tl_multiplier = fone;
    compile_time_ms = 10000;
    compile_memory_kb = 524288;
    compile_processes = 16;
  }

  unfoldable pub python : Language Float
  python = record {
    id = "python";
    name = "Python 3";
    source_name = "main.py";
    run_argv = "/usr/bin/python3" ∷ "{source}" ∷ [];
    compile_argv = some ("/usr/bin/python3" ∷ "-m" ∷ "py_compile" ∷ "{source}" ∷ []);
    tl_multiplier = of_int 3;
    compile_time_ms = 10000;
    compile_memory_kb = 524288;
    compile_processes = 16;
  }

pub record CompileResult : Type 0 where
  pub is_ok : Bool
  pub log : String
  pub is_internal_error : Bool
  pub source_name : String
  pub binary_name : String

abbrev max_log_bytes : ℕ
max_log_bytes = 65536

abbrev compiled_as : String → String → CompileResult
compiled_as source_name binary_name = record {
  is_ok = true;
  log = "";
  is_internal_error = false;
  source_name = source_name;
  binary_name = binary_name;
}

-- what `compile_source` makes of a compiler that did not end well
failed_as : RunResult → String → String → String → CompileResult
failed_as result log source_name binary_name = elim result.status [
  | internal_error ↦ record {
    is_ok = false;
    log = str_or log result.message;
    is_internal_error = true;
    source_name = source_name;
    binary_name = binary_name;
  }
  | time_limit ↦ record {
    is_ok = false;
    log = str_or log "compilation timed out";
    is_internal_error = false;
    source_name = source_name;
    binary_name = binary_name;
  }
  | memory_limit ↦ record {
    is_ok = false;
    log = str_or log "compiler ran out of memory";
    is_internal_error = false;
    source_name = source_name;
    binary_name = binary_name;
  }
  | _ ↦ record {
    is_ok = false;
    log = log;
    is_internal_error = false;
    source_name = source_name;
    binary_name = binary_name;
  }
]

module _ (se : Session) where
  open se use {Box, Bytes, put_file}

  unfoldable pub put_files : List (String × Bytes) → Box → Result Box
  put_files [] box = ok box
  put_files ((name, bytes) ∷ rest) box = put_file name bytes box >>= put_files rest

module _ {F : Type 0} (se : Session) where
  open se use {Box, Bytes, put_file, read_file, run_program, decode}

  -- `compile_source`; the state of the box is passed on
  unfoldable pub compile_source :
      Language F → Bytes → List (String × Bytes) → String → Box → Result (CompileResult × Box)
  unfolding put_files failed_as
  compile_source language source extra_files binary_name box =
      let source_name = source_file language binary_name in
      let log_name =
        if str_eq binary_name default_binary
        then "compile.log"
        else str_append "compile_" (str_append binary_name ".log") in
      let run_compiler = λ (argv : List String) (box' : Box).
        check_limits (
          default_limits language.compile_time_ms language.compile_memory_kb
            language.compile_processes)
        >>= λ limits.
            run_program (render argv source_name binary_name) limits none (some log_name)
              (some log_name) box'
            >>= λ (result, after).
                if is_ok_run result.status
                then ok (compiled_as source_name binary_name, after)
                else read_file log_name (some max_log_bytes) after >>= λ log.
                    ok (failed_as result (decode log) source_name binary_name, after) in
      put_file source_name source box >>= put_files se extra_files >>= λ box'.
      elim language.compile_argv [
        | none ↦ ok (compiled_as source_name binary_name, box')
        | some argv ↦ run_compiler argv box'
      ]
