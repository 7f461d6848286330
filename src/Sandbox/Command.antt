-- ===== src/Sandbox/Command.antt =====
-- backend/judge/app/sandbox/isolate.py: the command line that isolate is started with.
use yandex_codeforces_analyz.Prelude.{
  ℕ, ◌/◌, ◌%◌, String, Bool, Option, none, some, List, [], ◌∷◌, ◌++◌, ◌==◌, if◌then◌else◌,
  str_append, str_is_empty, show, put_str,
}
use yandex_codeforces_analyz.Sandbox.{RunLimits, effective_wall_time_ms}

abbrev pub base_env : List (String × String)
base_env = ("PATH", "/usr/local/bin:/usr/bin:/bin") ∷ ("HOME", "/box") ∷ []

-- the three digits of a number below 1000
pad3 : ℕ → String
pad3 n = str_append (show (n / 100)) (str_append (show (n / 10 % 10)) (show (n % 10)))

-- `_ms_to_s`: `f"{value / 1000:.3f}"`, exact for whole milliseconds
unfoldable pub ms_to_s : ℕ → String
unfolding pad3 show
ms_to_s value = str_append (show (value / 1000)) (str_append "." (pad3 (value % 1000)))

-- `if value: command.append(f"--name={value}")`
optional : String → Option String → List String
optional name none = []
optional name (some value) = if str_is_empty value then [] else str_append name value ∷ []

merge_env : List (String × String) → List (String × String) → List (String × String)
merge_env base [] = base
merge_env base ((k, v) ∷ rest) = merge_env (put_str k v base) rest

env_options : List (String × String) → List String
env_options [] = []
env_options ((k, v) ∷ rest) =
    str_append "--env=" (str_append k (str_append "=" v)) ∷ env_options rest

record IsolateSession : Type 0 where
  box_id : ℕ
  isolate_bin : String
  use_cgroups : Bool

limit_options : IsolateSession → RunLimits → String → List String
limit_options s limits meta_path =
    str_append "--meta=" meta_path
    ∷ str_append "--time=" (ms_to_s limits.cpu_time_ms)
    ∷ str_append "--wall-time=" (ms_to_s (effective_wall_time_ms limits))
    ∷ str_append "--extra-time=" (ms_to_s limits.extra_time_ms)
    ∷ str_append "--processes=" (show limits.max_processes)
    ∷ str_append "--fsize=" (show limits.output_kb)
    ∷ str_append (if s.use_cgroups then "--cg-mem=" else "--mem=") (show limits.memory_kb)
    ∷ []

-- `_build_command`
build_command :
    IsolateSession
    → List String
    → RunLimits
    → String
    → Option String
    → Option String
    → Option String
    → List (String × String)
    → List String
unfolding limit_options optional merge_env env_options
build_command s argv limits meta_path stdin stdout stderr env =
    (s.isolate_bin ∷ str_append "--box-id=" (show s.box_id) ∷ [])
    ++ ((if s.use_cgroups then "--cg" ∷ [] else [])
        ++ (limit_options s limits meta_path
            ++ ((if limits.stack_kb == 0
                  then []
                  else str_append "--stack=" (show limits.stack_kb) ∷ [])
                ++ (optional "--stdin=" stdin
                    ++ (optional "--stdout=" stdout
                        ++ (optional "--stderr=" stderr
                            ++ (env_options (merge_env base_env env)
                                ++ ("--run" ∷ "--" ∷ argv))))))))
