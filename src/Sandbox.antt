-- ===== src/Sandbox.antt =====
-- backend/judge/app/sandbox: the limits and the outcome of a run, and the interface of a box
-- (limits.py, result.py, base.py). `Session` is what the judging code sees of a box; isolate itself
-- is a program outside this repository. An exception is a value of `Error`.
pub mod Meta
pub mod Command
pub mod Pool
mod Tests
use yandex_codeforces_analyz.Prelude.{
  ℕ, zero, suc, ◌+◌, ◌-◌, ◌*◌, ◌/◌, ◌%◌, ◌≤◌, ◌<◌, min, max, String, ◌≡◌, refl, sym, ap, ap₂, ◌∙◌,
  subst, fun_ext, ◌≢◌, ◌↔◌, ◌⊎◌, inl, inr, Bool, true, false, not, ◌&&◌, ◌||◌, Option, none, some,
  List, [], ◌∷◌, ◌++◌, map, foldl, append-nil, append_assoc, arith, ltb, leb, ◌==◌, if◌then◌else◌,
  ltb→lt, leb→le, ==_iff, Bool-cases, Option-cases, or_else, is_some, length, get_elem?, take, drop,
  all_of, any_of, select, count_of, first_where, Every, length-append, take-append-drop,
  count_of-le, sum_by, str_eq, str_eq_iff, str_append, str_take, str_is_empty, str_or, show, join,
  Floats, IsLawful, get_key, put_key, modify, set_default, has_key, keys, values, get_key-put_key,
  get_key-modify, get_key-set_default, keys-modify, get_key_missing, dict_laws, insert_by, sort_by,
  sort_by-perm, IsSorted, IsWeakOrder, sort_by-IsSorted, ℤ, pos, negsuc, leb_ℤ, eq_ℤ, max_ℤ, or_ℤ,
  lstrip, rstrip, strip, first_word, after_prefix, after_marker, splitlines, split_once, parse_int,
  get_str, put_str, no_float, nan, number, Reading,
}

-- the exceptions that the judging code raises: SandboxError, ValueError, UnknownLanguage
pub data Error : Type 0 where
  sandbox_error value_error unknown_language : String → Error

pub data Result {ℓ} (A : Type ℓ) : Type ℓ where
  ok : A → Result A
  err : Error → Result A

infixl 5 ◌>>=◌
abbrev pub ◌>>=◌ {ℓ κ} : {A : Type ℓ} {B : Type κ} → Result A → (A → Result B) → Result B
ok a >>= f = f a
err e >>= f = err e

-- result.py
pub data RunStatus : Type 0 where
  ok_run runtime_error time_limit memory_limit output_limit internal_error : RunStatus

abbrev pub is_ok_run : RunStatus → Bool
is_ok_run ok_run = true
is_ok_run _ = false

-- `RunStatus.value`
unfoldable pub status_value : RunStatus → String
status_value ok_run = "OK"
status_value runtime_error = "RE"
status_value time_limit = "TL"
status_value memory_limit = "ML"
status_value output_limit = "OL"
status_value internal_error = "XX"

pub record RunResult : Type 0 where
  pub status : RunStatus
  pub exit_code : ℤ
  pub signal : Option ℤ
  pub cpu_time_ms : ℤ
  pub wall_time_ms : ℤ
  pub memory_kb : ℤ
  pub message : String

-- limits.py
pub record RunLimits : Type 0 where
  pub cpu_time_ms : ℕ
  pub memory_kb : ℕ
  pub wall_time_ms : ℕ
  pub extra_time_ms : ℕ
  pub max_processes : ℕ
  pub output_kb : ℕ
  pub stack_kb : ℕ

-- the fields' defaults, for the three values that the callers give
abbrev pub default_limits : ℕ → ℕ → ℕ → RunLimits
default_limits cpu memory processes = record {
  cpu_time_ms = cpu;
  memory_kb = memory;
  wall_time_ms = 0;
  extra_time_ms = 500;
  max_processes = processes;
  output_kb = 65536;
  stack_kb = 0;
}

-- `RunLimits.__post_init__`
unfoldable pub check_limits : RunLimits → Result RunLimits
check_limits l =
    if leb l.cpu_time_ms 0
    then err (value_error "cpu_time_ms must be positive")
    else if leb l.memory_kb 0
    then err (value_error "memory_kb must be positive")
    else if ltb l.max_processes 1
    then err (value_error "max_processes must be at least 1")
    else ok l

unfoldable pub effective_wall_time_ms : RunLimits → ℕ
effective_wall_time_ms l = if ltb 0 l.wall_time_ms then l.wall_time_ms else l.cpu_time_ms * 2

module _ (fl : Floats) where
  open fl use {Float, fmul, of_int, trunc}

  -- `RunLimits.from_problem`, which the callers give no overrides
  unfoldable pub from_problem : ℕ → ℕ → Float → Result RunLimits
  unfolding check_limits
  from_problem time_limit_ms memory_limit_mb tl_multiplier = check_limits (
      default_limits (trunc (fmul (of_int time_limit_ms) tl_multiplier)) (memory_limit_mb * 1024) 1)

-- base.py: `SandboxSession`, over the state of its box, and `Sandbox.session`. A run takes the
-- command, the limits, and the names of stdin, stdout and stderr; `decode` is
-- `bytes.decode(errors="replace")`.
pub record Session : Type 1 where
  pub Box : Type 0
  pub Bytes : Type 0
  pub open_box : Result Box
  pub put_file : String → Bytes → Box → Result Box
  pub read_file : String → Option ℕ → Box → Result Bytes
  pub run_program :
      List String
      → RunLimits
      → Option String
      → Option String
      → Option String
      → Box
      → Result (RunResult × Box)
  pub decode : Bytes → String

abbrev InSandbox : Error → Type 0
InSandbox (sandbox_error text) = Unit
InSandbox (value_error text) = ⊥
InSandbox (unknown_language text) = ⊥

-- a computation that can only fail with an error of the sandbox
pub record IsCalm {A : Type 0} (m : Result A) : Type 0 where
  pub fails : (e : Error) → m ≡ err e → InSandbox e

pub IsCalm-ok : {A : Type 0} (a : A) → IsCalm (Result.ok a)
IsCalm-ok a = record { fails = λ e h. absurd (cc) }

pub IsCalm-failed :
    {A : Type 0} (m : Result A) (text : String) → m ≡ err (sandbox_error text) → IsCalm m
IsCalm-failed m text h = record {
  fails = λ e g. let same : sandbox_error text ≡ e = cc in subst InSandbox same tt;
}

pub IsCalm-bind :
    {A B : Type 0} (m : Result A) (f : A → Result B)
    → IsCalm m
    → ((a : A) → IsCalm (f a))
    → IsCalm (m >>= f)
IsCalm-bind (ok a) f h k = k a
IsCalm-bind (err x) f h k = record { fails = λ e g. h.fails e (ground (arith, g)) }

-- every operation on a box fails with an error of the sandbox, if it fails
pub record IsContained (se : Session) : Type 0 where
  pub opens : IsCalm se.open_box
  pub puts :
      (name : String) (content : se.Bytes) (box : se.Box) → IsCalm (se.put_file name content box)
  pub reads :
      (name : String) (limit : Option ℕ) (box : se.Box) → IsCalm (se.read_file name limit box)
  pub runs :
      (argv : List String) (limits : RunLimits) (stdin stdout stderr : Option String) (box : se.Box)
      → IsCalm (se.run_program argv limits stdin stdout stderr box)

-- what holds of the value of a computation, if it returns one
pub record Ensures {A : Type 0} (P : A → Type 0) (m : Result A) : Type 0 where
  pub holds : (a : A) → m ≡ ok a → P a

module _ {A B : Type 0} (P : B → Type 0) where
  pub Ensures-bind :
      (m : Result A) (f : A → Result B)
      → ((a : A) → m ≡ ok a → Ensures P (f a))
      → Ensures P (m >>= f)
  Ensures-bind (ok a) f h = h a refl
  Ensures-bind (err e) f h = record { holds = λ b e'. cc }

ok-injective : {A : Type 0} {a b : A} → Result.ok a ≡ ok b → a ≡ b
ok-injective e = cc

pub Ensures-ok : {A : Type 0} (P : A → Type 0) (a : A) → P a → Ensures P (ok a)
Ensures-ok P a h = record { holds = λ b e. subst P (ok-injective e) h }
