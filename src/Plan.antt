-- ===== src/Plan.antt =====
-- services/ai-authoring/authoring/pipeline/groups.py: the groups of a test plan, the script lines they
-- expand to, and the assignment of the tests of Polygon to the groups. A message is a value of
-- `Fault` or `Warning`, with what its text names. The validation of a raw plan and the texts for
-- FreeMarker and LaTeX are not modelled here.
pub mod Lines
pub mod Assign
pub mod Partition
mod Tests
use yandex_codeforces_analyz.Prelude.{
  ℕ, zero, suc, ◌+◌, ◌-◌, ◌*◌, ◌/◌, ◌%◌, ◌≤◌, ◌<◌, min, max, String, ◌≡◌, refl, sym, ap, ap₂, ◌∙◌,
  subst, fun_ext, ◌≢◌, ◌↔◌, ◌⊎◌, inl, inr, Bool, true, false, not, ◌&&◌, ◌||◌, Option, none, some,
  List, [], ◌∷◌, ◌++◌, map, foldl, append-nil, append_assoc, arith, ltb, leb, ◌==◌, if◌then◌else◌,
  ltb→lt, leb→le, ==_iff, Bool-cases, Option-cases, or_else, is_some, length, get_elem?, take, drop,
  all_of, any_of, select, count_of, first_where, Every, length-append, take-append-drop,
  count_of-le, sum_by, str_eq, str_eq_iff, str_append, str_take, str_is_empty, str_or, show, join,
  Floats, IsLawful, get_key, put_key, modify, set_default, has_key, keys, values, get_key-put_key,
  get_key-modify, get_key-set_default, keys-modify, get_key_missing, dict_laws, insert_by, sort_by,
  sort_by-perm, IsSorted, IsWeakOrder, sort_by-IsSorted, ℤ, pos, negsuc, leb_ℤ, eq_ℤ, max_ℤ, or_ℤ,
  lstrip, rstrip, strip, strip_edges, split, first_word, after_prefix, after_marker, splitlines,
  split_once, parse_int, get_str, put_str, no_float, nan, number, Reading,
}

pub record Case : Type 0 where
  pub args : String
  pub case_count : ℕ

pub record GroupPlan (F : Type 0) : Type 0 where
  pub name : String
  pub points : F
  pub description : String
  pub dependencies : List String
  pub generator : Option String
  pub cases : List Case
  pub samples : Bool

pub record TestPlan (F : Type 0) : Type 0 where
  pub use_groups : Bool
  pub groups : List (GroupPlan F)
  pub note : String

-- the errors: an assertion, a PlanError, an IndexError and a KeyError
pub data Fault : Type 0 where
  no_generator : String → Fault
  counts_differ : ℕ → ℕ → Fault
  empty_group : String → Fault
  no_generated_group : Fault
  unknown_group : String → Fault

pub data Warning : Type 0 where
  manual_to_last : ℕ → String → Warning
  sample_to_last : ℕ → String → Warning
  no_sample_tests : String → Warning
  dropped_dependencies : String → List String → Warning

pub data Planned (A : Type 0) : Type 0 where
  planned : A → Planned A
  fault : Fault → Planned A

infixl 5 ◌then◌
abbrev pub ◌then◌ : {A B : Type 0} → Planned A → (A → Planned B) → Planned B
(planned a) then f = f a
(fault e) then f = fault e

module _ {F : Type 0} where
  unfoldable pub test_count : GroupPlan F → ℕ
  test_count g = sum_by (λ c. c.case_count) g.cases

  abbrev pub samples_group : TestPlan F → Option (GroupPlan F)
  samples_group plan = first_where (λ g. g.samples) plan.groups

  abbrev pub generated_groups : TestPlan F → List (GroupPlan F)
  generated_groups plan = select (λ g. not g.samples) plan.groups

unfoldable pub total_points : (fl : Floats) → TestPlan fl.Float → fl.Float
total_points fl plan = foldl fl.fadd fl.fzero (map (λ g. g.points) plan.groups)

pub record ScriptLine : Type 0 where
  pub group : String
  pub generator : String
  pub command : String

-- `" ".join(p for p in parts if p)`
unfoldable pub command_of : String → String → ℕ → String
command_of generator args seed =
    join " " (select (λ p. not (str_is_empty p)) (generator ∷ args ∷ show seed ∷ []))

-- the lines of one case, of the cases of a group, and of the groups, after `seed` lines
unfoldable pub lines_of : String → String → String → ℕ → ℕ → List ScriptLine
lines_of name generator args zero seed = []
lines_of name generator args (suc n) seed =
    (record { group = name; generator = generator; command = command_of generator args (suc seed) })
    ∷ lines_of name generator args n (suc seed)

unfoldable pub case_lines : String → String → List Case → ℕ → List ScriptLine
case_lines name generator [] seed = []
case_lines name generator (c ∷ cs) seed =
    lines_of name generator c.args c.case_count seed
    ++ case_lines name generator cs (seed + c.case_count)

module _ {F : Type 0} where
  unfoldable pub group_lines : List (GroupPlan F) → ℕ → Planned (List ScriptLine)
  group_lines [] seed = planned []
  group_lines (g ∷ gs) seed =
      let generator = or_else g.generator "" in
      let rest = group_lines gs (seed + test_count g) in
      if str_is_empty generator
      then fault (no_generator g.name)
      else rest then λ lines. planned (case_lines g.name generator g.cases seed ++ lines)

  unfoldable pub expand_lines : TestPlan F → Planned (List ScriptLine)
  expand_lines plan = group_lines (generated_groups plan) 0

-- what holds of the value of a step, if it has one
pub record Yields {A : Type 0} (P : A → Type 0) (m : Planned A) : Type 0 where
  pub holds : (a : A) → m ≡ planned a → P a

planned-injective : {A : Type 0} {a b : A} → planned a ≡ planned b → a ≡ b
planned-injective e = cc

module _ {B : Type 0} (P : B → Type 0) where
  pub Yields-planned : (b : B) → P b → Yields P (planned b)
  Yields-planned b h = record { holds = λ c e. subst P (planned-injective e) h }

  pub Yields-fault : (e : Fault) → Yields P (fault e)
  Yields-fault e = record { holds = λ c e'. cc }

module _ {A B : Type 0} (Q : A → Type 0) (P : B → Type 0) where
  pub Yields-then :
      (m : Planned A) (f : A → Planned B)
      → Yields Q m
      → ((a : A) → Q a → Yields P (f a))
      → Yields P (m then f)
  Yields-then (planned a) f h k = k a (h.holds a refl)
  Yields-then (fault e) f h k = record { holds = λ b e'. cc }
