-- ===== src/Repair/Interface.antt =====
-- package_loop.py: what the build and its repair call, as functions on a state of the world that may
-- raise.
use yandex_codeforces_analyz.Prelude.{ℕ, String, Option, none, some, List}

-- a call ends with a value or with an exception that it lets through
pub data Reply (A : Type 0) : Type 0 where
  ok : A → Reply A
  raised : Reply A

abbrev pub Io : Type 0 → Type 0 → Type 0
Io W A = W → W × Reply A

abbrev pub follow : {W A B : Type 0} → W × Reply A → (A → Io W B) → W × Reply B
follow (w, ok a) k = k a w
follow (w, raised) k = (w, raised)

infixl 5 ◌>>=◌
abbrev pub ◌>>=◌ : {W A B : Type 0} → Io W A → (A → Io W B) → Io W B
(m >>= k) w = follow (m w) k

abbrev pub pure : {W A : Type 0} → A → Io W A
pure a w = (w, ok a)

-- `try: ... except Exception`
abbrev pub caught : {W A : Type 0} → W × Reply A → W × Reply (Option A)
caught (w, ok a) = (w, ok (some a))
caught (w, raised) = (w, ok none)

abbrev pub attempt : {W A : Type 0} → Io W A → Io W (Option A)
attempt m w = caught (m w)

-- an entry of `problem.packages`; `none` is a key that is not there
pub record PackageInfo : Type 0 where
  pub id : Option ℕ
  pub state : Option String
  pub comment : Option String

-- what `sync_file` ends with, but for its other exceptions: `PolygonAPIError` is `rejected`
pub data Upload : Type 0 where
  synced : Upload
  rejected : String → Upload

-- test numbers of the groups
abbrev pub GroupMap : Type 0
GroupMap = List (String × List ℕ)

pub record Services : Type 1 where
  pub World : Type 0
  -- Polygon
  pub get_packages : Io World (List PackageInfo)
  pub commit_changes : Io World Unit
  pub build_package : Io World Unit
  -- the other modules of the service
  pub resolve_offending_file : String → Io World (Option String)
  pub get_all_file_contents : Io World (List (String × String))
  -- file, code, error, earlier errors, companions
  pub fix : String → String → String → List String → List (String × String) → Io World String
  pub parse_skip : String → Option String
  pub sync_file : String → String → Io World Upload
  pub assign_tests_to_groups : Io World GroupMap
