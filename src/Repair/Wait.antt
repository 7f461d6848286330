-- ===== src/Repair/Wait.antt =====
-- package_loop.py: one build, and the wait for its package (`_package_ids`, `_poll`, `_build_once`).
use yandex_codeforces_analyz.Prelude.{
  ℕ, zero, suc, ◌+◌, String, Bool, true, false, not, ◌||◌, Option, none, some, List, [], ◌∷◌, ltb,
  ◌==◌, if◌then◌else◌, or_else, select, str_eq,
}
use yandex_codeforces_analyz.Repair.Interface.{Io, ◌>>=◌, pure, attempt, PackageInfo, Services}

-- READY, FAILED and TIMEOUT; `unfinished` is the end of the fuel
pub data Polled : Type 0 where
  ready : Option ℕ → Polled
  failed : String → Polled
  timeout unfinished : Polled

abbrev pub unknown_error : String
unknown_error = "Неизвестная ошибка сборки"

abbrev pub timeout_text : String
timeout_text = "Таймаут ожидания сборки пакета"

abbrev pub has_number : ℕ → List ℕ → Bool
has_number n [] = false
has_number n (m ∷ ms) = (m == n) || has_number n ms

-- `p.get("id") not in before_ids`
unfoldable pub is_fresh : List ℕ → PackageInfo → Bool
is_fresh before p = elim p.id [ none ↦ true | some i ↦ not (has_number i before) ]

-- `max(fresh, key=lambda p: p.get("id") or 0)`: the first of the largest
unfoldable pub latest : PackageInfo → List PackageInfo → PackageInfo
latest p [] = p
latest p (q ∷ qs) = latest (if ltb (or_else p.id 0) (or_else q.id 0) then q else p) qs

unfoldable pub fresh_latest : List ℕ → List PackageInfo → Option PackageInfo
fresh_latest before packages = elim (select (is_fresh before) packages) [
  | [] ↦ none
  | p ∷ ps ↦ some (latest p ps)
]

unfoldable pub ids_of : List PackageInfo → List ℕ
ids_of [] = []
ids_of (p ∷ ps) = elim p.id [ none ↦ ids_of ps | some i ↦ i ∷ ids_of ps ]

module _ (sv : Services) where
  open sv use {World, get_packages, commit_changes, build_package}

  unfoldable pub package_ids : Io World (List ℕ)
  package_ids = do packages ← attempt get_packages; pure (ids_of (or_else packages []))

  -- one look at the packages: a state that ends the wait, or the rest of the wait
  unfoldable pub look : Option PackageInfo → Io World Polled → Io World Polled
  look none rest = rest
  look (some p) rest =
      if str_eq (or_else p.state "PENDING") "READY"
      then pure (ready p.id)
      else if str_eq (or_else p.state "PENDING") "FAILED"
      then pure (failed (or_else p.comment unknown_error))
      else rest

  -- `_poll`, from `elapsed` on
  unfoldable pub poll : ℕ → ℕ → List ℕ → Io World Polled
  poll zero elapsed before = pure unfinished
  poll (suc fuel) elapsed before =
      let rest = poll fuel (elapsed + 10) before in
      if ltb elapsed 600
      then (do packages ← get_packages; look (fresh_latest before packages) rest)
      else pure timeout

  unfoldable pub build_once : Io World Polled
  build_once = do before ← package_ids; _ ← commit_changes; _ ← build_package; poll 61 0 before
