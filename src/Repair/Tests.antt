-- ===== src/Repair/Tests.antt =====
-- Polygon as a script: builds fail with the texts that it holds, then one is ready.
use yandex_codeforces_analyz.Prelude.{
  ℕ, zero, suc, ◌+◌, String, ◌≡◌, refl, ◌≢◌, true, none, some, List, [], ◌∷◌, leb, Every,
  if◌then◌else◌, get_str, put_str,
}
use yandex_codeforces_analyz.Repair.{
  ok, PackageInfo, synced, Services, ready, finished, manual_fix, out_of_fuel, poll, build_and_poll,
  repair, build_once, package_ids, look, fresh_latest, is_fresh, ids_of, latest, first_build,
  first_offender, try_file, tried, mend, ask_fix, after_build, after_fix, after_upload, companions,
  finalize, give_up, next_offender, rejection, related, skip_text, upload, with_error,
}
use yandex_codeforces_analyz.Repair.Rounds.{build_and_poll_ends}
use yandex_codeforces_analyz.Repair.Polls.{IsSeen, build_once-IsSeen}
use yandex_codeforces_analyz.Repair.Watch.{watched}
use yandex_codeforces_analyz.Repair.Tries.{IsBounded, build_and_poll-IsBounded}

-- the number of builds so far, and the number of them that fail
abbrev Script : Type 0
Script = ℕ × ℕ

abbrev package_of : ℕ → String → PackageInfo
package_of i st = record { id = some i; state = some st; comment = some "validator.cpp:3: error" }

abbrev packages_of : Script → List PackageInfo
packages_of (zero, bad) = package_of 4 "READY" ∷ []
packages_of (suc n, bad) =
    package_of (suc n + 10) (if leb bad n then "READY" else "FAILED") ∷ (package_of 4 "READY" ∷ [])

abbrev scripted : Services
scripted = record {
  World = Script;
  get_packages = λ w. (w, ok (packages_of w));
  commit_changes = λ w. (w, ok tt);
  build_package = λ w. ((w.0 + 1, w.1), ok tt);
  resolve_offending_file = λ c w. (w, ok (some "validator"));
  get_all_file_contents = λ w. (w, ok (("validator", "int main() {}") ∷ []));
  fix = λ f code c errors files w. (w, ok "int main() { return 0; }");
  parse_skip = λ text. none;
  sync_file = λ f text w. (w, ok synced);
  assign_tests_to_groups = λ w. (w, ok []);
}

build_and_poll_ends_example : (build_and_poll scripted (some 7) true (0, 5)).1 ≢ ok out_of_fuel
build_and_poll_ends_example = build_and_poll_ends scripted (some 7) true (0, 5)

build_and_poll-IsBounded_example :
    IsBounded (build_and_poll (watched scripted) (some 7) true ((0, 5), [])).0.1
build_and_poll-IsBounded_example = build_and_poll-IsBounded scripted (some 7) true (0, 5)

-- one failed build, one repair
repaired_once : (build_and_poll scripted (some 7) true (0, 1)).1 ≡ ok (finished (some 12) none)
unfolding build_and_poll build_once package_ids poll look fresh_latest is_fresh ids_of latest
    first_build first_offender repair try_file tried mend ask_fix after_build after_fix after_upload
    companions finalize give_up next_offender rejection related skip_text upload with_error get_str
    put_str
repaired_once = refl

-- five failed builds are more than the fixer may try
given_up :
    (build_and_poll scripted (some 7) true (0, 5)).1
    ≡ ok (manual_fix (some "validator") "validator.cpp:3: error")
unfolding build_and_poll build_once package_ids poll look fresh_latest is_fresh ids_of latest
    first_build first_offender repair try_file tried mend ask_fix after_build after_fix after_upload
    companions finalize give_up next_offender rejection related skip_text upload with_error get_str
    put_str
given_up = refl

abbrev listed_before : List PackageInfo
listed_before = package_of 4 "READY" ∷ []

built_at_once : (build_once scripted (0, 0)).1 ≡ ok (ready (some 11))
unfolding build_once package_ids ids_of poll look fresh_latest is_fresh latest
built_at_once = refl

build_once-IsSeen_example :
    Every (λ p. p.id ≢ some 11) listed_before × IsSeen scripted (ids_of listed_before) 11
build_once-IsSeen_example =
    build_once-IsSeen scripted (0, 0) (0, 0) listed_before 11 refl built_at_once
