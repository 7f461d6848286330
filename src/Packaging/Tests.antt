-- ===== src/Packaging/Tests.antt =====
-- A small container, and a package that goes through it.
use yandex_codeforces_analyz.Prelude.{
  ℕ, ◌+◌, String, ◌≡◌, refl, ap, true, false, Option, none, some, List, [], ◌∷◌, show, after_prefix,
  two_digits,
}
use yandex_codeforces_analyz.Packaging.{
  Package, PackageTest, Manifest, done, failed, incomplete, Libraries, IsFaithful, read_member,
  ends_with_slash, members, manifest_of, export, materialize, unpack, assemble, read_tests,
  read_test, manifest_test, files_of, read_files,
}
use yandex_codeforces_analyz.Packaging.RoundTrip.{IsPackable, AreSame, materialize-export}
use yandex_codeforces_analyz.Packaging.Complete.{IsBackedBy, materialize-IsBacked}

mutual
  data Blob : Type 0 where
    raw : ℕ → Blob
    json : Manifest ℕ → Blob
    zip : Entries → Blob

  data Entries : Type 0 where
    none_left : Entries
    entry : String → Blob → Entries → Entries

abbrev to_entries : List (String × Blob) → Entries
to_entries [] = none_left
to_entries ((n, b) ∷ m) = entry n b (to_entries m)

abbrev of_entries : Entries → List (String × Blob)
of_entries none_left = []
of_entries (entry n b m) = (n, b) ∷ of_entries m

of_entries-to_entries : (m : List (String × Blob)) → of_entries (to_entries m) ≡ m
of_entries-to_entries [] = refl
of_entries-to_entries ((n, b) ∷ m) = ap (◌∷◌ (n, b)) (of_entries-to_entries m)

abbrev open_zip : Blob → Option (List (String × Blob))
open_zip (zip m) = some (of_entries m)
open_zip _ = none

abbrev open_json : Blob → Option (Manifest ℕ)
open_json (json m) = some m
open_json _ = none

abbrev small_libraries : Libraries
small_libraries = record {
  Bytes = Blob;
  no_bytes = raw 0;
  Points = ℕ;
  no_points = 0;
  write_zip = λ m. zip (to_entries m);
  read_zip = open_zip;
  accepts = λ n. true;
  dumps = json;
  loads = open_json;
  set_order = λ ns. ns;
}

small_libraries-IsFaithful : IsFaithful small_libraries
small_libraries-IsFaithful = record {
  read_zip-write_zip = λ m h. ap some (of_entries-to_entries m);
  loads-dumps = λ m. refl;
  contains-set_order = λ k ns. refl;
}

abbrev small_test : ℕ → ℕ → PackageTest Blob ℕ
small_test i points = record {
  index = i;
  input_data = raw (i + 100);
  answer_data = raw (i + 200);
  group = some "A";
  points = points;
  is_sample = false;
}

abbrev small_package : Package Blob ℕ
small_package = record {
  name = "a plus b";
  tests = small_test 1 40 ∷ (small_test 12 60 ∷ []);
  checker = raw 7;
  time_limit_ms = 2000;
  memory_limit_mb = 512;
  files = ("main.cpp", raw 3) ∷ (("doc/notes.md", raw 4) ∷ []);
}

small_package-IsPackable : IsPackable small_libraries small_package
unfolding ends_with_slash members
small_package-IsPackable = record {
  distinct_indices = ((refl, tt), (tt, tt));
  distinct_names = ((refl, tt), (tt, tt));
  no_directories = (refl, (refl, tt));
  accepted = (refl, (refl, (refl, (refl, (refl, (refl, (refl, (refl, tt))))))));
}

materialize-export_example :
    (q : Package Blob ℕ) × (materialize small_libraries (export small_libraries small_package)
      ≡ done q)
    × AreSame small_libraries small_package q
materialize-export_example =
    materialize-export small_libraries small_package small_libraries-IsFaithful
      small_package-IsPackable

abbrev bare_package : Package Blob ℕ
bare_package = record {
  name = "bare";
  tests = small_test 3 100 ∷ [];
  checker = raw 0;
  time_limit_ms = 1000;
  memory_limit_mb = 256;
  files = [];
}

abbrev bare_archive : Blob
bare_archive = zip (
    entry "problem.json" (json (manifest_of small_libraries bare_package))
      (entry "tests/03.in" (raw 103) (entry "tests/03.ans" (raw 203) none_left)))

bare_archive_read : materialize small_libraries bare_archive ≡ done bare_package
unfolding materialize read_member manifest_of unpack assemble read_tests read_test manifest_test
    two_digits show files_of read_files after_prefix
bare_archive_read = refl

materialize-IsBacked_example : IsBackedBy small_libraries bare_archive bare_package
materialize-IsBacked_example =
    materialize-IsBacked small_libraries bare_archive bare_package bare_archive_read

abbrev torn_archive : Blob
torn_archive = zip (
    entry "problem.json" (json (manifest_of small_libraries bare_package))
      (entry "tests/03.in" (raw 103) none_left))

torn_archive_refused : materialize small_libraries torn_archive ≡ failed incomplete
unfolding materialize read_member manifest_of unpack assemble read_tests read_test manifest_test
    two_digits show
torn_archive_refused = refl
