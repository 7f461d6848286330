-- ===== src/Packaging/RoundTrip.antt =====
-- native.py: a package that is exported and read again.
use yandex_codeforces_analyz.Prelude.{
  String, ◌≡◌, refl, sym, ap, ◌∙◌, inl, inr, Bool, true, false, Option, none, some, List, [], ◌∷◌,
  arith, if◌then◌else◌, Bool-cases, is_some, Every, str_eq, str_eq_iff, get_str,
}
use yandex_codeforces_analyz.Packaging.{
  Package, done, Libraries, IsFaithful, read_member, ends_with_slash, file_name, names_of, members,
  manifest_of, export, files_of, assemble, unpack, materialize,
}
use yandex_codeforces_analyz.Packaging.Held.{
  HaveDistinctIndices, HaveDistinctNames, every_test-IsHeld, read_member-manifest,
  read_member-checker, read_member-file, read_tests-held,
}
use yandex_codeforces_analyz.Packaging.Files.{kept, get_str-read_files}
use yandex_codeforces_analyz.Packaging.Members.{is_some-read_member}

module _ (lib : Libraries) where
  open lib use {Bytes, Points, no_bytes, accepts, dumps, loads, set_order, write_zip, read_zip}

  -- the tests and the files can be told apart in the archive
  pub record IsPackable (p : Package Bytes Points) : Type 0 where
    pub distinct_indices : HaveDistinctIndices lib p.tests
    pub distinct_names : HaveDistinctNames lib p.files
    pub no_directories : Every (λ f. ends_with_slash (file_name f.0) ≡ false) p.files
    pub accepted : Every (λ e. accepts e.0 ≡ true) (members lib p)

  -- the same problem: all fields agree, the files as dictionaries
  pub record AreSame (p q : Package Bytes Points) : Type 0 where
    pub same_name : q.name ≡ p.name
    pub same_tests : q.tests ≡ p.tests
    pub same_checker : q.checker ≡ p.checker
    pub same_time : q.time_limit_ms ≡ p.time_limit_ms
    pub same_memory : q.memory_limit_mb ≡ p.memory_limit_mb
    pub same_files : (n : String) → get_str n q.files ≡ get_str n p.files

  read_package : Package Bytes Points → Package Bytes Points
  read_package p = record {
    name = p.name;
    tests = p.tests;
    checker = p.checker;
    time_limit_ms = p.time_limit_ms;
    memory_limit_mb = p.memory_limit_mb;
    files = files_of lib (members lib p);
  }

  unpack-members :
      (p : Package Bytes Points)
      → IsFaithful lib
      → HaveDistinctIndices lib p.tests
      → unpack lib (members lib p) ≡ done (read_package p)
  unfolding unpack assemble manifest_of read_package
  unpack-members p faithful distinct =
      rw
        (
          read_member-manifest lib p,
          faithful.loads-dumps (manifest_of lib p),
          read_tests-held lib (members lib p) p.tests (every_test-IsHeld lib p distinct),
          read_member-checker lib p,
          unpack,
          assemble,
        )
        refl

  kept_file :
      (n : String) (fs : List (String × Bytes))
      → Every (λ f. ends_with_slash (file_name f.0) ≡ false) fs
      → (if ends_with_slash (file_name n) then none else get_str n fs) ≡ get_str n fs
  unfolding get_str
  kept_file n [] h = ground arith
  kept_file n ((k, d) ∷ fs) h = elim (Bool-cases (str_eq k n)) [
    | inl t ↦
        rw (t, sym (ap (λ x. ends_with_slash (file_name x)) ((str_eq_iff k n).0 t)) ∙ h.0) refl
    | inr f ↦ rw f (kept_file n fs h.1)
  ]

  kept_if_there :
      (b : Bool) (o : Option Bytes)
      → (if is_some o then if b then none else o else none) ≡ (if b then none else o)
  kept_if_there b none = ground arith
  kept_if_there b (some d) = refl

  files_of-members :
      (p : Package Bytes Points) (n : String)
      → IsFaithful lib
      → IsPackable p
      → get_str n (files_of lib (members lib p)) ≡ get_str n p.files
  unfolding files_of kept
  files_of-members p n faithful packable =
      rw
        (
          get_str-read_files lib m n (set_order (names_of m)),
          faithful.contains-set_order (file_name n) (names_of m),
          sym (is_some-read_member (file_name n) m),
          kept_if_there (ends_with_slash (file_name n)) (read_member (file_name n) m),
          read_member-file lib n p packable.distinct_names,
        )
        (kept_file n p.files packable.no_directories)
    where
      m : List (String × Bytes)
      m = members lib p

  -- Reading an exported package gives the same problem back: the same name, limits, checker and
  -- tests in their order, and the same file under every name. The conditions: no two tests have
  -- one index, the file names are distinct and none ends with a slash, the archive keeps the member
  -- names, and the zip container, JSON and sets are faithful.
  pub materialize-export :
      (p : Package Bytes Points)
      → IsFaithful lib
      → IsPackable p
      → (q : Package Bytes Points) × (materialize lib (export lib p) ≡ done q) × AreSame p q
  unfolding materialize export read_package
  materialize-export p faithful packable = (
    read_package p,
    rw (faithful.read_zip-write_zip (members lib p) packable.accepted, materialize)
        (unpack-members p faithful packable.distinct_indices),
    record {
      same_name = refl;
      same_tests = refl;
      same_checker = refl;
      same_time = refl;
      same_memory = refl;
      same_files = λ n. files_of-members p n faithful packable;
    },
  )
