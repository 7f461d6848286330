-- ===== src/Packaging/Held.antt =====
-- native.py: what an exported archive holds under each name.
use yandex_codeforces_analyz.Prelude.{
  str_eq_refl, str_eq_comm, ℕ, String, ◌≡◌, refl, ◌∙◌, subst, inl, inr, true, false, none, some,
  List, [], ◌∷◌, ◌++◌, map, ◌==◌, Bool-cases, Every, str_eq, str_eq_iff, after_prefix, get_str,
}
use yandex_codeforces_analyz.Packaging.{
  Package, PackageTest, done, Libraries, read_member, input_name, answer_name, file_name,
  test_members, file_members, members, manifest_name, checker_name, manifest_test, manifest_of,
  read_test, read_tests,
}
use yandex_codeforces_analyz.Packaging.Members.{
  input_names, answer_names, answer_input, input_answer, file_names, IsNoTest, IsNoFile,
  file_name-IsNoTest, input_name-IsNoFile, answer_name-IsNoFile, read_member-append,
  read_member-later, no_test, no_file, or_earlier-none, read_member-skip, str_eq_of_prefix,
}

module _ (lib : Libraries) where
  open lib use {Bytes, Points, no_bytes, accepts, dumps, loads, set_order, write_zip, read_zip}

  -- no two tests have the same index
  abbrev pub HaveDistinctIndices : List (PackageTest Bytes Points) → Type 0
  HaveDistinctIndices [] = Unit
  HaveDistinctIndices (t ∷ ts) =
      Every (λ u. (u.index == t.index) ≡ false) ts × HaveDistinctIndices ts

  -- the keys of a `dict`
  abbrev pub HaveDistinctNames : List (String × Bytes) → Type 0
  HaveDistinctNames [] = Unit
  HaveDistinctNames ((n, d) ∷ fs) = Every (λ f. str_eq f.0 n ≡ false) fs × HaveDistinctNames fs

  -- the data of a test is found under its names
  abbrev pub IsHeld : List (String × Bytes) → PackageTest Bytes Points → Type 0
  IsHeld m t =
      (read_member (input_name t.index) m ≡ some t.input_data)
      × (read_member (answer_name t.index) m ≡ some t.answer_data)

  no_input :
      (i : ℕ) (ts : List (PackageTest Bytes Points))
      → Every (λ u. (u.index == i) ≡ false) ts
      → read_member (input_name i) (test_members lib ts) ≡ none
  unfolding read_member
  no_input i [] h = refl
  no_input i (t ∷ ts) h =
      rw (no_input i ts h.1) (rw (answer_input t.index i) (rw (input_names t.index i h.0) refl))

  no_answer :
      (i : ℕ) (ts : List (PackageTest Bytes Points))
      → Every (λ u. (u.index == i) ≡ false) ts
      → read_member (answer_name i) (test_members lib ts) ≡ none
  unfolding read_member
  no_answer i [] h = refl
  no_answer i (t ∷ ts) h =
      rw (no_answer i ts h.1) (rw (answer_names t.index i h.0) (rw (input_answer t.index i) refl))

  first-IsHeld :
      (t : PackageTest Bytes Points) (ts : List (PackageTest Bytes Points))
      → Every (λ u. (u.index == t.index) ≡ false) ts
      → IsHeld (test_members lib (t ∷ ts)) t
  unfolding read_member
  first-IsHeld t ts h = (
    rw (no_input t.index ts h)
        (rw (answer_input t.index t.index) (rw (str_eq_refl (input_name t.index)) refl)),
    rw (no_answer t.index ts h) (rw (str_eq_refl (answer_name t.index)) refl),
  )

  Every-IsHeld_later :
      (l m : List (String × Bytes)) (ts : List (PackageTest Bytes Points))
      → Every (IsHeld m) ts
      → Every (IsHeld (l ++ m)) ts
  Every-IsHeld_later l m [] h = tt
  Every-IsHeld_later l m (t ∷ ts) h = (
    (read_member-later _ l m _ h.0.0, read_member-later _ l m _ h.0.1),
    Every-IsHeld_later l m ts h.1,
  )

  Every-IsHeld_before :
      (m : List (String × Bytes)) (fs : List (String × Bytes))
      (ts : List (PackageTest Bytes Points))
      → Every (IsHeld m) ts
      → Every (IsHeld (m ++ file_members lib fs)) ts
  Every-IsHeld_before m fs [] h = tt
  Every-IsHeld_before m fs (t ∷ ts) h = (
    (
      read_member-append _ m _ (no_file lib _ fs (input_name-IsNoFile t.index)) ∙ h.0.0,
      read_member-append _ m _ (no_file lib _ fs (answer_name-IsNoFile t.index)) ∙ h.0.1,
    ),
    Every-IsHeld_before m fs ts h.1,
  )

  tests-IsHeld :
      (ts : List (PackageTest Bytes Points))
      → HaveDistinctIndices ts
      → Every (IsHeld (test_members lib ts)) ts
  tests-IsHeld [] h = tt
  tests-IsHeld (t ∷ ts) h = (
    first-IsHeld t ts h.0,
    Every-IsHeld_later (_ ∷ _ ∷ []) (test_members lib ts) ts (tests-IsHeld ts h.1),
  )

  pub read_tests-held :
      (m : List (String × Bytes)) (ts : List (PackageTest Bytes Points))
      → Every (IsHeld m) ts
      → read_tests lib m (map (manifest_test lib) ts) ≡ done ts
  unfolding read_tests read_test manifest_test
  read_tests-held m [] h = refl
  read_tests-held m (t ∷ ts) h = rw (h.0.0, h.0.1, read_tests-held m ts h.1) refl

  pub every_test-IsHeld :
      (p : Package Bytes Points)
      → HaveDistinctIndices p.tests
      → Every (IsHeld (members lib p)) p.tests
  unfolding members
  every_test-IsHeld p h =
      Every-IsHeld_later (_ ∷ _ ∷ []) (test_members lib p.tests ++ file_members lib p.files) p.tests
        (Every-IsHeld_before (test_members lib p.tests) p.files p.tests (tests-IsHeld p.tests h))

  -- a name that is neither a test's nor a file's
  read_member-head :
      (k : String) (p : Package Bytes Points)
      → IsNoTest k
      → IsNoFile k
      → read_member k (test_members lib p.tests ++ file_members lib p.files) ≡ none
  read_member-head k p t f =
      read_member-append k _ _ (no_file lib k p.files f) ∙ no_test lib k p.tests t

  pub read_member-manifest :
      (p : Package Bytes Points)
      → read_member manifest_name (members lib p) ≡ some (dumps (manifest_of lib p))
  unfolding members read_member after_prefix
  read_member-manifest p = rw (read_member-head manifest_name p refl refl, read_member) refl

  pub read_member-checker :
      (p : Package Bytes Points) → read_member checker_name (members lib p) ≡ some p.checker
  unfolding members read_member after_prefix
  read_member-checker p = rw (read_member-head checker_name p refl refl, read_member) refl

  get_str_missing :
      (n : String) (fs : List (String × Bytes))
      → Every (λ f. str_eq f.0 n ≡ false) fs
      → get_str n fs ≡ none
  unfolding get_str
  get_str_missing n [] h = refl
  get_str_missing n ((k, d) ∷ fs) h = rw (h.0, get_str_missing n fs h.1) refl

  read_member-files :
      (n : String) (fs : List (String × Bytes))
      → HaveDistinctNames fs
      → read_member (file_name n) (file_members lib fs) ≡ get_str n fs
  unfolding read_member get_str
  read_member-files n [] h = refl
  read_member-files n ((k, d) ∷ fs) h = elim (Bool-cases (str_eq k n)) [
    | inl t ↦
        rw (read_member-files n fs h.1, file_names k n, t, get_str_missing n fs (others t)) refl
    | inr f ↦ rw (read_member-files n fs h.1, file_names k n, f) (or_earlier-none (get_str n fs))
  ]
    where
      others : str_eq k n ≡ true → Every (λ f. str_eq f.0 n ≡ false) fs
      others t = subst (λ x. Every (λ f. str_eq f.0 x ≡ false) fs) ((str_eq_iff k n).0 t) h.0

  pub read_member-file :
      (n : String) (p : Package Bytes Points)
      → HaveDistinctNames p.files
      → read_member (file_name n) (members lib p) ≡ get_str n p.files
  unfolding members read_member after_prefix
  read_member-file n p h =
      read_member-skip (file_name n)
        ((manifest_name, dumps (manifest_of lib p))
          ∷ (checker_name, p.checker)
          ∷ test_members lib p.tests)
        (file_members lib p.files)
        (rw
          (
            no_test lib (file_name n) p.tests (file_name-IsNoTest n),
            str_eq_comm checker_name (file_name n),
            str_eq_of_prefix "files/" n checker_name refl,
            str_eq_comm manifest_name (file_name n),
            str_eq_of_prefix "files/" n manifest_name refl,
          )
          refl)
      ∙ read_member-files n p.files h
