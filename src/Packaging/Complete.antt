-- ===== src/Packaging/Complete.antt =====
-- native.py: an archive is read only if all that its package needs is there.
use yandex_codeforces_analyz.Prelude.{
  String, or_else, false, ◌≡◌, refl, sym, ap, ◌∙◌, subst, inl, inr, Bool, Option, none, some, List,
  [], ◌∷◌, arith, if◌then◌else◌, Option-cases, get_str,
}
use yandex_codeforces_analyz.Packaging.{
  Package, PackageTest, Manifest, ManifestTest, Outcome, done, failed, Failure, not_a_zip,
  manifest_missing, invalid_json, Libraries, read_member, ◌>>=◌, ends_with_slash, input_name,
  answer_name, file_name, contains, names_of, manifest_name, checker_name, key_of, read_test,
  read_tests, files_of, assemble, unpack, materialize,
}
use yandex_codeforces_analyz.Packaging.Files.{kept, get_str-read_files}

-- what holds of the value, if there is one
record Ensures {A : Type 0} (P : A → Type 0) (m : Outcome A) : Type 0 where
  holds : (a : A) → m ≡ done a → P a

done-injective : {A : Type 0} {a b : A} → done a ≡ done b → a ≡ b
done-injective e = cc

Ensures-done : {A : Type 0} (P : A → Type 0) (a : A) → P a → Ensures P (done a)
Ensures-done P a h = record { holds = λ b e. subst P (done-injective e) h }

Ensures-failed : {A : Type 0} (P : A → Type 0) (f : Failure) → Ensures P (failed f)
Ensures-failed P f = record { holds = λ b e. cc }

Ensures-bind :
    {A B : Type 0} (P : B → Type 0) (m : Outcome A) (k : A → Outcome B)
    → ((a : A) → m ≡ done a → Ensures P (k a))
    → Ensures P (m >>= k)
Ensures-bind P (done a) k h = h a refl
Ensures-bind P (failed e) k h = Ensures-failed P e

module _ (lib : Libraries) where
  open lib use {Bytes, Points, no_bytes, no_points, set_order, loads, read_zip}

  key_of-done : {A : Type 0} (o : Option A) (a : A) → key_of lib o ≡ done a → o ≡ some a
  key_of-done none a h = absurd cc
  key_of-done (some b) a h = ap some (done-injective h)

  -- the test is the one that an entry of the manifest lists, with its input and its answer from the
  -- members that its index names
  pub record IsListed (m : List (String × Bytes)) (e : ManifestTest Points)
      (t : PackageTest Bytes Points) : Type 0 where
    pub same_index : e.index ≡ some t.index
    pub same_group : t.group ≡ or_else e.group none
    pub same_points : t.points ≡ or_else e.points no_points
    pub same_sample : t.is_sample ≡ or_else e.is_sample false
    pub input_read : read_member (input_name t.index) m ≡ some t.input_data
    pub answer_read : read_member (answer_name t.index) m ≡ some t.answer_data

  -- one test for each entry, in order
  abbrev pub AreListed :
      List (String × Bytes) → List (ManifestTest Points) → List (PackageTest Bytes Points) → Type 0
  AreListed m [] [] = Unit
  AreListed m [] (t ∷ ts) = ⊥
  AreListed m (e ∷ es) [] = ⊥
  AreListed m (e ∷ es) (t ∷ ts) = IsListed m e t × AreListed m es ts

  read_test-IsListed :
      (m : List (String × Bytes)) (e : ManifestTest Points)
      → Ensures (IsListed m e) (read_test lib m e)
  unfolding read_test
  read_test-IsListed m e = Ensures-bind _ (key_of lib e.index) _ λ i h.
      Ensures-bind _ (key_of lib (read_member (input_name i) m)) _ λ d hd.
        Ensures-bind _ (key_of lib (read_member (answer_name i) m)) _ λ a ha.
          Ensures-done (IsListed m e) _ (record {
            same_index = key_of-done _ i h;
            same_group = refl;
            same_points = refl;
            same_sample = refl;
            input_read = key_of-done _ d hd;
            answer_read = key_of-done _ a ha;
          })

  read_tests-AreListed :
      (m : List (String × Bytes)) (es : List (ManifestTest Points))
      → Ensures (AreListed m es) (read_tests lib m es)
  unfolding read_tests
  read_tests-AreListed m [] = Ensures-done (AreListed m []) [] tt
  read_tests-AreListed m (e ∷ es) = Ensures-bind _ (read_test lib m e) _ λ t ht.
      Ensures-bind _ (read_tests lib m es) _ λ ts hts.
        Ensures-done (AreListed m (e ∷ es)) (t ∷ ts)
          ((read_test-IsListed m e).holds t ht, (read_tests-AreListed m es).holds ts hts)

  -- the manifest of the archive describes the package, and every part of it was in the archive
  pub record IsBacked (m : List (String × Bytes)) (q : Package Bytes Points) : Type 0 where
    pub text : Bytes
    pub manifest : Manifest Points
    pub entries : List (ManifestTest Points)
    pub text_read : read_member manifest_name m ≡ some text
    pub manifest_read : loads text ≡ some manifest
    pub entries_read : manifest.tests ≡ some entries
    pub tests_listed : AreListed m entries q.tests
    pub same_name : manifest.name ≡ some q.name
    pub same_time : q.time_limit_ms ≡ or_else manifest.time_limit_ms 1000
    pub same_memory : q.memory_limit_mb ≡ or_else manifest.memory_limit_mb 256
    pub same_checker : q.checker ≡ or_else (read_member checker_name m) no_bytes
    pub files_held :
        (n : String) (d : Bytes) → get_str n q.files ≡ some d → read_member (file_name n) m ≡ some d

  files_of-held :
      (m : List (String × Bytes)) (n : String) (d : Bytes)
      → get_str n (files_of lib m) ≡ some d
      → read_member (file_name n) m ≡ some d
  unfolding files_of kept
  files_of-held m n d h =
      only (contains (file_name n) (set_order (names_of m))) (ends_with_slash (file_name n))
        (read_member (file_name n) m)
        (sym (get_str-read_files lib m n (set_order (names_of m))) ∙ h)
    where
      only :
          (c e : Bool) (o : Option Bytes)
          → (if c then if e then none else o else none) ≡ some d
          → o ≡ some d
      only c e o h = ground arith

  assemble-IsBacked :
      (m : List (String × Bytes)) (text : Bytes) (manifest : Manifest Points)
      → read_member manifest_name m ≡ some text
      → loads text ≡ some manifest
      → Ensures (IsBacked m) (assemble lib m manifest)
  unfolding assemble
  assemble-IsBacked m text manifest h k = Ensures-bind _ (key_of lib manifest.tests) _ λ es hes.
      Ensures-bind _ (read_tests lib m es) _ λ ts hts.
        Ensures-bind _ (key_of lib manifest.name) _ λ n hn. Ensures-done (IsBacked m) _ (record {
          text = text;
          manifest = manifest;
          entries = es;
          text_read = h;
          manifest_read = k;
          entries_read = key_of-done _ es hes;
          tests_listed = (read_tests-AreListed m es).holds ts hts;
          same_name = key_of-done _ n hn;
          same_time = refl;
          same_memory = refl;
          same_checker = refl;
          files_held = files_of-held m;
        })

  unpack-IsBacked : (m : List (String × Bytes)) → Ensures (IsBacked m) (unpack lib m)
  unfolding unpack
  unpack-IsBacked m = elim (Option-cases (read_member manifest_name m)) [
    | inl e ↦ rw (e, unpack) (Ensures-failed (IsBacked m) manifest_missing)
    | inr (text, e) ↦ elim (Option-cases (loads text)) [
      | inl f ↦ rw (e, f, unpack) (Ensures-failed (IsBacked m) invalid_json)
      | inr (manifest, f) ↦ rw (e, f, unpack) (assemble-IsBacked m text manifest e f)
    ]
  ]

  abbrev pub IsBackedBy : Bytes → Package Bytes Points → Type 0
  IsBackedBy archive q = (m : List (String × Bytes)) × (read_zip archive ≡ some m) × IsBacked m q

  Ensures-materialize : (archive : Bytes) → Ensures (IsBackedBy archive) (materialize lib archive)
  unfolding materialize
  Ensures-materialize archive = elim (Option-cases (read_zip archive)) [
    | inl e ↦ rw (e, materialize) (Ensures-failed (IsBackedBy archive) not_a_zip)
    | inr (m, e) ↦
        rw (e, materialize) (record { holds = λ q h. (m, e, (unpack-IsBacked m).holds q h) })
  ]

  -- A package that is read from an archive is backed by it: the archive is a zip container with a
  -- manifest that is JSON; the package has the name and the limits of the manifest, with the defaults
  -- for limits that are missing; it has exactly one test for each entry of the manifest, in order,
  -- with the index, the group, the points and the sample mark of the entry, and with the input and
  -- the answer that the archive holds under that index; its checker is that of the archive, or empty;
  -- and every file of the package is the member of its name.
  pub materialize-IsBacked :
      (archive : Bytes) (q : Package Bytes Points)
      → materialize lib archive ≡ done q
      → IsBackedBy archive q
  materialize-IsBacked archive q h = (Ensures-materialize archive).holds q h
