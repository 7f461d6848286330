-- ===== src/Packaging.antt =====
-- backend/judge/app/packaging/base.py and native.py: the judge's own package format. The zip
-- container, JSON and the order in which Python walks a set are code of other libraries: they are
-- the fields of `Libraries`, and `IsFaithful` says what the format relies on.
mod Members
mod Files
mod Held
pub mod RoundTrip
pub mod Complete
mod Tests
use Prim.Native.Char.{code}
use Prim.Native.String
use yandex_codeforces_analyz.Prelude.{
  ℕ, zero, suc, ◌+◌, ◌-◌, ◌*◌, ◌/◌, ◌%◌, ◌≤◌, ◌<◌, min, max, String, ◌≡◌, refl, sym, ap, ap₂, ◌∙◌,
  subst, fun_ext, ◌≢◌, ◌↔◌, ◌⊎◌, inl, inr, Bool, true, false, not, ◌&&◌, ◌||◌, Option, none, some,
  List, [], ◌∷◌, ◌++◌, map, foldl, append-nil, append_assoc, arith, ltb, leb, ◌==◌, if◌then◌else◌,
  ltb→lt, leb→le, ==_iff, Bool-cases, Option-cases, or_else, is_some, length, get_elem?, take, drop,
  all_of, any_of, select, count_of, first_where, Every, length-append, take-append-drop,
  count_of-le, sum_by, str_eq, str_eq_iff, str_append, str_take, str_is_empty, str_or, show, join,
  Floats, IsLawful, get_key, put_key, modify, set_default, has_key, keys, values, get_key-put_key,
  get_key-modify, get_key-set_default, keys-modify, get_key_missing, dict_laws, insert_by, sort_by,
  sort_by-perm, IsSorted, IsWeakOrder, sort_by-IsSorted, ℤ, pos, negsuc, leb_ℤ, eq_ℤ, max_ℤ, or_ℤ,
  lstrip, rstrip, strip, strip_edges, split, first_word, after_prefix, after_marker, splitlines,
  split_once, parse_int, get_str, put_str, no_float, nan, number, Reading, read_digits-two_digits,
  after_prefix-append, after_prefix-differs, two_digits, read_digits, heads_differ, modified,
  append_named,
}

-- base.py
pub record PackageTest (Bytes Points : Type 0) : Type 0 where
  pub index : ℕ
  pub input_data : Bytes
  pub answer_data : Bytes
  pub group : Option String
  pub points : Points
  pub is_sample : Bool

pub record Package (Bytes Points : Type 0) : Type 0 where
  pub name : String
  pub tests : List (PackageTest Bytes Points)
  pub checker : Bytes
  pub time_limit_ms : ℕ
  pub memory_limit_mb : ℕ
  pub files : List (String × Bytes)

-- The manifest as a tree of JSON: `none` is a key that is not there. A value of a wrong JSON type
-- is not modelled.
pub record ManifestTest (Points : Type 0) : Type 0 where
  pub index : Option ℕ
  pub group : Option (Option String)
  pub points : Option Points
  pub is_sample : Option Bool

pub record Manifest (Points : Type 0) : Type 0 where
  pub version : Option ℕ
  pub name : Option String
  pub time_limit_ms : Option ℕ
  pub memory_limit_mb : Option ℕ
  pub tests : Option (List (ManifestTest Points))

-- A `PackageError` for one of its three reasons, and the error of `json.loads`, which
-- `materialize` does not catch.
pub data Failure : Type 0 where
  not_a_zip manifest_missing incomplete invalid_json : Failure

pub data Outcome (A : Type 0) : Type 0 where
  done : A → Outcome A
  failed : Failure → Outcome A

infixl 5 ◌>>=◌
abbrev pub ◌>>=◌ : {A B : Type 0} → Outcome A → (A → Outcome B) → Outcome B
done a >>= f = f a
failed e >>= f = failed e

pub record Libraries : Type 1 where
  pub Bytes : Type 0
  -- `b""`
  pub no_bytes : Bytes
  -- a `float` of the manifest, and `0.0`
  pub Points : Type 0
  pub no_points : Points
  -- `zipfile`: the members in the order they were written; `none` is `BadZipFile`
  pub write_zip : List (String × Bytes) → Bytes
  pub read_zip : Bytes → Option (List (String × Bytes))
  -- the member names that a zip archive keeps as they are
  pub accepts : String → Bool
  -- `json`: `none` is `JSONDecodeError`
  pub dumps : Manifest Points → Bytes
  pub loads : Bytes → Option (Manifest Points)
  -- the elements of `set(names)`, in the order in which Python walks them
  pub set_order : List String → List String

-- `name in names`
abbrev pub contains : String → List String → Bool
contains k [] = false
contains k (n ∷ ns) = str_eq n k || contains k ns

abbrev pub names_of {ℓ} : {V : Type ℓ} → List (String × V) → List String
names_of [] = []
names_of ((n, v) ∷ m) = n ∷ names_of m

abbrev pub or_earlier {ℓ} : {V : Type ℓ} → Option V → Option V → Option V
or_earlier (some later) earlier = some later
or_earlier none earlier = earlier

-- `zip_file.read(name)`: the last member of that name counts; `none` is the `KeyError`
unfoldable pub read_member {ℓ} : {V : Type ℓ} → String → List (String × V) → Option V
read_member k [] = none
read_member k ((j, v) ∷ m) = or_earlier (read_member k m) (if str_eq j k then some v else none)

-- `name.endswith("/")`
unfoldable pub ends_with_slash : String → Bool
ends_with_slash String.[] = false
ends_with_slash (String.◌∷◌ c String.[]) = code c == b'/'
ends_with_slash (String.◌∷◌ c (String.◌∷◌ d s)) = ends_with_slash (String.◌∷◌ d s)

abbrev pub manifest_name : String
manifest_name = "problem.json"

abbrev pub checker_name : String
checker_name = "checker.cpp"

abbrev pub input_name : ℕ → String
input_name i = str_append "tests/" (str_append (two_digits i) ".in")

abbrev pub answer_name : ℕ → String
answer_name i = str_append "tests/" (str_append (two_digits i) ".ans")

abbrev pub file_name : String → String
file_name n = str_append "files/" n

module _ (lib : Libraries) where
  open lib use {
    Bytes, no_bytes, Points, no_points, write_zip, read_zip, accepts, dumps, loads, set_order,
  }

  pub record IsFaithful : Type 0 where
    pub read_zip-write_zip :
        (m : List (String × Bytes))
        → Every (λ e. accepts e.0 ≡ true) m
        → read_zip (write_zip m) ≡ some m
    pub loads-dumps : (m : Manifest Points) → loads (dumps m) ≡ some m
    pub contains-set_order :
        (k : String) (ns : List String) → contains k (set_order ns) ≡ contains k ns

  unfoldable pub manifest_test : PackageTest Bytes Points → ManifestTest Points
  manifest_test t = record {
    index = some t.index;
    group = some t.group;
    points = some t.points;
    is_sample = some t.is_sample;
  }

  unfoldable pub manifest_of : Package Bytes Points → Manifest Points
  manifest_of p = record {
    version = some 1;
    name = some p.name;
    time_limit_ms = some p.time_limit_ms;
    memory_limit_mb = some p.memory_limit_mb;
    tests = some (map manifest_test p.tests);
  }

  abbrev pub test_members : List (PackageTest Bytes Points) → List (String × Bytes)
  test_members [] = []
  test_members (t ∷ ts) =
      (input_name t.index, t.input_data) ∷ (answer_name t.index, t.answer_data) ∷ test_members ts

  abbrev pub file_members : List (String × Bytes) → List (String × Bytes)
  file_members [] = []
  file_members ((n, d) ∷ fs) = (file_name n, d) ∷ file_members fs

  -- what `export` writes into the archive, in order
  unfoldable pub members : Package Bytes Points → List (String × Bytes)
  members p =
      (manifest_name, dumps (manifest_of p))
      ∷ (checker_name, p.checker)
      ∷ (test_members p.tests ++ file_members p.files)

  unfoldable pub export : Package Bytes Points → Bytes
  export p = write_zip (members p)

  -- `d[key]`
  abbrev pub key_of : {A : Type 0} → Option A → Outcome A
  key_of none = failed incomplete
  key_of (some a) = done a

  unfoldable pub read_test :
      List (String × Bytes) → ManifestTest Points → Outcome (PackageTest Bytes Points)
  read_test m e = do
    index ← key_of e.index
    input_data ← key_of (read_member (input_name index) m)
    answer_data ← key_of (read_member (answer_name index) m)
    done (record {
      index = index;
      input_data = input_data;
      answer_data = answer_data;
      group = or_else e.group none;
      points = or_else e.points no_points;
      is_sample = or_else e.is_sample false;
    })

  unfoldable pub read_tests :
      List (String × Bytes) → List (ManifestTest Points) → Outcome (List (PackageTest Bytes Points))
  read_tests m [] = done []
  read_tests m (e ∷ es) = do t ← read_test m e; ts ← read_tests m es; done (t ∷ ts)

  -- `files` of the package; a name of the list is one of the archive, so it is read
  unfoldable pub read_files : List (String × Bytes) → List String → List (String × Bytes)
  read_files m [] = []
  read_files m (n ∷ ns) =
      let rest = read_files m ns in
      elim (after_prefix "files/" n) [
        | none ↦ rest
        | some short ↦
            if ends_with_slash n
            then rest
            else elim (read_member n m) [ none ↦ rest | some d ↦ put_str short d rest ]
      ]

  unfoldable pub files_of : List (String × Bytes) → List (String × Bytes)
  files_of m = read_files m (set_order (names_of m))

  unfoldable pub assemble : List (String × Bytes) → Manifest Points → Outcome (Package Bytes Points)
  assemble m manifest = do
    entries ← key_of manifest.tests
    tests ← read_tests m entries
    name ← key_of manifest.name
    done (record {
      name = name;
      tests = tests;
      checker = or_else (read_member checker_name m) no_bytes;
      time_limit_ms = or_else manifest.time_limit_ms 1000;
      memory_limit_mb = or_else manifest.memory_limit_mb 256;
      files = files_of m;
    })

  unfoldable pub unpack : List (String × Bytes) → Outcome (Package Bytes Points)
  unpack m = elim (read_member manifest_name m) [
    | none ↦ failed manifest_missing
    | some text ↦ elim (loads text) [
      | none ↦ failed invalid_json
      | some manifest ↦ assemble m manifest
    ]
  ]

  unfoldable pub materialize : Bytes → Outcome (Package Bytes Points)
  materialize archive = elim (read_zip archive) [ none ↦ failed not_a_zip | some m ↦ unpack m ]
