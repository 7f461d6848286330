-- ===== src/Packaging/Members.antt =====
-- Reading the members of an archive by name: which members of a package are found under which name.
use yandex_codeforces_analyz.Prelude.{
  str_eq-append, ℕ, String, ◌≡◌, refl, sym, ap, ◌∙◌, subst, ◌≢◌, inl, inr, false, Option, none,
  some, List, [], ◌∷◌, ◌++◌, arith, ◌==◌, Bool-cases, is_some, str_eq, str_eq_iff, str_append,
  after_prefix, read_digits-two_digits, after_prefix-append, after_prefix-differs, two_digits,
  read_digits, heads_differ,
}
use yandex_codeforces_analyz.Packaging.{
  PackageTest, Libraries, read_member, or_earlier, input_name, answer_name, file_name, contains,
  names_of, test_members, file_members,
}

pub str_eq_of_prefix :
    (p s k : String) → after_prefix p k ≡ none → str_eq (str_append p s) k ≡ false
str_eq_of_prefix p s k h = elim (Bool-cases (str_eq (str_append p s) k)) [
  | inl t ↦ absurd (clash (subst (λ x. after_prefix p x ≡ none) (sym ((str_eq_iff _ k).0 t)) h))
  | inr f ↦ f
]
  where
    clash : after_prefix p (str_append p s) ≢ none
    clash e = absurd (cc (after_prefix-append p s))

-- names of one prefix differ where the numbers or the texts after them do
str_eq_of_reading :
    (p s t : String) (m n : ℕ × String)
    → read_digits 0 s ≡ m
    → read_digits 0 t ≡ n
    → m ≢ n
    → str_eq (str_append p s) (str_append p t) ≡ false
str_eq_of_reading p s t m n hs ht differ =
    elim (Bool-cases (str_eq (str_append p s) (str_append p t))) [
      | inl h ↦ absurd (differ (sym hs ∙ ap (read_digits 0) (same ((str_eq_iff _ _).0 h)) ∙ ht))
      | inr f ↦ f
    ]
  where
    some-injective : some s ≡ some t → s ≡ t
    some-injective e = cc

    same : str_append p s ≡ str_append p t → s ≡ t
    same e =
        some-injective
          (sym (after_prefix-append p s) ∙ ap (after_prefix p) e ∙ after_prefix-append p t)

input_reading : (i : ℕ) → read_digits 0 (str_append (two_digits i) ".in") ≡ (i, ".in")
unfolding read_digits
input_reading i = read_digits-two_digits i ".in"

answer_reading : (i : ℕ) → read_digits 0 (str_append (two_digits i) ".ans") ≡ (i, ".ans")
unfolding read_digits
answer_reading i = read_digits-two_digits i ".ans"

numbers_differ : (i j : ℕ) (s t : String) → (i == j) ≡ false → ◌≢◌ {A = ℕ × String} (i, s) (j, t)
numbers_differ i j s t h e = absurd (ground (arith, ap (λ r. r.0) e))

texts_differ : (i j : ℕ) (s t : String) → str_eq s t ≡ false → ◌≢◌ {A = ℕ × String} (i, s) (j, t)
texts_differ i j s t h e = absurd (ground (arith, h, (str_eq_iff s t).1 (ap (λ r. r.1) e)))

pub input_names : (i j : ℕ) → (i == j) ≡ false → str_eq (input_name i) (input_name j) ≡ false
input_names i j h =
    str_eq_of_reading "tests/" _ _ _ _ (input_reading i) (input_reading j)
      (numbers_differ i j ".in" ".in" h)

pub answer_names : (i j : ℕ) → (i == j) ≡ false → str_eq (answer_name i) (answer_name j) ≡ false
answer_names i j h =
    str_eq_of_reading "tests/" _ _ _ _ (answer_reading i) (answer_reading j)
      (numbers_differ i j ".ans" ".ans" h)

pub answer_input : (i j : ℕ) → str_eq (answer_name i) (input_name j) ≡ false
answer_input i j =
    str_eq_of_reading "tests/" _ _ _ _ (answer_reading i) (input_reading j)
      (texts_differ i j ".ans" ".in" refl)

pub input_answer : (i j : ℕ) → str_eq (input_name i) (answer_name j) ≡ false
input_answer i j =
    str_eq_of_reading "tests/" _ _ _ _ (input_reading i) (answer_reading j)
      (texts_differ i j ".in" ".ans" refl)

pub file_names : (m n : String) → str_eq (file_name m) (file_name n) ≡ str_eq m n
file_names m n = str_eq-append "files/" m n

-- a name that is not one of a test, and one that is not one of a file
abbrev pub IsNoTest : String → Type 0
IsNoTest k = after_prefix "tests/" k ≡ none

abbrev pub IsNoFile : String → Type 0
IsNoFile k = after_prefix "files/" k ≡ none

pub file_name-IsNoTest : (n : String) → IsNoTest (file_name n)
unfolding heads_differ
file_name-IsNoTest n = after_prefix-differs "tests/" "files/" n refl

pub input_name-IsNoFile : (i : ℕ) → IsNoFile (input_name i)
unfolding heads_differ
input_name-IsNoFile i = after_prefix-differs "files/" "tests/" _ refl

pub answer_name-IsNoFile : (i : ℕ) → IsNoFile (answer_name i)
unfolding heads_differ
answer_name-IsNoFile i = after_prefix-differs "files/" "tests/" _ refl

-- reading a list of members that goes on
pub read_member-append {ℓ} :
    {V : Type ℓ} (k : String) (m l : List (String × V))
    → read_member k l ≡ none
    → read_member k (m ++ l) ≡ read_member k m
unfolding read_member
read_member-append k [] l h = h
read_member-append k ((j, v) ∷ m) l h = rw (read_member-append k m l h) refl

pub or_earlier-none {ℓ} : {V : Type ℓ} (o : Option V) → or_earlier o none ≡ o
or_earlier-none none = refl
or_earlier-none (some w) = refl

or_earlier-left {ℓ} : {V : Type ℓ} (o e : Option V) → or_earlier o e ≡ none → o ≡ none
or_earlier-left none e h = refl
or_earlier-left (some w) e h = h

or_earlier-right {ℓ} : {V : Type ℓ} (o e : Option V) → or_earlier o e ≡ none → e ≡ none
or_earlier-right none e h = h
or_earlier-right (some w) e h = absurd (ground arith)

pub read_member-skip {ℓ} :
    {V : Type ℓ} (k : String) (m l : List (String × V))
    → read_member k m ≡ none
    → read_member k (m ++ l) ≡ read_member k l
unfolding read_member
read_member-skip k [] l h = refl
read_member-skip k ((j, v) ∷ m) l h =
    rw
      (
        read_member-skip k m l (or_earlier-left (read_member k m) _ h),
        or_earlier-right (read_member k m) _ h,
      )
      (or_earlier-none (read_member k l))

pub read_member-later {ℓ} :
    {V : Type ℓ} (k : String) (m l : List (String × V)) (v : V)
    → read_member k l ≡ some v
    → read_member k (m ++ l) ≡ some v
unfolding read_member
read_member-later k [] l v h = h
read_member-later k ((j, w) ∷ m) l v h = rw (read_member-later k m l v h) refl

pub is_some-read_member {ℓ} :
    {V : Type ℓ} (k : String) (m : List (String × V))
    → is_some (read_member k m) ≡ contains k (names_of m)
unfolding read_member
is_some-read_member k [] = refl
is_some-read_member k ((j, v) ∷ m) = ground (arith, is_some-read_member k m)

module _ (lib : Libraries) where
  open lib use {Bytes, Points}

  pub no_test :
      (k : String) (ts : List (PackageTest Bytes Points))
      → IsNoTest k
      → read_member k (test_members lib ts) ≡ none
  unfolding read_member
  no_test k [] h = refl
  no_test k (t ∷ ts) h = rw (no_test k ts h) (
      rw (str_eq_of_prefix "tests/" (str_append (two_digits t.index) ".ans") k h)
        (rw (str_eq_of_prefix "tests/" (str_append (two_digits t.index) ".in") k h) refl))

  pub no_file :
      (k : String) (fs : List (String × Bytes))
      → IsNoFile k
      → read_member k (file_members lib fs) ≡ none
  unfolding read_member
  no_file k [] h = refl
  no_file k ((n, d) ∷ fs) h = rw (no_file k fs h) (rw (str_eq_of_prefix "files/" n k h) refl)
