-- ===== src/Repair/Watch.antt =====
-- package_loop.py: the services, watched. Each call of the fixer is written down in a list that
-- stands beside the world; the calls that do not ask the fixer leave the list as it is.
use yandex_codeforces_analyz.Prelude.{
  ℕ, zero, suc, ◌+◌, String, ◌≡◌, refl, sym, ap, ◌∙◌, subst, inl, inr, Bool, true, false, Option,
  none, some, List, [], ◌∷◌, ltb, Bool-cases, or_else, str_eq,
}
use yandex_codeforces_analyz.Repair.{
  Reply, ok, raised, Io, follow, ◌>>=◌, pure, attempt, caught, PackageInfo, Services, ready,
  timeout, Polled, look, poll, build_once, finalize, package_ids, fresh_latest,
}

abbrev pub beside : {L W A : Type 0} → L → W × Reply A → (W × L) × Reply A
beside l (w, r) = ((w, l), r)

abbrev pub unwatched : {L W A : Type 0} → Io W A → Io (W × L) A
unwatched m (w, l) = beside l (m w)

-- the same services, with the files that the fixer was asked for, the last one first
abbrev pub watched : Services → Services
watched sv = record {
  World = sv.World × List String;
  get_packages = unwatched sv.get_packages;
  commit_changes = unwatched sv.commit_changes;
  build_package = unwatched sv.build_package;
  resolve_offending_file = λ c. unwatched (sv.resolve_offending_file c);
  get_all_file_contents = unwatched sv.get_all_file_contents;
  fix = λ f code c errors files w. beside (f ∷ w.1) (sv.fix f code c errors files w.0);
  parse_skip = sv.parse_skip;
  sync_file = λ f text. unwatched (sv.sync_file f text);
  assign_tests_to_groups = unwatched sv.assign_tests_to_groups;
}

-- a call that does not ask the fixer
pub record IsQuiet {L W A : Type 0} (m : Io (W × L) A) : Type 0 where
  pub quiet : (w : W × L) → (m w).0.1 ≡ w.1

-- what holds of the list after a call, when it starts from `l`
pub record Leaves {L W A : Type 0} (P : L → Type 0) (l : L) (m : Io (W × L) A) : Type 0 where
  pub left : (w : W) → P (m (w, l)).0.1

pub IsQuiet-unwatched : {L W A : Type 0} (m : Io W A) → IsQuiet {L = L} (unwatched m)
IsQuiet-unwatched m = record { quiet = λ w. refl }

pub IsQuiet-pure : {L W A : Type 0} (a : A) → IsQuiet {L = L} {W = W} (pure a)
IsQuiet-pure a = record { quiet = λ w. refl }

quiet-follow :
    {L W A B : Type 0} (x : (W × L) × Reply A) (k : A → Io (W × L) B)
    → ((a : A) → IsQuiet (k a))
    → (follow x k).0.1 ≡ x.0.1
quiet-follow (w, ok a) k h = (h a).quiet w
quiet-follow (w, raised) k h = refl

IsQuiet-bind :
    {L W A B : Type 0} (m : Io (W × L) A) (k : A → Io (W × L) B)
    → IsQuiet m
    → ((a : A) → IsQuiet (k a))
    → IsQuiet (m >>= k)
IsQuiet-bind m k q h = record { quiet = λ w. quiet-follow (m w) k h ∙ q.quiet w }

pub caught-world : {W A : Type 0} (x : W × Reply A) → (caught x).0 ≡ x.0
caught-world (w, ok a) = refl
caught-world (w, raised) = refl

IsQuiet-attempt : {L W A : Type 0} (m : Io (W × L) A) → IsQuiet m → IsQuiet (attempt m)
IsQuiet-attempt m q = record { quiet = λ w. ap (λ x. x.1) (caught-world (m w)) ∙ q.quiet w }

pub left-follow :
    {L W A B : Type 0} (P : L → Type 0) (x : (W × L) × Reply A) (k : A → Io (W × L) B)
    → P x.0.1
    → ((a : A) → Leaves P x.0.1 (k a))
    → P (follow x k).0.1
left-follow P ((w, l), ok a) k p h = (h a).left w
left-follow P ((w, l), raised) k p h = p

pub Leaves-bind :
    {L W A B : Type 0} (P : L → Type 0) (l : L) (m : Io (W × L) A) (k : A → Io (W × L) B)
    → IsQuiet m
    → P l
    → ((a : A) → Leaves P l (k a))
    → Leaves P l (m >>= k)
Leaves-bind {A = A} P l m k q p h = record {
  left = λ w.
      left-follow P (m (w, l)) k (subst P (sym (q.quiet (w, l))) p)
        (subst (λ x. (a : A) → Leaves P x (k a)) (sym (q.quiet (w, l))) h);
}

pub Leaves-quiet :
    {L W A : Type 0} (P : L → Type 0) (l : L) (m : Io (W × L) A) → IsQuiet m → P l → Leaves P l m
Leaves-quiet P l m q p = record { left = λ w. subst P (sym (q.quiet (w, l))) p }

module _ (sv : Services) where
  open sv use {World}

  abbrev W : Type 0
  W = World × List String

  look-IsQuiet :
      (p : Option PackageInfo) (rest : Io W Polled)
      → IsQuiet rest
      → IsQuiet (look (watched sv) p rest)
  unfolding look
  look-IsQuiet none rest h = h
  look-IsQuiet (some p) rest h = elim (Bool-cases (str_eq (or_else p.state "PENDING") "READY")) [
    | inl t ↦ rw t (IsQuiet-pure (ready p.id))
    | inr f ↦ elim (Bool-cases (str_eq (or_else p.state "PENDING") "FAILED")) [
      | inl t ↦ rw (f, t) (IsQuiet-pure _)
      | inr g ↦ rw (f, g) h
    ]
  ]

  poll-IsQuiet :
      (fuel elapsed : ℕ) (before : List ℕ) → IsQuiet (poll (watched sv) fuel elapsed before)
  unfolding poll
  poll-IsQuiet zero elapsed before = IsQuiet-pure _
  poll-IsQuiet (suc fuel) elapsed before = elim (Bool-cases (ltb elapsed 600)) [
    | inl t ↦ rw t (
        IsQuiet-bind _ _ (IsQuiet-unwatched sv.get_packages) λ packages.
          look-IsQuiet (fresh_latest before packages) _ (poll-IsQuiet fuel (elapsed + 10) before))
    | inr f ↦ rw f (IsQuiet-pure timeout)
  ]

  pub package_ids-IsQuiet : IsQuiet (package_ids (watched sv))
  unfolding package_ids
  package_ids-IsQuiet =
      IsQuiet-bind _ _ (IsQuiet-attempt _ (IsQuiet-unwatched sv.get_packages))
        λ packages. IsQuiet-pure _

  pub build_once-IsQuiet : IsQuiet (build_once (watched sv))
  unfolding build_once
  build_once-IsQuiet = IsQuiet-bind (package_ids (watched sv)) _ package_ids-IsQuiet λ before.
      IsQuiet-bind (unwatched sv.commit_changes) _ (IsQuiet-unwatched sv.commit_changes) λ u.
        IsQuiet-bind (unwatched sv.build_package) _ (IsQuiet-unwatched sv.build_package)
          λ u'. poll-IsQuiet 61 0 before

  pub finalize-IsQuiet : (groups : Bool) → IsQuiet (finalize (watched sv) groups)
  unfolding finalize
  finalize-IsQuiet true =
      IsQuiet-bind (unwatched sv.assign_tests_to_groups) _
        (IsQuiet-unwatched sv.assign_tests_to_groups)
        λ mapping.
          IsQuiet-bind (attempt (unwatched sv.commit_changes)) _
            (IsQuiet-attempt (unwatched sv.commit_changes) (IsQuiet-unwatched sv.commit_changes))
            λ u. IsQuiet-pure mapping
  finalize-IsQuiet false = IsQuiet-pure []
