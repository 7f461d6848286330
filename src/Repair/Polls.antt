-- ===== src/Repair/Polls.antt =====
-- package_loop.py: the package that a build reports.
use yandex_codeforces_analyz.Prelude.{
  ◌∙◌, ◌||◌, Option-cases, Bool-cases, ◌≤◌, ◌≢◌, ap, ltb→lt, ◌==◌, ℕ, zero, suc, ◌+◌, ◌≡◌, refl,
  sym, subst, ◌⊎◌, inl, inr, Bool, true, false, not, Option, none, some, List, [], ◌∷◌, arith, ltb,
  or_else, select, Every, str_eq, str_eq_iff,
}
use yandex_codeforces_analyz.Repair.{
  ok, Io, PackageInfo, Services, ready, timeout, unfinished, Polled, has_number, is_fresh, latest,
  fresh_latest, ◌>>=◌, look, poll, package_ids, build_once, ids_of,
}
use yandex_codeforces_analyz.Repair.Rounds.{Yields, Yields-pure, Yields-bind}

-- a member of a list
abbrev pub Among : {A : Type 0} → A → List A → Type 0
Among x [] = ⊥
Among x (y ∷ ys) = (y ≡ x) ⊎ Among x ys

abbrev number : PackageInfo → ℕ
number p = or_else p.id 0

latest-nil : (p : PackageInfo) → latest p [] ≡ p
unfolding latest
latest-nil p = refl

latest-later :
    (p q : PackageInfo) (qs : List PackageInfo)
    → ltb (number p) (number q) ≡ true
    → latest p (q ∷ qs) ≡ latest q qs
unfolding latest
latest-later p q qs t = rw t refl

latest-earlier :
    (p q : PackageInfo) (qs : List PackageInfo)
    → ltb (number p) (number q) ≡ false
    → latest p (q ∷ qs) ≡ latest p qs
unfolding latest
latest-earlier p q qs f = rw f refl

latest-Among : (p : PackageInfo) (ps : List PackageInfo) → Among (latest p ps) (p ∷ ps)
latest-Among p [] = inl (sym (latest-nil p))
latest-Among p (q ∷ qs) = elim (Bool-cases (ltb (number p) (number q))) [
  | inl t ↦
      subst (λ z. Among z (p ∷ q ∷ qs)) (sym (latest-later p q qs t)) (inr (latest-Among q qs))
  | inr f ↦
      subst (λ z. Among z (p ∷ q ∷ qs)) (sym (latest-earlier p q qs f)) (skip (latest-Among p qs))
]
  where
    skip : {z : PackageInfo} → Among z (p ∷ qs) → Among z (p ∷ q ∷ qs)
    skip (inl e) = inl e
    skip (inr h) = inr (inr h)

abbrev IsTop : PackageInfo → PackageInfo → List PackageInfo → Type 0
IsTop z p ps = (number p ≤ number z) × Every (λ q. number q ≤ number z) ps

latest-IsTop : (p : PackageInfo) (ps : List PackageInfo) → IsTop (latest p ps) p ps
latest-IsTop p [] = rw (latest-nil p) (omega arith, tt)
latest-IsTop p (q ∷ qs) = elim (Bool-cases (ltb (number p) (number q))) [
  | inl t ↦
      subst (λ z. IsTop z p (q ∷ qs)) (sym (latest-later p q qs t))
        (above (latest q qs) t (latest-IsTop q qs))
  | inr f ↦
      subst (λ z. IsTop z p (q ∷ qs)) (sym (latest-earlier p q qs f))
        (below (latest p qs) f (latest-IsTop p qs))
]
  where
    above : (z : PackageInfo) → ltb (number p) (number q) ≡ true → IsTop z q qs → IsTop z p (q ∷ qs)
    above z t h = (omega (arith, h.0, ltb→lt (number p) (number q) t), h)

    below :
        (z : PackageInfo) → ltb (number p) (number q) ≡ false → IsTop z p qs → IsTop z p (q ∷ qs)
    below z f h = (h.0, (ground (arith, h.0, f), h.1))

selected-Among :
    {A : Type 0} (f : A → Bool) (x : A) (xs : List A)
    → Among x (select f xs)
    → Among x xs × (f x ≡ true)
selected-Among f x [] h = absurd h
selected-Among f x (y ∷ ys) h = elim (Bool-cases (f y)) [
  | inl t ↦ elim (rw t at h) [
    | inl e ↦ (inl e, subst (λ z. f z ≡ true) e t)
    | inr k ↦ let (k', g) = selected-Among f x ys k in (inr k', g)
  ]
  | inr n ↦ let (k', g) = selected-Among f x ys (rw n at h) in (inr k', g)
]

-- what the selected ones have, the others have if they are selected
unselected :
    {A : Type 0} (P : A → Type 0) (f : A → Bool) (xs : List A)
    → Every P (select f xs)
    → Every (λ x. f x ≡ true → P x) xs
unselected P f [] h = tt
unselected P f (x ∷ xs) h = elim (Bool-cases (f x)) [
  | inl t ↦
      let both : Every P (x ∷ select f xs) = rw t at h in (λ _. both.0, unselected P f xs both.1)
  | inr n ↦ (λ t. absurd (cc), unselected P f xs (rw n at h))
]

-- the package is fresh, and no fresh one has a larger id
record IsNewest (before : List ℕ) (packages : List PackageInfo) (p : PackageInfo) : Type 0 where
  listed : Among p packages
  fresh : is_fresh before p ≡ true
  newest : Every (λ q. is_fresh before q ≡ true → number q ≤ number p) packages

fresh_latest-cases :
    (before : List ℕ) (packages : List PackageInfo)
    → (fresh_latest before packages ≡ none)
      ⊎ ((p : PackageInfo) × (fresh_latest before packages ≡ some p) × IsNewest before packages p)
unfolding fresh_latest
fresh_latest-cases before packages = go (select (is_fresh before) packages) refl
  where
    newest_of :
        (p : PackageInfo) (ps : List PackageInfo)
        → select (is_fresh before) packages ≡ p ∷ ps
        → IsNewest before packages (latest p ps)
    newest_of p ps e =
        let (listed, fresh) =
          selected-Among (is_fresh before) (latest p ps) packages
            (subst (Among (latest p ps)) (sym e) (latest-Among p ps)) in
        record {
          listed = listed;
          fresh = fresh;
          newest =
              unselected (λ q. number q ≤ number (latest p ps)) (is_fresh before) packages
                (subst (Every (λ q. number q ≤ number (latest p ps))) (sym e) (latest-IsTop p ps));
        }

    go :
        (ps : List PackageInfo)
        → select (is_fresh before) packages ≡ ps
        → (fresh_latest before packages ≡ none)
          ⊎ ((p : PackageInfo) × (fresh_latest before packages ≡ some p)
              × IsNewest before packages p)
    go [] e = inl (rw (e, fresh_latest) refl)
    go (p ∷ ps) e = inr (latest p ps, rw (e, fresh_latest) refl, newest_of p ps e)

fresh_or_before :
    (before : List ℕ) (p : PackageInfo) (i : ℕ)
    → p.id ≡ some i
    → is_fresh before p ≡ not (has_number i before)
unfolding is_fresh
fresh_or_before before p i h = rw h refl

newer_or_before :
    (before : List ℕ) (p : PackageInfo) (i : ℕ) (qs : List PackageInfo)
    → p.id ≡ some i
    → Every (λ q. is_fresh before q ≡ true → number q ≤ number p) qs
    → Every (λ q. (j : ℕ) → q.id ≡ some j → (j ≤ i) ⊎ (has_number j before ≡ true)) qs
newer_or_before before p i [] h all = tt
newer_or_before before p i (q ∷ qs) h all = (
  λ j k. elim (Bool-cases (has_number j before)) [
    | inl t ↦ inr t
    | inr n ↦
        let below : number q ≤ number p = all.0 (fresh_or_before before q j k ∙ ap not n) in
        inl (rw (k, h) at below)
  ],
  newer_or_before before p i qs h all.1,
)

ids_of-absent :
    (i : ℕ) (ps : List PackageInfo)
    → has_number i (ids_of ps) ≡ false
    → Every (λ p. p.id ≢ some i) ps
unfolding ids_of
ids_of-absent i [] n = tt
ids_of-absent i (p ∷ ps) n = elim (Option-cases p.id) [
  | inl c ↦ (λ k. absurd (cc), ids_of-absent i ps (rw c at n))
  | inr (j, c) ↦
      let later : ((j == i) || has_number i (ids_of ps)) ≡ false = rw c at n in
      (λ k. ground (arith, k, c, later), ids_of-absent i ps (ground (arith, later)))
]

module _ (sv : Services) where
  open sv use {World, get_packages, commit_changes, build_package}

  -- a look at the packages of Polygon in which the package `i` was ready, and the newest of those
  -- that are not among `before`
  pub record IsSeen (before : List ℕ) (i : ℕ) : Type 0 where
    pub world : World
    pub seen : List PackageInfo
    pub looked : (get_packages world).1 ≡ ok seen
    pub built : PackageInfo
    pub listed : Among built seen
    pub its_id : built.id ≡ some i
    pub its_state : or_else built.state "PENDING" ≡ "READY"
    pub is_new : has_number i before ≡ false
    pub newest : Every (λ q. (j : ℕ) → q.id ≡ some j → (j ≤ i) ⊎ (has_number j before ≡ true)) seen

  abbrev IsReported : List ℕ → Polled → Type 0
  IsReported before (ready (some i)) = IsSeen before i
  IsReported before _ = Unit

  look-IsReported :
      (before : List ℕ) (packages : List PackageInfo) (w : World) (rest : Io World Polled)
      → (get_packages w).1 ≡ ok packages
      → Yields (IsReported before) rest
      → Yields (IsReported before) (look sv (fresh_latest before packages) rest)
  unfolding look
  look-IsReported before packages w rest e h = elim (fresh_latest-cases before packages) [
    | inl n ↦ rw (n, look) h
    | inr (p, f, newest) ↦
        subst (λ o. Yields (IsReported before) (look sv o rest)) (sym f)
          (elim (Bool-cases (str_eq (or_else p.state "PENDING") "READY")) [
            | inl t ↦
                rw t (Yields-pure (IsReported before) (ready p.id) (shown p newest t p.id refl))
            | inr g ↦ elim (Bool-cases (str_eq (or_else p.state "PENDING") "FAILED")) [
              | inl t ↦ rw (g, t) (Yields-pure (IsReported before) _ tt)
              | inr g' ↦ rw (g, g') h
            ]
          ])
  ]
    where
      shown :
          (p : PackageInfo)
          → IsNewest before packages p
          → str_eq (or_else p.state "PENDING") "READY" ≡ true
          → (o : Option ℕ) → p.id ≡ o
          → IsReported before (ready o)
      shown p newest t none k = tt
      shown p newest t (some i) k = record {
        world = w;
        seen = packages;
        looked = e;
        built = p;
        listed = newest.listed;
        its_id = k;
        its_state = (str_eq_iff (or_else p.state "PENDING") "READY").0 t;
        is_new = ground (arith, fresh_or_before before p i k, newest.fresh);
        newest = newer_or_before before p i packages k newest.newest;
      }

  poll-IsReported :
      (fuel elapsed : ℕ) (before : List ℕ)
      → Yields (IsReported before) (poll sv fuel elapsed before)
  unfolding poll
  poll-IsReported zero elapsed before = Yields-pure (IsReported before) unfinished tt
  poll-IsReported (suc fuel) elapsed before = elim (Bool-cases (ltb elapsed 600)) [
    | inl t ↦ rw t (
        Yields-bind (IsReported before) get_packages _ λ w packages e.
          look-IsReported before packages w _ e (poll-IsReported fuel (elapsed + 10) before))
    | inr f ↦ rw f (Yields-pure (IsReported before) timeout tt)
  ]

  -- A build that ends with a package that is ready and has the id `i`, where the packages could be
  -- read before it: none of the packages from before has this id; and in some look at the packages
  -- one with this id was listed as READY, and no package had a larger id but those from before.
  pub build_once-IsSeen :
      (w w' : World) (packages : List PackageInfo) (i : ℕ)
      → get_packages w ≡ (w', ok packages)
      → (build_once sv w).1 ≡ ok (ready (some i))
      → Every (λ p. p.id ≢ some i) packages × IsSeen (ids_of packages) i
  unfolding build_once package_ids
  build_once-IsSeen w w' packages i h e = (ids_of-absent i packages seen.is_new, seen)
    where
      after :
          Yields
            (IsReported (ids_of packages))
            (commit_changes >>= λ _. build_package >>= λ _. poll sv 61 0 (ids_of packages))
      after =
          Yields-bind _ commit_changes _
            λ _ _ _. Yields-bind _ build_package _ λ _ _ _. poll-IsReported 61 0 (ids_of packages)

      seen : IsSeen (ids_of packages) i
      seen = after.holds w' (ready (some i)) (rw h at e)
