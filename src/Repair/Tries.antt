-- ===== src/Repair/Tries.antt =====
-- package_loop.py: how often the fixer is asked.
-- The list of the calls of the fixer follows the counters of the loop.
use yandex_codeforces_analyz.Prelude.{
  get_str-put_str, ℕ, zero, suc, ◌+◌, ◌≤◌, ◌<◌, String, ◌≡◌, refl, sym, ap, subst, inl, inr, Bool,
  true, Option, none, some, List, [], ◌∷◌, arith, ltb, leb, ◌==◌, if◌then◌else◌, ltb→lt, leb→le,
  Bool-cases, Option-cases, or_else, length, count_of, str_eq, str_eq_iff, str_is_empty, get_str,
}
use yandex_codeforces_analyz.Repair.{
  Io, Upload, synced, rejected, Services, ready, failed, timeout, unfinished, Polled, BuildResult,
  Repairing, total, tried, build_once, finalize, give_up, after_build, after_upload, upload,
  after_fix, ask_fix, mend, try_file, repair, first_offender, first_build, build_and_poll,
  with_error,
}
use yandex_codeforces_analyz.Repair.Rounds.{total-tried}
use yandex_codeforces_analyz.Repair.Watch.{
  unwatched, watched, Leaves, IsQuiet-unwatched, IsQuiet-pure, left-follow, Leaves-bind,
  Leaves-quiet, caught-world, build_once-IsQuiet, finalize-IsQuiet,
}

abbrev pub tries : String → List String → ℕ
tries f l = count_of (λ g. str_eq g f) l

-- at most three attempts at each file, and twelve in all
abbrev pub IsBounded : List String → Type 0
IsBounded l = ((f : String) → tries f l ≤ 3) × (length l ≤ 12)

-- the counters of the loop are those of the list
record IsCounted (m : List (String × ℕ)) (l : List String) : Type 0 where
  counted : (f : String) → tries f l ≡ or_else (get_str f m) 0
  summed : length l ≡ total m
  bounded : IsBounded l

IsCounted-nil : IsCounted [] []
unfolding get_str
IsCounted-nil = record {
  counted = λ f. refl;
  summed = refl;
  bounded = (λ f. omega arith, omega arith);
}

get_str-tried :
    (f g : String) (m : List (String × ℕ))
    → or_else (get_str f (tried g m)) 0
      ≡ (if str_eq g f then or_else (get_str g m) 0 + 1 else or_else (get_str f m) 0)
unfolding tried
get_str-tried f g m = rw (get_str-put_str f g (or_else (get_str g m) 0 + 1) m) (ground arith)

get_str-tried_same :
    (f g : String) (m : List (String × ℕ))
    → str_eq g f ≡ true
    → or_else (get_str f (tried g m)) 0 ≡ or_else (get_str g m) 0 + 1
get_str-tried_same f g m e = rw (get_str-tried f g m, e) refl

IsCounted-tried :
    (f : String) (m : List (String × ℕ)) (l : List String)
    → IsCounted m l
    → total m < 12
    → or_else (get_str f (tried f m)) 0 ≤ 3
    → IsCounted (tried f m) (f ∷ l)
IsCounted-tried f m l h t b = record {
  counted = λ g. counts g;
  summed = omega (arith, total-tried f m, h.summed);
  bounded = (λ g. few g, omega (arith, h.summed));
}
  where
    counts : (g : String) → tries g (f ∷ l) ≡ or_else (get_str g (tried f m)) 0
    counts g = elim (Bool-cases (str_eq f g)) [
      | inl e ↦ rw e (
          omega (
            arith,
            h.counted g,
            get_str-tried_same g f m e,
            ap (λ x. or_else (get_str x m) 0) ((str_eq_iff f g).0 e),
          ))
      | inr e ↦ rw (e, get_str-tried g f m, e) (h.counted g)
    ]

    few : (g : String) → tries g (f ∷ l) ≤ 3
    few g = elim (Bool-cases (str_eq f g)) [
      | inl e ↦ subst (λ x. tries x (f ∷ l) ≤ 3) ((str_eq_iff f g).0 e) (omega (arith, counts f, b))
      | inr e ↦ rw e (h.bounded.0 g)
    ]

module _ (sv : Services) where
  open sv use {World}

  abbrev W : Type 0
  W = World × List String

  abbrev Loop : Type 0
  Loop = Repairing → Io W BuildResult

  -- where the loop goes on, the list stays bounded
  abbrev GoesOn : Loop → Repairing → List String → Type 0
  GoesOn next s l = (t : Repairing) → t.attempts ≡ s.attempts → Leaves IsBounded l (next t)

  after_build-Leaves :
      (next : Loop) (groups : Bool) (s : Repairing) (l : List String) (p : Polled)
      → IsBounded l
      → GoesOn next s l
      → Leaves IsBounded l (after_build (watched sv) next groups s p)
  unfolding after_build with_error
  after_build-Leaves next groups s l (ready id) b on =
      Leaves-bind IsBounded l (finalize (watched sv) groups) _ (finalize-IsQuiet sv groups) b
        λ m. Leaves-quiet IsBounded l _ (IsQuiet-pure _) b
  after_build-Leaves next groups s l (failed c) b on =
      Leaves-bind IsBounded l (unwatched (sv.resolve_offending_file c)) _
        (IsQuiet-unwatched (sv.resolve_offending_file c)) b λ f. on _ refl
  after_build-Leaves next groups s l timeout b on = Leaves-quiet IsBounded l _ (IsQuiet-pure _) b
  after_build-Leaves next groups s l unfinished b on = Leaves-quiet IsBounded l _ (IsQuiet-pure _) b

  after_upload-Leaves :
      (next : Loop) (groups : Bool) (s : Repairing) (l : List String) (u : Upload)
      → IsBounded l
      → GoesOn next s l
      → Leaves IsBounded l (after_upload (watched sv) next groups s u)
  unfolding after_upload with_error
  after_upload-Leaves next groups s l synced b on =
      Leaves-bind IsBounded l (build_once (watched sv)) _ (build_once-IsQuiet sv) b
        λ p. after_build-Leaves next groups s l p b on
  after_upload-Leaves next groups s l (rejected r) b on = on _ refl

  after_fix-Leaves :
      (next : Loop) (groups : Bool) (s : Repairing) (l : List String) (o : Option String)
      → IsBounded l
      → GoesOn next s l
      → Leaves IsBounded l (after_fix (watched sv) next groups s o)
  unfolding after_fix upload give_up
  after_fix-Leaves next groups s l none b on = Leaves-quiet IsBounded l _ (IsQuiet-pure _) b
  after_fix-Leaves next groups s l (some fixed) b on = elim (Option-cases (sv.parse_skip fixed)) [
    | inl e ↦
        rw (e, upload)
          (Leaves-bind IsBounded l (unwatched (sv.sync_file s.offender fixed)) _
            (IsQuiet-unwatched (sv.sync_file s.offender fixed)) b
            λ u. after_upload-Leaves next groups s l u b on)
    | inr (reason, e) ↦ rw (e, upload) (Leaves-quiet IsBounded l _ (IsQuiet-pure _) b)
  ]

  ask_fix-asked :
      (s : Repairing) (contents : List (String × String)) (w : World) (l : List String)
      → (ask_fix (watched sv) s contents (w, l)).0.1 ≡ s.offender ∷ l
  unfolding ask_fix
  ask_fix-asked s contents w l = ap (λ (x : W). x.1) (caught-world _)

  mend-Leaves :
      (next : Loop) (groups : Bool) (s : Repairing) (l : List String)
      → IsBounded l
      → IsBounded (s.offender ∷ l)
      → GoesOn next s (s.offender ∷ l)
      → Leaves IsBounded l (mend (watched sv) next groups s)
  unfolding mend
  mend-Leaves next groups s l b b' on =
      Leaves-bind IsBounded l (unwatched sv.get_all_file_contents) _
        (IsQuiet-unwatched sv.get_all_file_contents) b
        λ contents. record {
          left = λ w.
              left-follow IsBounded (ask_fix (watched sv) s contents (w, l)) _
                (subst IsBounded (sym (ask_fix-asked s contents w l)) b')
                (λ fixed.
                  subst (λ x. Leaves IsBounded x (after_fix (watched sv) next groups s fixed))
                    (sym (ask_fix-asked s contents w l))
                    (after_fix-Leaves next groups s (s.offender ∷ l) fixed b' on));
        }

  try_file-Leaves :
      (next : Loop) (groups : Bool) (s : Repairing) (l : List String)
      → IsCounted s.attempts l
      → total s.attempts < 12
      → ((t : Repairing) (k : List String) → IsCounted t.attempts k → Leaves IsBounded k (next t))
      → Leaves IsBounded l
          (try_file (watched sv) next groups (record s { attempts = tried s.offender s.attempts }))
  unfolding try_file give_up
  try_file-Leaves next groups s l h few on =
      elim (Bool-cases (leb (or_else (get_str s.offender (tried s.offender s.attempts)) 0) 3)) [
        | inl t ↦ rw t (
            mend-Leaves next groups _ l h.bounded (after t).bounded λ u e.
              on u (s.offender ∷ l) (subst (λ m. IsCounted m (s.offender ∷ l)) (sym e) (after t)))
        | inr f ↦ rw f (Leaves-quiet IsBounded l _ (IsQuiet-pure _) h.bounded)
      ]
    where
      after :
          leb (or_else (get_str s.offender (tried s.offender s.attempts)) 0) 3 ≡ true
          → IsCounted (tried s.offender s.attempts) (s.offender ∷ l)
      after t = IsCounted-tried s.offender s.attempts l h few (leb→le _ 3 t)

  repair-Leaves :
      (fuel : ℕ) (groups : Bool) (s : Repairing) (l : List String)
      → IsCounted s.attempts l
      → Leaves IsBounded l (repair (watched sv) fuel groups s)
  unfolding repair give_up
  repair-Leaves zero groups s l h = Leaves-quiet IsBounded l _ (IsQuiet-pure _) h.bounded
  repair-Leaves (suc fuel) groups s l h = elim (Bool-cases (ltb (total s.attempts) 12)) [
    | inl t ↦ rw t (
        try_file-Leaves (repair (watched sv) fuel groups) groups s l h (ltb→lt _ 12 t)
          (repair-Leaves fuel groups))
    | inr f ↦ rw f (Leaves-quiet IsBounded l _ (IsQuiet-pure _) h.bounded)
  ]

  first_offender-Leaves :
      (groups : Bool) (c : String) (f : Option String)
      → Leaves IsBounded [] (first_offender (watched sv) groups c f)
  unfolding first_offender
  first_offender-Leaves groups c none =
      Leaves-quiet IsBounded [] _ (IsQuiet-pure _) IsCounted-nil.bounded
  first_offender-Leaves groups c (some f) = elim (Bool-cases (str_is_empty f)) [
    | inl t ↦ rw t (Leaves-quiet IsBounded [] _ (IsQuiet-pure _) IsCounted-nil.bounded)
    | inr e ↦ rw e (repair-Leaves 13 groups _ [] IsCounted-nil)
  ]

  first_build-Leaves :
      (groups : Bool) (p : Polled) → Leaves IsBounded [] (first_build (watched sv) groups p)
  unfolding first_build
  first_build-Leaves groups (ready id) =
      Leaves-bind IsBounded [] (finalize (watched sv) groups) _ (finalize-IsQuiet sv groups)
        IsCounted-nil.bounded
        λ m. Leaves-quiet IsBounded [] _ (IsQuiet-pure _) IsCounted-nil.bounded
  first_build-Leaves groups (failed c) =
      Leaves-bind IsBounded [] (unwatched (sv.resolve_offending_file c)) _
        (IsQuiet-unwatched (sv.resolve_offending_file c)) IsCounted-nil.bounded
        λ f. first_offender-Leaves groups c f
  first_build-Leaves groups timeout =
      Leaves-quiet IsBounded [] _ (IsQuiet-pure _) IsCounted-nil.bounded
  first_build-Leaves groups unfinished =
      Leaves-quiet IsBounded [] _ (IsQuiet-pure _) IsCounted-nil.bounded

  build_and_poll-Leaves :
      (problem_id : Option ℕ) (groups : Bool)
      → Leaves IsBounded [] (build_and_poll (watched sv) problem_id groups)
  unfolding build_and_poll
  build_and_poll-Leaves problem_id groups = elim (Bool-cases (or_else problem_id 0 == 0)) [
    | inl t ↦ rw t (Leaves-quiet IsBounded [] _ (IsQuiet-pure _) IsCounted-nil.bounded)
    | inr f ↦ rw f (
        Leaves-bind IsBounded [] (build_once (watched sv)) _ (build_once-IsQuiet sv)
          IsCounted-nil.bounded λ p. first_build-Leaves groups p)
  ]

  -- The fixer is asked at most three times for one file and at most twelve times in all, whichever
  -- files the builds blame in turn and whatever the services answer or raise.
  pub build_and_poll-IsBounded :
      (problem_id : Option ℕ) (groups : Bool) (w : World)
      → IsBounded (build_and_poll (watched sv) problem_id groups (w, [])).0.1
  build_and_poll-IsBounded problem_id groups w = (build_and_poll-Leaves problem_id groups).left w
