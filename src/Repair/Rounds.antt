-- ===== src/Repair/Rounds.antt =====
-- package_loop.py: the two loops end, whatever Polygon and the model answer.
use yandex_codeforces_analyz.Prelude.{
  ℕ, zero, suc, ◌+◌, ◌*◌, ◌≤◌, ◌<◌, String, ◌≡◌, refl, subst, ◌≢◌, inl, inr, Bool, Option, none,
  some, List, [], ◌∷◌, arith, ltb, leb, ◌==◌, Bool-cases, Option-cases, or_else, str_eq,
  str_is_empty, get_str, put_str,
}
use yandex_codeforces_analyz.Repair.{
  Reply, ok, raised, Io, follow, ◌>>=◌, pure, PackageInfo, Upload, synced, rejected, Services,
  ready, failed, timeout, unfinished, Polled, BuildResult, finished, out_of_fuel, Repairing, total,
  tried, look, poll, build_once, finalize, give_up, after_build, after_upload, upload, after_fix,
  mend, try_file, repair, first_offender, first_build, build_and_poll, package_ids, ask_fix,
  fresh_latest, with_error,
}

-- what holds of every value that a call ends with
pub record Yields {W A : Type 0} (P : A → Type 0) (m : Io W A) : Type 0 where
  pub holds : (w : W) (a : A) → (m w).1 ≡ ok a → P a

ok-injective : {A : Type 0} {a b : A} → Reply.ok a ≡ ok b → a ≡ b
ok-injective e = cc

pub Yields-pure : {W A : Type 0} (P : A → Type 0) (a : A) → P a → Yields {W = W} P (pure a)
Yields-pure P a h = record { holds = λ w b e. subst P (ok-injective e) h }

follow-holds :
    {W A B : Type 0} (P : B → Type 0) (x : W × Reply A) (k : A → Io W B)
    → ((a : A) → x.1 ≡ ok a → Yields P (k a))
    → (b : B) → (follow x k).1 ≡ ok b
    → P b
follow-holds P (w, ok a) k h b e = (h a refl).holds w b e
follow-holds P (w, raised) k h b e = absurd cc

pub Yields-bind :
    {W A B : Type 0} (P : B → Type 0) (m : Io W A) (k : A → Io W B)
    → ((w : W) (a : A) → (m w).1 ≡ ok a → Yields P (k a))
    → Yields P (m >>= k)
Yields-bind P m k h = record { holds = λ w b e. follow-holds P (m w) k (h w) b e }

abbrev pub IsPolled : Polled → Type 0
IsPolled unfinished = ⊥
IsPolled _ = Unit

abbrev pub IsResult : BuildResult → Type 0
IsResult out_of_fuel = ⊥
IsResult _ = Unit

total-put_str :
    (f : String) (n : ℕ) (m : List (String × ℕ))
    → total (put_str f n m) + or_else (get_str f m) 0 ≡ total m + n
unfolding get_str put_str
total-put_str f n [] = omega arith
total-put_str f n ((g, k) ∷ m) = elim (Bool-cases (str_eq g f)) [
  | inl t ↦ rw t (omega arith)
  | inr e ↦ rw e (omega (arith, total-put_str f n m))
]

pub total-tried : (f : String) (m : List (String × ℕ)) → total (tried f m) ≡ total m + 1
unfolding tried
total-tried f m = omega (arith, total-put_str f (or_else (get_str f m) 0 + 1) m)

module _ (sv : Services) where
  open sv use {
    World, get_packages, commit_changes, build_package, resolve_offending_file, sync_file,
    get_all_file_contents, fix, parse_skip,
  }

  look-IsPolled :
      (p : Option PackageInfo) (rest : Io World Polled)
      → Yields IsPolled rest
      → Yields IsPolled (look sv p rest)
  unfolding look
  look-IsPolled none rest h = h
  look-IsPolled (some p) rest h = elim (Bool-cases (str_eq (or_else p.state "PENDING") "READY")) [
    | inl t ↦ rw t (Yields-pure IsPolled (ready p.id) tt)
    | inr f ↦ elim (Bool-cases (str_eq (or_else p.state "PENDING") "FAILED")) [
      | inl t ↦ rw (f, t) (Yields-pure IsPolled _ tt)
      | inr g ↦ rw (f, g) h
    ]
  ]

  -- Sixty looks, ten seconds apart, fill the ten minutes.
  poll-IsPolled :
      (fuel elapsed : ℕ) (before : List ℕ)
      → 0 < fuel
      → 610 ≤ fuel * 10 + elapsed
      → Yields IsPolled (poll sv fuel elapsed before)
  unfolding poll
  poll-IsPolled zero elapsed before h b = absurd (omega arith)
  poll-IsPolled (suc fuel) elapsed before h b = elim (Bool-cases (ltb elapsed 600)) [
    | inl t ↦ rw t (
        Yields-bind IsPolled get_packages _ λ w packages e.
          look-IsPolled (fresh_latest before packages) (poll sv fuel (elapsed + 10) before)
            (poll-IsPolled fuel (elapsed + 10) before (ground (arith, t)) (ground (arith, t))))
    | inr f ↦ rw f (Yields-pure IsPolled timeout tt)
  ]

  build_once-IsPolled : Yields IsPolled (build_once sv)
  unfolding build_once
  build_once-IsPolled = Yields-bind IsPolled (package_ids sv) _ λ w before e.
      Yields-bind IsPolled commit_changes _ λ w' u e'.
        Yields-bind IsPolled build_package _
          λ w'' u' e''. poll-IsPolled 61 0 before (omega arith) (omega arith)

  after_build-IsResult :
      (next : Repairing → Io World BuildResult) (groups : Bool) (s : Repairing) (p : Polled)
      → IsPolled p
      → ((t : Repairing) → t.attempts ≡ s.attempts → Yields IsResult (next t))
      → Yields IsResult (after_build sv next groups s p)
  unfolding after_build with_error
  after_build-IsResult next groups s (ready id) h ends =
      Yields-bind IsResult (finalize sv groups) _
        λ w m e. Yields-pure IsResult (finished id none) tt
  after_build-IsResult next groups s (failed c) h ends =
      Yields-bind IsResult (resolve_offending_file c) _ λ w f e. ends _ refl
  after_build-IsResult next groups s timeout h ends = Yields-pure IsResult _ tt
  after_build-IsResult next groups s unfinished h ends = absurd h

  after_upload-IsResult :
      (next : Repairing → Io World BuildResult) (groups : Bool) (s : Repairing) (u : Upload)
      → ((t : Repairing) → t.attempts ≡ s.attempts → Yields IsResult (next t))
      → Yields IsResult (after_upload sv next groups s u)
  unfolding after_upload with_error
  after_upload-IsResult next groups s synced ends =
      Yields-bind IsResult (build_once sv) _
        λ w p e. after_build-IsResult next groups s p (build_once-IsPolled.holds w p e) ends
  after_upload-IsResult next groups s (rejected r) ends = ends _ refl

  after_fix-IsResult :
      (next : Repairing → Io World BuildResult) (groups : Bool) (s : Repairing) (o : Option String)
      → ((t : Repairing) → t.attempts ≡ s.attempts → Yields IsResult (next t))
      → Yields IsResult (after_fix sv next groups s o)
  unfolding after_fix upload give_up
  after_fix-IsResult next groups s none ends = Yields-pure IsResult _ tt
  after_fix-IsResult next groups s (some fixed) ends = elim (Option-cases (parse_skip fixed)) [
    | inl e ↦
        rw (e, upload)
          (Yields-bind IsResult (sync_file s.offender fixed) _
            λ w u e'. after_upload-IsResult next groups s u ends)
    | inr (reason, e) ↦ rw (e, upload) (Yields-pure IsResult _ tt)
  ]

  try_file-IsResult :
      (next : Repairing → Io World BuildResult) (groups : Bool) (s : Repairing)
      → ((t : Repairing) → t.attempts ≡ s.attempts → Yields IsResult (next t))
      → Yields IsResult (try_file sv next groups s)
  unfolding try_file mend give_up
  try_file-IsResult next groups s ends =
      elim (Bool-cases (leb (or_else (get_str s.offender s.attempts) 0) 3)) [
        | inl t ↦ rw t (
            Yields-bind IsResult get_all_file_contents _ λ w contents e.
              Yields-bind IsResult (ask_fix sv s contents) _
                λ w' fixed e'. after_fix-IsResult next groups s fixed ends)
        | inr f ↦ rw f (Yields-pure IsResult _ tt)
      ]

  -- one unit of fuel for each attempt that is left, and one for the test that ends the loop
  repair-IsResult :
      (fuel : ℕ) (groups : Bool) (s : Repairing)
      → 0 < fuel
      → 12 < fuel + total s.attempts
      → Yields IsResult (repair sv fuel groups s)
  unfolding repair give_up
  repair-IsResult zero groups s p h = absurd (omega arith)
  repair-IsResult (suc fuel) groups s p h = elim (Bool-cases (ltb (total s.attempts) 12)) [
    | inl t ↦ rw t (
        try_file-IsResult (repair sv fuel groups) groups _ λ u e.
          repair-IsResult fuel groups u (ground (arith, t))
            (rw e (ground (arith, t, total-tried s.offender s.attempts))))
    | inr f ↦ rw f (Yields-pure IsResult _ tt)
  ]

  first_offender-IsResult :
      (groups : Bool) (c : String) (f : Option String)
      → Yields IsResult (first_offender sv groups c f)
  unfolding first_offender
  first_offender-IsResult groups c none = Yields-pure IsResult _ tt
  first_offender-IsResult groups c (some f) = elim (Bool-cases (str_is_empty f)) [
    | inl t ↦ rw t (Yields-pure IsResult _ tt)
    | inr e ↦ rw e (repair-IsResult 13 groups _ (omega arith) (omega arith))
  ]

  first_build-IsResult :
      (groups : Bool) (p : Polled) → IsPolled p → Yields IsResult (first_build sv groups p)
  unfolding first_build
  first_build-IsResult groups (ready id) h =
      Yields-bind IsResult (finalize sv groups) _
        λ w m e. Yields-pure IsResult (finished id (some m)) tt
  first_build-IsResult groups (failed c) h =
      Yields-bind IsResult (resolve_offending_file c) _ λ w f e. first_offender-IsResult groups c f
  first_build-IsResult groups timeout h = Yields-pure IsResult _ tt
  first_build-IsResult groups unfinished h = absurd h

  build_and_poll-Yields :
      (problem_id : Option ℕ) (groups : Bool)
      → Yields IsResult (build_and_poll sv problem_id groups)
  unfolding build_and_poll
  build_and_poll-Yields problem_id groups = elim (Bool-cases (or_else problem_id 0 == 0)) [
    | inl t ↦ rw t (Yields-pure IsResult _ tt)
    | inr f ↦ rw f (
        Yields-bind IsResult (build_once sv) _
          λ w p e. first_build-IsResult groups p (build_once-IsPolled.holds w p e))
  ]

  -- The build and its repair always come to an end: the fuel that `build_and_poll` gives to its two
  -- loops does not run out, whatever Polygon, the model and the other services answer.
  pub build_and_poll_ends :
      (problem_id : Option ℕ) (groups : Bool) (w : World)
      → (build_and_poll sv problem_id groups w).1 ≢ ok out_of_fuel
  build_and_poll_ends problem_id groups w h =
      (build_and_poll-Yields problem_id groups).holds w out_of_fuel h
