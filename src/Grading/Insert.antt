-- ===== src/Grading/Insert.antt =====
-- The rows that `_store_outcome` of backend/api/judge/grading.py inserts.
use yandex_codeforces_analyz.Prelude.{
  Bool-cases, Every, append_assoc, ◌||◌, ◌&&◌, ◌≡◌, refl, sym, ◌∙◌, inl, inr, Bool, false, some,
  List, [], ◌∷◌, ◌++◌, append-nil, arith, ◌==◌, any_of,
}
use mathlib.Core.Option.{some-injective}
use yandex_codeforces_analyz.Grading.{JudgeRun, conflicts, insert_runs}

any_of-append :
    {A : Type 0} (p : A → Bool) (xs ys : List A)
    → any_of p (xs ++ ys) ≡ (any_of p xs || any_of p ys)
any_of-append p [] ys = refl
any_of-append p (x ∷ xs) ys = ground (arith, any_of-append p xs ys)

-- none of the runs has the submission and the test of one of the others
abbrev pub AreFree : List JudgeRun → List JudgeRun → Type 0
AreFree rs ns = Every (λ n. conflicts n rs ≡ false) ns

AreFree-append : (rs ms ns : List JudgeRun) → AreFree (rs ++ ms) ns → AreFree rs ns
AreFree-append rs ms [] h = tt
AreFree-append rs ms (n ∷ ns) h = (
  ground (
    arith,
    h.0,
    any_of-append (λ q. (q.submission_id == n.submission_id) && (q.test_index == n.test_index)) rs
        ms,
  ),
  AreFree-append rs ms ns h.1,
)

pub insert_runs_lem :
    (rs ns out : List JudgeRun) → insert_runs rs ns ≡ some out → (out ≡ rs ++ ns) × AreFree rs ns
unfolding insert_runs
insert_runs_lem rs [] out h = (sym (some-injective _ _ h) ∙ sym (append-nil rs), tt)
insert_runs_lem rs (n ∷ ns) out h = elim (Bool-cases (conflicts n rs)) [
  | inl t ↦ absurd (cc (rw t at h))
  | inr f ↦
      let (all, rest) = insert_runs_lem (rs ++ (n ∷ [])) ns out (rw f at h) in
      (all ∙ append_assoc rs (n ∷ []) ns, (f, AreFree-append rs (n ∷ []) ns rest))
]
