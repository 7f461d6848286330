-- ===== src/Engine/Amounts.antt =====
-- Sums, products and least elements of numbers that are not negative, as scoring.py computes them.
use yandex_codeforces_analyz.Prelude.{
  ◌≡◌, subst, true, not, List, [], ◌∷◌, foldl, arith, if◌then◌else◌, Every, Floats, IsLawful,
}
use yandex_codeforces_analyz.Engine.Scoring.{least}

module _ (fl : Floats) (law : IsLawful fl) where
  open fl use {Float, fzero, fadd, fmul, fle}
  open law use {fle_total, fle_trans, fadd_mono, fadd-fzero, fmul_mono, fmul-fzero}

  abbrev pub NotNegative : Float → Type 0
  NotNegative x = fle fzero x ≡ true

  pub fle_refl : (a : Float) → fle a a ≡ true
  fle_refl a = ground (arith, fle_total a a)

  pub fadd_above : (a b : Float) → NotNegative b → fle a (fadd a b) ≡ true
  fadd_above a b h =
      subst (λ x. fle x (fadd a b) ≡ true) (fadd-fzero a) (fadd_mono a a fzero b (fle_refl a) h)

  pub fmul-NotNegative : (a b : Float) → NotNegative a → NotNegative b → NotNegative (fmul a b)
  fmul-NotNegative a b h k =
      subst (λ x. fle x (fmul a b) ≡ true) (fmul-fzero a h)
        (fmul_mono a a fzero b h (fle_refl a) (fle_refl fzero) k)

  pub sum-NotNegative :
      (a : Float) (xs : List Float)
      → NotNegative a
      → Every NotNegative xs
      → NotNegative (foldl fadd a xs)
  sum-NotNegative a [] h all = h
  sum-NotNegative a (x ∷ xs) h all =
      sum-NotNegative (fadd a x) xs (fle_trans _ _ _ h (fadd_above a x all.0)) all.1

  pub least-NotNegative :
      (a : Float) (xs : List Float)
      → NotNegative a
      → Every NotNegative xs
      → NotNegative (least fl a xs)
  unfolding least
  least-NotNegative a [] h all = h
  least-NotNegative a (x ∷ xs) h all =
      least-NotNegative (if not (fle a x) then x else a) xs (ground arith) all.1

  -- two lists of the same length, smaller place by place
  abbrev pub Below : List Float → List Float → Type 0
  Below [] [] = Unit
  Below [] (y ∷ ys) = ⊥
  Below (x ∷ xs) [] = ⊥
  Below (x ∷ xs) (y ∷ ys) = (fle x y ≡ true) × Below xs ys

  pub least_mono :
      (a b : Float) (xs ys : List Float)
      → fle a b ≡ true
      → Below xs ys
      → fle (least fl a xs) (least fl b ys) ≡ true
  unfolding least
  least_mono a b [] [] h below = h
  least_mono a b [] (y ∷ ys) h below = absurd below
  least_mono a b (x ∷ xs) [] h below = absurd below
  least_mono a b (x ∷ xs) (y ∷ ys) h below =
      least_mono (if not (fle a x) then x else a) (if not (fle b y) then y else b) xs ys
        (ground (arith, below.0, fle_total a x, fle_total b y, fle_trans x a b, fle_trans a x y))
        below.1
