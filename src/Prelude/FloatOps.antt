-- ===== src/Prelude/FloatOps.antt =====
-- Python's `float`, as a type with the operations that the program uses. The values stand for the
-- floating-point numbers that are not NaN, taken up to `==`.
use Prim.Native.Nat.{ℕ}
use Prim.Native.String.{String}
use mathlib.Core.Path.{◌≡◌}
use mathlib.Core.Logic.{◌⊎◌}
use mathlib.Core.Bool.{Bool, true}
use yandex_codeforces_analyz.Prelude.Int.{ℤ}

-- what `float(text)` comes to: a `ValueError`, NaN, or a number
pub data Reading (F : Type 0) : Type 0 where
  no_float nan : Reading F
  number : F → Reading F

pub record Floats : Type 1 where
  pub Float : Type 0
  pub fzero : Float
  pub fone : Float
  pub fadd : Float → Float → Float
  pub fmul : Float → Float → Float
  -- `a <= b`; on these values `a < b` is its failure the other way round
  pub fle : Float → Float → Bool
  -- `round(x, 6)`
  pub round6 : Float → Float
  -- `float(n)` and `int(x)`, for numbers that are not negative
  pub of_int : ℕ → Float
  pub trunc : Float → ℕ
  -- `round(x)` of a finite number
  pub round_int : Float → ℤ
  -- `float(text)`
  pub parse_float : String → Reading Float

module _ (fl : Floats) where
  open fl use {Float, fzero, fone, fadd, fmul, fle, round6}

  -- What IEEE 754 and Python promise of them: `<=` is a total order, rounding is monotone, so sums
  -- and products of non-negative numbers are monotone, and 0 and 1 are exact.
  pub record IsLawful : Type 0 where
    pub fle_total : (a b : Float) → (fle a b ≡ true) ⊎ (fle b a ≡ true)
    pub fle_trans : (a b c : Float) → fle a b ≡ true → fle b c ≡ true → fle a c ≡ true
    pub fle_antisymm : (a b : Float) → fle a b ≡ true → fle b a ≡ true → a ≡ b
    pub fzero-le-one : fle fzero fone ≡ true
    pub fadd_mono :
        (a b c d : Float) → fle a b ≡ true → fle c d ≡ true → fle (fadd a c) (fadd b d) ≡ true
    pub fadd-fzero : (a : Float) → fadd a fzero ≡ a
    pub fmul_mono :
        (a b c d : Float)
        → fle fzero a ≡ true
        → fle a b ≡ true
        → fle fzero c ≡ true
        → fle c d ≡ true
        → fle (fmul a c) (fmul b d) ≡ true
    pub fmul-fone : (a : Float) → fmul a fone ≡ a
    pub fmul-fzero : (a : Float) → fle fzero a ≡ true → fmul a fzero ≡ fzero
    pub round6_mono : (a b : Float) → fle a b ≡ true → fle (round6 a) (round6 b) ≡ true
    pub round6-fzero : round6 fzero ≡ fzero
