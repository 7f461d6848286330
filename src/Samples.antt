-- ===== src/Samples.antt =====
-- A concrete instance of the floating-point interface for runs and witnesses: whole numbers, on
-- which `float` arithmetic is exact.
use yandex_codeforces_analyz.Prelude.{
  pos, number, no_float, some, parse_int, ℕ, ◌+◌, ◌*◌, ◌≤◌, ◌≡◌, refl, true, arith, leb, leb→le,
  Floats, IsLawful,
}

abbrev pub whole : Floats
whole = record {
  Float = ℕ;
  fzero = 0;
  fone = 1;
  fadd = λ a b. a + b;
  fmul = λ a b. a * b;
  fle = leb;
  round6 = λ a. a;
  of_int = λ n. n;
  trunc = λ x. x;
  round_int = λ x. pos x;
  parse_float = λ s. elim (parse_int s) [ some (pos n) ↦ number n | _ ↦ no_float ];
}

le→leb : (a b : ℕ) → a ≤ b → leb a b ≡ true
le→leb a b h = ground arith

mul_le : (a b c d : ℕ) → a ≤ b → c ≤ d → a * c ≤ b * d
mul_le a b c d h k = grind arith

pub whole_lawful : IsLawful whole
whole_lawful = record {
  fle_total = λ a b. ground arith;
  fle_trans = λ a b c h k. ground arith;
  fle_antisymm = λ a b h k. ground arith;
  fzero-le-one = refl;
  fadd_mono = λ a b c d h k. ground arith;
  fadd-fzero = λ a. omega arith;
  fmul_mono = λ a b c d _ h _ k. le→leb _ _ (mul_le a b c d (leb→le _ _ h) (leb→le _ _ k));
  fmul-fone = λ a. omega arith;
  fmul-fzero = λ a h. omega arith;
  round6_mono = λ a b h. h;
  round6-fzero = refl;
}
