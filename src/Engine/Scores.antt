-- ===== src/Engine/Scores.antt =====
-- The score of backend/judge/app/engine/scoring.py grows with the results.
use yandex_codeforces_analyz.Prelude.{
  ℕ, String, ◌≡◌, refl, inl, inr, true, Option, List, [], ◌∷◌, ◌++◌, map, foldl, arith,
  if◌then◌else◌, Bool-cases, Option-cases, all_of, Every, str_eq, Floats, IsLawful, get_key,
}
use yandex_codeforces_analyz.Engine.Scoring.{
  TestCase, TestResult, index_results, passed, ratio_of, least, add_member, score_single,
  outcomes_of, group_pays, score_groups, score_tests,
}
use yandex_codeforces_analyz.Engine.Amounts.{
  NotNegative, Below, fle_refl, fadd_above, fmul-NotNegative, sum-NotNegative, least-NotNegative,
  least_mono,
}

module _ (Bytes : Type 0) (fl : Floats) (law : IsLawful fl) where
  open fl use {Float, fzero, fadd, fmul, fle}
  open law use {fle_trans, fadd_mono, fmul_mono, round6_mono}

  abbrev Case : Type 0
  Case = TestCase Bytes Float

  -- the second result is at least as good as the first one
  pub record Dominated (o p : Option (TestResult Float)) : Type 0 where
    pub passes : passed fl o ≡ true → passed fl p ≡ true
    pub pays : passed fl o ≡ true → fle (ratio_of fl o) (ratio_of fl p) ≡ true
    pub from_zero : NotNegative fl law (ratio_of fl o)
    pub from_zero' : NotNegative fl law (ratio_of fl p)

  abbrev pub Payable : Case → Type 0
  Payable t = NotNegative fl law t.points

  points-NotNegative :
      (members : List Case)
      → Every Payable members
      → Every (NotNegative fl law) (map (λ m. m.points) members)
  points-NotNegative [] all = tt
  points-NotNegative (m ∷ ms) all = (all.0, points-NotNegative ms all.1)

  -- the score before it is rounded, from the first loop on
  abbrev pub unrounded : List (ℕ × TestResult Float) → Float × List (String × List Case) → Float
  unrounded by_index (total, grouped) = score_groups Bytes fl by_index grouped total

  module _ (m n : List (ℕ × TestResult Float))
      (dom : (i : ℕ) → Dominated (get_key i m) (get_key i n)) where
    ratios-Below :
        (members : List Case)
        → all_of (passed fl) (outcomes_of Bytes fl m members) ≡ true
        → Below fl law
            (map (ratio_of fl) (outcomes_of Bytes fl m members))
            (map (ratio_of fl) (outcomes_of Bytes fl n members))
    ratios-Below [] h = tt
    ratios-Below (t ∷ ts) h = ((dom t.index).pays (ground arith), ratios-Below ts (ground arith))

    all_pass :
        (members : List Case)
        → all_of (passed fl) (outcomes_of Bytes fl m members) ≡ true
        → all_of (passed fl) (outcomes_of Bytes fl n members) ≡ true
    all_pass [] h = refl
    all_pass (t ∷ ts) h = ground (arith, (dom t.index).passes, all_pass ts)

    ratios-NotNegative :
        (members : List Case)
        → Every (NotNegative fl law) (map (ratio_of fl) (outcomes_of Bytes fl n members))
    ratios-NotNegative [] = tt
    ratios-NotNegative (t ∷ ts) = ((dom t.index).from_zero', ratios-NotNegative ts)

    ratios-NotNegative' :
        (members : List Case)
        → Every (NotNegative fl law) (map (ratio_of fl) (outcomes_of Bytes fl m members))
    ratios-NotNegative' [] = tt
    ratios-NotNegative' (t ∷ ts) = ((dom t.index).from_zero, ratios-NotNegative' ts)

    group_pays_mono :
        (members : List Case) (a b : Float)
        → Every Payable members
        → fle a b ≡ true
        → fle (group_pays Bytes fl m members a) (group_pays Bytes fl n members b) ≡ true
    unfolding group_pays
    group_pays_mono [] a b pay h = h
    group_pays_mono (t ∷ ts) a b pay h =
        let points = foldl fadd fzero (map (λ m. m.points) (t ∷ ts)) in
        let rm =
          least fl (ratio_of fl (get_key t.index m))
            (map (ratio_of fl) (outcomes_of Bytes fl m ts)) in
        let rn =
          least fl (ratio_of fl (get_key t.index n))
            (map (ratio_of fl) (outcomes_of Bytes fl n ts)) in
        let points0 : NotNegative fl law points =
          sum-NotNegative fl law fzero (map (λ m. m.points) (t ∷ ts)) (fle_refl fl law fzero)
            (points-NotNegative (t ∷ ts) pay) in
        let rm0 : NotNegative fl law rm =
          least-NotNegative fl law _ _ (dom t.index).from_zero (ratios-NotNegative' ts) in
        let rn0 : NotNegative fl law rn =
          least-NotNegative fl law _ _ (dom t.index).from_zero' (ratios-NotNegative ts) in
        elim (Bool-cases (all_of (passed fl) (outcomes_of Bytes fl m (t ∷ ts)))) [
          | inl s ↦
              let below = ratios-Below (t ∷ ts) s in
              rw (s, all_pass (t ∷ ts) s)
                (fadd_mono a b _ _ h (
                  fmul_mono points points rm rn points0 (fle_refl fl law points) rm0
                    (least_mono fl law _ _ _ _ below.0 below.1)))
          | inr f ↦ elim (Bool-cases (all_of (passed fl) (outcomes_of Bytes fl n (t ∷ ts)))) [
            | inl s ↦
                rw (f, s)
                  (fle_trans a b _ h (
                    fadd_above fl law b (fmul points rn)
                      (fmul-NotNegative fl law points rn points0 rn0)))
            | inr g ↦ rw (f, g) h
          ]
        ]

    abbrev AllPayable : List (String × List Case) → Type 0
    AllPayable [] = Unit
    AllPayable ((g, members) ∷ rest) = Every Payable members × AllPayable rest

    score_groups_mono :
        (grouped : List (String × List Case)) (a b : Float)
        → AllPayable grouped
        → fle a b ≡ true
        → fle (score_groups Bytes fl m grouped a) (score_groups Bytes fl n grouped b) ≡ true
    unfolding score_groups
    score_groups_mono [] a b pay h = h
    score_groups_mono ((g, members) ∷ rest) a b pay h =
        score_groups_mono rest (group_pays Bytes fl m members a) (group_pays Bytes fl n members b)
          pay.1 (group_pays_mono members a b pay.0 h)

    Every-append :
        (members : List Case) (t : Case)
        → Every Payable members
        → Payable t
        → Every Payable (members ++ (t ∷ []))
    Every-append [] t all h = (h, tt)
    Every-append (u ∷ us) t all h = (all.0, Every-append us t all.1 h)

    add_member-AllPayable :
        (g : String) (t : Case) (grouped : List (String × List Case))
        → Payable t
        → AllPayable grouped
        → AllPayable (add_member Bytes fl g t grouped)
    unfolding add_member
    add_member-AllPayable g t [] h all = ((h, tt), tt)
    add_member-AllPayable g t ((k, members) ∷ rest) h all = elim (Bool-cases (str_eq k g)) [
      | inl e ↦ rw e (Every-append members t all.0 h, all.1)
      | inr f ↦ rw f (all.0, add_member-AllPayable g t rest h all.1)
    ]

    single_mono :
        (t : Case) (a b : Float)
        → Payable t
        → fle a b ≡ true
        → fle
            (if passed fl (get_key t.index m)
              then fadd a (fmul t.points (ratio_of fl (get_key t.index m)))
              else a)
            (if passed fl (get_key t.index n)
              then fadd b (fmul t.points (ratio_of fl (get_key t.index n)))
              else b)
          ≡ true
    single_mono t a b pay h =
        let d = dom t.index in
        let rm = ratio_of fl (get_key t.index m) in
        let rn = ratio_of fl (get_key t.index n) in
        elim (Bool-cases (passed fl (get_key t.index m))) [
          | inl s ↦
              rw (s, d.passes s)
                (fadd_mono a b _ _ h (
                  fmul_mono t.points t.points rm rn pay (fle_refl fl law t.points) d.from_zero
                    (d.pays s)))
          | inr f ↦ elim (Bool-cases (passed fl (get_key t.index n))) [
            | inl s ↦
                rw (f, s)
                  (fle_trans a b _ h (
                    fadd_above fl law b (fmul t.points rn)
                      (fmul-NotNegative fl law t.points rn pay d.from_zero')))
            | inr g ↦ rw (f, g) h
          ]
        ]

    score_single_mono :
        (tests : List Case) (a b : Float) (grouped : List (String × List Case))
        → Every Payable tests
        → AllPayable grouped
        → fle a b ≡ true
        → fle
            (unrounded m (score_single Bytes fl m tests a grouped))
            (unrounded n (score_single Bytes fl n tests b grouped))
          ≡ true
    unfolding score_single
    score_single_mono [] a b grouped pay all h = score_groups_mono grouped a b all h
    score_single_mono (t ∷ ts) a b grouped pay all h = elim (Option-cases t.group) [
      | inl none_here ↦
          simp none_here (score_single_mono ts _ _ grouped pay.1 all (single_mono t a b pay.0 h))
      | inr (g, here) ↦ simp here (
          score_single_mono ts a b (add_member Bytes fl g t grouped) pay.1
            (add_member-AllPayable g t grouped pay.0 all) h)
    ]

  -- Better results never lower the score: if each test passes in the second results wherever it
  -- passes in the first, with a ratio that is no smaller, then the second score is at least the
  -- first one. Points and ratios are not negative.
  pub score_tests_mono :
      (tests : List Case) (results results' : List (TestResult Float))
      → Every Payable tests
      → ((i : ℕ)
          → Dominated
              (get_key i (index_results [] results))
              (get_key i (index_results [] results')))
      → fle (score_tests Bytes fl tests results) (score_tests Bytes fl tests results') ≡ true
  unfolding score_tests
  score_tests_mono tests results results' pay dom = round6_mono _ _ (
      score_single_mono (index_results [] results) (index_results [] results') dom tests fzero fzero
        [] pay tt (fle_refl fl law fzero))
