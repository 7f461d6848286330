-- ===== src/Plan/Lines.antt =====
-- The script lines of a plan (`expand_lines` of services/ai-authoring/authoring/pipeline/groups.py).
use yandex_codeforces_analyz.Prelude.{
  ℕ, zero, suc, ◌+◌, String, ◌≡◌, refl, sym, ap, ap₂, ◌∙◌, subst, inl, inr, List, [], ◌∷◌, ◌++◌,
  arith, Bool-cases, or_else, length, length-append, sum_by, str_is_empty,
}
use yandex_codeforces_analyz.Plan.{
  Case, GroupPlan, TestPlan, ScriptLine, planned, no_generator, test_count, generated_groups,
  command_of, lines_of, case_lines, group_lines, expand_lines, Yields, Yields-planned, Yields-fault,
  Yields-then,
}

-- the lines end with the numbers that follow `seed`, one after the other
abbrev pub Numbered : ℕ → List ScriptLine → Type 0
Numbered seed [] = Unit
Numbered seed (l ∷ ls) =
    ((args : String) × (l.command ≡ command_of l.generator args (suc seed)))
    × Numbered (suc seed) ls

Numbered-append :
    (seed : ℕ) (xs ys : List ScriptLine)
    → Numbered seed xs
    → Numbered (seed + length xs) ys
    → Numbered seed (xs ++ ys)
Numbered-append seed [] ys h k = subst (λ n. Numbered n ys) (omega arith) k
Numbered-append seed (x ∷ xs) ys h k =
    (h.0, Numbered-append (suc seed) xs ys h.1 (subst (λ n. Numbered n ys) (omega arith) k))

lines_of-Numbered :
    (name generator args : String) (n seed : ℕ)
    → Numbered seed (lines_of name generator args n seed)
      × (length (lines_of name generator args n seed) ≡ n)
unfolding lines_of
lines_of-Numbered name generator args zero seed = (tt, refl)
lines_of-Numbered name generator args (suc n) seed =
    let rest = lines_of-Numbered name generator args n (suc seed) in
    (((args, refl), rest.0), ap suc rest.1)

case_lines-Numbered :
    (name generator : String) (cs : List Case) (seed : ℕ)
    → Numbered seed (case_lines name generator cs seed)
      × (length (case_lines name generator cs seed) ≡ sum_by (λ c. c.case_count) cs)
unfolding case_lines
case_lines-Numbered name generator [] seed = (tt, refl)
case_lines-Numbered name generator (c ∷ cs) seed =
    let first = lines_of-Numbered name generator c.args c.case_count seed in
    let rest = case_lines-Numbered name generator cs (seed + c.case_count) in
    let lines = lines_of name generator c.args c.case_count seed in
    (
      Numbered-append seed lines _ first.0 (
          subst (λ n. Numbered (seed + n) (case_lines name generator cs (seed + c.case_count)))
            (sym first.1) rest.0),
      length-append lines _ ∙ ap₂ ◌+◌ first.1 rest.1,
    )

module _ {F : Type 0} where
  abbrev NumbersAll : List (GroupPlan F) → ℕ → List ScriptLine → Type 0
  NumbersAll gs seed lines = Numbered seed lines × (length lines ≡ sum_by test_count gs)

  group_lines-NumbersAll :
      (gs : List (GroupPlan F)) (seed : ℕ) → Yields (NumbersAll gs seed) (group_lines gs seed)
  unfolding group_lines test_count
  group_lines-NumbersAll [] seed = Yields-planned _ [] (tt, refl)
  group_lines-NumbersAll (g ∷ gs) seed =
      let generator = or_else g.generator "" in
      elim (Bool-cases (str_is_empty generator)) [
        | inl blank ↦ rw blank (Yields-fault _ (no_generator g.name))
        | inr named ↦
            let own = case_lines-Numbered g.name generator g.cases seed in
            rw named (
              Yields-then (NumbersAll gs (seed + test_count g)) _
                (group_lines gs (seed + test_count g)) _
                (group_lines-NumbersAll gs (seed + test_count g))
                λ lines rest. Yields-planned _ (case_lines g.name generator g.cases seed ++ lines) (
                  Numbered-append seed (case_lines g.name generator g.cases seed) lines own.0
                      (subst (λ n. Numbered (seed + n) lines) (sym own.1) rest.0),
                  length-append (case_lines g.name generator g.cases seed) lines
                      ∙ ap₂ ◌+◌ own.1 rest.1,
                ))
      ]

  -- The lines of a plan end with the numbers 1, 2, … in order, whatever their groups, and there is one
  -- for each test that the plan counts in its generated groups.
  pub expand_lines-Numbered :
      (plan : TestPlan F) (lines : List ScriptLine)
      → expand_lines plan ≡ planned lines
      → Numbered 0 lines × (length lines ≡ sum_by test_count (generated_groups plan))
  unfolding expand_lines
  expand_lines-Numbered plan lines h =
      (group_lines-NumbersAll (generated_groups plan) 0).holds lines h
