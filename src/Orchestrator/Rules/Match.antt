-- ===== src/Orchestrator/Rules/Match.antt =====
-- `evaluate` returns the first rule that matches, for every rule set.
use distrosense.Base.{
  ◌≡◌, refl, ap, true, false, some, List, [], ◌∷◌, ◌++◌, ok, arith, Result-cases, All, inl, inr,
  ◌↔◌,
}
use distrosense.Orchestrator.Incident.{Incident}
use distrosense.Orchestrator.Rules.{Rule, matches, evaluate}

-- The rule stands in the list, it matches, and every rule before it was tested and does not.
pub record IsFirstMatch (rs : List Rule) (i : Incident) (rule : Rule) : Type 0 where
  pub before : List Rule
  pub after : List Rule
  pub split : rs ≡ before ++ rule ∷ after
  pub skipped : All (λ r. matches r.condition i ≡ ok false) before
  pub hit : matches rule.condition i ≡ ok true

evaluate-some :
    (rs : List Rule) (i : Incident) (rule : Rule)
    → evaluate rs i ≡ ok (some rule)
    → IsFirstMatch rs i rule
unfolding evaluate
evaluate-some [] i rule h = cc
evaluate-some (r ∷ rs) i rule h = elim (Result-cases (matches r.condition i)) [
  | inl e ↦ ground arith
  | inr (true, e) ↦ record {
    before = [];
    after = rs;
    split = ground arith;
    skipped = tt;
    hit = ground arith;
  }
  | inr (false, e) ↦
      let m = evaluate-some rs i rule (ground arith) in
      record {
        before = r ∷ m.before;
        after = m.after;
        split = ap (◌∷◌ r) m.split;
        skipped = (e, m.skipped);
        hit = m.hit;
      }
]

evaluate-skip :
    (before rs : List Rule) (i : Incident)
    → All (λ r. matches r.condition i ≡ ok false) before
    → evaluate (before ++ rs) i ≡ evaluate rs i
unfolding evaluate
evaluate-skip [] rs i h = refl
evaluate-skip (r ∷ before) rs i h = ground (arith, evaluate-skip before rs i)

evaluate-first :
    (rs : List Rule) (i : Incident) (rule : Rule)
    → IsFirstMatch rs i rule
    → evaluate rs i ≡ ok (some rule)
unfolding evaluate
evaluate-first rs i rule m =
    rw (m.split, evaluate-skip m.before (rule ∷ m.after) i m.skipped) (rw m.hit refl)

-- `evaluate` returns a rule exactly when that rule is the first of the rule set that matches: it
-- matches, and the rules before it were tested without an error and do not.
pub evaluate-IsFirstMatch :
    (rs : List Rule) (i : Incident) (rule : Rule)
    → (evaluate rs i ≡ ok (some rule)) ↔ IsFirstMatch rs i rule
evaluate-IsFirstMatch rs i rule = (evaluate-some rs i rule, evaluate-first rs i rule)
