-- ===== src/Orchestrator/Runbook/Answers.antt =====
-- What `generate` of orchestrator/integrations/llm_runbook.py answers.
use distrosense.Base.{
  subst, sym, [], Bool-cases, Result-cases, ap, inl, ap, inr, Result-cases, ◌≡◌, refl, Option, List,
  true, false, ok, raised, Result,
}
use distrosense.Orchestrator.Incident.{Incident, require, require_key, get_default}
use distrosense.Orchestrator.Runbook.{
  Libraries, RunbookSuggester, generate, call, build_prompt, not_configured, generation_failed,
  try_calls, ask, llm_retry_delay_seconds,
}
use Prim.Native.String.{[], String}

-- the fields that the prompt is made of
pub record IsReadable (i : Incident) : Type 0 where
  pub root_cause : Option String
  pub method : Option String
  pub types : List String
  pub members : List String
  pub root_cause_is : require_key i.root_cause_service ≡ ok root_cause
  pub method_is : require_key i.causality_method ≡ ok method
  pub types_is : get_default i.anomaly_types [] ≡ ok types
  pub members_is : require i.member_service_ids ≡ ok members

pair_eq : {A B : Type 0} (p : A × B) {b : B} → p.1 ≡ b → p ≡ (p.0, b)
pair_eq p e = ap (λ y. (p.0, y)) e

module _ (l : Libraries) where
  open l use {W, sleep}

  -- The ways in which `generate` ends, with the calls of the provider that it makes: none, one that
  -- answers, or two with the delay between them.
  pub data Answers (g : RunbookSuggester) (w : W) (prompt : String)
      : W × Result String → Type 0 where
    unconfigured : g.configured ≡ false → Answers g w prompt (w, ok not_configured)
    at_once :
        {w1 : W} {text : String}
        → g.configured ≡ true
        → call l g.provider w prompt ≡ (w1, ok text)
        → Answers g w prompt (w1, ok text)
    at_second :
        {w1 w2 : W} {text : String}
        → g.configured ≡ true
        → call l g.provider w prompt ≡ (w1, raised)
        → call l g.provider (sleep w1 llm_retry_delay_seconds) prompt ≡ (w2, ok text)
        → Answers g w prompt (w2, ok text)
    never :
        {w1 w2 : W}
        → g.configured ≡ true
        → call l g.provider w prompt ≡ (w1, raised)
        → call l g.provider (sleep w1 llm_retry_delay_seconds) prompt ≡ (w2, raised)
        → Answers g w prompt (w2, ok generation_failed)

  asked :
      (g : RunbookSuggester) (w : W) (prompt : String)
      → g.configured ≡ true
      → Answers g w prompt (ask l g.provider w (ok prompt))
  unfolding try_calls
  asked g w prompt c =
      let first = call l g.provider w prompt in
      let second = call l g.provider (sleep first.0 llm_retry_delay_seconds) prompt in
      elim (Result-cases first.1) [
        | inr (text, e) ↦ rw (try_calls, e) (at_once c (pair_eq first e))
        | inl e ↦ elim (Result-cases second.1) [
          | inr (text, e') ↦
              rw (try_calls, e, try_calls, e') (at_second c (pair_eq first e) (pair_eq second e'))
          | inl e' ↦
              rw (try_calls, e, try_calls, e') (never c (pair_eq first e) (pair_eq second e'))
        ]
      ]

  build_prompt-ok :
      (i : Incident) (related : List String)
      → IsReadable i
      → (prompt : String) × (build_prompt l i related ≡ ok prompt)
  unfolding build_prompt
  build_prompt-ok i related p = elim (Result-cases (build_prompt l i related)) [
    | inr built ↦ built
    | inl e ↦ cc (rw (p.root_cause_is, p.method_is, p.types_is, p.members_is) at e)
  ]

  -- For an incident that has the fields of the prompt, `generate` raises nothing, whatever the
  -- provider does: without a configuration it calls nobody; otherwise it answers the text of the
  -- first call of the provider, or where that raises, of a second one after the delay, and where
  -- both raise, that the generation failed. All calls get the prompt of the incident.
  pub generate-Answers :
      (g : RunbookSuggester) (w : W) (i : Incident) (related : List String)
      → IsReadable i
      → (prompt : String) × (build_prompt l i related ≡ ok prompt)
        × Answers g w prompt (generate l g w i related)
  unfolding generate
  generate-Answers g w i related p =
      let (prompt, built) = build_prompt-ok i related p in
      (
        prompt,
        built,
        elim (Bool-cases g.configured) [
          | inr off ↦
              let skipped : generate l g w i related ≡ (w, ok not_configured) = rw off refl in
              subst (λ r. Answers g w prompt r) (sym skipped) (unconfigured off)
          | inl on ↦
              let asks : generate l g w i related ≡ ask l g.provider w (ok prompt) =
                rw (on, built) refl in
              subst (λ r. Answers g w prompt r) (sym asks) (asked g w prompt on)
        ],
      )
