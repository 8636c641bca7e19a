-- ===== src/Tests/Runbook.antt =====
-- The runbook and the Slack message of a concrete incident, with a provider whose answers are a list.
use distrosense.Base.{
  ◌≡◌, refl, String, Bool, true, false, List, [], ◌∷◌, some, none, ok, raised, Result, Option,
  value,
}
use distrosense.Orchestrator.Incident.{Incident}
use distrosense.Orchestrator.Runbook.{
  call_gemini, Libraries, RunbookSuggester, gemini, new_suggester, posted, generate, build_prompt,
  post_incident,
}
use distrosense.Orchestrator.Runbook.Answers.{Answers, generate-Answers}

abbrev slow : Incident
slow = record {
  incident_id = value "inc-0001";
  root_cause_service = value "svc-payment";
  causality_method = value "granger";
  member_service_ids = value ("svc-payment" ∷ "svc-order" ∷ []);
  severity = value 3;
  anomaly_types = value ("LATENCY_BURST" ∷ []);
  closed_at = value 1000000;
}

-- whether each of the next calls answers
abbrev next : List Bool → List Bool × Result (Option String)
next [] = ([], raised)
next (true ∷ w) = (w, ok (some "1. Restart it."))
next (false ∷ w) = (w, raised)

abbrev scripted : Libraries
scripted = record {
  W = List Bool;
  generate_content = λ w prompt. next w;
  post = λ w prompt. (w, raised);
  sleep = λ w seconds. w;
  chat_post_message = λ w text. (w, posted);
  strip = λ text. text;
  first_8 = λ text. text;
  str = λ n. "n";
}

abbrev suggester : RunbookSuggester
suggester = record { provider = gemini; configured = true }

suggester_configured : new_suggester "key" gemini ≡ suggester
unfolding new_suggester
suggester_configured = refl

second_call_answers :
    generate scripted suggester (false ∷ true ∷ []) slow [] ≡ ([], ok "1. Restart it.")
unfolding generate call_gemini
second_call_answers = refl

no_third_call :
    generate scripted suggester (false ∷ false ∷ true ∷ []) slow []
    ≡ (true ∷ [], ok "(Runbook generation failed — see logs)")
unfolding generate call_gemini
no_third_call = refl

not_posted : post_incident scripted false [] slow none ≡ ([], ok false)
unfolding post_incident
not_posted = refl

generate-Answers_example :
    (prompt : String) × (build_prompt scripted slow ("svc-order" ∷ []) ≡ ok prompt)
    × Answers scripted suggester
        (false ∷ true ∷ [])
        prompt
        (generate scripted suggester (false ∷ true ∷ []) slow ("svc-order" ∷ []))
generate-Answers_example =
    generate-Answers scripted suggester (false ∷ true ∷ []) slow ("svc-order" ∷ []) (record {
      root_cause = some "svc-payment";
      method = some "granger";
      types = "LATENCY_BURST" ∷ [];
      members = "svc-payment" ∷ "svc-order" ∷ [];
      root_cause_is = refl;
      method_is = refl;
      types_is = refl;
      members_is = refl;
    })
