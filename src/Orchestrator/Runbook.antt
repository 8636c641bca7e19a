-- ===== src/Orchestrator/Runbook.antt =====
-- orchestrator/integrations/llm_runbook.py and slack_client.py. The libraries of the providers and of
-- Slack are parameters over one state `W`: each call leaves a state, and a value or an exception.
-- Printing is left out.
pub mod Answers
use distrosense.Base.{
  ℕ, Bool, true, false, not, ◌&&◌, ◌||◌, ◌==◌, string_eq, Option, none, some, List, [], ◌∷◌, length,
  Result, ok, raised, ◌>>=◌, ltb, if◌then◌else◌, Field, missing, null, value,
}
use distrosense.Orchestrator.Incident.{Incident, require, require_key, get_default}
use Prim.Native.String.{String, ◌++◌}

-- What `_call_xai` reads of a response: r.ok, and the content of the first choice, which the body
-- may lack.
pub record Response : Type 0 where
  pub is_ok : Bool
  pub content : Result String

-- what comes of a message to Slack
pub data Posted : Type 0 where
  posted slack_api_error other_error : Posted

-- `generate_content` is the call of google-genai, with response.text, which may be None; `post` is
-- requests.post; `chat_post_message` is that of slack_sdk.
pub record Libraries : Type 1 where
  pub W : Type 0
  pub generate_content : W → String → W × Result (Option String)
  pub post : W → String → W × Result Response
  pub sleep : W → ℕ → W
  pub chat_post_message : W → String → W × Posted
  pub strip : String → String
  pub first_8 : String → String
  pub str : ℕ → String

abbrev pub llm_attempts : ℕ
llm_attempts = 2

abbrev pub llm_retry_delay_seconds : ℕ
llm_retry_delay_seconds = 2

-- range(1, LLM_ATTEMPTS + 1)
abbrev pub attempts : List ℕ
attempts = 1 ∷ 2 ∷ []

pub data Provider : Type 0 where
  gemini xai other_provider : Provider

abbrev pub is_supported : Provider → Bool
is_supported other_provider = false
is_supported provider = true

pub record RunbookSuggester : Type 0 where
  pub provider : Provider
  pub configured : Bool

-- `__init__` on LLM_API_KEY and LLM_PROVIDER
unfoldable pub new_suggester : String → Provider → RunbookSuggester
new_suggester key provider = record {
  provider = provider;
  configured = not (key == "" || key == "your-key-here") && is_supported provider;
}

abbrev pub not_configured : String
not_configured = "(LLM runbook suggester not configured — set LLM_API_KEY)"

abbrev pub generation_failed : String
generation_failed = "(Runbook generation failed — see logs)"

-- sep.join(xs)
abbrev pub join : String → List String → String
join sep [] = ""
join sep (x ∷ []) = x
join sep (x ∷ y ∷ xs) = x ++ sep ++ join sep (y ∷ xs)

-- a value in an f-string
abbrev pub formatted : Option String → String
formatted none = "None"
formatted (some text) = text

module _ (l : Libraries) where
  open l use {W, generate_content, post, sleep, chat_post_message, strip, first_8, str}

  -- the lines for a runbook: an empty one has none
  abbrev pub suggested : Option String → List String
  suggested none = []
  suggested (some text) = if text == "" then [] else ("\n*Suggested runbook:*\n" ++ text) ∷ []

  -- d.get(k, default) in an f-string
  abbrev pub formatted_or : Field ℕ → String → String
  formatted_or missing default = default
  formatted_or null default = "None"
  formatted_or (value n) default = str n

  abbrev pub connected : List String → String
  connected [] = ""
  connected (x ∷ xs) =
      "\nServices directly connected to the root cause in the dependency graph: "
      ++ join ", " (x ∷ xs)
      ++ "\n"

  unfoldable pub build_prompt : Incident → List String → Result String
  build_prompt i related_services = do
    root_cause ← require_key i.root_cause_service
    method ← require_key i.causality_method
    types ← get_default i.anomaly_types []
    members ← require i.member_service_ids
    ok (
        "You are an SRE on-call assistant. A monitoring system detected the "
        ++ "following incident in a microservices platform. Write a short, "
        ++ "actionable runbook (3-5 numbered steps) for the on-call engineer to "
        ++ "investigate and mitigate it.\n\n"
        ++ "Root cause service: "
        ++ formatted root_cause
        ++ "\n"
        ++ "Root cause method: "
        ++ formatted method
        ++ "\n"
        ++ "Severity: "
        ++ formatted_or i.severity "unknown"
        ++ "/5\n"
        ++ "Anomaly types observed: "
        ++ join ", " types
        ++ "\n"
        ++ "Affected services ("
        ++ str (length members)
        ++ "): "
        ++ join ", " members
        ++ "\n"
        ++ connected related_services)

  -- response.text.strip()
  abbrev pub stripped : Option String → Result String
  stripped none = raised
  stripped (some text) = ok (strip text)

  abbrev pub content_of : Response → Result String
  content_of r = if r.is_ok then (r.content >>= λ text. ok (strip text)) else raised

  unfoldable pub call_gemini : W → String → W × Result String
  call_gemini w prompt = let (w', r) = generate_content w prompt in (w', r >>= stripped)

  unfoldable pub call_xai : W → String → W × Result String
  call_xai w prompt = let (w', r) = post w prompt in (w', r >>= content_of)

  abbrev pub call : Provider → W → String → W × Result String
  call xai w prompt = call_xai w prompt
  call provider w prompt = call_gemini w prompt

  -- the end of the handler
  abbrev pub pause : ℕ → W → W
  pause attempt w = if ltb attempt llm_attempts then sleep w llm_retry_delay_seconds else w

  -- the loop over the attempts
  unfoldable pub try_calls : Provider → String → List ℕ → W → W × String
  try_calls provider prompt [] w = (w, generation_failed)
  try_calls provider prompt (attempt ∷ rest) w =
      let (w', r) = call provider w prompt in
      elim r [ ok text ↦ (w', text) | raised ↦ try_calls provider prompt rest (pause attempt w') ]

  abbrev pub ask : Provider → W → Result String → W × Result String
  ask provider w raised = (w, raised)
  ask provider w (ok prompt) =
      let (w', text) = try_calls provider prompt attempts w in (w', ok text)

  unfoldable pub generate : RunbookSuggester → W → Incident → List String → W × Result String
  unfolding build_prompt try_calls
  generate g w i related_services =
      if g.configured
      then ask g.provider w (build_prompt i related_services)
      else (w, ok not_configured)

  -- `_format_message`
  unfoldable pub format_message : Incident → Option String → Result String
  format_message i runbook = do
    id ← require i.incident_id
    root_cause ← require_key i.root_cause_service
    method ← require_key i.causality_method
    members ← require i.member_service_ids
    types ← get_default i.anomaly_types []
    ok (
        join "\n" (
          ("*Incident " ++ first_8 id ++ "* — severity " ++ formatted_or i.severity "?")
          ∷ ("Root cause: `" ++ formatted root_cause ++ "` (method: " ++ formatted method ++ ")")
          ∷ ("Affected services (" ++ str (length members) ++ "): " ++ join ", " members)
          ∷ ("Anomaly types: " ++ join ", " types)
          ∷ suggested runbook))

  -- the end of the handler of SlackApiError
  abbrev pub answer_of : W × Posted → W × Result Bool
  answer_of (w, posted) = (w, ok true)
  answer_of (w, slack_api_error) = (w, ok false)
  answer_of (w, other_error) = (w, raised)

  abbrev pub deliver : Bool → W → Result String → W × Result Bool
  deliver has_client w raised = (w, raised)
  deliver false w (ok text) = (w, ok false)
  deliver true w (ok text) = answer_of (chat_post_message w text)

  unfoldable pub post_incident : Bool → W → Incident → Option String → W × Result Bool
  unfolding format_message
  post_incident has_client w i runbook = deliver has_client w (format_message i runbook)
