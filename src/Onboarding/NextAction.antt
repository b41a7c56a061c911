-- ===== src/Onboarding/NextAction.antt =====
-- services/onboarding/src/engine.ts and server.ts: what a session asks for next, and the route that
-- opens one. The field `required_fields` is always empty. `id` is the identifier that randomUUID gives.
use canton_pillar.Base.{
  ◌≡◌, refl, ap, ◌∙◌, ℕ, ◌&&◌, Option, none, some, List, [], ◌∷◌, ◌++◌, Text, codes, text_eq, ok,
  if◌then◌else◌, or_else, arith,
}
use canton_pillar.Onboarding.{
  Step, organization, kyb, sandbox, api_key, webhook, first_transfer, Status, OnboardingSession,
  check_step, create_onboarding_session,
}

pub data ActionType : Type 0 where
  done wait collect_input : ActionType

pub record NextAction : Type 0 where
  pub type : ActionType
  pub step : Step
  pub label : Text
  pub retry_after_seconds : Option ℕ

abbrev pub step_text : Step → Text
step_text organization = codes "organization"
step_text kyb = codes "kyb"
step_text sandbox = codes "sandbox"
step_text api_key = codes "api_key"
step_text webhook = codes "webhook"
step_text first_transfer = codes "first_transfer"
step_text Step.completed = codes "completed"

-- `s.current_step ?? 'organization'`.
abbrev pub step_of : OnboardingSession → Step
step_of s = or_else s.current_step organization

abbrev collect : Step → NextAction
collect step = record {
  type = collect_input;
  step = step;
  label = codes "Complete " ++ step_text step;
  retry_after_seconds = none;
}

abbrev action_for : Status → Step → NextAction
action_for Status.completed step = record {
  type = done;
  step = Step.completed;
  label = codes "Onboarding complete";
  retry_after_seconds = none;
}
action_for Status.pending_review step = record {
  type = wait;
  step = step;
  label = codes "Review is pending";
  retry_after_seconds = some 30;
}
action_for Status.created step = collect step
action_for Status.in_progress step = collect step
action_for Status.requires_action step = collect step
action_for Status.failed step = collect step
action_for Status.canceled step = collect step

unfoldable pub next_action : OnboardingSession → NextAction
next_action s = action_for s.status (step_of s)

check_step_self : (o : Option Step) → check_step o (or_else o organization) ≡ ok tt
check_step_self none = refl
check_step_self (some current) = ground arith

action_for-step :
    (status : Status) (step : Step)
    → (action_for status step).type ≡ collect_input
    → (action_for status step).step ≡ step
action_for-step status step h = ground arith

-- The step that a session asks for is the one that `advance_session` takes.
pub next_action-check_step :
    (s : OnboardingSession)
    → (next_action s).type ≡ collect_input
    → check_step s.current_step (next_action s).step ≡ ok tt
unfolding next_action
next_action-check_step s h =
    ap (check_step s.current_step) (action_for-step s.status (step_of s) h)
    ∙ check_step_self s.current_step

pub data Reply : Type 0 where
  health : Reply
  opened : OnboardingSession → NextAction → Reply
  not_found : Reply

-- The routes of the server, with the sessions that it keeps.
unfoldable pub serve :
    ℕ → Text → (method url : Text) → List OnboardingSession → List OnboardingSession × Reply
unfolding next_action create_onboarding_session
serve now id method url sessions =
    if text_eq url (codes "/health")
    then (sessions, health)
    else if text_eq method (codes "POST") && text_eq url (codes "/sessions")
    then (let s = create_onboarding_session now id "tnt_demo" "env_test" in
        (sessions ++ s ∷ [], opened s (next_action s)))
    else (sessions, not_found)
