-- ===== src/Onboarding.antt =====
-- services/onboarding: the step engine src/engine.ts with the handlers under src/steps, and the
-- creation of a session in src/server.ts. Values of no fixed type are JSON; the clock is an argument.
pub mod Progress
pub mod NextAction
mod Tests
use canton_pillar.Base.{
  ◌≡◌, refl, ℕ, Bool, true, false, ◌&&◌, ◌||◌, not, Option, none, some, List, [], ◌∷◌, ◌++◌, Text,
  String, Result, ok, err, ◌>>=◌, if◌then◌else◌, codes, text_eq, ◌==◌,
}
use canton_pillar.Idempotency.Canonical.{
  Json, null, bool, num, str, arr, obj, Fields, end, field, Entry, entries, fields,
}
use canton_pillar.Idempotency.Canonical.Objects.{define, spread, value_of}

pub data Step : Type 0 where
  organization kyb sandbox api_key webhook first_transfer completed : Step

pub data Status : Type 0 where
  created in_progress requires_action pending_review completed failed canceled : Status

pub record OnboardingSession : Type 0 where
  pub id : Text
  pub tenant_id : String
  pub environment_id : String
  pub status : Status
  pub current_step : Option Step
  pub step_state : List Entry
  pub kyb_decision_id : Option Json
  pub evidence_file_ids : List Text
  pub first_api_key_id : Option Json
  pub first_transfer_intent_id : Option Json
  pub completion_event_id : Option Json
  pub created_at : ℕ
  pub updated_at : ℕ
  pub completed_at : Option ℕ

pub data OnboardingEvent : Type 0 where
  onboarding_requires_action onboarding_completed : OnboardingEvent

abbrev pub truthy : Option Json → Bool
truthy none = false
truthy (some null) = false
truthy (some (bool b)) = b
truthy (some (num n)) = not (text_eq n (codes "0"))
truthy (some (str s)) = not (text_eq s [])
truthy (some (arr xs)) = true
truthy (some (obj fs)) = true

-- `a ?? b`.
abbrev pub nullish : Option Json → Option Json → Option Json
nullish none b = b
nullish (some null) b = b
nullish (some (bool x)) b = some (bool x)
nullish (some (num x)) b = some (num x)
nullish (some (str x)) b = some (str x)
nullish (some (arr x)) b = some (arr x)
nullish (some (obj x)) b = some (obj x)

abbrev pub is_text : Text → Option Json → Bool
is_text s none = false
is_text s (some null) = false
is_text s (some (bool x)) = false
is_text s (some (num x)) = false
is_text s (some (str x)) = text_eq x s
is_text s (some (arr x)) = false
is_text s (some (obj x)) = false

abbrev pub Input : Type 0
Input = List Entry

abbrev pub text_value : String → Option Json
text_value s = some (str (codes s))

-- `{...s.step_state, key: value}`, for an object of one property.
abbrev pub note : String → String → Json → List Entry → List Entry
note key name value state = define (codes key) (obj (field (codes name) value end)) state

abbrev pub approved : Json
approved = str (codes "approved")

unfoldable pub organization_step : OnboardingSession → Input → OnboardingSession
organization_step s input = record s {
  status = in_progress;
  current_step = some kyb;
  step_state = define (codes "organization") (obj (fields input)) s.step_state;
}

abbrev pub kyb_decision : Bool → Bool → OnboardingSession → Input → OnboardingSession
kyb_decision true yes' s input = record s {
  status = pending_review;
  current_step = some kyb;
  step_state = note "kyb" "reason" (str (codes "adapter_unavailable")) s.step_state;
}
kyb_decision false true s input = record s {
  status = in_progress;
  current_step = some sandbox;
  kyb_decision_id = nullish (value_of (codes "decision_id") input) (text_value "kyb_approved");
  step_state = note "kyb" "decision" approved s.step_state;
}
kyb_decision false false s input = record s {
  status = requires_action;
  current_step = some kyb;
  step_state = note "kyb" "decision" (str (codes "requires_action")) s.step_state;
}

unfoldable pub kyb_step : OnboardingSession → Input → OnboardingSession
kyb_step s input =
    kyb_decision (truthy (value_of (codes "outage") input))
      (truthy (value_of (codes "approved") input)
        || is_text (codes "approved") (value_of (codes "decision") input))
      s input

unfoldable pub sandbox_step : OnboardingSession → Input → OnboardingSession
sandbox_step s input = record s {
  status = in_progress;
  current_step = some api_key;
  step_state =
      define (codes "sandbox") (obj (fields (spread ((codes "provisioned", bool true) ∷ []) input)))
        s.step_state;
}

unfoldable pub api_key_step : OnboardingSession → Input → OnboardingSession
api_key_step s input = record s {
  status = in_progress;
  current_step = some webhook;
  first_api_key_id =
      nullish (value_of (codes "key_id") input)
        (nullish s.first_api_key_id (text_value "key_onboarding"));
  step_state = note "api_key" "created" (bool true) s.step_state;
}

unfoldable pub webhook_step : OnboardingSession → Input → OnboardingSession
webhook_step s input = record s {
  status = in_progress;
  current_step = some first_transfer;
  step_state =
      define (codes "webhook") (obj (fields (spread ((codes "configured", bool true) ∷ []) input)))
        s.step_state;
}

abbrev pub transfer_projected : ℕ → Bool → OnboardingSession → Input → OnboardingSession
transfer_projected now false s input = record s {
  status = in_progress;
  current_step = some first_transfer;
  first_transfer_intent_id =
      nullish (value_of (codes "transfer_intent_id") input)
        (nullish s.first_transfer_intent_id (text_value "trint_onboarding"));
  step_state = note "first_transfer" "projected" (bool false) s.step_state;
}
transfer_projected now true s input = record s {
  status = completed;
  current_step = some completed;
  first_transfer_intent_id =
      nullish (value_of (codes "transfer_intent_id") input)
        (nullish s.first_transfer_intent_id (text_value "trint_onboarding"));
  completion_event_id =
      nullish (value_of (codes "event_id") input) (text_value "evt_onboarding_completed");
  completed_at = some now;
  step_state = note "first_transfer" "projected" (bool true) s.step_state;
}

unfoldable pub first_transfer_step : ℕ → OnboardingSession → Input → OnboardingSession
first_transfer_step now s input =
    transfer_projected now (truthy (value_of (codes "projected") input)) s input

pub data AdvanceError : Type 0 where
  expected_step : Step → AdvanceError
  unsupported_step : Step → AdvanceError

abbrev pub rank : Step → ℕ
rank organization = 0
rank kyb = 1
rank sandbox = 2
rank api_key = 3
rank webhook = 4
rank first_transfer = 5
rank completed = 6

-- `session.status === 'completed' || session.status === 'canceled'`.
abbrev pub is_terminal : Status → Bool
is_terminal completed = true
is_terminal canceled = true
is_terminal created = false
is_terminal in_progress = false
is_terminal requires_action = false
is_terminal pending_review = false
is_terminal failed = false

abbrev pub event_of : Status → Option OnboardingEvent
event_of completed = some onboarding_completed
event_of requires_action = some onboarding_requires_action
event_of pending_review = some onboarding_requires_action
event_of created = none
event_of in_progress = none
event_of failed = none
event_of canceled = none

unfoldable pub handle : ℕ → Step → OnboardingSession → Input → Result AdvanceError OnboardingSession
unfolding organization_step kyb_step sandbox_step api_key_step webhook_step first_transfer_step
handle now organization s input = ok (organization_step s input)
handle now kyb s input = ok (kyb_step s input)
handle now sandbox s input = ok (sandbox_step s input)
handle now api_key s input = ok (api_key_step s input)
handle now webhook s input = ok (webhook_step s input)
handle now first_transfer s input = ok (first_transfer_step now s input)
handle now completed s input = err (unsupported_step completed)

-- The guard on the current step.
abbrev pub check_step : Option Step → Step → Result AdvanceError (Unit {0})
check_step none step = ok tt
check_step (some current) step =
    if rank current == rank step then ok tt else err (expected_step current)

abbrev pub StepResult : Type 0
StepResult = OnboardingSession × Option OnboardingEvent

unfoldable pub advance_session :
    ℕ → Step → Input → OnboardingSession → Result AdvanceError StepResult
unfolding handle
advance_session now step input s =
    if is_terminal s.status
    then ok (s, none)
    else (check_step s.current_step step >>= λ done.
        handle now step s input >>= λ next. ok (next, event_of next.status))

unfoldable pub create_onboarding_session : ℕ → Text → String → String → OnboardingSession
create_onboarding_session now id tenant_id environment_id = record {
  id = id;
  tenant_id = tenant_id;
  environment_id = environment_id;
  status = in_progress;
  current_step = some organization;
  step_state = [];
  kyb_decision_id = none;
  evidence_file_ids = [];
  first_api_key_id = none;
  first_transfer_intent_id = none;
  completion_event_id = none;
  created_at = now;
  updated_at = now;
  completed_at = none;
}
