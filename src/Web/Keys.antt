-- ===== src/Web/Keys.antt =====
-- apps/web/src/app/get-api-keys/GetApiKeysPageClient.tsx: the wizard with four steps, its state and
-- what a user can do. The page shows a control only under the conditions of `field_shown` and
-- `button_shown`; what is not shown, or is disabled, cannot be used.
pub mod Flow
pub mod Sections
use canton_pillar.Base.{
  ◌≡◌, refl, ℕ, zero, suc, ◌+◌, ◌-◌, Bool, true, false, ◌&&◌, ◌||◌, not, List, [], ◌∷◌, map, Text,
  String, codes, ltb, ◌==◌, any, text_eq, if◌then◌else◌,
}
use canton_pillar.Idempotency.Decimal.{trim}
use canton_pillar.Web.Email.{email_regex}
use canton_pillar.Web.Generate.{MockApiKey, Draws, create_mock_keys}

pub data DeploymentMode : Type 0 where
  hosted customer_validator self_hosted : DeploymentMode

-- The messages beside the fields; an empty one is not shown.
pub record Errors : Type 0 where
  pub workspace_name : Text
  pub email : Text
  pub country : Text

-- The state of the component, one field for each `useState`.
pub record Form : Type 0 where
  pub step : ℕ
  pub workspace_name : Text
  pub primary_business_email : Text
  pub country : Text
  pub deployment_mode : DeploymentMode
  pub errors : Errors
  pub api_keys : List MockApiKey

abbrev pub blank : Form
blank = record {
  step = 1;
  workspace_name = [];
  primary_business_email = [];
  country = [];
  deployment_mode = DeploymentMode.hosted;
  errors = record { workspace_name = []; email = []; country = [] };
  api_keys = [];
}

abbrev pub countries : List Text
countries = map codes ("US" ∷ "KR" ∷ "GB" ∷ "JP" ∷ "EU" ∷ "SG" ∷ "AU" ∷ [])

-- A text is truthy unless it is empty.
abbrev pub truthy : Text → Bool
truthy [] = false
truthy (c ∷ s) = true

unfoldable pub messages : Form → Errors
messages form = record {
  workspace_name =
      if truthy (trim form.workspace_name) then [] else codes "Workspace name is required.";
  email =
      if email_regex form.primary_business_email then [] else codes "Enter a valid business email.";
  country = if truthy form.country then [] else codes "Select a country.";
}

-- The result, with the state that `setErrors` leaves.
unfoldable pub validate_step_one : Form → Bool × Form
unfolding messages
validate_step_one form =
    let next = messages form in
    (
      not (truthy next.workspace_name || truthy next.email || truthy next.country),
      record form { errors = next },
    )

abbrev pub advanced : Bool × Form → Form
advanced (false, form) = form
advanced (true, form) = record form { step = 2 }

unfoldable pub handle_next : Draws → Form → Form
unfolding validate_step_one
handle_next draws form =
    if form.step == 1
    then advanced (validate_step_one form)
    else if form.step == 2
    then record form { step = 3 }
    else if form.step == 3
    then record form { api_keys = create_mock_keys draws; step = 4 }
    else form

unfoldable pub handle_back : Form → Form
handle_back form = if ltb 1 form.step then record form { step = form.step - 1 } else form

-- `Boolean(deploymentMode)` is true of each mode.
unfoldable pub can_continue : Form → Bool
can_continue form =
    if form.step == 1
    then truthy (trim form.workspace_name)
      && email_regex form.primary_business_email
      && truthy form.country
    else true

pub data Event : Type 0 where
  type_workspace_name type_email select_country : Text → Event
  choose_mode : DeploymentMode → Event
  click_next : Draws → Event
  click_back : Event

-- The inputs of the section of a step; the list of countries has an empty choice.
unfoldable pub field_shown : Event → Form → Bool
field_shown (type_workspace_name s) form = form.step == 1
field_shown (type_email s) form = form.step == 1
field_shown (select_country s) form =
    (form.step == 1) && (text_eq s [] || any (text_eq s) countries)
field_shown (choose_mode mode) form = form.step == 2
field_shown (click_next draws) form = false
field_shown click_back form = false

-- The buttons below: `Next` while it is enabled, or `Create keys`, and `Back`.
unfoldable pub button_shown : Event → Form → Bool
unfolding can_continue
button_shown (click_next draws) form = (ltb form.step 3 && can_continue form) || (form.step == 3)
button_shown click_back form = ltb 1 form.step
button_shown event form = false

unfoldable pub handler : Event → Form → Form
unfolding handle_next handle_back
handler (type_workspace_name s) form = record form { workspace_name = s }
handler (type_email s) form = record form { primary_business_email = s }
handler (select_country s) form = record form { country = s }
handler (choose_mode mode) form = record form { deployment_mode = mode }
handler (click_next draws) form = handle_next draws form
handler click_back form = handle_back form

-- A use of a control: nothing happens where it is not shown.
unfoldable pub act : Event → Form → Form
unfolding field_shown button_shown handler
act event form =
    if field_shown event form || button_shown event form then handler event form else form

unfoldable pub act_all : List Event → Form → Form
act_all [] form = form
act_all (event ∷ events) form = act_all events (act event form)
