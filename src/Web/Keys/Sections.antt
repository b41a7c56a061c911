-- ===== src/Web/Keys/Sections.antt =====
-- What the page shows at a step: the texts of its sections, without their markup, and the bars.
use canton_pillar.Base.{
  ℕ, Bool, true, false, Option, none, some, List, [], ◌∷◌, ◌++◌, map, Text, String, ltb, ◌==◌, find,
  if◌then◌else◌,
}
use canton_pillar.Web.Generate.{ApiPrefix, MockApiKey}
use canton_pillar.Web.Keys.{Form, DeploymentMode, truthy}

pub record DeploymentChoice : Type 0 where
  pub value : DeploymentMode
  pub label : String
  pub subtitle : String

abbrev pub deployment_modes : List DeploymentChoice
deployment_modes =
    record {
      value = DeploymentMode.hosted;
      label = "hosted";
      subtitle = "We operate the Canton participant for you.";
    }
    ∷ record {
      value = DeploymentMode.customer_validator;
      label = "customer-validator";
      subtitle = "Bring your own validator; Pillar provides the control plane.";
    }
    ∷ record {
      value = DeploymentMode.self_hosted;
      label = "self-hosted";
      subtitle = "Pillar deploys into your cluster and data plane.";
    }
    ∷ []

abbrev pub same_mode : DeploymentMode → DeploymentMode → Bool
same_mode DeploymentMode.hosted DeploymentMode.hosted = true
same_mode DeploymentMode.customer_validator DeploymentMode.customer_validator = true
same_mode DeploymentMode.self_hosted DeploymentMode.self_hosted = true
same_mode a b = false

unfoldable pub selected_mode : Form → Option DeploymentChoice
selected_mode form = find (λ item. same_mode item.value form.deployment_mode) deployment_modes

-- The progress bar of a step: the step itself, one that is done, one to come.
pub data Bar : Type 0 where
  accent accent_dark slate : Bar

unfoldable pub bar : ℕ → Form → Bar
bar number form =
    if number == form.step then accent else if ltb number form.step then accent_dark else slate

-- An input with its message, which is shown unless it is empty.
pub record Field : Type 0 where
  pub label : String
  pub value : Text
  pub message : Option Text

abbrev pub shown_message : Text → Option Text
shown_message s = if truthy s then some s else none

pub record Card : Type 0 where
  pub name : String
  pub id : Text
  pub prefix : ApiPrefix
  pub last4 : Text
  pub scopes : List String
  pub code : Text

pub data Section : Type 0 where
  workspace : List Field → Section
  deployment : List (DeploymentChoice × Bool) → Section
  review : List (String × Text) → Option DeploymentChoice → Section
  keys_ready : List Card → Section

unfoldable pub workspace_fields : Form → List Field
workspace_fields form =
    record {
      label = "Workspace name";
      value = form.workspace_name;
      message = shown_message form.errors.workspace_name;
    }
    ∷ record {
      label = "Primary business email";
      value = form.primary_business_email;
      message = shown_message form.errors.email;
    }
    ∷ record {
      label = "Country";
      value = form.country;
      message = shown_message form.errors.country;
    }
    ∷ []

-- The modes, and which one is checked.
unfoldable pub mode_choices : Form → List (DeploymentChoice × Bool)
mode_choices form = map (λ mode. (mode, same_mode form.deployment_mode mode.value)) deployment_modes

unfoldable pub review_rows : Form → List (String × Text)
review_rows form =
    ("Workspace name", form.workspace_name)
    ∷ ("Business email", form.primary_business_email)
    ∷ ("Country", form.country)
    ∷ []

abbrev pub card : MockApiKey → Card
card key = record {
  name = key.name;
  id = key.id;
  prefix = key.prefix;
  last4 = key.last4;
  scopes = key.scopes;
  code = key.value;
}

unfoldable pub page : Form → List Section
unfolding workspace_fields mode_choices review_rows selected_mode
page form =
    (if form.step == 1 then workspace (workspace_fields form) ∷ [] else [])
    ++ (if form.step == 2 then deployment (mode_choices form) ∷ [] else [])
    ++ (if form.step == 3 then review (review_rows form) (selected_mode form) ∷ [] else [])
    ++ (if form.step == 4 then keys_ready (map card form.api_keys) ∷ [] else [])
