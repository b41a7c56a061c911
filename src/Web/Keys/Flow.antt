-- ===== src/Web/Keys/Flow.antt =====
-- What holds of the wizard's state after any sequence of uses, and that it can be finished.
use canton_pillar.Base.{
  ◌≡◌, refl, ◌≢◌, ◌⊎◌, inl, inr, ℕ, zero, suc, ◌+◌, ◌-◌, ◌≤◌, ◌<◌, Bool, true, ◌&&◌, ◌||◌, List, [],
  ◌∷◌, Text, any, text_eq, arith, All, length, &&-true, map,
}
use canton_pillar.Idempotency.Decimal.{trim}
use canton_pillar.Web.Email.{email_regex, HasEmail, email_regex_iff}
use canton_pillar.Web.Generate.{Draws, create_mock_keys, MockApiKey}
use canton_pillar.Web.Generate.Keys.{IsIssued, IsBelow, create_mock_keys-IsIssued}
use canton_pillar.Web.Keys.{
  Form, Event, type_workspace_name, type_email, select_country, choose_mode, click_next, click_back,
  countries, truthy, blank, act, act_all, can_continue, handle_next, handle_back, handler,
  field_shown, button_shown, validate_step_one, messages,
}
use canton_pillar.Web.Keys.Sections.{
  page, Section, workspace, deployment, review, keys_ready, workspace_fields, mode_choices,
  review_rows, selected_mode, card,
}

-- The test of the first step.
abbrev pub is_filled : Form → Bool
is_filled form =
    truthy (trim form.workspace_name)
    && email_regex form.primary_business_email
    && truthy form.country

abbrev pub is_offered : Text → Bool
is_offered s = text_eq s [] || any (text_eq s) countries

-- Three keys, each issued.
abbrev pub HasKeys : List MockApiKey → Type 0
HasKeys keys = All IsIssued keys × (length keys ≡ 3)

pub record IsValid (form : Form) : Type 0 where
  pub at_least : 1 ≤ form.step
  pub at_most : form.step ≤ 4
  pub offered : is_offered form.country ≡ true
  pub filled : (form.step ≡ 1) ⊎ (is_filled form ≡ true)
  pub keys : (form.step ≢ 4) ⊎ HasKeys form.api_keys

-- What `Math.random` gives to a click is in its documented range.
abbrev pub IsFair : Event → Type 0
IsFair (click_next draws) =
    (p : canton_pillar.Web.Generate.ApiPrefix) → IsBelow (draws.random_body p)
IsFair event = Unit

create_mock_keys-HasKeys :
    (draws : Draws) → IsFair (click_next draws) → HasKeys (create_mock_keys draws)
unfolding create_mock_keys
create_mock_keys-HasKeys draws h = (create_mock_keys-IsIssued draws h, refl)

blank-IsValid : IsValid blank
blank-IsValid = ground arith

act-IsValid : (event : Event) (form : Form) → IsFair event → IsValid form → IsValid (act event form)
unfolding act field_shown button_shown handler handle_back handle_next can_continue
    validate_step_one messages
act-IsValid (type_workspace_name s) form f h = ground arith
act-IsValid (type_email s) form f h = ground arith
act-IsValid (select_country s) form f h = ground arith
act-IsValid (choose_mode mode) form f h = ground arith
act-IsValid click_back form f h = ground arith
act-IsValid (click_next draws) form f h = ground (arith, create_mock_keys-HasKeys draws f)

act_all-keeps :
    (events : List Event) (form : Form)
    → All IsFair events
    → IsValid form
    → IsValid (act_all events form)
unfolding act_all
act_all-keeps [] form f h = h
act_all-keeps (event ∷ events) form (f, fs) h =
    act_all-keeps events (act event form) fs (act-IsValid event form f h)

act_all-IsValid : (events : List Event) → All IsFair events → IsValid (act_all events blank)
act_all-IsValid events fair = act_all-keeps events blank fair blank-IsValid

-- A name that is not blank, an email, and a country of the list.
abbrev pub IsComplete : Form → Type 0
IsComplete form =
    (trim form.workspace_name ≢ [])
    × HasEmail form.primary_business_email
    × (any (text_eq form.country) countries ≡ true)

-- What the page is to show: the three fields with their messages at the first step, the modes with
-- the chosen one at the second, the summary at the third, and the keys at the fourth.
abbrev pub IsShown : ℕ → Form → List Section → Type 0
IsShown (suc zero) form sections = sections ≡ workspace (workspace_fields form) ∷ []
IsShown (suc (suc zero)) form sections = sections ≡ deployment (mode_choices form) ∷ []
IsShown (suc (suc (suc zero))) form sections =
    sections ≡ review (review_rows form) (selected_mode form) ∷ []
IsShown (suc (suc (suc (suc zero)))) form sections =
    sections ≡ keys_ready (map card form.api_keys) ∷ []
IsShown n form sections = ⊥

page-IsShown : (n : ℕ) (form : Form) → form.step ≡ n → 1 ≤ n → n ≤ 4 → IsShown n form (page form)
unfolding page workspace_fields mode_choices review_rows selected_mode
page-IsShown zero form e h k = absurd (omega arith)
page-IsShown (suc zero) form e h k = simp e
page-IsShown (suc (suc zero)) form e h k = simp e
page-IsShown (suc (suc (suc zero))) form e h k = simp e
page-IsShown (suc (suc (suc (suc zero)))) form e h k = simp e
page-IsShown (suc (suc (suc (suc (suc n))))) form e h k = absurd (omega arith)

pub record IsSound (form : Form) : Type 0 where
  pub at_least : 1 ≤ form.step
  pub at_most : form.step ≤ 4
  pub section : IsShown form.step form (page form)
  pub complete : (form.step ≡ 1) ⊎ IsComplete form
  pub keys : (form.step ≢ 4) ⊎ HasKeys form.api_keys

truthy-≢ : (s : Text) → truthy s ≡ true → s ≢ []
truthy-≢ [] h = absurd (ground arith)
truthy-≢ (c ∷ s) h = λ e. absurd (ground arith)

listed : (s : Text) → is_offered s ≡ true → truthy s ≡ true → any (text_eq s) countries ≡ true
listed [] h k = absurd (ground arith)
listed (c ∷ s) h k = h

is_filled-IsComplete :
    (form : Form) → is_offered form.country ≡ true → is_filled form ≡ true → IsComplete form
is_filled-IsComplete form h f =
    let named = truthy (trim form.workspace_name) in
    let mailed = email_regex form.primary_business_email in
    let (both, chosen) = &&-true (named && mailed) (truthy form.country) f in
    let (first, second) = &&-true named mailed both in
    (
      truthy-≢ (trim form.workspace_name) first,
      (email_regex_iff form.primary_business_email).0 second,
      listed form.country h chosen,
    )

-- From the empty form, whatever a user does with the controls that are shown: the step stays within
-- 1 and 4, and the page shows the section of that step alone: the fields, the modes, the summary or
-- the keys; past the first step the workspace's name is not blank, the email contains a word, `@`, a
-- word, `.` and a word, and the country is one of the list; the last step has three keys, each with
-- its prefix, 32 units of the alphabet and their last four. Condition: `Math.random` stays in its
-- range.
pub act_all-IsSound : (events : List Event) → All IsFair events → IsSound (act_all events blank)
act_all-IsSound events fair =
    let form = act_all events blank in
    let v = act_all-IsValid events fair in
    record {
      at_least = v.at_least;
      at_most = v.at_most;
      section = page-IsShown form.step form refl v.at_least v.at_most;
      complete = elim v.filled [
        | inl first ↦ inl first
        | inr f ↦ inr (is_filled-IsComplete form v.offered f)
      ];
      keys = v.keys;
    }

abbrev pub clicks : ℕ → Draws → List Event
clicks zero draws = []
clicks (suc n) draws = click_next draws ∷ clicks n draws

-- One click on a filled form moves to the next step, and the form stays filled.
click_next_step :
    (draws : Draws) (form : Form)
    → 1 ≤ form.step
    → form.step < 4
    → is_filled form ≡ true
    → ((act (click_next draws) form).step ≡ suc form.step)
      × (is_filled (act (click_next draws) form) ≡ true)
unfolding act field_shown button_shown handler handle_next can_continue validate_step_one messages
click_next_step draws form h k f = ground arith

clicks_four :
    (n : ℕ) (draws : Draws) (form : Form)
    → 1 ≤ form.step
    → form.step + n ≡ 4
    → is_filled form ≡ true
    → (act_all (clicks n draws) form).step ≡ 4
unfolding act_all
clicks_four zero draws form h k f = omega arith
clicks_four (suc n) draws form h k f =
    let (e, f') = click_next_step draws form h (omega arith) f in
    clicks_four n draws (act (click_next draws) form) (omega (arith, e)) (omega (arith, e)) f'

-- From any form that a user reaches, if the workspace's name, the email and the country are filled
-- in, then as many clicks as there are steps left reach the step that shows the keys.
pub act_all-clicks :
    (events : List Event) (draws : Draws)
    → All IsFair events
    → is_filled (act_all events blank) ≡ true
    → (act_all (clicks (4 - (act_all events blank).step) draws) (act_all events blank)).step ≡ 4
act_all-clicks events draws fair f =
    let v = act_all-IsValid events fair in
    clicks_four (4 - (act_all events blank).step) draws (act_all events blank) v.at_least
      (omega (arith, v.at_most)) f
