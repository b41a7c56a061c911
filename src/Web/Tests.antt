-- ===== src/Web/Tests.antt =====
-- Runs of the pages at concrete inputs, and the theorems at them.
use canton_pillar.Base.{◌≡◌, refl, ℕ, ◌-◌, true, false, List, [], ◌∷◌, codes, All, arith, length}
use canton_pillar.Idempotency.Decimal.{trim}
use canton_pillar.Web.Email.{email_regex}
use canton_pillar.Web.Generate.{ApiPrefix, Draws, generate_mock_ulid}
use canton_pillar.Web.Generate.Keys.{IsOf, is_ulid_char, IsBelow, generate_mock_ulid-IsOf}
use canton_pillar.Web.Keys.{
  Event, type_workspace_name, type_email, select_country, choose_mode, click_next, click_back,
  DeploymentMode, blank, act, act_all,
}
use canton_pillar.Web.Keys.Flow.{
  IsFair, is_filled, IsSound, clicks, act_all-IsSound, act_all-clicks,
}

accepted_test : email_regex (codes "ops@acme.finance") ≡ true
unfolding email_regex
accepted_test = refl

refused_test : email_regex (codes "ops@acme") ≡ false
unfolding email_regex
refused_test = refl

-- 1779785100000 ms modulo 2^32 has bit 31 clear.
ulid_test : length (generate_mock_ulid 1779785100000 0) ≡ 26
unfolding generate_mock_ulid
ulid_test = refl

generate_mock_ulid-IsOf_example : IsOf is_ulid_char 26 (generate_mock_ulid 1779785100000 0)
generate_mock_ulid-IsOf_example = generate_mock_ulid-IsOf 1779785100000 0 (omega arith)

abbrev zero_of : ℕ → ℕ → ℕ
zero_of i n = 0

abbrev draws : Draws
draws = record { now = λ p. 1779785100000; random_id = λ p. 0; random_body = λ p. zero_of }

in_range : (p : ApiPrefix) → IsBelow zero_of
in_range p i n h = h

abbrev uses : List Event
uses =
    click_next draws
    ∷ type_workspace_name (codes "Acme Finance")
    ∷ type_email (codes "ops@acme.finance")
    ∷ select_country (codes "KR")
    ∷ click_next draws
    ∷ choose_mode DeploymentMode.self_hosted
    ∷ click_back
    ∷ []

uses-IsFair : All IsFair uses
uses-IsFair = (in_range, (tt, (tt, (tt, (in_range, (tt, (tt, tt)))))))

step_test : (act_all uses blank).step ≡ 1
unfolding act_all act trim email_regex
step_test = refl

filled_test : is_filled (act_all uses blank) ≡ true
unfolding act_all act trim email_regex
filled_test = refl

act_all-IsSound_example : IsSound (act_all uses blank)
act_all-IsSound_example = act_all-IsSound uses uses-IsFair

act_all-clicks_example :
    (act_all (clicks (4 - (act_all uses blank).step) draws) (act_all uses blank)).step ≡ 4
act_all-clicks_example = act_all-clicks uses draws uses-IsFair filled_test
