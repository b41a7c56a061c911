-- ===== src/Onboarding/Tests.antt =====
-- A session that is walked to its end, and the theorems at concrete inputs.
use canton_pillar.Base.{any, ◌≡◌, refl, true, some, List, [], ◌∷◌, String, codes}
use canton_pillar.Idempotency.Canonical.{bool}
use canton_pillar.Onboarding.{
  Step, organization, kyb, sandbox, api_key, webhook, first_transfer, create_onboarding_session,
  advance_session,
}
use canton_pillar.Onboarding.Progress.{
  Call, approves, projects, advance_all, IsApproved, IsProjected, advance_all-completed,
}

abbrev call : Step → String → Call
call step key = record { now = 2; step = step; input = (codes key, bool true) ∷ [] }

abbrev walk : List Call
walk =
    call organization "name"
    ∷ call sandbox "early"
    ∷ call kyb "outage"
    ∷ call kyb "approved"
    ∷ call sandbox "x"
    ∷ call api_key "x"
    ∷ call webhook "x"
    ∷ call first_transfer "x"
    ∷ call first_transfer "projected"
    ∷ []

advance_all-completed_example :
    let s = advance_all walk (create_onboarding_session 1 (codes "onb_1") "ten" "env") in
    (any approves walk ≡ true)
    × (any projects walk ≡ true)
    × (s.current_step ≡ some Step.completed)
    × IsApproved s
    × IsProjected s
unfolding advance_all create_onboarding_session advance_session
advance_all-completed_example = advance_all-completed 1 (codes "onb_1") "ten" "env" walk refl
