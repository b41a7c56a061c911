-- ===== src/Onboarding/Progress.antt =====
-- What a session went through when it is completed, and how its step moves.
use canton_pillar.Base.{
  ◌≡◌, refl, ap, sym, ◌∙◌, ℕ, Bool, true, false, ◌&&◌, ◌||◌, not, any, ◌⊎◌, none, some, List, [],
  ◌∷◌, Text, String, Result, ok, err, >>=-eq-ok, ◌>>=◌, codes, text_eq, arith, Bool-cases, inl, inr,
  ◌==◌,
}
use mathlib.Core.Path.{subst}
use canton_pillar.Idempotency.Canonical.{Json, obj, bool, end, field}
use canton_pillar.Idempotency.Canonical.Objects.{
  define, value_of, value_of-define_self, value_of-define_other,
}
use canton_pillar.Onboarding.{
  Step, organization, kyb, sandbox, api_key, webhook, first_transfer, Status, OnboardingSession,
  truthy, is_text, Input, approved, AdvanceError, StepResult, kyb_decision, transfer_projected,
  rank, is_terminal, check_step, handle, advance_session, create_onboarding_session,
  organization_step, kyb_step, sandbox_step, api_key_step, webhook_step, first_transfer_step,
  event_of,
}

-- The notes on the decision of the KYB step, and on the first transfer.
abbrev pub IsApproved : OnboardingSession → Type 0
IsApproved s =
    value_of (codes "kyb") s.step_state ≡ some (obj (field (codes "decision") approved end))

abbrev pub IsProjected : OnboardingSession → Type 0
IsProjected s =
    value_of (codes "first_transfer") s.step_state
    ≡ some (obj (field (codes "projected") (bool true) end))

abbrev Reached : Step → OnboardingSession → Type 0
Reached organization s = Unit
Reached kyb s = Unit
Reached sandbox s = IsApproved s
Reached api_key s = IsApproved s
Reached webhook s = IsApproved s
Reached first_transfer s = IsApproved s
Reached Step.completed s = IsApproved s × IsProjected s

abbrev pub is_completed : Status → Bool
is_completed Status.completed = true
is_completed Status.created = false
is_completed Status.in_progress = false
is_completed Status.requires_action = false
is_completed Status.pending_review = false
is_completed Status.failed = false
is_completed Status.canceled = false

record IsSound (s : OnboardingSession) : Type 0 where
  step : Step
  at : s.current_step ≡ some step
  reached : Reached step s
  last : is_completed s.status ≡ true → step ≡ Step.completed

kyb_decision-IsSound :
    (outage yes' : Bool) (s : OnboardingSession) (input : Input)
    → IsSound (kyb_decision outage yes' s input)
kyb_decision-IsSound true yes' s input = record {
  step = kyb;
  at = refl;
  reached = tt;
  last = λ h. absurd (ground arith);
}
kyb_decision-IsSound false true s input = record {
  step = sandbox;
  at = refl;
  reached = value_of-define_self (codes "kyb") _ s.step_state;
  last = λ h. absurd (ground arith);
}
kyb_decision-IsSound false false s input = record {
  step = kyb;
  at = refl;
  reached = tt;
  last = λ h. absurd (ground arith);
}

transfer_projected-IsSound :
    (now : ℕ) (p : Bool) (s : OnboardingSession) (input : Input)
    → IsApproved s
    → IsSound (transfer_projected now p s input)
transfer_projected-IsSound now false s input h = record {
  step = first_transfer;
  at = refl;
  reached = value_of-define_other (codes "kyb") (codes "first_transfer") _ s.step_state refl ∙ h;
  last = λ k. absurd (ground arith);
}
transfer_projected-IsSound now true s input h = record {
  step = Step.completed;
  at = refl;
  reached = (
    value_of-define_other (codes "kyb") (codes "first_transfer") _ s.step_state refl ∙ h,
    value_of-define_self (codes "first_transfer") _ s.step_state,
  );
  last = λ k. refl;
}

abbrev handled : OnboardingSession → Result AdvanceError OnboardingSession
handled s = ok s

abbrev stepped : StepResult → Result AdvanceError StepResult
stepped r = ok r

same_result : (s' next : OnboardingSession) → handled s' ≡ ok next → IsSound s' → IsSound next
same_result s' next e v = let q : s' ≡ next = ground arith in rw (← q) v

keeps_approval :
    (key : String) (v : Json) (s : OnboardingSession)
    → text_eq (codes key) (codes "kyb") ≡ false
    → IsApproved s
    → value_of (codes "kyb") (define (codes key) v s.step_state)
      ≡ some (obj (field (codes "decision") approved end))
keeps_approval key v s other h =
    value_of-define_other (codes "kyb") (codes key) v s.step_state other ∙ h

ok_injective : (a b : StepResult) → stepped a ≡ ok b → a ≡ b
ok_injective a b h = ground arith

-- A handler that is run at the step that the session has reached.
handle-IsSound :
    (now : ℕ) (step : Step) (s next : OnboardingSession) (input : Input)
    → Reached step s
    → handle now step s input ≡ ok next
    → IsSound next
unfolding handle organization_step sandbox_step api_key_step webhook_step kyb_step
    first_transfer_step
handle-IsSound now organization s next input h e =
    same_result (organization_step s input) next e
      (record { step = kyb; at = refl; reached = tt; last = λ k. absurd (ground arith) })
handle-IsSound now kyb s next input h e = same_result (kyb_step s input) next e (
    kyb_decision-IsSound (truthy (value_of (codes "outage") input))
      (truthy (value_of (codes "approved") input)
        || is_text (codes "approved") (value_of (codes "decision") input))
      s input)
handle-IsSound now sandbox s next input h e = same_result (sandbox_step s input) next e (record {
  step = api_key;
  at = refl;
  reached = keeps_approval "sandbox" _ s refl h;
  last = λ k. absurd (ground arith);
})
handle-IsSound now api_key s next input h e = same_result (api_key_step s input) next e (record {
  step = webhook;
  at = refl;
  reached = keeps_approval "api_key" _ s refl h;
  last = λ k. absurd (ground arith);
})
handle-IsSound now webhook s next input h e = same_result (webhook_step s input) next e (record {
  step = first_transfer;
  at = refl;
  reached = keeps_approval "webhook" _ s refl h;
  last = λ k. absurd (ground arith);
})
handle-IsSound now first_transfer s next input h e =
    same_result (first_transfer_step now s input) next e
      (transfer_projected-IsSound now (truthy (value_of (codes "projected") input)) s input h)
handle-IsSound now Step.completed s next input h e = absurd (ground arith)

rank-injective : (a b : Step) → (rank a == rank b) ≡ true → a ≡ b
rank-injective a b h = ground arith

check_step-rank : (a step : Step) {u : Unit {0}} → check_step (some a) step ≡ ok u → a ≡ step
check_step-rank a step h = elim (Bool-cases (rank a == rank step)) [
  | inl e ↦ rank-injective a step e
  | inr e ↦ absurd (ground arith)
]

advance_session-IsSound :
    (now : ℕ) (step : Step) (input : Input) (s : OnboardingSession) (result : StepResult)
    → IsSound s
    → advance_session now step input s ≡ ok result
    → IsSound result.0
unfolding advance_session
advance_session-IsSound now step input s result v h = elim (Bool-cases (is_terminal s.status)) [
  | inl done ↦
      let same : s ≡ result.0 = ap (λ r. r.0) (ok_injective (s, none) result (simp done at h)) in
      rw (← same) v
  | inr live ↦
      let (u, checked, rest) = >>=-eq-ok _ _ (simp live at h) in
      let (next, ran, last) = >>=-eq-ok _ _ rest in
      let here : v.step ≡ step =
        check_step-rank v.step step (ap (λ o. check_step o step) (sym v.at) ∙ checked) in
      let same : next ≡ result.0 =
        ap (λ r. r.0) (ok_injective (next, event_of next.status) result last) in
      rw (← same) (handle-IsSound now step s next input (rw (← here) v.reached) ran)
]

-- One call; a session that is thrown at stays as it was.
abbrev after : OnboardingSession → Result AdvanceError StepResult → OnboardingSession
after s (ok result) = result.0
after s (err e) = s

pub record Call : Type 0 where
  pub now : ℕ
  pub step : Step
  pub input : Input

unfoldable pub advance_all : List Call → OnboardingSession → OnboardingSession
advance_all [] s = s
advance_all (c ∷ cs) s = advance_all cs (after s (advance_session c.now c.step c.input s))

after-IsSound :
    (s : OnboardingSession) (r : Result AdvanceError StepResult)
    → IsSound s
    → ((result : StepResult) → r ≡ ok result → IsSound result.0)
    → IsSound (after s r)
after-IsSound s (ok result) v f = f result refl
after-IsSound s (err e) v f = v

advance_all-IsSound :
    (cs : List Call) (s : OnboardingSession) → IsSound s → IsSound (advance_all cs s)
unfolding advance_all
advance_all-IsSound [] s v = v
advance_all-IsSound (c ∷ cs) s v = advance_all-IsSound cs _ (
    after-IsSound s (advance_session c.now c.step c.input s) v
      (λ result e. advance_session-IsSound c.now c.step c.input s result v e))

completed-Reached :
    (s : OnboardingSession)
    → IsSound s
    → is_completed s.status ≡ true
    → (s.current_step ≡ some Step.completed) × IsApproved s × IsProjected s
completed-Reached s v h =
    let at_end = v.last h in
    let at_end' : Reached Step.completed s = subst (λ x. Reached x s) at_end v.reached in
    (v.at ∙ ap some at_end, at_end'.0, at_end'.1)

-- A call that asks for the KYB step, with an input that says it is approved and no outage.
abbrev pub approves : Call → Bool
approves c =
    rank c.step == 1
    && not (truthy (value_of (codes "outage") c.input))
    && (truthy (value_of (codes "approved") c.input)
        || is_text (codes "approved") (value_of (codes "decision") c.input))

-- A call that asks for the first transfer, with an input that says it is projected.
abbrev pub projects : Call → Bool
projects c = rank c.step == 5 && truthy (value_of (codes "projected") c.input)

-- What a note of a later state goes back to: an earlier one, or the call.
abbrev GoesBack : Call → OnboardingSession → OnboardingSession → Type 0
GoesBack c s s' =
    (IsApproved s' → IsApproved s ⊎ (approves c ≡ true))
    × (IsProjected s' → IsProjected s ⊎ (projects c ≡ true))

other_note :
    (v : Json) {w : Json} (kept key : String) (s : OnboardingSession)
    → text_eq (codes key) (codes kept) ≡ false
    → value_of (codes kept) (define (codes key) v s.step_state) ≡ some w
    → value_of (codes kept) s.step_state ≡ some w
other_note v kept key s other h =
    sym (value_of-define_other (codes kept) (codes key) v s.step_state other) ∙ h

other_GoesBack :
    (c : Call) (s s' : OnboardingSession) (key : String) (v : Json)
    → s'.step_state ≡ define (codes key) v s.step_state
    → text_eq (codes key) (codes "kyb") ≡ false
    → text_eq (codes key) (codes "first_transfer") ≡ false
    → GoesBack c s s'
other_GoesBack c s s' key v e kyb' transfer = (
  λ h. inl (other_note _ "kyb" key s kyb' (sym (ap (value_of (codes "kyb")) e) ∙ h)),
  λ h. inl (
      other_note _ "first_transfer" key s transfer
        (sym (ap (value_of (codes "first_transfer")) e) ∙ h)),
)

kyb_decision-GoesBack :
    (c : Call) (s : OnboardingSession) (outage yes' : Bool)
    → ((not outage && yes') ≡ true → approves c ≡ true)
    → GoesBack c s (kyb_decision outage yes' s c.input)
kyb_decision-GoesBack c s true yes' f = (
  λ h. absurd (ground (arith, sym (value_of-define_self (codes "kyb") _ s.step_state) ∙ h)),
  λ h. inl (other_note _ "first_transfer" "kyb" s refl h),
)
kyb_decision-GoesBack c s false true f =
    (λ h. inr (f refl), λ h. inl (other_note _ "first_transfer" "kyb" s refl h))
kyb_decision-GoesBack c s false false f = (
  λ h. absurd (ground (arith, sym (value_of-define_self (codes "kyb") _ s.step_state) ∙ h)),
  λ h. inl (other_note _ "first_transfer" "kyb" s refl h),
)

transfer_projected-GoesBack :
    (c : Call) (s : OnboardingSession) (p : Bool)
    → (p ≡ true → projects c ≡ true)
    → GoesBack c s (transfer_projected c.now p s c.input)
transfer_projected-GoesBack c s false f = (
  λ h. inl (other_note _ "kyb" "first_transfer" s refl h),
  λ h.
      absurd
        (ground (arith, sym (value_of-define_self (codes "first_transfer") _ s.step_state) ∙ h)),
)
transfer_projected-GoesBack c s true f =
    (λ h. inl (other_note _ "kyb" "first_transfer" s refl h), λ h. inr (f refl))

result_GoesBack :
    (c : Call) (s s' next : OnboardingSession)
    → handled s' ≡ ok next
    → GoesBack c s s'
    → GoesBack c s next
result_GoesBack c s s' next e g = let q : s' ≡ next = ground arith in subst (GoesBack c s) q g

handle-GoesBack :
    (c : Call) (s next : OnboardingSession) (step : Step)
    → c.step ≡ step
    → handle c.now step s c.input ≡ ok next
    → GoesBack c s next
unfolding handle organization_step sandbox_step api_key_step webhook_step kyb_step
    first_transfer_step
handle-GoesBack c s next organization at e =
    result_GoesBack c s (organization_step s c.input) next e
      (other_GoesBack c s (organization_step s c.input) "organization" _ refl refl refl)
handle-GoesBack c s next kyb at e = result_GoesBack c s (kyb_step s c.input) next e (
    kyb_decision-GoesBack c s (truthy (value_of (codes "outage") c.input))
      (truthy (value_of (codes "approved") c.input)
        || is_text (codes "approved") (value_of (codes "decision") c.input))
      (λ h.
        ap
          (λ r.
            rank r == 1
            && not (truthy (value_of (codes "outage") c.input))
            && (truthy (value_of (codes "approved") c.input)
                || is_text (codes "approved") (value_of (codes "decision") c.input)))
          at
        ∙ h))
handle-GoesBack c s next sandbox at e =
    result_GoesBack c s (sandbox_step s c.input) next e
      (other_GoesBack c s (sandbox_step s c.input) "sandbox" _ refl refl refl)
handle-GoesBack c s next api_key at e =
    result_GoesBack c s (api_key_step s c.input) next e
      (other_GoesBack c s (api_key_step s c.input) "api_key" _ refl refl refl)
handle-GoesBack c s next webhook at e =
    result_GoesBack c s (webhook_step s c.input) next e
      (other_GoesBack c s (webhook_step s c.input) "webhook" _ refl refl refl)
handle-GoesBack c s next first_transfer at e =
    result_GoesBack c s (first_transfer_step c.now s c.input) next e (
      transfer_projected-GoesBack c s (truthy (value_of (codes "projected") c.input))
        (λ h. ap (λ r. rank r == 5 && truthy (value_of (codes "projected") c.input)) at ∙ h))
handle-GoesBack c s next Step.completed at e = absurd (ground arith)

advance_session-GoesBack :
    (c : Call) (s : OnboardingSession) (result : StepResult)
    → advance_session c.now c.step c.input s ≡ ok result
    → GoesBack c s result.0
unfolding advance_session
advance_session-GoesBack c s result h = elim (Bool-cases (is_terminal s.status)) [
  | inl done ↦
      let same : s ≡ result.0 = ap (λ r. r.0) (ok_injective (s, none) result (simp done at h)) in
      subst (GoesBack c s) same (λ k. inl k, λ k. inl k)
  | inr live ↦
      let told : OnboardingSession → Result AdvanceError StepResult =
        λ n. ok (n, event_of n.status) in
      let (u, checked, rest) =
        >>=-eq-ok (check_step s.current_step c.step)
          (λ done. handle c.now c.step s c.input >>= told) (simp live at h) in
      let (next, ran, last) = >>=-eq-ok (handle c.now c.step s c.input) told rest in
      let same : next ≡ result.0 =
        ap (λ r. r.0) (ok_injective (next, event_of next.status) result last) in
      subst (GoesBack c s) same (handle-GoesBack c s next c.step refl ran)
]

after-GoesBack :
    (c : Call) (s : OnboardingSession) (r : Result AdvanceError StepResult)
    → advance_session c.now c.step c.input s ≡ r
    → GoesBack c s (after s r)
after-GoesBack c s (ok result) e = advance_session-GoesBack c s result e
after-GoesBack c s (err x) e = (λ k. inl k, λ k. inl k)

advance_all-GoesBack :
    (cs : List Call) (s : OnboardingSession)
    → (IsApproved (advance_all cs s) → IsApproved s ⊎ (any approves cs ≡ true))
      × (IsProjected (advance_all cs s) → IsProjected s ⊎ (any projects cs ≡ true))
unfolding advance_all
advance_all-GoesBack [] s = (λ k. inl k, λ k. inl k)
advance_all-GoesBack (c ∷ cs) s =
    let (approved', projected') = after-GoesBack c s _ refl in
    let (later, later') = advance_all-GoesBack cs _ in
    (
      λ k. elim (later k) [
        | inl a ↦ elim (approved' a) [ inl b ↦ inl b | inr b ↦ inr (ground arith) ]
        | inr a ↦ inr (ground arith)
      ],
      λ k. elim (later' k) [
        | inl a ↦ elim (projected' a) [ inl b ↦ inl b | inr b ↦ inr (ground arith) ]
        | inr a ↦ inr (ground arith)
      ],
    )

-- Whatever is asked of a new session, with any input and in any order: once it is completed, some
-- call for the KYB step had an input that says it is approved and names no outage, and some call for
-- the first transfer an input that says it is projected; the session's notes say both, and it is at
-- the last step.
pub advance_all-completed :
    (now : ℕ) (id : Text) (tenant environment : String) (cs : List Call)
    → let s = advance_all cs (create_onboarding_session now id tenant environment) in
      is_completed s.status ≡ true
      → (any approves cs ≡ true)
        × (any projects cs ≡ true)
        × (s.current_step ≡ some Step.completed)
        × IsApproved s
        × IsProjected s
unfolding create_onboarding_session
advance_all-completed now id tenant environment cs h =
    let (at, approved', projected') =
      completed-Reached _
        (advance_all-IsSound cs (create_onboarding_session now id tenant environment) (record {
          step = organization;
          at = refl;
          reached = tt;
          last = λ k. absurd (ground arith);
        }))
        h in
    let (seen, seen') =
      advance_all-GoesBack cs (create_onboarding_session now id tenant environment) in
    (
      elim (seen approved') [ inl k ↦ absurd (ground arith) | inr k ↦ k ],
      elim (seen' projected') [ inl k ↦ absurd (ground arith) | inr k ↦ k ],
      at,
      approved',
      projected',
    )
