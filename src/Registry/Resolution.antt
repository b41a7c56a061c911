-- ===== src/Registry/Resolution.antt =====
-- What a resolution that succeeds rests on.
use canton_pillar.Base.{
  ◌≡◌, ◌≢◌, refl, ap, sym, ◌∙◌, Bool, true, false, ◌&&◌, ◌||◌, not, Option, none, some, List, [],
  ◌∷◌, Text, ok, text_eq, text_eq_sound, find, arith, Bool-cases, Option-cases, inl, inr, ◌⊎◌,
}
use canton_pillar.Registry.{
  Binding, Validator, ValidatorStatus, Health, HealthStatus, is_active, is_unhealthy, Store,
  Resolved, is_bound, is_disabled, get_validator, active_binding, latest, primary_down, chosen_of,
  answer_of, resolve_primary, resolve_bound, resolve_validator_for_tenant,
}

-- The validator is not active, or the last report on its health is that it is unhealthy.
abbrev pub IsDown : (Text → Text → Bool) → Store → Validator → Type 0
IsDown compare_le s v =
    (v.status ≢ ValidatorStatus.active)
    ⊎ (h : Health) × (latest compare_le v.id s ≡ some h)
      × (h.health_status ≡ HealthStatus.unhealthy)

-- It is active, and no last report is that it is unhealthy.
abbrev pub IsUp : (Text → Text → Bool) → Store → Validator → Type 0
IsUp compare_le s v =
    (v.status ≡ ValidatorStatus.active)
    × ((h : Health) → latest compare_le v.id s ≡ some h → h.health_status ≢ HealthStatus.unhealthy)

-- There is no fallback: none is given, or the empty text.
abbrev pub HasNoFallback : Binding → Type 0
HasNoFallback b = (b.fallback_validator_id ≡ none) ⊎ (b.fallback_validator_id ≡ some [])

-- The validator is the binding's default while that is up or there is no fallback, or the fallback
-- while the default is down.
abbrev pub IsChoice : (Text → Text → Bool) → Store → Binding → Validator → Validator → Type 0
IsChoice compare_le s b primary chosen =
    (chosen ≡ primary) × (IsUp compare_le s primary ⊎ HasNoFallback b)
    ⊎ (id : Text) × (b.fallback_validator_id ≡ some id)
      × (get_validator id s ≡ some chosen)
      × IsDown compare_le s primary

pub record Serves (compare_le : Text → Text → Bool) (s : Store) (tenant network : Text)
    (r : Resolved) : Type 0 where
  pub binding : Binding
  pub found_binding : active_binding tenant network s ≡ some binding
  pub own : binding.tenant_id ≡ tenant
  pub same_network : binding.network ≡ network
  pub bound : is_bound binding.status ≡ true
  pub primary : Validator
  pub found_primary : get_validator binding.default_validator_id s ≡ some primary
  pub chosen : Validator
  pub choice : IsChoice compare_le s binding primary chosen
  pub enabled : is_disabled chosen.status ≡ false
  pub answer : r ≡ record {
    tenant_id = tenant;
    network = network;
    validator_id = chosen.id;
    participant_endpoint_ref = chosen.participant_endpoint_ref;
    jwt_issuer = chosen.jwt_issuer;
    tls_profile = chosen.tls_profile;
    capacity_tier = chosen.capacity_tier;
    regions = chosen.regions;
    fallback_used = not (text_eq chosen.id primary.id);
  }

find-true : (p : Binding → Bool) (bs : List Binding) {b : Binding} → find p bs ≡ some b → p b ≡ true
find-true p [] h = absurd (ground arith)
find-true p (x ∷ bs) {b} h = elim (Bool-cases (p x)) [
  | inl e ↦ ap p (sym (let q : x ≡ b = ground arith in q)) ∙ e
  | inr e ↦ find-true p bs (simp e at h)
]

active_binding-own :
    (tenant network : Text) (s : Store) (b : Binding)
    → active_binding tenant network s ≡ some b
    → (b.tenant_id ≡ tenant) × (b.network ≡ network) × (is_bound b.status ≡ true)
active_binding-own tenant network s b e =
    let t =
      find-true (λ x. text_eq x.tenant_id tenant && text_eq x.network network && is_bound x.status)
        s.bindings e in
    (
      text_eq_sound b.tenant_id tenant (ground arith),
      text_eq_sound b.network network (ground arith),
      ground arith,
    )

unhealthy_only :
    (h : Health) → is_unhealthy (some h) ≡ true → h.health_status ≡ HealthStatus.unhealthy
unhealthy_only h k = ground arith

primary_down-IsDown :
    (compare_le : Text → Text → Bool) (s : Store) (v : Validator)
    → primary_down v (latest compare_le v.id s) ≡ true
    → IsDown compare_le s v
primary_down-IsDown compare_le s v h = go v.status (latest compare_le v.id s) refl refl h
  where
    go :
        (st : ValidatorStatus) (o : Option Health)
        → v.status ≡ st
        → latest compare_le v.id s ≡ o
        → (not (is_active st) || is_unhealthy o) ≡ true
        → IsDown compare_le s v
    go ValidatorStatus.active none e e' k = absurd (ground arith)
    go ValidatorStatus.active (some x) e e' k = inr (x, e', unhealthy_only x k)
    go ValidatorStatus.degraded o e e' k = inl (λ a. absurd (ground arith))
    go ValidatorStatus.disabled o e e' k = inl (λ a. absurd (ground arith))

primary_down-IsUp :
    (compare_le : Text → Text → Bool) (s : Store) (v : Validator)
    → primary_down v (latest compare_le v.id s) ≡ false
    → IsUp compare_le s v
primary_down-IsUp compare_le s v h = go v.status (latest compare_le v.id s) refl refl h
  where
    go :
        (st : ValidatorStatus) (o : Option Health)
        → v.status ≡ st
        → latest compare_le v.id s ≡ o
        → (not (is_active st) || is_unhealthy o) ≡ false
        → IsUp compare_le s v
    go ValidatorStatus.active o e e' k =
        (e, λ x f u. absurd (ground (arith, ap is_unhealthy (sym e' ∙ f))))
    go ValidatorStatus.degraded o e e' k = absurd (ground arith)
    go ValidatorStatus.disabled o e e' k = absurd (ground arith)

chosen_of-IsChoice :
    (compare_le : Text → Text → Bool) (s : Store) (b : Binding) (primary v : Validator)
    (o : Option Text)
    → b.fallback_validator_id ≡ o
    → chosen_of s (primary_down primary (latest compare_le primary.id s)) primary o ≡ some v
    → IsChoice compare_le s b primary v
chosen_of-IsChoice compare_le s b primary v none e h = inl (ground arith, inr (inl e))
chosen_of-IsChoice compare_le s b primary v (some []) e h = inl (ground arith, inr (inr e))
chosen_of-IsChoice compare_le s b primary v (some (c ∷ id)) e h =
    elim (Bool-cases (primary_down primary (latest compare_le primary.id s))) [
      | inl down ↦ inr (c ∷ id, e, simp down at h, primary_down-IsDown compare_le s primary down)
      | inr up ↦ inl (
        (let q : some primary ≡ some v = simp up at h in ground arith),
        inl (primary_down-IsUp compare_le s primary up),
      )
    ]

answer_of-ok :
    (tenant network : Text) (primary v : Validator) (r : Resolved)
    → answer_of tenant network primary (some v) ≡ ok r
    → (is_disabled v.status ≡ false)
      × (r ≡ record {
        tenant_id = tenant;
        network = network;
        validator_id = v.id;
        participant_endpoint_ref = v.participant_endpoint_ref;
        jwt_issuer = v.jwt_issuer;
        tls_profile = v.tls_profile;
        capacity_tier = v.capacity_tier;
        regions = v.regions;
        fallback_used = not (text_eq v.id primary.id);
      })
answer_of-ok tenant network primary v r h = elim (Bool-cases (is_disabled v.status)) [
  | inl e ↦ absurd (ground arith)
  | inr e ↦ (e, ground arith)
]

-- A resolution that succeeds answers with a validator that is not disabled: the default of an active
-- binding of that tenant to that network, while it is active and was not last seen unhealthy or there
-- is no fallback; or the binding's fallback, while the default is not active or was last seen
-- unhealthy. The answer has that validator's fields, and tells whether it is another than the default.
pub resolve_validator_for_tenant-Serves :
    (compare_le : Text → Text → Bool) (tenant network : Text) (s : Store) (r : Resolved)
    → resolve_validator_for_tenant compare_le tenant network s ≡ ok r
    → Serves compare_le s tenant network r
unfolding resolve_validator_for_tenant
resolve_validator_for_tenant-Serves compare_le tenant network s r h =
    elim (Option-cases (active_binding tenant network s)) [
      | inl e ↦ absurd (ground (arith, ap (resolve_bound compare_le tenant network s) e))
      | inr (b, e) ↦
          let h1 = sym (ap (resolve_bound compare_le tenant network s) e) ∙ h in
          elim (Option-cases (get_validator b.default_validator_id s)) [
            | inl e1 ↦
                absurd (ground (arith, ap (resolve_primary compare_le tenant network s b) e1))
            | inr (primary, e1) ↦
                let h2 = sym (ap (resolve_primary compare_le tenant network s b) e1) ∙ h1 in
                let chosen =
                  chosen_of s (primary_down primary (latest compare_le primary.id s)) primary
                    b.fallback_validator_id in
                elim (Option-cases chosen) [
                  | inl e2 ↦ absurd (ground (arith, ap (answer_of tenant network primary) e2))
                  | inr (v, e2) ↦
                      let (enabled, answer) =
                        answer_of-ok tenant network primary v r
                          (sym (ap (answer_of tenant network primary) e2) ∙ h2) in
                      let (own, on, bound) = active_binding-own tenant network s b e in
                      record {
                        binding = b;
                        found_binding = e;
                        own = own;
                        same_network = on;
                        bound = bound;
                        primary = primary;
                        found_primary = e1;
                        chosen = v;
                        choice =
                            chosen_of-IsChoice compare_le s b primary v b.fallback_validator_id refl
                              e2;
                        enabled = enabled;
                        answer = answer;
                      }
                ]
          ]
    ]
