-- ===== src/Registry.antt =====
-- services/validator-registry: the memory store with its repositories, ValidatorPolicy, the resolver
-- and the handlers of src/server.ts. A fresh id is an argument; of the values that requests carry the
-- ones that the service reads are modelled.
pub mod Resolution
pub mod Creation
pub mod Exposure
pub mod Bindings
mod Tests
use canton_pillar.Base.{
  update_first, ◌≡◌, refl, ℕ, Bool, true, false, ◌&&◌, ◌||◌, not, Option, none, some, List, [], ◌∷◌,
  ◌++◌, map, Text, String, Result, ok, err, ◌>>=◌, ◌>>◌, require, if◌then◌else◌, codes, text_eq,
  find, keep, any, is_some, or_else,
}

pub data ProviderStatus : Type 0 where
  pending_verification verified paused disabled : ProviderStatus

pub data ValidatorStatus : Type 0 where
  active degraded disabled : ValidatorStatus

pub data BindingStatus : Type 0 where
  active paused disabled : BindingStatus

pub data HealthStatus : Type 0 where
  healthy degraded unhealthy unknown : HealthStatus

pub record Provider : Type 0 where
  pub id : Text
  pub slug : Text
  pub status : ProviderStatus

pub record Validator : Type 0 where
  pub id : Text
  pub provider_id : Text
  pub network : Text
  pub participant_endpoint_ref : Text
  pub jwt_issuer : Option Text
  pub tls_profile : Option Text
  pub capacity_tier : Text
  pub regions : List Text
  pub status : ValidatorStatus

pub record Binding : Type 0 where
  pub id : Text
  pub tenant_id : Text
  pub network : Text
  pub default_validator_id : Text
  pub fallback_validator_id : Option Text
  pub livemode : Bool
  pub status : BindingStatus

pub record Health : Type 0 where
  pub validator_id : Text
  pub health_status : HealthStatus
  pub sampled_at : Text

pub data Audit : Type 0 where
  provider_verified : (provider_id : Text) → Audit
  validator_activated : (validator_id : Text) → Audit

pub record Store : Type 0 where
  pub providers : List Provider
  pub validators : List Validator
  pub bindings : List Binding
  pub health : List Health
  pub audit : List Audit

abbrev pub memory_store : Store
memory_store = record { providers = []; validators = []; bindings = []; health = []; audit = [] }

abbrev pub is_verified : ProviderStatus → Bool
is_verified verified = true
is_verified pending_verification = false
is_verified paused = false
is_verified disabled = false

abbrev pub is_active : ValidatorStatus → Bool
is_active active = true
is_active degraded = false
is_active disabled = false

abbrev pub is_disabled : ValidatorStatus → Bool
is_disabled disabled = true
is_disabled active = false
is_disabled degraded = false

abbrev pub is_bound : BindingStatus → Bool
is_bound active = true
is_bound paused = false
is_bound disabled = false

abbrev pub is_unhealthy : Option Health → Bool
is_unhealthy none = false
is_unhealthy (some h) = elim h.health_status [
  | unhealthy ↦ true
  | healthy ↦ false
  | degraded ↦ false
  | unknown ↦ false
]

-- The repositories: the first element with the id.
abbrev pub get_provider : Text → Store → Option Provider
get_provider id s = find (λ p. text_eq p.id id) s.providers

abbrev pub get_validator : Text → Store → Option Validator
get_validator id s = find (λ v. text_eq v.id id) s.validators

abbrev pub active_binding : Text → Text → Store → Option Binding
active_binding tenant network s =
    find (λ b. text_eq b.tenant_id tenant && text_eq b.network network && is_bound b.status)
      s.bindings

abbrev pub same_slot : Binding → Binding → Bool
same_slot b x = text_eq x.tenant_id b.tenant_id && text_eq x.network b.network

unfoldable pub upsert : Binding → List Binding → List Binding
upsert b [] = b ∷ []
upsert b (x ∷ xs) = if same_slot b x then b ∷ xs else x ∷ upsert b xs

-- `HealthRepo.latest`: the first after a stable sort by falling time; `compare_le` is localeCompare.
abbrev pub newer : (Text → Text → Bool) → Health → Option Health → Option Health
newer compare_le h none = some h
newer compare_le h (some k) = if compare_le k.sampled_at h.sampled_at then some h else some k

abbrev pub latest_of : (Text → Text → Bool) → List Health → Option Health
latest_of compare_le [] = none
latest_of compare_le (h ∷ hs) = newer compare_le h (latest_of compare_le hs)

unfoldable pub latest : (Text → Text → Bool) → Text → Store → Option Health
latest compare_le id s = latest_of compare_le (keep (λ h. text_eq h.validator_id id) s.health)

pub data RegistryError : Type 0 where
  network_binding_unavailable validator_not_found provider_not_found provider_not_verified
        binding_not_found :
      RegistryError

pub record Resolved : Type 0 where
  pub tenant_id : Text
  pub network : Text
  pub validator_id : Text
  pub participant_endpoint_ref : Text
  pub jwt_issuer : Option Text
  pub tls_profile : Option Text
  pub capacity_tier : Text
  pub regions : List Text
  pub fallback_used : Bool

abbrev pub primary_down : Validator → Option Health → Bool
primary_down primary h = not (is_active primary.status) || is_unhealthy h

-- A fallback that is missing or empty is falsy.
abbrev pub chosen_of : Store → Bool → Validator → Option Text → Option Validator
chosen_of s down primary none = some primary
chosen_of s down primary (some []) = some primary
chosen_of s down primary (some (c ∷ id)) = if down then get_validator (c ∷ id) s else some primary

abbrev pub answer_of :
    (tenant network : Text) → Validator → Option Validator → Result RegistryError Resolved
answer_of tenant network primary none = err network_binding_unavailable
answer_of tenant network primary (some v) =
    if is_disabled v.status
    then err network_binding_unavailable
    else ok (record {
      tenant_id = tenant;
      network = network;
      validator_id = v.id;
      participant_endpoint_ref = v.participant_endpoint_ref;
      jwt_issuer = v.jwt_issuer;
      tls_profile = v.tls_profile;
      capacity_tier = v.capacity_tier;
      regions = v.regions;
      fallback_used = not (text_eq v.id primary.id);
    })

abbrev pub resolve_primary :
    (Text → Text → Bool)
    → (tenant network : Text) → Store
    → Binding
    → Option Validator
    → Result RegistryError Resolved
resolve_primary compare_le tenant network s b none = err validator_not_found
resolve_primary compare_le tenant network s b (some primary) = answer_of tenant network primary (
    chosen_of s (primary_down primary (latest compare_le primary.id s)) primary
      b.fallback_validator_id)

abbrev pub resolve_bound :
    (Text → Text → Bool)
    → (tenant network : Text) → Store
    → Option Binding
    → Result RegistryError Resolved
resolve_bound compare_le tenant network s none = err network_binding_unavailable
resolve_bound compare_le tenant network s (some b) =
    resolve_primary compare_le tenant network s b (get_validator b.default_validator_id s)

unfoldable pub resolve_validator_for_tenant :
    (Text → Text → Bool) → (tenant network : Text) → Store → Result RegistryError Resolved
unfolding latest
resolve_validator_for_tenant compare_le tenant network s =
    resolve_bound compare_le tenant network s (active_binding tenant network s)

-- `exposedValidators`.
unfoldable pub exposed_validators : Store → List Validator
exposed_validators s =
    keep
      (λ v.
        any (λ p. is_verified p.status && text_eq p.id v.provider_id) s.providers
        && not (is_disabled v.status))
      s.validators

-- The handlers that change the store.
unfoldable pub verify_provider : Text → Store → Result RegistryError Store
verify_provider id s =
    require (is_some (get_provider id s)) provider_not_found
    >> ok (record s {
      providers =
          update_first (λ p. text_eq p.id id) (λ p. record p { status = verified }) s.providers;
      audit = s.audit ++ provider_verified id ∷ [];
    })

abbrev pub activate_with : Text → Store → Option Provider → Result RegistryError Store
activate_with id s none = err provider_not_found
activate_with id s (some p) =
    require (is_verified p.status) provider_not_verified
    >> ok (record s {
      validators =
          update_first (λ v. text_eq v.id id) (λ v. record v { status = active }) s.validators;
      audit = s.audit ++ validator_activated id ∷ [];
    })

abbrev pub activate_found : Text → Store → Option Validator → Result RegistryError Store
activate_found id s none = err validator_not_found
activate_found id s (some v) = activate_with id s (get_provider v.provider_id s)

unfoldable pub activate_validator : Text → Store → Result RegistryError Store
activate_validator id s = activate_found id s (get_validator id s)

unfoldable pub upsert_binding : Binding → Store → Store
unfolding upsert
upsert_binding b s = record s { bindings = upsert b s.bindings }

unfoldable pub pause_binding : Text → Store → Result RegistryError Store
pause_binding id s =
    require (is_some (find (λ b. text_eq b.id id) s.bindings)) binding_not_found
    >> ok (record s {
      bindings = update_first (λ b. text_eq b.id id) (λ b. record b { status = paused }) s.bindings;
    })
