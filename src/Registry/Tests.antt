-- ===== src/Registry/Tests.antt =====
-- A small registry, and the theorems at it.
use canton_pillar.Base.{
  ◌≡◌, ◌≢◌, ◌↔◌, Any, refl, true, false, none, some, List, [], ◌∷◌, String, codes, text_le,
}
use canton_pillar.Registry.{
  ProviderStatus, Validator, ValidatorStatus, Binding, BindingStatus, HealthStatus, Store,
  memory_store, resolve_validator_for_tenant, Resolved, exposed_validators,
}
use canton_pillar.Registry.Resolution.{Serves, resolve_validator_for_tenant-Serves}
use canton_pillar.Registry.Exposure.{HasVerifiedProvider, exposed_validators_iff}
use canton_pillar.Registry.Creation.{BindingBody, ProviderBody}
use canton_pillar.Registry.Bindings.{
  HaveOwnSlots, RegistryOp, creates_provider, verifies, binds, pauses, registry_run,
  registry_run-HaveOwnSlots,
}

abbrev validator : String → Validator
validator id = record {
  id = codes id;
  provider_id = codes "p";
  network = codes "dev";
  participant_endpoint_ref = codes "ref";
  jwt_issuer = none;
  tls_profile = none;
  capacity_tier = codes "standard";
  regions = codes "eu" ∷ [];
  status = ValidatorStatus.active;
}

abbrev bound : Binding
bound = record {
  id = codes "b1";
  tenant_id = codes "ten";
  network = codes "dev";
  default_validator_id = codes "v1";
  fallback_validator_id = some (codes "v2");
  livemode = false;
  status = BindingStatus.active;
}

abbrev store : Store
store = record {
  providers = record { id = codes "p"; slug = codes "acme"; status = ProviderStatus.verified } ∷ [];
  validators = validator "v1" ∷ validator "v2" ∷ [];
  bindings = bound ∷ [];
  health =
      record {
        validator_id = codes "v1";
        health_status = HealthStatus.unhealthy;
        sampled_at = codes "2026";
      }
      ∷ [];
  audit = [];
}

abbrev fallback : Resolved
fallback = record {
  tenant_id = codes "ten";
  network = codes "dev";
  validator_id = codes "v2";
  participant_endpoint_ref = codes "ref";
  jwt_issuer = none;
  tls_profile = none;
  capacity_tier = codes "standard";
  regions = codes "eu" ∷ [];
  fallback_used = true;
}

resolve_validator_for_tenant-Serves_example :
    Serves text_le store (codes "ten") (codes "dev") fallback
unfolding resolve_validator_for_tenant
resolve_validator_for_tenant-Serves_example =
    resolve_validator_for_tenant-Serves text_le (codes "ten") (codes "dev") store fallback refl

abbrev body : BindingBody
body = record {
  id = some (codes "b1");
  tenant_id = codes "t1";
  network = codes "dev";
  default_validator_id = codes "v1";
  fallback_validator_id = none;
  livemode = false;
  status = none;
}

abbrev provider_body : ProviderBody
provider_body = record { id = some (codes "p"); slug = codes "acme"; status = none }

abbrev registered : List RegistryOp
registered =
    creates_provider (codes "valp_1") provider_body
    ∷ binds (codes "tnb_1") body
    ∷ pauses (codes "b1")
    ∷ binds (codes "tnb_2") body
    ∷ verifies (codes "p")
    ∷ []

registry_run-HaveOwnSlots_example : HaveOwnSlots (registry_run registered memory_store).bindings
registry_run-HaveOwnSlots_example = registry_run-HaveOwnSlots registered

exposed_validators_iff_example : Any (λ w. w ≡ validator "v1") (exposed_validators store) ↔ (
    Any (λ w. w ≡ validator "v1") store.validators
    × ((validator "v1").status ≢ ValidatorStatus.disabled)
    × HasVerifiedProvider store.providers (validator "v1"))
exposed_validators_iff_example = exposed_validators_iff store (validator "v1")
