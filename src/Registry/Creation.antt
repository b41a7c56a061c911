-- ===== src/Registry/Creation.antt =====
-- services/validator-registry/src/server.ts: the handlers that create a provider or a validator, and the
-- binding of a request, from defaults that the body of the request overrides; HealthRepo.append; and
-- ValidatorPolicy.assertBinding, which no handler calls. `id` is the identifier that ulid gives.
use canton_pillar.Base.{
  Bool, true, ◌&&◌, not, Option, none, some, List, [], ◌∷◌, ◌++◌, Text, codes, Result, ok, ◌>>◌,
  require, or_else, text_eq,
}
use canton_pillar.Registry.{
  ProviderStatus, pending_verification, Validator, ValidatorStatus, Binding, BindingStatus, Health,
  Store, is_disabled,
}

-- The fields of a body; one that is missing leaves the default.
pub record ProviderBody : Type 0 where
  pub id : Option Text
  pub slug : Text
  pub status : Option ProviderStatus

pub record ValidatorBody : Type 0 where
  pub id : Option Text
  pub provider_id : Text
  pub network : Text
  pub participant_endpoint_ref : Text
  pub jwt_issuer : Option Text
  pub tls_profile : Option Text
  pub capacity_tier : Option Text
  pub regions : Option (List Text)
  pub status : Option ValidatorStatus

pub record BindingBody : Type 0 where
  pub id : Option Text
  pub tenant_id : Text
  pub network : Text
  pub default_validator_id : Text
  pub fallback_validator_id : Option Text
  pub livemode : Bool
  pub status : Option BindingStatus

unfoldable pub create_provider : Text → ProviderBody → Store → Store
create_provider id body s = record s {
  providers =
      s.providers
      ++ record {
        id = or_else body.id id;
        slug = body.slug;
        status = or_else body.status pending_verification;
      }
        ∷ [];
}

unfoldable pub create_validator : Text → ValidatorBody → Store → Store
create_validator id body s = record s {
  validators =
      s.validators
      ++ record {
        id = or_else body.id id;
        provider_id = body.provider_id;
        network = body.network;
        participant_endpoint_ref = body.participant_endpoint_ref;
        jwt_issuer = body.jwt_issuer;
        tls_profile = body.tls_profile;
        capacity_tier = or_else body.capacity_tier (codes "standard");
        regions = or_else body.regions [];
        status = or_else body.status ValidatorStatus.disabled;
      }
        ∷ [];
}

abbrev pub binding_of : Text → BindingBody → Binding
binding_of id body = record {
  id = or_else body.id id;
  tenant_id = body.tenant_id;
  network = body.network;
  default_validator_id = body.default_validator_id;
  fallback_validator_id = body.fallback_validator_id;
  livemode = body.livemode;
  status = or_else body.status BindingStatus.active;
}

unfoldable pub append_health : Health → Store → Store
append_health h s = record s { health = s.health ++ h ∷ [] }

pub data BindingError : Type 0 where
  livemode_requires_mainnet fallback_network_mismatch validator_disabled : BindingError

abbrev same_network : Validator → Option Validator → Bool
same_network v none = true
same_network v (some f) = text_eq f.network v.network

unfoldable pub assert_binding :
    Binding → Validator → Option Validator → Result BindingError (Unit {0})
assert_binding b v fallback = do
  require (not (b.livemode && not (text_eq v.network (codes "mainnet")))) livemode_requires_mainnet
  require (same_network v fallback) fallback_network_mismatch
  require (not (is_disabled v.status)) validator_disabled
  ok tt
