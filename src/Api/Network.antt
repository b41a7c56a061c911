-- ===== src/Api/Network.antt =====
-- apps/api/src/middleware/network.ts and the queries of apps/api/src/repositories/network-repo.ts. The
-- tables are lists, in the order in which a query without `order by` happens to meet their rows;
-- `decode_uri` is decodeURIComponent, which may throw.
pub mod Binding
use canton_pillar.Base.{
  ◌≡◌, refl, ℕ, Bool, true, false, ◌&&◌, ◌||◌, not, Option, none, some, List, [], ◌∷◌, ◌++◌, Text,
  String, Result, ok, err, ◌>>=◌, if◌then◌else◌, codes, text_eq, ◌==◌, split, keep, find, any,
  or_else,
}
use canton_pillar.Idempotency.Decimal.{trim}
use canton_pillar.Api.Errors.{
  PillarError, invalid, pillar_error, permission_error, Thrown, pillar, other,
}

pub data PublicStatus : Type 0 where
  active degraded down : PublicStatus

pub record NetworkBinding : Type 0 where
  pub network : Text
  pub provider_id : Text
  pub validator_id : Text
  pub status : PublicStatus

-- network.tenant_network_bindings, network.networks and network.validators.
pub record BindingRow : Type 0 where
  pub tenant_id : Text
  pub network_id : Text
  pub default_validator_id : Text
  pub is_default : Bool
  pub status : Text

pub record NetworkRow : Type 0 where
  pub id : Text
  pub kind : Text

pub record ValidatorRow : Type 0 where
  pub id : Text
  pub provider_id : Text
  pub status : Text

-- `demo` is useDemo(), and `unbound` is PILLAR_NETWORK_TEST_UNBOUND === 'true'.
pub record NetworkDb : Type 0 where
  pub demo : Bool
  pub unbound : Bool
  pub bindings : List BindingRow
  pub networks : List NetworkRow
  pub validators : List ValidatorRow

abbrev pub to_public_status : Text → PublicStatus
to_public_status status =
    if text_eq status (codes "disabled")
    then down
    else if text_eq status (codes "degraded")
    then degraded
    else active

abbrev pub demo_tenant : Text
demo_tenant = codes "acct_demo"

abbrev pub demo_bindings : List NetworkBinding
demo_bindings =
    record {
      network = codes "devnet";
      provider_id = codes "valp_demo";
      validator_id = codes "val_demo_devnet";
      status = active;
    }
    ∷ record {
      network = codes "testnet";
      provider_id = codes "valp_demo";
      validator_id = codes "val_demo_testnet";
      status = active;
    }
    ∷ record {
      network = codes "mainnet";
      provider_id = codes "valp_demo";
      validator_id = codes "val_demo_mainnet";
      status = active;
    }
    ∷ []

abbrev pub network_of : NetworkDb → BindingRow → Option NetworkRow
network_of d b = find (λ n. text_eq n.id b.network_id) d.networks

abbrev pub validator_of : NetworkDb → BindingRow → Option ValidatorRow
validator_of d b = find (λ v. text_eq v.id b.default_validator_id) d.validators

abbrev pub or_first {ℓ} : {B : Type ℓ} → Option B → Option B → Option B
or_first none rest = rest
or_first (some y) rest = some y

abbrev pub first_some {ℓ κ} : {A : Type ℓ} {B : Type κ} → (A → Option B) → List A → Option B
first_some f [] = none
first_some f (x ∷ xs) = or_first (f x) (first_some f xs)

-- The row of the join for a binding that meets the condition.
abbrev pub default_row : NetworkDb → Text → BindingRow → Option Text
default_row d tenant b =
    if text_eq b.tenant_id tenant && b.is_default && text_eq b.status (codes "active")
    then kind_of (network_of d b)
    else none
  where
    kind_of : Option NetworkRow → Option Text
    kind_of none = none
    kind_of (some n) = some n.kind

unfoldable pub resolve_default_network : NetworkDb → Text → Option Text
resolve_default_network d tenant =
    if d.demo
    then (if text_eq tenant demo_tenant then some (codes "devnet") else none)
    else first_some (default_row d tenant) d.bindings

abbrev pub joined : Text → Option NetworkRow → Option ValidatorRow → Option NetworkBinding
joined network none v = none
joined network (some n) none = none
joined network (some n) (some v) =
    if text_eq n.kind network
    then some (record {
      network = n.kind;
      provider_id = v.provider_id;
      validator_id = v.id;
      status = to_public_status v.status;
    })
    else none

abbrev pub binding_row : NetworkDb → Text → Text → BindingRow → Option NetworkBinding
binding_row d tenant network b =
    if text_eq b.tenant_id tenant && text_eq b.status (codes "active")
    then joined network (network_of d b) (validator_of d b)
    else none

unfoldable pub resolve_binding : NetworkDb → Text → Text → Option NetworkBinding
resolve_binding d tenant network =
    if d.demo
    then (if not (text_eq tenant demo_tenant) || d.unbound
        then none
        else find (λ b. text_eq b.network network) demo_bindings)
    else first_some (binding_row d tenant network) d.bindings

-- A header of the request: given once, several times or not at all.
pub data HeaderValue : Type 0 where
  missing : HeaderValue
  once : Text → HeaderValue
  several : List Text → HeaderValue

abbrev pub header_value : HeaderValue → Option Text
header_value missing = none
header_value (once v) = some v
header_value (several []) = none
header_value (several (v ∷ vs)) = some v

-- `part.slice(0, index)` and `part.slice(index + 1)` at the first equals sign.
abbrev pub cut_at_equals : Text → Text × Option Text
cut_at_equals [] = ([], none)
cut_at_equals (c ∷ s) =
    if c == b'=' then ([], some s) else (let (name, value) = cut_at_equals s in (c ∷ name, value))

abbrev pub assert_network : Text → Result Thrown Text
assert_network value =
    if any (text_eq value) (codes "devnet" ∷ codes "testnet" ∷ codes "mainnet" ∷ [])
    then ok value
    else err (
        pillar (
          invalid "network_invalid" "Pillar-Network must be one of devnet, testnet, or mainnet."
            (some "Pillar-Network")))

-- `tenant` is the account of an authenticated request.
pub record NetworkRequest : Type 0 where
  pub tenant : Option Text
  pub pillar_network : HeaderValue
  pub cookie : HeaderValue

pub record NetworkContext : Type 0 where
  pub id : Text
  pub livemode : Bool
  pub provider_id : Option Text
  pub validator_id : Option Text
  pub status : Option PublicStatus

abbrev pub context : Text → Option NetworkBinding → NetworkContext
context network none = record {
  id = network;
  livemode = text_eq network (codes "mainnet");
  provider_id = none;
  validator_id = none;
  status = none;
}
context network (some b) = record {
  id = network;
  livemode = text_eq network (codes "mainnet");
  provider_id = some b.provider_id;
  validator_id = some b.validator_id;
  status = some b.status;
}

abbrev pub not_bound : Thrown
not_bound = pillar (
    pillar_error permission_error "network_not_bound" 403
      "Tenant is not bound to the requested network." none)

module _ (decode_uri : Text → Option Text) where
  -- `Object.fromEntries` keeps the last value of a name; a value that cannot be decoded throws.
  abbrev pub add_part : Text → Option Text → Option Text → Result Thrown (Option Text)
  add_part name none found = ok (if text_eq name (codes "pillar-network") then some [] else found)
  add_part name (some value) found = elim (decode_uri value) [
    | none ↦ err (other (some "URI malformed"))
    | some v ↦ ok (if text_eq name (codes "pillar-network") then some v else found)
  ]

  abbrev pub cookie_loop : List Text → Option Text → Result Thrown (Option Text)
  cookie_loop [] found = ok found
  cookie_loop (p ∷ ps) found =
      add_part (cut_at_equals p).0 (cut_at_equals p).1 found >>= cookie_loop ps

  -- `parseCookie(header)['pillar-network']`.
  unfoldable pub network_cookie : HeaderValue → Result Thrown (Option Text)
  unfolding trim
  network_cookie missing = ok none
  network_cookie (several vs) = ok none
  network_cookie (once header) =
      cookie_loop (keep (λ p. not (text_eq p [])) (trimmed (split b';' header))) none
    where
      trimmed : List Text → List Text
      trimmed [] = []
      trimmed (p ∷ ps) = trim p ∷ trimmed ps

  unfoldable pub requested_network : NetworkRequest → Result Thrown (Option Text)
  unfolding network_cookie
  requested_network r = or_cookie (header_value r.pillar_network)
    where
      or_cookie : Option Text → Result Thrown (Option Text)
      or_cookie (some v) = ok (some v)
      or_cookie none = network_cookie r.cookie

  abbrev pub default_of : NetworkDb → Option Text → Text
  default_of d none = codes "devnet"
  default_of d (some tenant) = or_else (resolve_default_network d tenant) (codes "devnet")

  -- The binding, and the guard on it.
  abbrev pub bound_context : NetworkDb → Option Text → Text → Result Thrown NetworkContext
  bound_context d none network = ok (context network none)
  bound_context d (some tenant) network = with_binding (resolve_binding d tenant network)
    where
      with_binding : Option NetworkBinding → Result Thrown NetworkContext
      with_binding none = err not_bound
      with_binding (some b) = ok (context network (some b))

  unfoldable pub resolve_network_context : NetworkDb → NetworkRequest → Result Thrown NetworkContext
  unfolding requested_network
  resolve_network_context d r = requested_network r >>= λ requested.
      assert_network (or_else requested (default_of d r.tenant)) >>= λ network.
      bound_context d r.tenant network
