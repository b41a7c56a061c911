-- ===== src/Api/Auth.antt =====
-- apps/api/src/middleware/auth.ts and apps/api/src/repositories/api-key-repo.ts. `sha256` is the digest
-- of node:crypto; `json_array` gives the strings of a text that JSON.parse reads as an array.
pub mod Granted
use canton_pillar.Base.{
  ◌≡◌, refl, ℕ, suc, ◌≤◌, Bool, true, false, ◌&&◌, ◌||◌, not, Option, none, some, List, [], ◌∷◌,
  ◌++◌, Text, String, Result, ok, err, ◌>>=◌, ◌>>◌, require, if◌then◌else◌, codes, text_eq, ltb,
  find, any, drop, starts_with, includes, is_some,
}
use canton_pillar.Idempotency.Decimal.{is_space}
use canton_pillar.Api.Errors.{PillarError, auth, permission}
use canton_pillar.Api.PathTemplate.{span, last}

-- The column `scopes`: an array, a text, or anything else.
pub data ScopesColumn : Type 0 where
  array : List Text → ScopesColumn
  text : Text → ScopesColumn
  other : ScopesColumn

-- A row of config.api_keys.
pub record KeyRow : Type 0 where
  pub id : Text
  pub tenant_id : Text
  pub key_hash : Text
  pub mode : Text
  pub scopes : ScopesColumn
  pub status : Text
  pub expires_at : Option ℕ

pub record ApiKeyLookup : Type 0 where
  pub key_id : Text
  pub tenant_id : Text
  pub scopes : List Text
  pub livemode : Bool
  pub status : Text

abbrev pub or_empty {ℓ} : {A : Type ℓ} → Option (List A) → List A
or_empty none = []
or_empty (some l) = l

abbrev pub parse_scopes : (Text → Option (List Text)) → ScopesColumn → List Text
parse_scopes json_array (array l) = l
parse_scopes json_array (text t) = or_empty (json_array t)
parse_scopes json_array other = []

abbrev pub unexpired : ℕ → Option ℕ → Bool
unexpired now none = true
unexpired now (some t) = ltb now t

-- The `where` clause.
abbrev pub is_usable : ℕ → Text → KeyRow → Bool
is_usable now key_hash row =
    text_eq row.key_hash key_hash
    && text_eq row.status (codes "active")
    && unexpired now row.expires_at

abbrev pub lookup_of : (Text → Option (List Text)) → Option KeyRow → Option ApiKeyLookup
lookup_of json_array none = none
lookup_of json_array (some row) = some (record {
  key_id = row.id;
  tenant_id = row.tenant_id;
  scopes = parse_scopes json_array row.scopes;
  livemode = text_eq row.mode (codes "live");
  status = row.status;
})

unfoldable pub lookup_api_key :
    (Text → Text)
    → (Text → Option (List Text))
    → (demo : Bool) → (now : ℕ) → List KeyRow
    → Text
    → Option ApiKeyLookup
lookup_api_key sha256 json_array demo now rows presented =
    if demo && text_eq presented (codes "plr_sk_test_demo")
    then none
    else lookup_of json_array (find (is_usable now (sha256 presented)) rows)

-- `/^Bearer\s+(.+)$/`: the spaces take all they can, but leave a unit for the token.
abbrev pub token_after : Text → Text → Option Text
token_after [] token = none
token_after (c ∷ spaces) (d ∷ token) = some (d ∷ token)
token_after (c ∷ []) [] = none
token_after (c ∷ d ∷ spaces) [] = one_of (last (d ∷ spaces))
  where
    one_of : Option ℕ → Option Text
    one_of none = none
    one_of (some e) = some (e ∷ [])

abbrev pub bearer_token : Text → Option Text
bearer_token header =
    if starts_with (codes "Bearer") header
    then (let (spaces, token) = span is_space (drop 6 header) in token_after spaces token)
    else none

-- The parts of a request that the hook reads; `expand` holds the values of the query's expand.
pub record AuthRequest : Type 0 where
  pub url : Text
  pub authorization : Option Text
  pub expand : List Text

pub record Principal : Type 0 where
  pub key_id : Text
  pub livemode : Bool
  pub scopes : List Text
  pub account_id : Text

abbrev pub is_open : Text → Bool
is_open url = text_eq url (codes "/v1/health") || text_eq url (codes "/v1/network")

abbrev pub demo_key : Text → ApiKeyLookup
demo_key presented = record {
  key_id = codes "ak_demo_admin";
  tenant_id = codes "acct_demo";
  scopes = codes "*" ∷ codes "admin" ∷ [];
  livemode = includes (codes "_live_") presented;
  status = codes "active";
}

abbrev pub or_demo : Bool → Text → Option ApiKeyLookup → Option ApiKeyLookup
or_demo demo presented (some key) = some key
or_demo true presented none = some (demo_key presented)
or_demo false presented none = none

abbrev pub is_admin : ApiKeyLookup → Bool
is_admin key = any (text_eq (codes "admin")) key.scopes

-- What needs the admin scope.
abbrev pub needs_admin : AuthRequest → Bool
needs_admin r =
    starts_with (codes "/v1/openapi.json") r.url
    || (starts_with (codes "/v1/operations/") r.url
        && any (includes (codes "ledger_trace")) r.expand)

abbrev pub authorized : AuthRequest → Option ApiKeyLookup → Result PillarError (Option Principal)
authorized r none = err (auth "Invalid API key.")
authorized r (some key) =
    if needs_admin r && not (is_admin key)
    then err (permission "Admin scope required.")
    else ok (
        some (record {
          key_id = key.key_id;
          livemode = key.livemode;
          scopes = key.scopes;
          account_id = key.tenant_id;
        }))

abbrev pub bearer_of : Option Text → Option Text
bearer_of none = none
bearer_of (some header) = bearer_token header

module _ (sha256 : Text → Text) (json_array : Text → Option (List Text)) where
  abbrev pub authenticate :
      Bool → ℕ → List KeyRow → AuthRequest → Option Text → Result PillarError (Option Principal)
  authenticate demo now rows r none = err (auth "Missing or invalid API key.")
  authenticate demo now rows r (some presented) =
      authorized r
        (or_demo demo presented (lookup_api_key sha256 json_array demo now rows presented))

  -- The hook: `none` lets a request without credentials pass.
  unfoldable pub auth_hook :
      Bool → ℕ → List KeyRow → AuthRequest → Result PillarError (Option Principal)
  unfolding lookup_api_key
  auth_hook demo now rows r =
      if is_open r.url && not (is_some r.authorization)
      then ok none
      else authenticate demo now rows r (bearer_of r.authorization)
