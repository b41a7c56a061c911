-- ===== src/Api/Idempotency.antt =====
-- apps/api/src/middleware/idempotency.ts: the hooks preHandler, onSend and onError; and the memory
-- store of apps/api/src/http/idempotency-store.ts. A request runs through preHandler, then its
-- handler unless a hook has replied or thrown, then onError if something was thrown, then onSend
-- with what is sent. The table of claims and the memory store are the state.
pub mod Lifecycle
pub mod Memory
use canton_pillar.Base.{
  ◌≡◌, refl, ℕ, ◌+◌, String, Bool, true, false, ◌&&◌, ◌||◌, not, Option, none, some, List, [], ◌∷◌,
  ◌++◌, Text, Result, ok, err, if◌then◌else◌, ltb, leb, codes, text_eq, length, keep, find, or_else,
}
use canton_pillar.Idempotency.Store.{
  Table, Stage, Claim, new, in_progress, completed, conflict, ClaimInput, Stored, claim, complete,
  release,
}
use canton_pillar.Idempotency.Canonical.{Json, str, obj, end, field}
use canton_pillar.Idempotency.Canonical.Print.{stringify}
use canton_pillar.Idempotency.Canonical.Request.{CanonicalRequest, canonical_request_hash}
use canton_pillar.Api.Errors.{PillarError, idempotency, Thrown, pillar, other}
use canton_pillar.Api.PathTemplate.{is_mutating_post, path_template}

-- The parts of a request that the hooks read. A header given several times is no string.
pub record Request : Type 0 where
  pub method : Text
  pub url : Text
  pub idempotency_key : Option Text
  pub account_id : String
  pub livemode : Bool
  pub api_version : Text
  pub version_header : Option Text
  pub body : Option Json
  pub router_url : Option Text
  pub router_prefix : Text

-- What is sent: a status, and a payload that is JSON text or no JSON.
pub record Reply : Type 0 where
  pub status : ℕ
  pub payload : Option String

pub data Mode : Type 0 where
  db memory : Mode

pub record ClaimState : Type 0 where
  pub tenant_id : String
  pub key : Text
  pub request_hash : String
  pub operation_id : Option String
  pub mode : Mode

-- `CachedResponse`; the body is there once the response was sent.
pub record CachedResponse : Type 0 where
  pub key : Text
  pub hash : Text
  pub status_code : Option ℕ
  pub body : Option String
  pub expires_at : ℕ

abbrev pub MemoryStore : Type 0
MemoryStore = List CachedResponse

unfoldable pub clear_expired : ℕ → MemoryStore → MemoryStore
clear_expired now = keep (λ v. not (ltb v.expires_at now))

abbrev pub cached : Text → MemoryStore → Option CachedResponse
cached key = find (λ v. text_eq v.key key)

-- `Map.set`.
unfoldable pub set_cached : CachedResponse → MemoryStore → MemoryStore
set_cached v [] = v ∷ []
set_cached v (w ∷ m) = if text_eq w.key v.key then v ∷ m else w ∷ set_cached v m

-- The decision of a preHandler hook.
pub data Decision : Type 0 where
  -- Go on to the handler, with the claim that onSend and onError will find.
  pass : Option ClaimState → Decision
  -- `reply.status(…).send(…)`, for a stored response and for 202 with an operation id.
  replay : Stored → Decision
  processing : Option String → Decision
  throws : Thrown → Decision

abbrev pub key_required : Thrown
key_required = pillar (idempotency "idempotency_key_required" "Idempotency-Key is required." 400)

abbrev pub key_reused : Thrown
key_reused = pillar (
    idempotency "idempotency_key_reused"
      "This idempotency key was already used with different request parameters." 409)

-- What every request of the process shares: the two stores and the clock.
pub record State : Type 0 where
  pub table : Table
  pub cache : MemoryStore

-- `hash` is sha256 in hexadecimal digits, `compare_le` is localeCompare, `ttl` the store's ttlMs.
module _ (compare_le : Text → Text → Bool) (hash : Text → String) (ttl : ℕ) where
  unfoldable pub route_of : Request → Text
  unfolding path_template
  route_of request = path_template request.router_url request.router_prefix request.url

  unfoldable pub request_hash : Request → String
  unfolding route_of
  request_hash request = canonical_request_hash compare_le hash (record {
    method = request.method;
    path_template = none;
    path_template_camel = some (route_of request);
    api_version = none;
    api_version_camel = some request.api_version;
    body = request.body;
    headers = [];
    headers_subset = (codes "Pillar-Version", request.version_header) ∷ [];
  })

  -- `bodyHash({ requestHash })`.
  unfoldable pub body_hash : String → Text
  body_hash h = codes (hash (stringify (obj (field (codes "requestHash") (str (codes h)) end))))

  -- `idemKey(tenantId, livemode, method, route, key)`.
  unfoldable pub idem_key : Request → Text → Text
  unfolding route_of
  idem_key request key =
      codes request.account_id
      ++ b':'
        ∷ (codes (if request.livemode then "true" else "false")
            ++ b':' ∷ (request.method ++ b':' ∷ (route_of request ++ b':' ∷ key)))

  unfoldable pub claim_input : Request → Text → ClaimInput
  unfolding request_hash
  claim_input request key = record {
    tenant_id = request.account_id;
    idempotency_key = key;
    request_hash = request_hash request;
    route = some (route_of request);
    method = some request.method;
    api_version = some request.api_version;
  }

  -- The switch on the claim.
  unfoldable pub decide : ClaimState → Claim → Decision
  decide state (conflict operation) = throws key_reused
  decide state (completed operation (some r)) = replay r
  decide state (completed operation none) = pass (some (record state { operation_id = operation }))
  decide state (in_progress operation) = processing operation
  decide state new = pass (some state)

  -- The branch of preHandler for the database; a failed claim is thrown.
  unfoldable pub claim_db : ℕ → (Stage → Bool) → Bool → Request → Text → Table → Table × Decision
  unfolding claim_input decide
  claim_db now fails free request key t =
      let (t', answer) = claim hash ttl now fails free (claim_input request key) t in
      (
        t',
        elim answer [
          | err e ↦ throws (other none)
          | ok c ↦
              decide
                (record {
                  tenant_id = request.account_id;
                  key = key;
                  request_hash = request_hash request;
                  operation_id = none;
                  mode = db;
                })
                c
        ],
      )

  -- The branch of preHandler for the memory store.
  unfoldable pub claim_memory : ℕ → Request → Text → MemoryStore → MemoryStore × Decision
  unfolding clear_expired set_cached body_hash idem_key request_hash
  claim_memory now request key m =
      let m' = clear_expired now m in
      let store_key = idem_key request key in
      let h = body_hash (request_hash request) in
      elim (cached store_key m') [
        | some existing ↦
            if not (text_eq existing.hash h) then (m', throws key_reused) else elim existing.body [
              | some body ↦ (
                m',
                replay (record {
                  response_status = or_else existing.status_code 200;
                  response_body = body;
                }),
              )
              | none ↦ (m', processing none)
            ]
        | none ↦ (
          set_cached
              (record {
                key = store_key;
                hash = h;
                status_code = none;
                body = none;
                expires_at = now + 300000;
              })
              m',
          pass (
              some (record {
                tenant_id = request.account_id;
                key = store_key;
                request_hash = request_hash request;
                operation_id = none;
                mode = memory;
              })),
        )
      ]

  abbrev pub valid_key : Option Text → Option Text
  valid_key none = none
  valid_key (some []) = none
  valid_key (some (c ∷ key)) = if ltb 255 (length (c ∷ key)) then none else some (c ∷ key)

  -- The hook preHandler; `use_memory` is PILLAR_IDEMPOTENCY === 'memory'.
  unfoldable pub pre_handler : Bool → ℕ → (Stage → Bool) → Bool → Request → State → State × Decision
  unfolding is_mutating_post claim_db claim_memory
  pre_handler use_memory now fails free request s =
      if not (is_mutating_post request.method request.url)
      then (s, pass none)
      else elim (valid_key request.idempotency_key) [
        | none ↦ (s, throws key_required)
        | some key ↦
            if use_memory
            then (let (m', d) = claim_memory now request key s.cache in
                (record s { cache = m' }, d))
            else (let (t', d) = claim_db now fails free request key s.table in
                (record s { table = t' }, d))
      ]

  -- `{ ...idempotencyStore.get(key)!, statusCode, body, expiresAt }` put back.
  abbrev pub answered_entry : ℕ → Text → ℕ → String → Option CachedResponse → CachedResponse
  answered_entry now key status body none = record {
    key = key;
    hash = [];
    status_code = some status;
    body = some body;
    expires_at = now + 300000;
  }
  answered_entry now key status body (some v) = record v {
    status_code = some status;
    body = some body;
    expires_at = now + 300000;
  }

  -- The hook onSend. `column` is what the driver and the column of type jsonb make of the value that
  -- `complete` passes for a payload, as JSON text; it is `none` if the statement fails, as it does for
  -- most arrays and strings. A payload that is no JSON is caught, and so is a failed `complete`; then
  -- the claim is released. The payload is sent unchanged.
  unfoldable pub on_send :
      ℕ → (column : String → Option String) → Option ClaimState → Reply → State → State
  unfolding set_cached
  on_send now column none reply s = s
  on_send now column (some c) reply s = if leb 400 reply.status then s else elim reply.payload [
    | none ↦ elim c.mode [
      | db ↦ record s { table = release hash c.tenant_id c.key s.table }
      | memory ↦ s
    ]
    | some body ↦ elim c.mode [
      | db ↦ elim (column body) [
        | none ↦ record s { table = release hash c.tenant_id c.key s.table }
        | some stored ↦ record s {
          table = complete hash c.tenant_id c.key reply.status stored s.table;
        }
      ]
      | memory ↦ record s {
        cache =
            set_cached (answered_entry now c.key reply.status body (cached c.key s.cache)) s.cache;
      }
    ]
  ]

  -- The hook onError.
  unfoldable pub on_error : Option ClaimState → State → State
  on_error none s = s
  on_error (some c) s = elim c.mode [
    | db ↦ record s { table = release hash c.tenant_id c.key s.table }
    | memory ↦ s
  ]
