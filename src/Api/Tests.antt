-- ===== src/Api/Tests.antt =====
-- Requests and events at concrete inputs, and the theorems at them.
use canton_pillar.Base.{
  Bool, Option, Any, text_eq, ◌≡◌, ◌≤◌, List, refl, arith, String, true, false, none, some, [], ◌∷◌,
  ◌++◌, Text, codes, if◌then◌else◌, str_eq, keep, trim_front, text_le,
}
use canton_pillar.Api.PathTemplate.{is_mutating_post}
use canton_pillar.Api.Idempotency.{clear_expired, Request, Reply, State, key_reused, request_hash}
use canton_pillar.Api.Idempotency.Lifecycle.{
  serve, sends, fails_with, executed, replayed, accepted, rejected, serve_db, Carries, serve-sends,
  serve-fails_with, serve-sends_error,
}
use canton_pillar.Api.RateLimit.{rate_hook}
use canton_pillar.Api.RateLimit.Window.{Asked, admitted, admitted-le}
use canton_pillar.Api.Network.{
  NetworkDb, NetworkRequest, NetworkContext, missing, once, degraded, resolve_network_context,
  resolve_binding,
}
use canton_pillar.Api.Network.Binding.{Backs, IsSupported, resolve_network_context-Backs}
use canton_pillar.Api.Auth.{KeyRow, text, AuthRequest, Principal, auth_hook}
use canton_pillar.Api.Idempotency.Memory.{serve-fails_with_memory}
use canton_pillar.Api.Auth.Granted.{IsGranted, auth_hook-IsGranted}
use canton_pillar.Api.Cache.{cache_get}
use canton_pillar.Api.Cache.Coherence.{Read, read_all, cache_get-read_all}
use canton_pillar.Api.Sse.{SseEvent, Subscriber, Broker, accepts, offer, enqueue}
use canton_pillar.Api.Sse.Invariant.{
  IsValid, publishes, subscribes, reads, closes, apply_all, apply_all-IsValid,
}
use canton_pillar.Api.Sse.Delivery.{offer_all, offer_all-trim_front, offer_all_complete}

abbrev digest : Text → String
digest s = "d"

abbrev post : Request
post = record {
  method = codes "POST";
  url = codes "/v1/holds";
  idempotency_key = some (codes "k");
  account_id = "acc";
  livemode = false;
  api_version = codes "2026-01-01";
  version_header = none;
  body = none;
  router_url = some (codes "/v1/holds");
  router_prefix = [];
}

abbrev empty_state : State
empty_state = record { table = []; cache = [] }

abbrev carried : Carries text_le digest 9 post (codes "k")
carried = record { mutating = unfold is_mutating_post in refl; keyed = refl }

abbrev unchanged : String → Option String
unchanged body = some body

abbrev created : Reply
created = record { status = 201; payload = some "{}" }

serve-sends_example :
    let first = serve_db text_le digest 9 unchanged 1 (sends created) post empty_state in
    (first.1 ≡ executed (sends created))
    × (serve_db text_le digest 9 unchanged 2 (fails_with 500) post first.0 ≡ (
      first.0,
      (if str_eq (request_hash text_le digest 9 post) (request_hash text_le digest 9 post)
          then replayed (record { response_status = 201; response_body = "{}" })
          else rejected key_reused),
    ))
serve-sends_example =
    serve-sends text_le digest 9 unchanged 1 2 post post (codes "k") empty_state 201 "{}" "{}"
      (fails_with 500) carried carried refl refl (omega arith) refl

serve-fails_with_example :
    ((serve_db text_le digest 9 unchanged 1 (fails_with 503) post empty_state).0 ≡ empty_state)
    × ((serve_db text_le digest 9 unchanged 2
          (sends created)
          post
          (serve_db text_le digest 9 unchanged 1 (fails_with 503) post empty_state).0).1
        ≡ executed (sends created))
serve-fails_with_example =
    serve-fails_with text_le digest 9 unchanged 1 2 post (codes "k") empty_state 503 (sends created)
      carried refl (omega arith)

serve-fails_with_memory_example :
    let first =
      serve text_le digest 9 true 1
        (λ stage. false)
        true
        unchanged
        (fails_with 503)
        post
        empty_state in
    (serve text_le digest 9 true 2 (λ stage. false) true unchanged (sends created) post first.0).1
    ≡ accepted none
serve-fails_with_memory_example =
    serve-fails_with_memory text_le digest 9 unchanged (λ stage. false) true 1 2 post (codes "k")
      empty_state 503 (sends created) carried (unfold clear_expired in refl) (omega arith)
      (omega arith)

abbrev refused : Reply
refused = record { status = 501; payload = some "{}" }

serve-sends_error_example :
    let first = serve_db text_le digest 9 unchanged 1 (sends refused) post empty_state in
    serve_db text_le digest 9 unchanged 2 (sends created) post first.0 ≡ (first.0, accepted none)
serve-sends_error_example =
    serve-sends_error text_le digest 9 unchanged 1 2 post (codes "k") empty_state refused
      (sends created) carried refl (omega arith)

abbrev happened : String → SseEvent
happened type = record {
  id = codes "evt_1";
  type = type;
  payload = "{}";
  ts = 0;
  tenant_id = codes "ten";
  livemode = true;
}

abbrev listener : Subscriber
listener = record {
  number = 0;
  tenant_id = codes "ten";
  livemode = true;
  types = "a" ∷ [];
  queue = [];
  last_seen_id = none;
  overflowed = false;
}

abbrev idle : Broker
idle = record {
  capacity = 2;
  subscriber_capacity = 1;
  rings = [];
  subscribers = [];
  next_number = 0;
}

apply_all-IsValid_example : IsValid (
    apply_all
      (subscribes (codes "ten") true (record { types = []; after_id = none })
        ∷ publishes (happened "a")
        ∷ publishes (happened "b")
        ∷ reads 0
        ∷ closes 0
        ∷ [])
      idle)
apply_all-IsValid_example =
    apply_all-IsValid
      (subscribes (codes "ten") true (record { types = []; after_id = none })
        ∷ publishes (happened "a")
        ∷ publishes (happened "b")
        ∷ reads 0
        ∷ closes 0
        ∷ [])
      idle (record { positive = omega arith; rings = tt; queues = tt })

offer_all-trim_front_example :
    (offer_all 1 (happened "a" ∷ happened "b" ∷ happened "a" ∷ []) listener).queue
    ≡ trim_front 1
        ([] ++ keep (λ e. accepts e listener) (happened "a" ∷ happened "b" ∷ happened "a" ∷ []))
offer_all-trim_front_example =
    offer_all-trim_front 1 (happened "a" ∷ happened "b" ∷ happened "a" ∷ []) listener (omega arith)
      (omega arith)

offer_all_complete_example :
    (offer_all 1 (happened "a" ∷ happened "b" ∷ []) listener).queue
    ≡ [] ++ keep (λ e. accepts e listener) (happened "a" ∷ happened "b" ∷ [])
unfolding offer accepts enqueue
offer_all_complete_example = offer_all_complete 1 (happened "a" ∷ happened "b" ∷ []) listener refl

abbrev polls : List Asked
polls = (codes "a", 0) ∷ (codes "a", 1) ∷ (codes "b", 1) ∷ (codes "a", 2) ∷ (codes "a", 60000) ∷ []

admitted_test : admitted 2 0 (codes "a") polls [] ≡ 2
unfolding admitted rate_hook
admitted_test = refl

admitted-le_example : admitted 2 1 (codes "a") polls [] ≤ 2
admitted-le_example =
    admitted-le 2 1 (codes "a") polls []
      (omega arith, (omega arith, (omega arith, (omega arith, (omega arith, tt)))))

abbrev tables : NetworkDb
tables = record {
  demo = false;
  unbound = false;
  bindings =
      record {
        tenant_id = codes "ten";
        network_id = codes "n1";
        default_validator_id = codes "v1";
        is_default = true;
        status = codes "active";
      }
      ∷ [];
  networks = record { id = codes "n1"; kind = codes "mainnet" } ∷ [];
  validators = record { id = codes "v1"; provider_id = codes "p1"; status = codes "degraded" } ∷ [];
}

abbrev browser : NetworkRequest
browser = record {
  tenant = some (codes "ten");
  pillar_network = missing;
  cookie = once (codes "a=b; pillar-network=mainnet");
}

abbrev live : NetworkContext
live = record {
  id = codes "mainnet";
  livemode = true;
  provider_id = some (codes "p1");
  validator_id = some (codes "v1");
  status = some degraded;
}

resolve_network_context-Backs_example :
    IsSupported live.id
    × (live.livemode ≡ text_eq live.id (codes "mainnet"))
    × Any (Backs tables (codes "ten") live.id live) tables.bindings
unfolding resolve_network_context resolve_binding
resolve_network_context-Backs_example =
    resolve_network_context-Backs (λ s. some s) tables browser (codes "ten") live refl refl refl

abbrev key_row : KeyRow
key_row = record {
  id = codes "ak_1";
  tenant_id = codes "ten";
  key_hash = codes "plr_sk_live_x";
  mode = codes "live";
  scopes = text (codes "[]");
  status = codes "active";
  expires_at = some 10;
}

abbrev signed_in : AuthRequest
signed_in = record {
  url = codes "/v1/holds";
  authorization = some (codes "Bearer  plr_sk_live_x");
  expand = [];
}

abbrev principal : Principal
principal = record { key_id = codes "ak_1"; livemode = true; scopes = []; account_id = codes "ten" }

auth_hook-IsGranted_example : IsGranted (λ s. s) (λ s. some []) 9 (key_row ∷ []) signed_in principal
unfolding auth_hook
auth_hook-IsGranted_example =
    auth_hook-IsGranted (λ s. s) (λ s. some []) 9 (key_row ∷ []) signed_in principal refl

abbrev source : Text → Option Text
source key = if text_eq key (codes "k") then some (codes "v") else none

abbrev read : Bool → Read {A = Text} (λ s. s) (λ s. s)
read set_fails = record {
  key = codes "k";
  enabled = true;
  get_fails = false;
  set_fails = set_fails;
}

cache_get-read_all_example :
    (cache_get {A = Text}
      (λ s. s)
      (λ s. s)
      true
      false
      true
      (codes "k")
      (source (codes "k"))
      (read_all {A = Text} (λ s. s) (λ s. s) source (read true ∷ read false ∷ []) [])).1
    ≡ source (codes "k")
cache_get-read_all_example =
    cache_get-read_all {A = Text} (λ s. s) (λ s. s) (λ s. refl) source (read true ∷ read false ∷ [])
      (read true)
