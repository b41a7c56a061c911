-- ===== src/Api/Cache.antt =====
-- apps/api/src/cache/ReadThroughCache.ts with the pool of clients of RedisClient.ts and the keys of
-- KeyBuilders.ts. Redis is the value that `get` gives back and a flag that says whether `set` fails;
-- `render` is JSON.stringify on a loaded value, and `parse` is JSON.parse on what it printed.
pub mod Coherence
use canton_pillar.Base.{
  ◌≡◌, refl, ℕ, suc, ◌+◌, ◌%◌, Bool, true, false, Option, none, some, List, [], ◌∷◌, ◌++◌, Text,
  if◌then◌else◌, codes, text_eq, length,
}

pub record CacheScope : Type 0 where
  pub tenant_id : Text
  pub livemode : Bool

abbrev pub livemode_text : Bool → Text
livemode_text true = codes "true"
livemode_text false = codes "false"

unfoldable pub scoped : CacheScope → Text → Text → Text
scoped scope resource id =
    codes "tenant:"
    ++ (scope.tenant_id
        ++ (codes ":livemode:"
            ++ (livemode_text scope.livemode
                ++ (codes ":resource:" ++ (resource ++ (codes ":id:" ++ id))))))

abbrev pub balance_key : CacheScope → (account_id asset_id : Text) → Text
balance_key scope account_id asset_id =
    scoped scope (codes "balance") (account_id ++ b':' ∷ asset_id)

abbrev pub holding_key : CacheScope → Text → Text
holding_key scope holding_id = scoped scope (codes "holding") holding_id

abbrev pub operation_key : CacheScope → Text → Text
operation_key scope operation_id = scoped scope (codes "operation") operation_id

abbrev pub event_key : CacheScope → Text → Text
event_key scope event_id = scoped scope (codes "event") event_id

-- `RedisClientPool`: whether the clients were made, and `next`.
pub record ClientPool : Type 0 where
  pub made : Bool
  pub next : ℕ

abbrev pub pool_size : ℕ
pool_size = 10

pub data Client : Type 0 where
  noop : Client
  redis : ℕ → Client

-- `init` and `client`: without a URL there is one client that does nothing.
unfoldable pub client : Bool → ClientPool → ClientPool × Client
client enabled pool =
    if enabled
    then (record { made = true; next = suc pool.next }, redis (pool.next % pool_size))
    else (record pool { next = suc pool.next }, noop)

-- What `close` leaves, and which clients it quits.
unfoldable pub close : ClientPool → ClientPool × ℕ
close pool = if pool.made then (record pool { made = false }, pool_size) else (pool, 0)

-- The entries of the store.
abbrev pub Entries : Type 0
Entries = List (Text × Text)

abbrev pub entry : Text → Entries → Option Text
entry key [] = none
entry key ((k, v) ∷ es) = if text_eq k key then some v else entry key es

unfoldable pub put : Text → Text → Entries → Entries
put key value [] = (key, value) ∷ []
put key value ((k, v) ∷ es) = if text_eq k key then (key, value) ∷ es else (k, v) ∷ put key value es

module _ {A : Type 0} (render : A → Text) (parse : Text → A) where
  -- A value that was loaded is put, unless the statement fails; `null` is not.
  abbrev pub store_loaded : Text → Bool → Entries → Option A → Entries × Option A
  store_loaded key set_fails es none = (es, none)
  store_loaded key set_fails es (some a) =
      if set_fails then (es, some a) else (put key (render a) es, some a)

  -- An empty text is falsy.
  abbrev pub hit_or : Text → Bool → Entries → Option A → Option Text → Entries × Option A
  hit_or key set_fails es loaded none = store_loaded key set_fails es loaded
  hit_or key set_fails es loaded (some []) = store_loaded key set_fails es loaded
  hit_or key set_fails es loaded (some (c ∷ text)) = (es, some (parse (c ∷ text)))

  -- `ReadThroughCache.get`; `loaded` is what the loader would answer, and an entry whose time is over
  -- is no longer among `es`.
  unfoldable pub cache_get :
      (enabled get_fails set_fails : Bool) → Text → Option A → Entries → Entries × Option A
  unfolding put
  cache_get enabled get_fails set_fails key loaded es =
      if enabled
      then (if get_fails
          then store_loaded key set_fails es loaded
          else hit_or key set_fails es loaded (entry key es))
      else (es, loaded)
