-- ===== src/Idempotency/Store.antt =====
-- packages/idempotency/src/state-machine.ts: the table `idempotency_keys`, and `claim`, `complete`
-- and `release` over it; with them the update that apps/api/src/db/intent-enqueue.ts makes.
-- A claim's statements are those of one transaction: the advisory lock and the row lock let no other
-- claim of the key run in between, so a claim is one step on the table. `fails` says which statement
-- the database rejects, `free` what pg_try_advisory_xact_lock answers.
pub mod Lookup
pub mod Lifecycle
pub mod Replay
use canton_pillar.Base.{
  ℕ, ◌+◌, String, Bool, true, false, ◌&&◌, not, Option, none, some, List, [], ◌∷◌, ◌++◌, map, Text,
  Result, ok, err, ◌>>=◌, ◌>>◌, require, if◌then◌else◌, str_eq, or_else, find, keep, codes,
}

pub data RowStatus : Type 0 where
  in_progress completed : RowStatus

pub record Stored : Type 0 where
  pub response_status : ℕ
  pub response_body : String

pub record Key : Type 0 where
  pub tenant_id : String
  pub key_hash : String

pub record Row : Type 0 where
  pub key : Key
  pub request_hash : String
  pub method : Text
  pub path_template : Text
  pub api_version : Text
  pub status : RowStatus
  pub operation_id : Option String
  pub request_id : Option String
  pub stored : Option Stored
  pub locked_until : Option ℕ
  pub expires_at : ℕ

abbrev pub Table : Type 0
Table = List Row

pub data Claim : Type 0 where
  new : Claim
  in_progress : Option String → Claim
  completed : Option String → Option Stored → Claim
  conflict : Option String → Claim

pub record ClaimInput : Type 0 where
  pub tenant_id : String
  pub idempotency_key : Text
  pub request_hash : String
  pub route : Option Text
  pub method : Option Text
  pub api_version : Option Text

-- The statements of `claim`, by which one the database may fail at.
pub data Stage : Type 0 where
  begin_tx lock select insert commit rollback : Stage

abbrev pub key_eq : Key → Key → Bool
key_eq a b = str_eq a.tenant_id b.tenant_id && str_eq a.key_hash b.key_hash

abbrev pub find_row : Key → Table → Option Row
find_row k = find (λ row. key_eq row.key k)

-- `where tenant_id=$1 and idempotency_key_hash=$2` on an update.
abbrev pub update_row : Key → (Row → Row) → Table → Table
update_row k f = map (λ row. if key_eq row.key k then f row else row)

unfoldable pub examine : Row → String → Claim
examine row request_hash =
    if not (str_eq row.request_hash request_hash)
    then conflict row.operation_id
    else elim row.status [
      | RowStatus.completed ↦ completed row.operation_id row.stored
      | RowStatus.in_progress ↦ in_progress row.operation_id
    ]

abbrev pub answered : Stored → Row → Row
answered r row = record row { status = RowStatus.completed; stored = some r; locked_until = none }

module _ (sha256 : Text → String) where
  unfoldable pub claim_key : String → Text → Key
  claim_key tenant key = record { tenant_id = tenant; key_hash = sha256 key }

  -- The row that a first claim inserts: a lease of five minutes, kept for `ttl`.
  unfoldable pub new_row : ℕ → ℕ → ClaimInput → Row
  unfolding claim_key
  new_row ttl now input = record {
    key = claim_key input.tenant_id input.idempotency_key;
    request_hash = input.request_hash;
    method = or_else input.method (codes "POST");
    path_template = or_else input.route (codes "unknown");
    api_version = or_else input.api_version (codes "unknown");
    status = RowStatus.in_progress;
    operation_id = none;
    request_id = none;
    stored = none;
    locked_until = some (now + 300000);
    expires_at = now + ttl;
  }

  -- After the advisory lock was answered.
  claim_row : (ttl now : ℕ) → (Stage → Bool) → ClaimInput → Table → Result Stage (Claim × Table)
  unfolding claim_key new_row
  claim_row ttl now fails input t =
      elim (find_row (claim_key input.tenant_id input.idempotency_key) t) [
        | none ↦ do
          require (not (fails insert)) insert
          require (not (fails commit)) commit
          ok (new, t ++ new_row ttl now input ∷ [])
        | some row ↦ do require (not (fails commit)) commit; ok (examine row input.request_hash, t)
      ]

  claim_busy : (Stage → Bool) → Table → Result Stage (Claim × Table)
  claim_busy fails t = do require (not (fails rollback)) rollback; ok (in_progress none, t)

  -- The body of the `try`: what it returns, and the table that it leaves to be committed.
  unfoldable pub claim_tx :
      (ttl now : ℕ) → (Stage → Bool) → Bool → ClaimInput → Table → Result Stage (Claim × Table)
  unfolding claim_row claim_busy
  claim_tx ttl now fails free input t = do
    require (not (fails begin_tx)) begin_tx
    require (not (fails lock)) lock
    if free
        then require (not (fails select)) select >> claim_row ttl now fails input t
        else claim_busy fails t

  -- With the `catch`: a failed statement rolls back and is thrown again.
  unfoldable pub claim :
      (ttl now : ℕ) → (Stage → Bool) → Bool → ClaimInput → Table → Table × Result Stage Claim
  unfolding claim_tx
  claim ttl now fails free input t = elim (claim_tx ttl now fails free input t) [
    | ok (c, t') ↦ (t', ok c)
    | err e ↦ (t, err e)
  ]

  -- `body` is the text of what the driver and the column of type jsonb keep of the response's body.
  unfoldable pub complete : String → Text → ℕ → String → Table → Table
  unfolding claim_key
  complete tenant key status body =
      update_row (claim_key tenant key)
        (answered (record { response_status = status; response_body = body }))

  unfoldable pub is_done : Row → Bool
  is_done row = elim row.status [ RowStatus.completed ↦ true | RowStatus.in_progress ↦ false ]

  -- `delete … where … and status<>'completed'`.
  unfoldable pub release : String → Text → Table → Table
  unfolding claim_key is_done
  release tenant key =
      keep (λ row. not (key_eq row.key (claim_key tenant key) && not (is_done row)))

  unfoldable pub bind_claim_to_operation : String → Text → String → String → Table → Table
  unfolding claim_key
  bind_claim_to_operation tenant key request_id operation_id =
      update_row (claim_key tenant key)
        λ row. record row { request_id = some request_id; operation_id = some operation_id }
