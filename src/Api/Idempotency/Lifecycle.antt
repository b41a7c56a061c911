-- ===== src/Api/Idempotency/Lifecycle.antt =====
-- A request through the hooks of apps/api/src/middleware/idempotency.ts and its handler, and what
-- a repeated request meets.
use canton_pillar.Base.{
  ◌≡◌, refl, ◌∙◌, ap, ℕ, ◌≤◌, ◌<◌, String, Bool, true, false, Option, none, some, [], ◌∷◌, ◌++◌,
  Text, if◌then◌else◌, arith, str_eq, Bool-cases, inl, inr, eq_iff,
}
use canton_pillar.Idempotency.Store.{
  Table, Row, RowStatus, Stage, Claim, new, in_progress, completed, conflict, ClaimInput, Stored,
  claim, complete, release, claim_key, new_row, find_row, update_row, answered, examine, key_eq,
  is_done,
}
use canton_pillar.Idempotency.Store.Lookup.{find_row-update_self}
use canton_pillar.Idempotency.Store.Replay.{
  no_faults, claim-found, claim-fresh, find_row-new_row, release-new_row, examine-answered,
}
use canton_pillar.Api.Errors.{Thrown}
use canton_pillar.Api.PathTemplate.{is_mutating_post}
use canton_pillar.Api.Idempotency.{
  Request, Reply, ClaimState, State, Decision, pass, replay, processing, throws, db, key_reused,
  request_hash, claim_input, decide, valid_key, pre_handler, on_send, on_error,
}

-- What the handler does: it sends a reply, or throws an error that is rendered with a status.
pub data Handled : Type 0 where
  sends : Reply → Handled
  fails_with : ℕ → Handled

pub data Outcome : Type 0 where
  executed : Handled → Outcome
  replayed : Stored → Outcome
  accepted : Option String → Outcome
  rejected : Thrown → Outcome

module _ (compare_le : Text → Text → Bool) (hash : Text → String) (ttl : ℕ) where
  unfoldable pub after_handler :
      ℕ → (String → Option String) → Option ClaimState → Handled → State → State
  after_handler now column c (sends reply) s = on_send compare_le hash ttl now column c reply s
  after_handler now column c (fails_with status) s =
      on_send compare_le hash ttl now column c (record { status = status; payload = some "error" })
        (on_error compare_le hash ttl c s)

  -- What follows the decision of preHandler.
  unfoldable pub finish :
      ℕ → (String → Option String) → Handled → State × Decision → State × Outcome
  unfolding after_handler
  finish now column handled (s, pass c) = (after_handler now column c handled s, executed handled)
  finish now column handled (s, replay r) = (s, replayed r)
  finish now column handled (s, processing operation) = (s, accepted operation)
  finish now column handled (s, throws e) = (s, rejected e)

  unfoldable pub serve :
      Bool
      → ℕ
      → (Stage → Bool)
      → Bool
      → (String → Option String)
      → Handled
      → Request
      → State
      → State × Outcome
  unfolding finish
  serve use_memory now fails free column handled request s =
      finish now column handled
        (pre_handler compare_le hash ttl use_memory now fails free request s)

  -- The database answers every statement, and grants the advisory lock.
  abbrev pub serve_db : (String → Option String) → ℕ → Handled → Request → State → State × Outcome
  serve_db column now = serve false now no_faults true column

  abbrev state_of : Request → Text → ClaimState
  state_of request key = record {
    tenant_id = request.account_id;
    key = key;
    request_hash = request_hash compare_le hash ttl request;
    operation_id = none;
    mode = db;
  }

  abbrev pub key_of : Request → Text → canton_pillar.Idempotency.Store.Key
  key_of request key = claim_key hash request.account_id key

  -- The request reaches the store with this key.
  pub record Carries (request : Request) (key : Text) : Type 0 where
    pub mutating : is_mutating_post request.method request.url ≡ true
    pub keyed : valid_key compare_le hash ttl request.idempotency_key ≡ some key

  pre_handler-found :
      (now : ℕ) (request : Request) (key : Text) (s : State) (row : Row)
      → Carries request key
      → find_row (key_of request key) s.table ≡ some row
      → pre_handler compare_le hash ttl false now no_faults true request s ≡ (
        s,
        decide compare_le hash ttl
            (state_of request key)
            (examine row (request_hash compare_le hash ttl request)),
      )
  unfolding pre_handler
  pre_handler-found now request key s row c h =
      ground (
        arith,
        claim-found hash ttl now s.table (claim_input compare_le hash ttl request key) row h,
      )

  pre_handler-fresh :
      (now : ℕ) (request : Request) (key : Text) (s : State)
      → Carries request key
      → find_row (key_of request key) s.table ≡ none
      → pre_handler compare_le hash ttl false now no_faults true request s ≡ (
        record s {
          table =
              s.table ++ new_row hash ttl now (claim_input compare_le hash ttl request key) ∷ [];
        },
        pass (some (state_of request key)),
      )
  unfolding pre_handler
  pre_handler-fresh now request key s c h =
      ground
        (arith, claim-fresh hash ttl now s.table (claim_input compare_le hash ttl request key) h)

  serve-found :
      (column : String → Option String) (now : ℕ) (request : Request) (key : Text) (s : State)
      (row : Row) (handled : Handled)
      → Carries request key
      → find_row (key_of request key) s.table ≡ some row
      → serve_db column now handled request s
        ≡ finish now column handled (
          s,
          decide compare_le hash ttl
              (state_of request key)
              (examine row (request_hash compare_le hash ttl request)),
        )
  unfolding serve
  serve-found column now request key s row handled c h =
      ap (finish now column handled) (pre_handler-found now request key s row c h)

  -- The state after a first request that was executed.
  module _ (now : ℕ) (request : Request) (key : Text) (s : State) (c : Carries request key)
      (fresh : find_row (key_of request key) s.table ≡ none) where
    first_row : Row
    first_row = new_row hash ttl now (claim_input compare_le hash ttl request key)

    serve-fresh :
        (column : String → Option String) (handled : Handled)
        → serve_db column now handled request s ≡ (
          after_handler now column
              (some (state_of request key))
              handled
              (record s { table = s.table ++ first_row ∷ [] }),
          executed handled,
        )
    unfolding serve first_row
    serve-fresh column handled =
        ap (finish now column handled) (pre_handler-fresh now request key s c fresh)

    find_row-first : find_row (key_of request key) (s.table ++ first_row ∷ []) ≡ some first_row
    unfolding first_row claim_input
    find_row-first =
        find_row-new_row hash ttl now s.table (claim_input compare_le hash ttl request key) fresh

    first_row-request : first_row.request_hash ≡ request_hash compare_le hash ttl request
    unfolding first_row new_row claim_input
    first_row-request = refl

    first_row-in_progress :
        (first_row.status ≡ RowStatus.in_progress) × (first_row.operation_id ≡ none)
    unfolding first_row new_row
    first_row-in_progress = (refl, refl)

  on_send-stored :
      (column : String → Option String) (now : ℕ) (request : Request) (key : Text) (status : ℕ)
      (payload stored : String) (s : State)
      → column payload ≡ some stored
      → status < 400
      → on_send compare_le hash ttl now column
          (some (state_of request key))
          (record { status = status; payload = some payload })
          s
        ≡ record s {
          table =
              update_row
                (key_of request key)
                (answered (record { response_status = status; response_body = stored }))
                s.table;
        }
  unfolding on_send complete
  on_send-stored column now request key status payload stored s kept low = ground (arith, kept)

  finish-answered :
      (column : String → Option String) (later : ℕ) (again : Request) (key : Text) (s : State)
      (row : Row) (r : Stored) (handled : Handled)
      → row.status ≡ RowStatus.completed
      → row.stored ≡ some r
      → finish later column handled (
        s,
        decide compare_le hash ttl
            (state_of again key)
            (examine row (request_hash compare_le hash ttl again)),
      )
        ≡ (
          s,
          (if str_eq row.request_hash (request_hash compare_le hash ttl again)
              then replayed r
              else rejected key_reused),
        )
  unfolding finish decide
  finish-answered column later again key s row r handled h h' =
      let q = request_hash compare_le hash ttl again in
      let e = examine-answered row r q h h' in
      elim (Bool-cases (str_eq row.request_hash q)) [ inl b ↦ simp (e, b) | inr b ↦ simp (e, b) ]

  finish-in_progress :
      (column : String → Option String) (later : ℕ) (again : Request) (key : Text) (s : State)
      (row : Row) (handled : Handled)
      → row.request_hash ≡ request_hash compare_le hash ttl again
      → row.status ≡ RowStatus.in_progress
      → row.operation_id ≡ none
      → finish later column handled (
        s,
        decide compare_le hash ttl
            (state_of again key)
            (examine row (request_hash compare_le hash ttl again)),
      )
        ≡ (s, accepted none)
  unfolding finish decide examine
  finish-in_progress column later again key s row handled same h h' =
      let q = request_hash compare_le hash ttl again in simp (same, (eq_iff q q).1 refl, h, h')

-- With the store in the database, where every statement succeeds and the advisory lock is granted: a
-- mutating request with a valid key that is free runs its handler. If that leaves the table of keys
-- alone and sends JSON with a status below 400, and the driver and the column keep something of that
-- JSON, then a later request with the same tenant and key does not run its handler and changes
-- nothing: it gets the status and what the column kept if its request hash is the same, and a 409
-- otherwise.
pub serve-sends :
    (compare_le : Text → Text → Bool) (hash : Text → String) (ttl : ℕ)
    (column : String → Option String) (now later : ℕ) (request again : Request) (key : Text)
    (s : State) (status : ℕ) (payload stored : String) (handled : Handled)
    → Carries compare_le hash ttl request key
    → Carries compare_le hash ttl again key
    → again.account_id ≡ request.account_id
    → find_row (key_of compare_le hash ttl request key) s.table ≡ none
    → status < 400
    → column payload ≡ some stored
    → let reply : Reply = record { status = status; payload = some payload } in
      let first = serve_db compare_le hash ttl column now (sends reply) request s in
      (first.1 ≡ executed (sends reply))
      × (serve_db compare_le hash ttl column later handled again first.0 ≡ (
        first.0,
        (if str_eq
              (request_hash compare_le hash ttl request)
              (request_hash compare_le hash ttl again)
            then replayed (record { response_status = status; response_body = stored })
            else rejected key_reused),
      ))
unfolding after_handler
serve-sends compare_le hash ttl column now later request again key s status payload stored handled c
      c' same fresh low kept =
    let r : Stored = record { response_status = status; response_body = stored } in
    let reply : Reply = record { status = status; payload = some payload } in
    let k = key_of compare_le hash ttl request key in
    let row = first_row compare_le hash ttl now request key s c fresh in
    let t = s.table ++ row ∷ [] in
    let s' : State = record s { table = update_row k (answered r) t } in
    let q = request_hash compare_le hash ttl again in
    let first : serve_db compare_le hash ttl column now (sends reply) request s
        ≡ (s', executed (sends reply)) =
      serve-fresh compare_le hash ttl now request key s c fresh column (sends reply)
      ∙ ap (λ x. (x, executed (sends reply)))
          (on_send-stored compare_le hash ttl column now request key status payload stored
            (record s { table = t }) kept low) in
    let found : find_row (key_of compare_le hash ttl again key) s'.table ≡ some (answered r row) =
      ap (λ a. find_row (claim_key hash a key) s'.table) same
      ∙ find_row-update_self k (answered r) t (λ x. refl)
          (find_row-first compare_le hash ttl now request key s c fresh) in
    let second : serve_db compare_le hash ttl column later handled again s'
        ≡ (s', (if str_eq row.request_hash q then replayed r else rejected key_reused)) =
      serve-found compare_le hash ttl column later again key s' (answered r row) handled c' found
      ∙ finish-answered compare_le hash ttl column later again key s' (answered r row) r handled
          refl refl in
    let renamed =
      ap (λ h. (s', (if str_eq h q then replayed r else rejected key_reused)))
        (first_row-request compare_le hash ttl now request key s c fresh) in
    rw first (refl, second ∙ renamed)

-- With the store in the database, where every statement succeeds and the advisory lock is granted: if
-- the handler of a mutating request with a valid key that is free leaves the table of keys alone and
-- throws an error with a status of 400 or more, then the state after the request is the one before it:
-- the claim is gone, and a retry runs its handler again.
pub serve-fails_with :
    (compare_le : Text → Text → Bool) (hash : Text → String) (ttl : ℕ)
    (column : String → Option String) (now later : ℕ) (request : Request) (key : Text) (s : State)
    (status : ℕ) (handled : Handled)
    → Carries compare_le hash ttl request key
    → find_row (key_of compare_le hash ttl request key) s.table ≡ none
    → 400 ≤ status
    → ((serve_db compare_le hash ttl column now (fails_with status) request s).0 ≡ s)
      × ((serve_db compare_le hash ttl column later handled request
            (serve_db compare_le hash ttl column now (fails_with status) request s).0).1
          ≡ executed handled)
unfolding after_handler on_send on_error
serve-fails_with compare_le hash ttl column now later request key s status handled c fresh high =
    let row = first_row compare_le hash ttl now request key s c fresh in
    let s1 : State = record s { table = s.table ++ row ∷ [] } in
    let cleaned : release hash request.account_id key (s.table ++ row ∷ []) ≡ s.table =
      unfold first_row claim_input in
      release-new_row hash ttl now s.table (claim_input compare_le hash ttl request key) fresh in
    let restored : after_handler compare_le hash ttl now column
          (some (state_of compare_le hash ttl request key)) (fails_with status) s1
        ≡ s =
      ground (arith, cleaned) in
    let first =
      serve-fresh compare_le hash ttl now request key s c fresh column (fails_with status)
      ∙ ap (λ x. (x, executed (fails_with status))) restored in
    rw first (
      refl,
      ap (λ x. x.1) (serve-fresh compare_le hash ttl later request key s c fresh column handled),
    )

-- With the store in the database, where every statement succeeds and the advisory lock is granted: if
-- the handler of a mutating request with a valid key that is free binds no operation and sends a
-- status of 400 or more without throwing, then the claim stays. If the same request comes next, at any
-- time, also after the claim's lock has expired, then its handler does not run, it is answered 202
-- with no operation id, and nothing changes.
pub serve-sends_error :
    (compare_le : Text → Text → Bool) (hash : Text → String) (ttl : ℕ)
    (column : String → Option String) (now later : ℕ) (request : Request) (key : Text) (s : State)
    (reply : Reply) (handled : Handled)
    → Carries compare_le hash ttl request key
    → find_row (key_of compare_le hash ttl request key) s.table ≡ none
    → 400 ≤ reply.status
    → let first = serve_db compare_le hash ttl column now (sends reply) request s in
      serve_db compare_le hash ttl column later handled request first.0 ≡ (first.0, accepted none)
unfolding after_handler on_send
serve-sends_error compare_le hash ttl column now later request key s reply handled c fresh high =
    let row = first_row compare_le hash ttl now request key s c fresh in
    let s1 : State = record s { table = s.table ++ row ∷ [] } in
    let kept : after_handler compare_le hash ttl now column
          (some (state_of compare_le hash ttl request key)) (sends reply) s1
        ≡ s1 =
      ground arith in
    let first =
      serve-fresh compare_le hash ttl now request key s c fresh column (sends reply)
      ∙ ap (λ x. (x, executed (sends reply))) kept in
    let found = find_row-first compare_le hash ttl now request key s c fresh in
    let waiting = first_row-in_progress compare_le hash ttl now request key s c fresh in
    let mine = first_row-request compare_le hash ttl now request key s c fresh in
    rw first (
      serve-found compare_le hash ttl column later request key s1 row handled c found
      ∙ finish-in_progress compare_le hash ttl column later request key s1 row handled mine
          waiting.0 waiting.1)
