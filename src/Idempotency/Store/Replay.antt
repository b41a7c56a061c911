-- ===== src/Idempotency/Store/Replay.antt =====
-- What later claims of a completed key return.
use canton_pillar.Base.{
  ◌≡◌, refl, inl, inr, ap, ℕ, String, Bool, true, false, ◌&&◌, not, Option, none, some, List, [],
  ◌∷◌, ◌++◌, Text, if◌then◌else◌, arith, Bool-cases, ok, All, ◌∙◌, str_eq,
}
use canton_pillar.Idempotency.Store.{
  Key, Row, RowStatus, Stored, Table, Stage, new, completed, conflict, ClaimInput, key_eq, find_row,
  update_row, examine, claim_key, new_row, claim_row, claim_tx, claim, complete, release, is_done,
  bind_claim_to_operation, answered,
}
use canton_pillar.Idempotency.Store.Lookup.{
  key_eq_refl, find_row-append_some, find_row-append_none, find_row-release, find_row-update_some,
  find_row-update_self, find_row-update_other,
}
use canton_pillar.Idempotency.Store.Lifecycle.{
  Op, claims, completes, releases, binds, claim_effect, step, run,
}

-- The row of `k` is completed, for this request and with this response.
pub record IsAnswered (k : Key) (request_hash : String) (r : Stored) (t : Table) : Type 0 where
  pub row : Row
  pub found : find_row k t ≡ some row
  pub same_request : row.request_hash ≡ request_hash
  pub finished : row.status ≡ RowStatus.completed
  pub response : row.stored ≡ some r

module _ (sha256 : Text → String) (ttl : ℕ) where
  -- The operation writes no response for `k`.
  abbrev pub AnswersNot : Key → Op → Type 0
  AnswersNot k (completes tenant key status body) = key_eq k (claim_key sha256 tenant key) ≡ false
  AnswersNot k _ = Unit

  step-IsAnswered :
      (k : Key) (q : String) (r : Stored) (o : Op) (t : Table)
      → AnswersNot k o
      → IsAnswered k q r t
      → IsAnswered k q r (step sha256 ttl o t)
  unfolding complete bind_claim_to_operation
  step-IsAnswered k q r (claims now fails free input) t _ a =
      elim (claim_effect sha256 ttl now fails free input t) [
        | inl same ↦ rw same.0 a
        | inr (_, grown, _) ↦ record {
          row = a.row;
          found = rw grown (find_row-append_some k t _ a.found);
          same_request = a.same_request;
          finished = a.finished;
          response = a.response;
        }
      ]
  step-IsAnswered k q r (completes tenant key status body) t other a = record {
    row = a.row;
    found = find_row-update_other k (claim_key sha256 tenant key) _ t (λ x. refl) a.found other;
    same_request = a.same_request;
    finished = a.finished;
    response = a.response;
  }
  step-IsAnswered k q r (releases tenant key) t _ a = record {
    row = a.row;
    found = find_row-release k sha256 tenant key t a.found (inr a.finished);
    same_request = a.same_request;
    finished = a.finished;
    response = a.response;
  }
  step-IsAnswered k q r (binds tenant key rid oid) t _ a =
      let b = key_eq a.row.key (claim_key sha256 tenant key) in
      let bound = record a.row { request_id = some rid; operation_id = some oid } in
      let found = find_row-update_some k (claim_key sha256 tenant key) _ t (λ x. refl) a.found in
      elim (Bool-cases (key_eq a.row.key (claim_key sha256 tenant key))) [
        | inl e ↦ record {
          row = bound;
          found = found ∙ ap (λ b. some (if b then bound else a.row)) e;
          same_request = a.same_request;
          finished = a.finished;
          response = a.response;
        }
        | inr e ↦ record {
          row = a.row;
          found = found ∙ ap (λ b. some (if b then bound else a.row)) e;
          same_request = a.same_request;
          finished = a.finished;
          response = a.response;
        }
      ]

  run-IsAnswered :
      (k : Key) (q : String) (r : Stored) (os : List Op) (t : Table)
      → All (AnswersNot k) os
      → IsAnswered k q r t
      → IsAnswered k q r (run sha256 ttl os t)
  run-IsAnswered k q r [] t _ a = a
  run-IsAnswered k q r (o ∷ os) t (h, hs) a =
      run-IsAnswered k q r os (step sha256 ttl o t) hs (step-IsAnswered k q r o t h a)

-- No statement fails.
abbrev pub no_faults : Stage → Bool
no_faults _ = false

pub claim-found :
    (sha256 : Text → String) (ttl now : ℕ) (t : Table) (input : ClaimInput) (row : Row)
    → find_row (claim_key sha256 input.tenant_id input.idempotency_key) t ≡ some row
    → claim sha256 ttl now no_faults true input t ≡ (t, ok (examine row input.request_hash))
unfolding claim claim_tx claim_row
claim-found sha256 ttl now t input row h = ground arith

pub examine-answered :
    (row : Row) (r : Stored) (request_hash : String)
    → row.status ≡ RowStatus.completed
    → row.stored ≡ some r
    → examine row request_hash ≡ (
        if str_eq row.request_hash request_hash
        then completed row.operation_id (some r)
        else conflict row.operation_id)
unfolding examine
examine-answered row r request_hash h k = ground arith

-- Once a claimed key is completed with a response, then after any further claims, releases and
-- bindings of any keys, and completions of other keys, a claim of the key that the database serves
-- leaves the table alone. It returns the stored response if it is for the same request hash, and a
-- conflict otherwise.
pub claim-complete :
    (sha256 : Text → String) (ttl now : ℕ) (tenant : String) (key : Text) (status : ℕ)
    (body request_hash : String) (t : Table) (row : Row) (os : List Op)
    (route method version : Option Text)
    → find_row (claim_key sha256 tenant key) t ≡ some row
    → All (AnswersNot sha256 ttl (claim_key sha256 tenant key)) os
    → let t' = run sha256 ttl os (complete sha256 tenant key status body t) in
      let input : ClaimInput = record {
        tenant_id = tenant;
        idempotency_key = key;
        request_hash = request_hash;
        route = route;
        method = method;
        api_version = version;
      } in
      let stored : Stored = record { response_status = status; response_body = body } in
      (operation : Option String) × (claim sha256 ttl now no_faults true input t' ≡ (
        t',
        ok (
            if str_eq row.request_hash request_hash
            then completed operation (some stored)
            else conflict operation),
      ))
unfolding complete
claim-complete sha256 ttl now tenant key status body request_hash t row os route method version
      found quiet =
    let k = claim_key sha256 tenant key in
    let r : Stored = record { response_status = status; response_body = body } in
    let a =
      run-IsAnswered sha256 ttl k row.request_hash r os (update_row k (answered r) t) quiet
        (record {
          row = answered r row;
          found = find_row-update_self k (answered r) t (λ x. refl) found;
          same_request = refl;
          finished = refl;
          response = refl;
        }) in
    (
      a.row.operation_id,
      claim-found sha256 ttl now _ _ a.row a.found
          ∙ ap (λ c. (run sha256 ttl os (update_row k (answered r) t), ok c))
              (examine-answered a.row r request_hash a.finished a.response
                ∙ ap
                    (λ q.
                      if str_eq q request_hash
                      then completed a.row.operation_id (some r)
                      else conflict a.row.operation_id)
                    a.same_request),
    )

pub claim-fresh :
    (sha256 : Text → String) (ttl now : ℕ) (t : Table) (input : ClaimInput)
    → find_row (claim_key sha256 input.tenant_id input.idempotency_key) t ≡ none
    → claim sha256 ttl now no_faults true input t ≡ (t ++ new_row sha256 ttl now input ∷ [], ok new)
unfolding claim claim_tx claim_row
claim-fresh sha256 ttl now t input h = ground arith

-- The row of a first claim is found under its key.
pub find_row-new_row :
    (sha256 : Text → String) (ttl now : ℕ) (t : Table) (input : ClaimInput)
    → let k = claim_key sha256 input.tenant_id input.idempotency_key in
      find_row k t ≡ none
      → find_row k (t ++ new_row sha256 ttl now input ∷ []) ≡ some (new_row sha256 ttl now input)
unfolding new_row
find_row-new_row sha256 ttl now t input h =
    let k = claim_key sha256 input.tenant_id input.idempotency_key in
    find_row-append_none k t _ h
    ∙ ap (λ b. if b then some (new_row sha256 ttl now input) else none) (key_eq_refl k)

-- To release the claim that a first claim made leaves the table as it was.
pub release-new_row :
    (sha256 : Text → String) (ttl now : ℕ) (t : Table) (input : ClaimInput)
    → let k = claim_key sha256 input.tenant_id input.idempotency_key in
      find_row k t ≡ none
      → release sha256 input.tenant_id input.idempotency_key
          (t ++ new_row sha256 ttl now input ∷ [])
        ≡ t
unfolding release new_row is_done
release-new_row sha256 ttl now [] input h =
    ap (λ b. if not (b && true) then new_row sha256 ttl now input ∷ [] else [])
      (key_eq_refl (claim_key sha256 input.tenant_id input.idempotency_key))
release-new_row sha256 ttl now (row ∷ t) input h =
    let k = claim_key sha256 input.tenant_id input.idempotency_key in
    elim (Bool-cases (key_eq row.key k)) [
      | inl e ↦ absurd (ground arith)
      | inr e ↦ simp e (ap (λ u. row ∷ u) (release-new_row sha256 ttl now t input (rw e at h)))
    ]
