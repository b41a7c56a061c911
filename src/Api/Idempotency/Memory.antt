-- ===== src/Api/Idempotency/Memory.antt =====
-- The memory store of the idempotency hooks, PILLAR_IDEMPOTENCY=memory: what a request that failed
-- leaves for the next one.
use canton_pillar.Base.{
  ◌≡◌, ap, ◌∙◌, ℕ, ◌+◌, ◌≤◌, String, Bool, true, false, Option, none, some, [], ◌∷◌, Text, arith,
  Bool-cases, inl, inr, text_eq, text_eq_refl, ltb,
}
use canton_pillar.Idempotency.Store.{Stage}
use canton_pillar.Api.Idempotency.{
  Request, ClaimState, State, Decision, pass, processing, memory, CachedResponse, MemoryStore,
  cached, clear_expired, set_cached, idem_key, body_hash, request_hash, claim_memory, pre_handler,
  on_send, on_error,
}
use canton_pillar.Api.Idempotency.Lifecycle.{
  Handled, fails_with, accepted, serve, Carries, finish, after_handler,
}

-- An entry that is set is found until its time is over.
cached-set_cached :
    (later : ℕ) (v : CachedResponse) (m : MemoryStore)
    → cached v.key m ≡ none
    → ltb v.expires_at later ≡ false
    → cached v.key (clear_expired later (set_cached v m)) ≡ some v
unfolding clear_expired set_cached
cached-set_cached later v [] h live = simp (live, text_eq_refl v.key)
cached-set_cached later v (w ∷ m) h live = elim (Bool-cases (text_eq w.key v.key)) [
  | inl e ↦ absurd (let h' = simp e at h in ground arith)
  | inr e ↦
      let rest = cached-set_cached later v m (simp e at h) live in
      elim (Bool-cases (ltb w.expires_at later)) [
        | inl old ↦ simp (e, old) rest
        | inr young ↦ simp (e, young, e) rest
      ]
]

module _ (compare_le : Text → Text → Bool) (hash : Text → String) (ttl : ℕ) where
  abbrev claimed : ℕ → Request → Text → CachedResponse
  claimed now request key = record {
    key = idem_key compare_le hash ttl request key;
    hash = body_hash compare_le hash ttl (request_hash compare_le hash ttl request);
    status_code = none;
    body = none;
    expires_at = now + 300000;
  }

  abbrev left : ℕ → Request → Text → State → State
  left now request key s = record s {
    cache = set_cached (claimed now request key) (clear_expired now s.cache);
  }

  abbrev memory_state : Request → Text → ClaimState
  memory_state request key = record {
    tenant_id = request.account_id;
    key = idem_key compare_le hash ttl request key;
    request_hash = request_hash compare_le hash ttl request;
    operation_id = none;
    mode = memory;
  }

  claim_memory-fresh :
      (now : ℕ) (request : Request) (key : Text) (m : MemoryStore)
      → cached (idem_key compare_le hash ttl request key) (clear_expired now m) ≡ none
      → claim_memory compare_le hash ttl now request key m ≡ (
        set_cached (claimed now request key) (clear_expired now m),
        pass (some (memory_state request key)),
      )
  unfolding claim_memory
  claim_memory-fresh now request key m h = ground (arith, h)

  claim_memory-claimed :
      (later : ℕ) (request : Request) (key : Text) (m : MemoryStore) (now : ℕ)
      → cached (idem_key compare_le hash ttl request key) (clear_expired later m)
        ≡ some (claimed now request key)
      → (claim_memory compare_le hash ttl later request key m).1 ≡ processing none
  unfolding claim_memory
  claim_memory-claimed later request key m now h =
      let same =
        text_eq_refl (body_hash compare_le hash ttl (request_hash compare_le hash ttl request)) in
      ground (arith, h, same)

  pre_handler-fresh :
      (now : ℕ) (fails : Stage → Bool) (free : Bool) (request : Request) (key : Text) (s : State)
      → Carries compare_le hash ttl request key
      → cached (idem_key compare_le hash ttl request key) (clear_expired now s.cache) ≡ none
      → pre_handler compare_le hash ttl true now fails free request s
        ≡ (left now request key s, pass (some (memory_state request key)))
  unfolding pre_handler
  pre_handler-fresh now fails free request key s c h =
      simp (c.mutating, c.keyed, claim_memory-fresh now request key s.cache h)

  pre_handler-claimed :
      (later : ℕ) (fails : Stage → Bool) (free : Bool) (request : Request) (key : Text) (s : State)
      (now : ℕ)
      → Carries compare_le hash ttl request key
      → cached (idem_key compare_le hash ttl request key) (clear_expired later s.cache)
        ≡ some (claimed now request key)
      → (pre_handler compare_le hash ttl true later fails free request s).1 ≡ processing none
  unfolding pre_handler
  pre_handler-claimed later fails free request key s now c h =
      simp (c.mutating, c.keyed) (claim_memory-claimed later request key s.cache now h)

  finish-processing :
      (column : String → Option String) (now : ℕ) (handled : Handled) (d : State × Decision)
      → d.1 ≡ processing none
      → (finish compare_le hash ttl now column handled d).1 ≡ accepted none
  unfolding finish
  finish-processing column now handled (s, d) h = ground (arith, h)

-- With the store in memory: if the handler of a mutating request with a valid key that has no live
-- entry throws an error with a status of 400 or more, then the claim stays. If the same request comes
-- next within five minutes, then its handler does not run and it is answered 202 with no operation id.
pub serve-fails_with_memory :
    (compare_le : Text → Text → Bool) (hash : Text → String) (ttl : ℕ)
    (column : String → Option String) (fails : Stage → Bool) (free : Bool) (now later : ℕ)
    (request : Request) (key : Text) (s : State) (status : ℕ) (handled : Handled)
    → Carries compare_le hash ttl request key
    → cached (idem_key compare_le hash ttl request key) (clear_expired now s.cache) ≡ none
    → 400 ≤ status
    → later ≤ now + 300000
    → let first =
        serve compare_le hash ttl true now fails free column (fails_with status) request s in
      (serve compare_le hash ttl true later fails free column handled request first.0).1
      ≡ accepted none
unfolding serve
serve-fails_with_memory compare_le hash ttl column fails free now later request key s status handled
      c fresh high soon =
    let s' = left compare_le hash ttl now request key s in
    let kept : (serve compare_le hash ttl true now fails free column (fails_with status) request
          s).0
        ≡ s' =
      ap (λ d. (finish compare_le hash ttl now column (fails_with status) d).0)
        (pre_handler-fresh compare_le hash ttl now fails free request key s c fresh)
      ∙ (unfold finish after_handler on_send on_error in ground arith) in
    let found =
      cached-set_cached later (claimed compare_le hash ttl now request key)
        (clear_expired now s.cache) fresh (ground arith) in
    ap (λ x. (serve compare_le hash ttl true later fails free column handled request x).1) kept
    ∙ finish-processing compare_le hash ttl column later handled _
        (pre_handler-claimed compare_le hash ttl later fails free request key s' now c found)
