-- ===== src/Idempotency/Store/Lifecycle.antt =====
-- Histories of the table: what claims return after any sequence of claims, completions, releases
-- and bindings, by any number of requests.
use canton_pillar.Base.{
  ◌≡◌, refl, ◌⊎◌, inl, inr, ap, ℕ, ◌+◌, ◌≤◌, String, Bool, true, false, ◌&&◌, none, some, List, [],
  ◌∷◌, ◌++◌, Text, if◌then◌else◌, arith, Bool-cases, Result, ok, ◌∙◌, &&-true,
}
use mathlib.Core.Path.{subst}
use canton_pillar.Idempotency.Store.{
  Key, Row, Table, Stage, Claim, new, ClaimInput, key_eq, find_row, examine, claim_key, new_row,
  claim_row, claim_busy, claim_tx, claim, complete, release, bind_claim_to_operation,
}
use canton_pillar.Idempotency.Store.Lookup.{
  key_eq_sound, find_row-append_some, find_row-append_none, find_row-release, find_row-update_some,
}

-- What a request may do to the table. `fails` and `free` are the database's answers.
pub data Op : Type 0 where
  claims : (now : ℕ) → (Stage → Bool) → Bool → ClaimInput → Op
  completes : String → Text → ℕ → String → Op
  releases : String → Text → Op
  binds : String → Text → String → String → Op

abbrev pub is_new : Result Stage Claim → Bool
is_new (ok new) = true
is_new _ = false

module _ (sha256 : Text → String) (ttl : ℕ) where
  abbrev pub step : Op → Table → Table
  step (claims now fails free input) t = (claim sha256 ttl now fails free input t).0
  step (completes tenant key status body) t = complete sha256 tenant key status body t
  step (releases tenant key) t = release sha256 tenant key t
  step (binds tenant key rid oid) t = bind_claim_to_operation sha256 tenant key rid oid t

  abbrev pub run : List Op → Table → Table
  run [] t = t
  run (o ∷ os) t = run os (step o t)

  -- How many claims of `k` were answered `new`, and how often `k` was released.
  abbrev won : Key → Op → Table → Bool
  won k (claims now fails free input) t =
      key_eq (claim_key sha256 input.tenant_id input.idempotency_key) k
      && is_new (claim sha256 ttl now fails free input t).1
  won k _ t = false

  unfoldable pub news : Key → List Op → Table → ℕ
  news k [] t = 0
  news k (o ∷ os) t = (if won k o t then 1 else 0) + news k os (step o t)

  abbrev let_go : Key → Op → Bool
  let_go k (releases tenant key) = key_eq (claim_key sha256 tenant key) k
  let_go k _ = false

  unfoldable pub release_count : Key → List Op → ℕ
  release_count k [] = 0
  release_count k (o ∷ os) = (if let_go k o then 1 else 0) + release_count k os

  -- A claim leaves the table, or inserts the row of a key that has none, and says `new`.
  pub claim_effect :
      (now : ℕ) (fails : Stage → Bool) (free : Bool) (input : ClaimInput) (t : Table)
      → ((claim sha256 ttl now fails free input t).0 ≡ t)
          × (is_new (claim sha256 ttl now fails free input t).1 ≡ false)
        ⊎ (find_row (claim_key sha256 input.tenant_id input.idempotency_key) t ≡ none)
          × ((claim sha256 ttl now fails free input t).0 ≡ t ++ new_row sha256 ttl now input ∷ [])
          × (is_new (claim sha256 ttl now fails free input t).1 ≡ true)
  unfolding claim claim_tx claim_row claim_busy examine
  claim_effect now fails free input t = ground arith

  find_row-step :
      (k : Key) (o : Op) (t : Table) {row : Row}
      → find_row k t ≡ some row
      → let_go k o ≡ false
      → (row' : Row) × (find_row k (step o t) ≡ some row')
  unfolding complete bind_claim_to_operation
  find_row-step k (claims now fails free input) t {row} h _ =
      elim (claim_effect now fails free input t) [
        | inl same ↦ (row, rw same.0 h)
        | inr (absent, grown, fresh) ↦ (row, rw grown (find_row-append_some k t _ h))
      ]
  find_row-step k (completes tenant key status body) t {row} h _ =
      (_, find_row-update_some k (claim_key sha256 tenant key) _ t (λ r. refl) h)
  find_row-step k (releases tenant key) t {row} h kept =
      (row, find_row-release k sha256 tenant key t h (inl kept))
  find_row-step k (binds tenant key rid oid) t {row} h _ =
      (_, find_row-update_some k (claim_key sha256 tenant key) _ t (λ r. refl) h)

  -- A claim of a key that has a row is not answered `new`.
  won-found :
      (k : Key) (o : Op) (t : Table) {row : Row} → find_row k t ≡ some row → won k o t ≡ false
  won-found k (claims now fails free input) t {row} h =
      let k' = claim_key sha256 input.tenant_id input.idempotency_key in
      elim (claim_effect now fails free input t) [
        | inl (_, old) ↦ ground arith
        | inr (absent, _, _) ↦ elim (Bool-cases (key_eq k' k)) [
          | inl e ↦ absurd (ground (arith, key_eq_sound k' k e))
          | inr e ↦ rw e
        ]
      ]
  won-found k _ t h = refl

  found-won :
      (k : Key) (o : Op) (t : Table)
      → won k o t ≡ true
      → (row : Row) × (find_row k (step o t) ≡ some row)
  unfolding new_row
  found-won k (claims now fails free input) t h =
      let k' = claim_key sha256 input.tenant_id input.idempotency_key in
      let both = &&-true (key_eq k' k) (is_new (claim sha256 ttl now fails free input t).1) h in
      elim (claim_effect now fails free input t) [
        | inl (_, old) ↦ absurd (ground (arith, both.1))
        | inr (absent, grown, _) ↦ (
          new_row sha256 ttl now input,
          rw grown (
              find_row-append_none k t _
                (subst (λ x. find_row x t ≡ none) (key_eq_sound k' k both.0) absent)
              ∙ ap (λ b. if b then some (new_row sha256 ttl now input) else none) both.0),
        )
      ]
  found-won k (completes tenant key status body) t h = absurd (ground arith)
  found-won k (releases tenant key) t h = absurd (ground arith)
  found-won k (binds tenant key rid oid) t h = absurd (ground arith)

  news_bounds :
      (k : Key) (os : List Op) (t : Table)
      → (news k os t ≤ 1 + release_count k os)
        × ((row : Row) → find_row k t ≡ some row → news k os t ≤ release_count k os)
  unfolding news release_count
  news_bounds k [] t = (omega arith, λ row h. omega arith)
  news_bounds k (o ∷ os) t =
      let (later, later_found) = news_bounds k os (step o t) in
      (
        elim (Bool-cases (won k o t)) [
          | inl e ↦
              let (row, h) = found-won k o t e in
              let tight = later_found row h in rw e (ground arith)
          | inr e ↦ rw e (ground arith)
        ],
        λ row h.
            let e = won-found k o t h in
            elim (Bool-cases (let_go k o)) [
              | inl gone ↦ rw (e, gone) (omega (arith, later))
              | inr kept ↦
                  let (row', h') = find_row-step k o t h kept in
                  let tight = later_found row' h' in rw (e, kept) (omega (arith, tight))
            ],
      )

-- At most one execution between releases: whatever the requests do, the database answers and the
-- clock says, the claims of a key that are answered `new` are at most one more than its releases.
pub news-le-release_count :
    (sha256 : Text → String) (ttl : ℕ) (k : Key) (os : List Op) (t : Table)
    → news sha256 ttl k os t ≤ 1 + release_count sha256 ttl k os
news-le-release_count sha256 ttl k os t = (news_bounds sha256 ttl k os t).0
