-- ===== src/Api/Auth/Granted.antt =====
-- What a request that passes the authentication has shown.
use canton_pillar.Base.{
  ◌≡◌, ap, sym, ◌∙◌, ℕ, Bool, true, false, ◌&&◌, not, Option, some, List, [], ◌∷◌, Text, Result, ok,
  codes, text_eq, text_eq_sound, find, any, arith, Bool-cases, Option-cases, inl, inr, is_some,
}
use canton_pillar.Api.Auth.{
  KeyRow, ApiKeyLookup, unexpired, is_usable, lookup_of, lookup_api_key, AuthRequest, Principal,
  is_open, or_demo, is_admin, needs_admin, authorized, bearer_of, authenticate, auth_hook,
  parse_scopes,
}
use canton_pillar.Api.Errors.{PillarError}

-- The bearer token's hash is that of an active row that has not expired, and the principal is the
-- row's; where the admin scope is needed, the row has it.
pub record IsGranted (sha256 : Text → Text) (json_array : Text → Option (List Text)) (now : ℕ)
    (rows : List KeyRow) (r : AuthRequest) (p : Principal) : Type 0 where
  pub token : Text
  pub presented : bearer_of r.authorization ≡ some token
  pub row : KeyRow
  pub found : find (is_usable now (sha256 token)) rows ≡ some row
  pub same_hash : row.key_hash ≡ sha256 token
  pub is_active : row.status ≡ codes "active"
  pub in_time : unexpired now row.expires_at ≡ true
  pub account : p.account_id ≡ row.tenant_id
  pub mode : p.livemode ≡ text_eq row.mode (codes "live")
  pub scopes : p.scopes ≡ parse_scopes json_array row.scopes
  pub admin : (needs_admin r && not (any (text_eq (codes "admin")) p.scopes)) ≡ false

find-true :
    (p : KeyRow → Bool) (rows : List KeyRow) {row : KeyRow} → find p rows ≡ some row → p row ≡ true
find-true p [] h = absurd (ground arith)
find-true p (x ∷ rows) {row} h = elim (Bool-cases (p x)) [
  | inl e ↦ ap p (sym (let q : x ≡ row = ground arith in q)) ∙ e
  | inr e ↦ find-true p rows (simp e at h)
]

abbrev passed : Principal → Result PillarError (Option Principal)
passed p = ok (some p)

authorized-ok :
    (r : AuthRequest) (key : ApiKeyLookup) (p : Principal)
    → authorized r (some key) ≡ ok (some p)
    → (p ≡ record {
      key_id = key.key_id;
      livemode = key.livemode;
      scopes = key.scopes;
      account_id = key.tenant_id;
    })
      × ((needs_admin r && not (is_admin key)) ≡ false)
authorized-ok r key p h = elim (Bool-cases (needs_admin r && not (is_admin key))) [
  | inl e ↦ absurd (ground arith)
  | inr e ↦ (
    let q : authorized r (some key)
            ≡ ok (
                some (record {
                  key_id = key.key_id;
                  livemode = key.livemode;
                  scopes = key.scopes;
                  account_id = key.tenant_id;
                })) =
          simp e in
        some_ok _ p (sym q ∙ h),
    e,
  )
]
  where
    some_ok : (a b : Principal) → passed a ≡ ok (some b) → b ≡ a
    some_ok a b k = ground arith

authenticate-IsGranted :
    (sha256 : Text → Text) (json_array : Text → Option (List Text)) (now : ℕ) (rows : List KeyRow)
    (r : AuthRequest) (p : Principal) (token : Text)
    → bearer_of r.authorization ≡ some token
    → authenticate sha256 json_array false now rows r (some token) ≡ ok (some p)
    → IsGranted sha256 json_array now rows r p
unfolding lookup_api_key
authenticate-IsGranted sha256 json_array now rows r p token shown h =
    elim (Option-cases (find (is_usable now (sha256 token)) rows)) [
      | inl e ↦
          absurd (
            ground (arith, ap (λ o. authorized r (or_demo false token (lookup_of json_array o))) e))
      | inr (row, e) ↦
          let key : ApiKeyLookup = record {
            key_id = row.id;
            tenant_id = row.tenant_id;
            scopes = parse_scopes json_array row.scopes;
            livemode = text_eq row.mode (codes "live");
            status = row.status;
          } in
          let (same, admin) =
            authorized-ok r key p
              (sym (ap (λ o. authorized r (or_demo false token (lookup_of json_array o))) e) ∙ h) in
          let usable = find-true (is_usable now (sha256 token)) rows e in
          record {
            token = token;
            presented = shown;
            row = row;
            found = e;
            same_hash = text_eq_sound row.key_hash (sha256 token) (ground arith);
            is_active = text_eq_sound row.status (codes "active") (ground arith);
            in_time = ground arith;
            account = ap (λ x. x.account_id) same;
            mode = ap (λ x. x.livemode) same;
            scopes = ap (λ x. x.scopes) same;
            admin =
                ap (λ l. needs_admin r && not (any (text_eq (codes "admin")) l))
                  (ap (λ x. x.scopes) same)
                ∙ admin;
          }
    ]

-- Outside the demo mode, a request that passes with credentials showed a bearer token whose hash is
-- that of an active key that has not expired, and gets that key's tenant, mode and scopes; where the
-- route needs the admin scope, the key has it.
pub auth_hook-IsGranted :
    (sha256 : Text → Text) (json_array : Text → Option (List Text)) (now : ℕ) (rows : List KeyRow)
    (r : AuthRequest) (p : Principal)
    → auth_hook sha256 json_array false now rows r ≡ ok (some p)
    → IsGranted sha256 json_array now rows r p
unfolding auth_hook
auth_hook-IsGranted sha256 json_array now rows r p h =
    elim (Bool-cases (is_open r.url && not (is_some r.authorization))) [
      | inl e ↦ absurd (ground arith)
      | inr e ↦ elim (Option-cases (bearer_of r.authorization)) [
        | inl none' ↦
            absurd (ground (arith, ap (authenticate sha256 json_array false now rows r) none'))
        | inr (token, shown) ↦
            authenticate-IsGranted sha256 json_array now rows r p token shown
              (sym (ap (authenticate sha256 json_array false now rows r) shown) ∙ (simp e at h))
      ]
    ]
