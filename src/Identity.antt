-- ===== src/Identity.antt =====
-- services/identity/src: the repositories in memory, the invitations to a tenant, and what the
-- first sign-in of a user provisions. A repository is a Map from identifiers, which keeps the order in
-- which they were first set; the rows it holds are the objects themselves, so to change one that was
-- found changes it in the Map. `sha256` is the digest of node:crypto; identifiers, tokens and the clock are
-- arguments.
pub mod Invitations
pub mod Provisioning
pub mod Owners
mod Tests
use canton_pillar.Base.{
  update_first, ◌≡◌, refl, ℕ, ◌+◌, Bool, true, false, ◌&&◌, ◌||◌, not, Option, none, some, List, [],
  ◌∷◌, ◌++◌, Text, codes, Result, ok, err, ◌>>=◌, ◌>>◌, require, if◌then◌else◌, or_else, ltb,
  text_eq, find, keep,
}

pub data Role : Type 0 where
  super_admin tenant_owner tenant_admin tenant_developer tenant_viewer : Role

pub data InvitationStatus : Type 0 where
  pending accepted revoked expired : InvitationStatus

pub record Invitation : Type 0 where
  pub id : Text
  pub tenant_id : Text
  pub email : Text
  pub role : Role
  pub invited_by_user_id : Option Text
  pub token_hash : Text
  pub status : InvitationStatus
  pub expires_at : ℕ
  pub created_at : ℕ

pub data MembershipStatus : Type 0 where
  active invited disabled : MembershipStatus

pub record Membership : Type 0 where
  pub id : Text
  pub tenant_id : Text
  pub user_id : Text
  pub role : Role
  pub status : MembershipStatus
  pub created_at : ℕ
  pub updated_at : ℕ
  pub accepted_at : Option ℕ

-- `rows.set(row.id, row)`: a row of the same identifier is replaced where it stands.
abbrev pub save {ℓ} : {A : Type ℓ} → (A → Text) → A → List A → List A
save id_of row [] = row ∷ []
save id_of row (r ∷ rows) =
    if text_eq (id_of r) (id_of row) then row ∷ rows else r ∷ save id_of row rows

abbrev pub has_hash : Text → Invitation → Bool
has_hash h i = text_eq i.token_hash h

abbrev pub is_pending : InvitationStatus → Bool
is_pending pending = true
is_pending accepted = false
is_pending revoked = false
is_pending expired = false

abbrev pub is_member : Text → Text → Membership → Bool
is_member tenant user m = text_eq m.tenant_id tenant && text_eq m.user_id user

abbrev pub is_active : MembershipStatus → Bool
is_active active = true
is_active invited = false
is_active disabled = false

-- `forUser`.
abbrev pub for_user : Text → List Membership → List Membership
for_user user = keep (λ m. text_eq m.user_id user && is_active m.status)

abbrev accepted_time : ℕ → MembershipStatus → Option ℕ
accepted_time now active = some now
accepted_time now invited = none
accepted_time now disabled = none

abbrev pub added :
    Text
    → ℕ
    → Text
    → Text
    → Role
    → MembershipStatus
    → List Membership
    → Option Membership
    → List Membership × Membership
added id now tenant user role status members (some existing) = (members, existing)
added id now tenant user role status members none =
    let row : Membership = record {
      id = id;
      tenant_id = tenant;
      user_id = user;
      role = role;
      status = status;
      created_at = now;
      updated_at = now;
      accepted_at = accepted_time now status;
    } in
    (save (λ m. m.id) row members, row)

-- A member of the tenant is left as it is.
unfoldable pub add :
    Text
    → ℕ
    → Text
    → Text
    → Role
    → MembershipStatus
    → List Membership
    → List Membership × Membership
add id now tenant user role status members =
    added id now tenant user role status members (find (is_member tenant user) members)

pub record IdentityState : Type 0 where
  pub invitations : List Invitation
  pub memberships : List Membership

pub data InvitationError : Type 0 where
  invalid_invitation : InvitationError

pub record CreateInput : Type 0 where
  pub tenant_id : Text
  pub email : Text
  pub role : Role
  pub invited_by_user_id : Option Text
  pub ttl_ms : Option ℕ

module _ (sha256 : Text → Text) where
  unfoldable pub create : (id token : Text) → ℕ → CreateInput → IdentityState → IdentityState
  create id token now input s =
      let row : Invitation = record {
        id = id;
        tenant_id = input.tenant_id;
        email = input.email;
        role = input.role;
        invited_by_user_id = input.invited_by_user_id;
        token_hash = sha256 token;
        status = pending;
        expires_at = now + or_else input.ttl_ms 604800000;
        created_at = now;
      } in
      record s { invitations = save (λ i. i.id) row s.invitations }

  -- `!inv || inv.status !== 'pending' || inv.expires_at < new Date()`.
  abbrev pub valid_invitation : ℕ → Option Invitation → Result InvitationError Invitation
  valid_invitation now none = err invalid_invitation
  valid_invitation now (some i) =
      if not (is_pending i.status) || ltb i.expires_at now then err invalid_invitation else ok i

  abbrev pub accepted_by :
      Text
      → ℕ
      → Text
      → Text
      → IdentityState
      → Result InvitationError Invitation
      → IdentityState × Result InvitationError Membership
  accepted_by id now token user s (err e) = (s, err e)
  accepted_by id now token user s (ok i) =
      let (members, m) = add id now i.tenant_id user i.role active s.memberships in
      (
        record {
          invitations =
              update_first (has_hash (sha256 token)) (λ i. record i { status = accepted })
                s.invitations;
          memberships = members;
        },
        ok m,
      )

  unfoldable pub accept :
      Text
      → ℕ
      → (token user : Text) → IdentityState
      → IdentityState × Result InvitationError Membership
  unfolding add
  accept id now token user s =
      accepted_by id now token user s
        (valid_invitation now (find (has_hash (sha256 token)) s.invitations))

unfoldable pub revoke : Text → IdentityState → IdentityState
revoke id s = record s {
  invitations =
      update_first (λ i. text_eq i.id id) (λ i. record i { status = revoked }) s.invitations;
}
