-- ===== src/Identity/Provisioning.antt =====
-- services/identity/src/db/UserRepo.ts, TenantRepo.ts and tenants/TenantProvisioner.ts: what a sign-in
-- does to users, tenants and memberships. `to_lower` is toLowerCase.
use canton_pillar.Base.{
  update_first, ℕ, Bool, ◌&&◌, ◌||◌, not, Option, none, some, List, [], ◌∷◌, map, Text, codes,
  Result, ok, err, if◌then◌else◌, or_else, text_eq, find, leb, is_digit, ◌==◌, split,
}
use canton_pillar.Identity.{Membership, MembershipStatus, Role, save, add, for_user}

pub data UserStatus : Type 0 where
  active disabled deleted : UserStatus

pub record User : Type 0 where
  pub id : Text
  pub google_sub : Text
  pub email : Text
  pub display_name : Option Text
  pub picture_url : Option Text
  pub status : UserStatus
  pub last_login_at : Option ℕ
  pub created_at : ℕ
  pub updated_at : ℕ

-- `billing_status` is active and `default_environment` dev in each tenant that is made here.
pub record Tenant : Type 0 where
  pub id : Text
  pub slug : Text
  pub display_name : Text
  pub created_at : ℕ
  pub updated_at : ℕ

pub record Profile : Type 0 where
  pub sub : Text
  pub email : Text
  pub email_verified : Bool
  pub name : Option Text
  pub picture : Option Text
  pub hd : Option Text

pub record Accounts : Type 0 where
  pub users : List User
  pub tenants : List Tenant
  pub memberships : List Membership

pub data SignInError : Type 0 where
  email_not_verified : SignInError

-- The identifiers that `makeId` gives.
pub record NewIds : Type 0 where
  pub user : Text
  pub tenant : Text
  pub membership : Text

abbrev has_sub : Text → User → Bool
has_sub sub u = text_eq u.google_sub sub

abbrev logged_in : ℕ → Profile → User → User
logged_in now profile u = record u {
  last_login_at = some now;
  updated_at = now;
  email = profile.email;
  display_name = profile.name;
  picture_url = profile.picture;
}

abbrev upserted : Text → ℕ → Profile → List User → Option User → List User × User
upserted id now profile users (some u) =
    (update_first (has_sub profile.sub) (logged_in now profile) users, logged_in now profile u)
upserted id now profile users none =
    let u : User = record {
      id = id;
      google_sub = profile.sub;
      email = profile.email;
      display_name = profile.name;
      picture_url = profile.picture;
      status = UserStatus.active;
      last_login_at = some now;
      created_at = now;
      updated_at = now;
    } in
    (save (λ v. v.id) u users, u)

unfoldable pub upsert_google : Text → ℕ → Profile → List User → List User × User
upsert_google id now profile users =
    upserted id now profile users (find (has_sub profile.sub) users)

-- `[^a-z0-9-]` becomes a dash.
abbrev pub slug_char : ℕ → ℕ
slug_char c = if (leb b'a' c && leb c b'z') || is_digit c || (c == b'-') then c else b'-'

-- An empty text is falsy.
abbrev text_or : Text → Text → Text
text_or [] other = other
text_or (c ∷ s) other = c ∷ s

abbrev second : List Text → Text
second (a ∷ b ∷ rest) = b
second parts = []

module _ (to_lower : Text → Text) where
  unfoldable pub domain_of : Profile → Text
  domain_of profile = map slug_char (
      to_lower (
        text_or (or_else profile.hd [])
          (text_or (second (split b'@' profile.email)) (codes "tenant"))))

  abbrev has_slug : Text → Tenant → Bool
  has_slug slug t = text_eq (to_lower t.slug) (to_lower slug)

  abbrev provided : Text → ℕ → Text → List Tenant → Option Tenant → List Tenant × Tenant
  provided id now slug tenants (some t) = (tenants, t)
  provided id now slug tenants none =
      let t : Tenant = record {
        id = id;
        slug = slug;
        display_name = slug;
        created_at = now;
        updated_at = now;
      } in
      (save (λ t. t.id) t tenants, t)

  -- `findBySlug`, or else `createTenant`.
  unfoldable pub tenant_for : Text → ℕ → Text → List Tenant → List Tenant × Tenant
  tenant_for id now slug tenants = provided id now slug tenants (find (has_slug slug) tenants)

  -- Where the user has no active membership.
  abbrev pub provisioned : NewIds → ℕ → Profile → User → Accounts → Accounts
  provisioned ids now profile user s =
      let (tenants, tenant) = tenant_for ids.tenant now (domain_of profile) s.tenants in
      let (memberships, m) =
        add ids.membership now tenant.id user.id Role.tenant_owner MembershipStatus.active
          s.memberships in
      record s { tenants = tenants; memberships = memberships }

  abbrev pub by_membership : NewIds → ℕ → Profile → User → Accounts → List Membership → Accounts
  by_membership ids now profile user s [] = provisioned ids now profile user s
  by_membership ids now profile user s (m ∷ ms) = s

  unfoldable pub sign_in :
      NewIds → ℕ → Profile → Accounts → Accounts × Result SignInError (User × List Membership)
  unfolding upsert_google tenant_for domain_of add
  sign_in ids now profile s =
      if not profile.email_verified
      then (s, err email_not_verified)
      else (let (users, user) = upsert_google ids.user now profile s.users in
          let s' =
            by_membership ids now profile user (record s { users = users })
              (for_user user.id s.memberships) in
          (s', ok (user, for_user user.id s'.memberships)))
