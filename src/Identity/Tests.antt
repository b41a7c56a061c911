-- ===== src/Identity/Tests.antt =====
-- Invitations and sign-ins at concrete inputs, and the theorems at them.
use canton_pillar.Base.{◌≡◌, refl, ◌≤◌, true, none, List, [], ◌∷◌, Text, codes}
use canton_pillar.Identity.{IdentityState, Role, CreateInput, create, accept, revoke, add}
use canton_pillar.Identity.Invitations.{
  Op, creates, accepts, revokes, step, accepted_count, all_fresh, accepted_count-le,
}
use canton_pillar.Identity.Provisioning.{
  Profile, Accounts, NewIds, upsert_google, domain_of, sign_in,
}
use canton_pillar.Identity.Owners.{AddsOwner, sign_in-AddsOwner}

-- Texts stand for their digests.
abbrev digest : Text → Text
digest s = s

abbrev invite : CreateInput
invite = record {
  tenant_id = codes "ten_1";
  email = codes "a@b.c";
  role = Role.tenant_viewer;
  invited_by_user_id = none;
  ttl_ms = none;
}

abbrev nobody : IdentityState
nobody = record { invitations = []; memberships = [] }

abbrev two_users : List Op
two_users =
    creates (codes "inv_1") (codes "tok") 0 invite
    ∷ accepts (codes "mem_1") 5 (codes "tok") (codes "usr_1")
    ∷ accepts (codes "mem_2") 6 (codes "tok") (codes "usr_2")
    ∷ creates (codes "inv_2") (codes "kot") 7 invite
    ∷ revokes (codes "inv_2")
    ∷ accepts (codes "mem_3") 8 (codes "kot") (codes "usr_2")
    ∷ []

once_test : accepted_count digest (codes "tok") two_users nobody ≡ 1
unfolding accepted_count step create accept revoke add
once_test = refl

revoked_test : accepted_count digest (codes "kot") two_users nobody ≡ 0
unfolding accepted_count step create accept revoke add
revoked_test = refl

fresh_test : all_fresh digest two_users nobody ≡ true
unfolding all_fresh step create accept revoke add
fresh_test = refl

accepted_count-le_example : accepted_count digest (codes "tok") two_users nobody ≤ 1
accepted_count-le_example = accepted_count-le digest (codes "tok") two_users nobody fresh_test

abbrev profile : Profile
profile = record {
  sub = codes "42";
  email = codes "kim@acme.finance";
  email_verified = true;
  name = none;
  picture = none;
  hd = none;
}

abbrev no_accounts : Accounts
no_accounts = record { users = []; tenants = []; memberships = [] }

abbrev new_ids : NewIds
new_ids = record { user = codes "usr_1"; tenant = codes "ten_1"; membership = codes "mem_1" }

domain_test : domain_of digest profile ≡ codes "acme-finance"
unfolding domain_of
domain_test = refl

sign_in-AddsOwner_example :
    AddsOwner
      (upsert_google new_ids.user 5 profile no_accounts.users).1.id
      []
      (sign_in digest new_ids 5 profile no_accounts).0.memberships
sign_in-AddsOwner_example = sign_in-AddsOwner digest new_ids 5 profile no_accounts refl
