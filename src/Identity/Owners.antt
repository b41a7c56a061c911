-- ===== src/Identity/Owners.antt =====
-- Which memberships a sign-in adds.
use canton_pillar.Base.{
  ◌≡◌, refl, ap, ◌⊎◌, inl, inr, ℕ, false, not, Option, none, some, List, [], ◌∷◌, ◌++◌, Text,
  text_eq, find, arith, Bool-cases, is_some,
}
use canton_pillar.Identity.{
  Membership, MembershipStatus, Role, save, added, add, for_user, is_member,
}
use canton_pillar.Identity.Provisioning.{
  User, Profile, Accounts, NewIds, upsert_google, tenant_for, by_membership, sign_in,
}

save-fresh :
    {A : Type 0} (id_of : A → Text) (row : A) (rows : List A)
    → is_some (find (λ r. text_eq (id_of r) (id_of row)) rows) ≡ false
    → save id_of row rows ≡ rows ++ row ∷ []
save-fresh id_of row [] h = refl
save-fresh id_of row (r ∷ rows) h = elim (Bool-cases (text_eq (id_of r) (id_of row))) [
  | inl e ↦ absurd (let h' = simp e at h in ground arith)
  | inr e ↦ simp e (ap (λ l. r ∷ l) (save-fresh id_of row rows (simp e at h)))
]

-- Nothing was added, or one active membership as an owner, of this user in a tenant where it had none.
abbrev pub AddsOwner : Text → (old members : List Membership) → Type 0
AddsOwner user old members =
    (members ≡ old)
    ⊎ (m : Membership) × (members ≡ old ++ m ∷ [])
      × (m.user_id ≡ user)
      × (m.role ≡ Role.tenant_owner)
      × (m.status ≡ MembershipStatus.active)
      × (find (is_member m.tenant_id user) old ≡ none)
      × (for_user user old ≡ [])

abbrev pub IsFresh : Text → List Membership → Type 0
IsFresh id members = is_some (find (λ m. text_eq m.id id) members) ≡ false

added-AddsOwner :
    (id : Text) (now : ℕ) (tenant user : Text) (members : List Membership) (o : Option Membership)
    → IsFresh id members
    → find (is_member tenant user) members ≡ o
    → for_user user members ≡ []
    → AddsOwner user members
        (added id now tenant user Role.tenant_owner MembershipStatus.active members o).0
added-AddsOwner id now tenant user members (some m) fresh e h = inl refl
added-AddsOwner id now tenant user members none fresh e h =
    inr (_, save-fresh (λ m. m.id) _ members fresh, refl, refl, refl, e, h)

module _ (to_lower : Text → Text) where
  by_membership-AddsOwner :
      (ids : NewIds) (now : ℕ) (profile : Profile) (user : User) (s : Accounts)
      (mine : List Membership)
      → IsFresh ids.membership s.memberships
      → for_user user.id s.memberships ≡ mine
      → AddsOwner user.id s.memberships
          (by_membership to_lower ids now profile user s mine).memberships
  unfolding tenant_for add
  by_membership-AddsOwner ids now profile user s (m ∷ ms) fresh h = inl refl
  by_membership-AddsOwner ids now profile user s [] fresh h =
      added-AddsOwner ids.membership now _ user.id s.memberships _ fresh refl h

  -- A sign-in leaves the memberships as they are, or adds one at the end: an active one of the user who
  -- signs in, as an owner, in a tenant where that user has none, and only if the user has no active
  -- membership. Condition: the identifier of a new membership is not in use.
  pub sign_in-AddsOwner :
      (ids : NewIds) (now : ℕ) (profile : Profile) (s : Accounts)
      → IsFresh ids.membership s.memberships
      → AddsOwner
          (upsert_google ids.user now profile s.users).1.id
          s.memberships
          (sign_in to_lower ids now profile s).0.memberships
  unfolding sign_in
  sign_in-AddsOwner ids now profile s fresh = elim (Bool-cases (not profile.email_verified)) [
    | inl e ↦ simp e (inl refl)
    | inr e ↦
        let (users, user) = upsert_google ids.user now profile s.users in
        simp e
          (by_membership-AddsOwner ids now profile user (record s { users = users }) _ fresh refl)
  ]
