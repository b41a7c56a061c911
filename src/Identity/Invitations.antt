-- ===== src/Identity/Invitations.antt =====
-- Histories of invitations: what acceptances return after any sequence of creations, acceptances and
-- revocations.
use canton_pillar.Base.{
  update_first, ◌≡◌, ◌⊎◌, &&-true, text_eq_sound, refl, sym, ap, ◌∙◌, inl, inr, ℕ, ◌+◌, ◌≤◌, Bool,
  true, false, ◌&&◌, ◌||◌, not, Option, none, some, List, [], ◌∷◌, Text, Result, ok, err,
  if◌then◌else◌, ltb, text_eq, find, arith, Bool-cases, is_some,
}
use mathlib.Core.Path.{subst}
use canton_pillar.Identity.{
  IdentityState, Invitation, InvitationStatus, Membership, CreateInput, InvitationError, save,
  has_hash, is_pending, create, accept, revoke, valid_invitation, accepted_by,
}

pub data Op : Type 0 where
  creates : (id token : Text) → ℕ → CreateInput → Op
  accepts : Text → ℕ → (token user : Text) → Op
  revokes : Text → Op

abbrev is_ok : Result InvitationError Membership → Bool
is_ok (ok m) = true
is_ok (err e) = false

module _ (sha256 : Text → Text) where
  unfoldable pub step : Op → IdentityState → IdentityState
  step (creates id token now input) s = create sha256 id token now input s
  step (accepts id now token user) s = (accept sha256 id now token user s).0
  step (revokes id) s = revoke id s

  -- Whether the operation accepts an invitation with the digest h.
  abbrev wins : Text → Op → IdentityState → Bool
  wins h (accepts id now token user) s =
      text_eq (sha256 token) h && is_ok (accept sha256 id now token user s).1
  wins h o s = false

  unfoldable pub accepted_count : Text → List Op → IdentityState → ℕ
  unfolding step
  accepted_count h [] s = 0
  accepted_count h (o ∷ os) s = (if wins h o s then 1 else 0) + accepted_count h os (step o s)

  -- A new invitation has an identifier that is not in use.
  abbrev is_fresh : Op → IdentityState → Bool
  is_fresh (creates id token now input) s =
      not (is_some (find (λ i. text_eq i.id id) s.invitations))
  is_fresh o s = true

  unfoldable pub all_fresh : List Op → IdentityState → Bool
  unfolding step
  all_fresh [] s = true
  all_fresh (o ∷ os) s = is_fresh o s && all_fresh os (step o s)

-- The first invitation with the digest is not pending.
abbrev settled : Text → List Invitation → Bool
settled h [] = false
settled h (i ∷ is) = if has_hash h i then not (is_pending i.status) else settled h is

settled-find :
    (h : Text) (is : List Invitation)
    → settled h is ≡ true
    → (i : Invitation) × (find (has_hash h) is ≡ some i) × (is_pending i.status ≡ false)
settled-find h [] e = absurd (ground arith)
settled-find h (i ∷ is) e = elim (Bool-cases (has_hash h i)) [
  | inl f ↦ (i, simp f, let e' = simp f at e in ground arith)
  | inr f ↦ let (j, found, done) = settled-find h is (simp f at e) in (j, simp f found, done)
]

settled-update_first :
    (h : Text) (p : Invitation → Bool) (status : InvitationStatus) (is : List Invitation)
    → is_pending status ≡ false
    → settled h is ≡ true
    → settled h (update_first p (λ i. record i { status = status }) is) ≡ true
settled-update_first h p status [] e f = f
settled-update_first h p status (i ∷ is) e f = ground (arith, settled-update_first h p status is)

settled-save :
    (h : Text) (row : Invitation) (is : List Invitation)
    → is_some (find (λ i. text_eq i.id row.id) is) ≡ false
    → settled h is ≡ true
    → settled h (save (λ i. i.id) row is) ≡ true
settled-save h row [] e f = absurd (ground arith)
settled-save h row (i ∷ is) e f = ground (arith, settled-save h row is)

-- To accept the first invitation with the digest settles it.
update_first-settled :
    (h : Text) (is : List Invitation) {i : Invitation}
    → find (has_hash h) is ≡ some i
    → settled h
        (update_first (has_hash h) (λ i. record i { status = InvitationStatus.accepted }) is)
      ≡ true
update_first-settled h [] e = absurd (ground arith)
update_first-settled h (j ∷ is) e = elim (Bool-cases (has_hash h j)) [
  | inl f ↦ simp (f, f)
  | inr f ↦ simp (f, f) (update_first-settled h is (simp f at e))
]

module _ (sha256 : Text → Text) where
  -- An acceptance is refused and changes nothing, or it settles a pending invitation.
  accept_effect :
      (id : Text) (now : ℕ) (token user : Text) (s : IdentityState)
      → (is_ok (accept sha256 id now token user s).1 ≡ false)
          × ((accept sha256 id now token user s).0 ≡ s)
        ⊎ (i : Invitation) × (find (has_hash (sha256 token)) s.invitations ≡ some i)
          × (is_pending i.status ≡ true)
          × ((accept sha256 id now token user s).0.invitations
              ≡ update_first
                  (has_hash (sha256 token))
                  (λ i. record i { status = InvitationStatus.accepted })
                  s.invitations)
  unfolding accept
  accept_effect id now token user s = by_found (find (has_hash (sha256 token)) s.invitations) refl
    where
      by_found :
          (o : Option Invitation)
          → find (has_hash (sha256 token)) s.invitations ≡ o
          → (is_ok (accepted_by sha256 id now token user s (valid_invitation sha256 now o)).1
                ≡ false)
              × ((accepted_by sha256 id now token user s (valid_invitation sha256 now o)).0 ≡ s)
            ⊎ (i : Invitation) × (find (has_hash (sha256 token)) s.invitations ≡ some i)
              × (is_pending i.status ≡ true)
              × ((accepted_by sha256 id now token user s
                    (valid_invitation sha256 now o)).0.invitations
                  ≡ update_first
                      (has_hash (sha256 token))
                      (λ i. record i { status = InvitationStatus.accepted })
                      s.invitations)
      by_found none e = inl (refl, refl)
      by_found (some i) e = elim (Bool-cases (not (is_pending i.status) || ltb i.expires_at now)) [
        | inl f ↦ simp f (inl (refl, refl))
        | inr f ↦ simp f (inr (i, e, ground arith, refl))
      ]

  settled-step :
      (h : Text) (o : Op) (s : IdentityState)
      → is_fresh sha256 o s ≡ true
      → settled h s.invitations ≡ true
      → settled h (step sha256 o s).invitations ≡ true
  unfolding step create revoke
  settled-step h (creates id token now input) s fresh e =
      settled-save h _ s.invitations (ground arith) e
  settled-step h (accepts id now token user) s fresh e = elim (accept_effect id now token user s) [
    | inl (_, same) ↦ ap (λ t. settled h t.invitations) same ∙ e
    | inr (i, _, _, changed) ↦
        ap (settled h) changed
        ∙ settled-update_first h (has_hash (sha256 token)) InvitationStatus.accepted s.invitations
            refl e
  ]
  settled-step h (revokes id) s fresh e =
      settled-update_first h (λ i. text_eq i.id id) InvitationStatus.revoked s.invitations refl e

  wins-settled :
      (h : Text) (o : Op) (s : IdentityState)
      → settled h s.invitations ≡ true
      → wins sha256 h o s ≡ false
  wins-settled h (creates id token now input) s e = refl
  wins-settled h (revokes id) s e = refl
  wins-settled h (accepts id now token user) s e = elim (Bool-cases (text_eq (sha256 token) h)) [
    | inr f ↦ simp f
    | inl f ↦ elim (accept_effect id now token user s) [
      | inl (refused, _) ↦ simp (f, refused)
      | inr (i, found, waiting, _) ↦
          let (j, found', done) = settled-find h s.invitations e in
          let there =
            subst (λ x. find (has_hash x) s.invitations ≡ some i) (text_eq_sound (sha256 token) h f)
              found in
          absurd (clash i j (sym there ∙ found') waiting done)
    ]
  ]
    where
      clash :
          (i j : Invitation)
          → some i ≡ some j
          → is_pending i.status ≡ true
          → is_pending j.status ≡ false
          → ⊥
      clash i j same waiting done = ground arith

  settled-wins :
      (h : Text) (o : Op) (s : IdentityState)
      → wins sha256 h o s ≡ true
      → settled h (step sha256 o s).invitations ≡ true
  unfolding step
  settled-wins h (creates id token now input) s e = absurd (ground arith)
  settled-wins h (revokes id) s e = absurd (ground arith)
  settled-wins h (accepts id now token user) s e =
      let (f, won) =
        &&-true (text_eq (sha256 token) h) (is_ok (accept sha256 id now token user s).1) e in
      elim (accept_effect id now token user s) [
        | inl (refused, _) ↦ absurd (ground arith)
        | inr (i, found, _, changed) ↦
            ap (settled h) changed
            ∙ subst
                (λ x.
                  settled x (
                    update_first (has_hash (sha256 token))
                      (λ i. record i { status = InvitationStatus.accepted }) s.invitations)
                  ≡ true)
                (text_eq_sound (sha256 token) h f)
                (update_first-settled (sha256 token) s.invitations found)
      ]

  accepted_count-settled :
      (h : Text) (os : List Op) (s : IdentityState)
      → all_fresh sha256 os s ≡ true
      → settled h s.invitations ≡ true
      → accepted_count sha256 h os s ≡ 0
  unfolding accepted_count all_fresh
  accepted_count-settled h [] s fresh e = refl
  accepted_count-settled h (o ∷ os) s fresh e =
      let (f, fs) = &&-true (is_fresh sha256 o s) (all_fresh sha256 os (step sha256 o s)) fresh in
      let rest = accepted_count-settled h os (step sha256 o s) fs (settled-step h o s f e) in
      simp (wins-settled h o s e) (omega (arith, rest))

  -- In any sequence of creations, acceptances and revocations, an invitation token is accepted once at most,
  -- whoever uses it. Condition: the identifiers of new invitations are not in use.
  pub accepted_count-le :
      (h : Text) (os : List Op) (s : IdentityState)
      → all_fresh sha256 os s ≡ true
      → accepted_count sha256 h os s ≤ 1
  unfolding accepted_count all_fresh
  accepted_count-le h [] s fresh = omega arith
  accepted_count-le h (o ∷ os) s fresh =
      let (_, fs) = &&-true (is_fresh sha256 o s) (all_fresh sha256 os (step sha256 o s)) fresh in
      elim (Bool-cases (wins sha256 h o s)) [
        | inl e ↦
            let none_later =
              accepted_count-settled h os (step sha256 o s) fs (settled-wins h o s e) in
            simp (e, none_later) (omega arith)
        | inr e ↦
            let rest = accepted_count-le h os (step sha256 o s) fs in simp e (omega (arith, rest))
      ]
