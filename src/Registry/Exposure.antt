-- ===== src/Registry/Exposure.antt =====
-- Which validators `exposedValidators` lists.
use canton_pillar.Base.{
  ◌≡◌, ◌≢◌, ◌↔◌, refl, ap, sym, ◌∙◌, Bool, true, ◌&&◌, not, List, [], ◌∷◌, keep, any, Any, text_eq,
  text_eq_sound, text_eq_refl, arith, Bool-cases, inl, inr, &&-true,
}
use canton_pillar.Registry.{
  Provider, ProviderStatus, Validator, ValidatorStatus, Store, is_verified, is_disabled,
  exposed_validators,
}

-- The provider of the validator is listed and verified.
abbrev pub HasVerifiedProvider : List Provider → Validator → Type 0
HasVerifiedProvider ps v =
    Any (λ p. (p.status ≡ ProviderStatus.verified) × (p.id ≡ v.provider_id)) ps

abbrev vouches : Validator → Provider → Bool
vouches v p = is_verified p.status && text_eq p.id v.provider_id

verified_only : (st : ProviderStatus) → is_verified st ≡ true → st ≡ ProviderStatus.verified
verified_only st h = ground arith

any-HasVerifiedProvider :
    (v : Validator) (ps : List Provider) → (any (vouches v) ps ≡ true) ↔ HasVerifiedProvider ps v
any-HasVerifiedProvider v [] = (λ h. absurd (ground arith), λ h. elim h [ ])
any-HasVerifiedProvider v (p ∷ ps) = (
  λ h. elim (Bool-cases (vouches v p)) [
    | inl e ↦
        let (a, b) = &&-true (is_verified p.status) (text_eq p.id v.provider_id) e in
        inl (verified_only p.status a, text_eq_sound p.id v.provider_id b)
    | inr e ↦ inr ((any-HasVerifiedProvider v ps).0 (simp e at h))
  ],
  λ h. elim h [
    | inl (a, b) ↦ simp (a, b, text_eq_refl v.provider_id)
    | inr k ↦ ground (arith, (any-HasVerifiedProvider v ps).1 k)
  ],
)

disabled_only :
    (st : ValidatorStatus) → (not (is_disabled st) ≡ true) ↔ (st ≢ ValidatorStatus.disabled)
disabled_only ValidatorStatus.active = (λ h e. absurd (ground arith), λ h. refl)
disabled_only ValidatorStatus.degraded = (λ h e. absurd (ground arith), λ h. refl)
disabled_only ValidatorStatus.disabled = (λ h. absurd (ground arith), λ h. absurd (h refl))

Any-keep :
    (p : Validator → Bool) (v : Validator) (vs : List Validator)
    → Any (λ w. w ≡ v) (keep p vs) ↔ (Any (λ w. w ≡ v) vs × (p v ≡ true))
Any-keep p v [] = (λ h. elim h [ ], λ h. elim h.0 [ ])
Any-keep p v (w ∷ vs) = elim (Bool-cases (p w)) [
  | inl e ↦ simp e (
    λ h. elim h [
      | inl q ↦ (inl q, ap p (sym q) ∙ e)
      | inr k ↦ let (a, b) = (Any-keep p v vs).0 k in (inr a, b)
    ],
    λ h. elim h.0 [ inl q ↦ inl q | inr k ↦ inr ((Any-keep p v vs).1 (k, h.1)) ],
  )
  | inr e ↦ simp e (
    λ h. let (a, b) = (Any-keep p v vs).0 h in (inr a, b),
    λ h. elim h.0 [
      | inl q ↦ absurd (ground (arith, sym e ∙ ap p q ∙ h.1))
      | inr k ↦ (Any-keep p v vs).1 (k, h.1)
    ],
  )
]

-- A validator is exposed if and only if it is registered and not disabled, and a registered provider
-- with the identifier that it names is verified.
pub exposed_validators_iff :
    (s : Store) (v : Validator)
    → Any (λ w. w ≡ v) (exposed_validators s) ↔ (
        Any (λ w. w ≡ v) s.validators
        × (v.status ≢ ValidatorStatus.disabled)
        × HasVerifiedProvider s.providers v)
unfolding exposed_validators
exposed_validators_iff s v =
    let here : Validator → Bool = λ w. any (vouches w) s.providers && not (is_disabled w.status) in
    let kept = Any-keep here v s.validators in
    (
      λ h.
          let (a, b) = kept.0 h in
          let (c, d) = &&-true (any (vouches v) s.providers) (not (is_disabled v.status)) b in
          (a, (disabled_only v.status).0 d, (any-HasVerifiedProvider v s.providers).0 c),
      λ h. kept.1 (
        h.0,
        ground
            (arith, (any-HasVerifiedProvider v s.providers).1 h.2, (disabled_only v.status).1 h.1),
      ),
    )
