-- ===== src/Registry/Bindings.antt =====
-- The bindings of a tenant to a network, after any requests.
use canton_pillar.Base.{
  update_first, ◌≡◌, refl, ap, ◌∙◌, Bool, true, false, ◌||◌, Option, none, some, List, [], ◌∷◌,
  Text, Result, ok, err, text_eq, text_eq_sound, text_eq_comm, find, any, arith, Bool-cases, inl,
  inr, is_some,
}
use canton_pillar.Registry.{
  Binding, BindingStatus, Store, RegistryError, same_slot, upsert, upsert_binding, pause_binding,
  verify_provider, activate_validator, activate_found, activate_with, get_provider, get_validator,
  is_verified, Provider, Validator, memory_store, Health,
}
use canton_pillar.Registry.Creation.{
  ProviderBody, ValidatorBody, BindingBody, create_provider, create_validator, binding_of,
  append_health,
}

abbrev pub HaveOwnSlots : List Binding → Type 0
HaveOwnSlots [] = Unit
HaveOwnSlots (b ∷ bs) = (any (same_slot b) bs ≡ false) × HaveOwnSlots bs

-- What a request may do to the bindings, or to the rest of the store.
pub data RegistryOp : Type 0 where
  verifies : (id : Text) → RegistryOp
  activates : (id : Text) → RegistryOp
  binds : (id : Text) → BindingBody → RegistryOp
  creates_provider : (id : Text) → ProviderBody → RegistryOp
  creates_validator : (id : Text) → ValidatorBody → RegistryOp
  reports : Health → RegistryOp
  pauses : (id : Text) → RegistryOp

-- A handler that throws leaves the store.
abbrev kept_or : Store → Result RegistryError Store → Store
kept_or s (ok s') = s'
kept_or s (err e) = s

abbrev pub registry_step : RegistryOp → Store → Store
registry_step (verifies id) s = kept_or s (verify_provider id s)
registry_step (activates id) s = kept_or s (activate_validator id s)
registry_step (binds id body) s = upsert_binding (binding_of id body) s
registry_step (creates_provider id body) s = create_provider id body s
registry_step (creates_validator id body) s = create_validator id body s
registry_step (reports h) s = append_health h s
registry_step (pauses id) s = kept_or s (pause_binding id s)

unfoldable pub registry_run : List RegistryOp → Store → Store
registry_run [] s = s
registry_run (o ∷ os) s = registry_run os (registry_step o s)

same_slot_trans : (a b c : Binding) → same_slot a b ≡ true → same_slot a c ≡ same_slot b c
same_slot_trans a b c h =
    let t : b.tenant_id ≡ a.tenant_id = text_eq_sound b.tenant_id a.tenant_id (ground arith) in
    let n : b.network ≡ a.network = text_eq_sound b.network a.network (ground arith) in rw (t, n)

same_slot_comm : (a b : Binding) → same_slot a b ≡ same_slot b a
same_slot_comm a b =
    ground (arith, text_eq_comm a.tenant_id b.tenant_id, text_eq_comm a.network b.network)

any-same_slot :
    (a b : Binding) (bs : List Binding)
    → same_slot a b ≡ true
    → any (same_slot a) bs ≡ any (same_slot b) bs
any-same_slot a b [] h = refl
any-same_slot a b (c ∷ bs) h = ground (arith, same_slot_trans a b c h, any-same_slot a b bs h)

any-upsert :
    (a b : Binding) (bs : List Binding)
    → any (same_slot a) (upsert b bs) ≡ (any (same_slot a) bs || same_slot a b)
unfolding upsert
any-upsert a b [] = ground arith
any-upsert a b (c ∷ bs) = elim (Bool-cases (same_slot b c)) [
  | inl e ↦
      let same : same_slot a b ≡ same_slot a c =
        ground (arith, same_slot_comm a b, same_slot_comm a c, same_slot_trans b c a e) in
      simp e (ground (arith, same))
  | inr e ↦ simp e (ground (arith, any-upsert a b bs))
]

upsert-HaveOwnSlots :
    (b : Binding) (bs : List Binding) → HaveOwnSlots bs → HaveOwnSlots (upsert b bs)
unfolding upsert
upsert-HaveOwnSlots b [] h = (refl, tt)
upsert-HaveOwnSlots b (c ∷ bs) (p, h) = elim (Bool-cases (same_slot b c)) [
  | inl e ↦ simp e (any-same_slot b c bs e ∙ p, h)
  | inr e ↦
      simp e (ground (arith, any-upsert c b bs, same_slot_comm b c), upsert-HaveOwnSlots b bs h)
]

-- A change that keeps the tenant and the network keeps the slots.
any-update_first :
    (a : Binding) (p : Binding → Bool) (f : Binding → Binding) (bs : List Binding)
    → ((b : Binding) → same_slot a (f b) ≡ same_slot a b)
    → any (same_slot a) (update_first p f bs) ≡ any (same_slot a) bs
any-update_first a p f [] h = refl
any-update_first a p f (b ∷ bs) h = elim (Bool-cases (p b)) [
  | inl e ↦ simp e (ap (λ t. t || any (same_slot a) bs) (h b))
  | inr e ↦ simp e (ap (λ t. same_slot a b || t) (any-update_first a p f bs h))
]

abbrev paused : Binding → Binding
paused b = record b { status = BindingStatus.paused }

paused-HaveOwnSlots :
    (p : Binding → Bool) (bs : List Binding)
    → HaveOwnSlots bs
    → HaveOwnSlots (update_first p paused bs)
paused-HaveOwnSlots p [] h = tt
paused-HaveOwnSlots p (b ∷ bs) (q, h) = elim (Bool-cases (p b)) [
  | inl e ↦ simp e (q, h)
  | inr e ↦ simp e (any-update_first b p paused bs (λ c. refl) ∙ q, paused-HaveOwnSlots p bs h)
]

registry_step-HaveOwnSlots :
    (o : RegistryOp) (s : Store)
    → HaveOwnSlots s.bindings
    → HaveOwnSlots (registry_step o s).bindings
unfolding verify_provider activate_validator upsert_binding pause_binding create_provider
    create_validator append_health
registry_step-HaveOwnSlots (verifies id) s h = elim (Bool-cases (is_some (get_provider id s))) [
  | inl e ↦ simp e h
  | inr e ↦ simp e h
]
registry_step-HaveOwnSlots (activates id) s h = go (get_validator id s)
  where
    go-provider : (o : Option Provider) → HaveOwnSlots (kept_or s (activate_with id s o)).bindings
    go-provider none = h
    go-provider (some p) = elim (Bool-cases (is_verified p.status)) [
      | inl e ↦ simp e h
      | inr e ↦ simp e h
    ]

    go : (o : Option Validator) → HaveOwnSlots (kept_or s (activate_found id s o)).bindings
    go none = h
    go (some v) = go-provider (get_provider v.provider_id s)
registry_step-HaveOwnSlots (binds id body) s h =
    upsert-HaveOwnSlots (binding_of id body) s.bindings h
registry_step-HaveOwnSlots (creates_provider id body) s h = h
registry_step-HaveOwnSlots (creates_validator id body) s h = h
registry_step-HaveOwnSlots (reports health) s h = h
registry_step-HaveOwnSlots (pauses id) s h =
    elim (Bool-cases (is_some (find (λ b. text_eq b.id id) s.bindings))) [
      | inl e ↦ simp e (paused-HaveOwnSlots (λ b. text_eq b.id id) s.bindings h)
      | inr e ↦ simp e h
    ]

registry_run-HaveOwnSlots_from :
    (os : List RegistryOp) (s : Store)
    → HaveOwnSlots s.bindings
    → HaveOwnSlots (registry_run os s).bindings
unfolding registry_run
registry_run-HaveOwnSlots_from [] s h = h
registry_run-HaveOwnSlots_from (o ∷ os) s h =
    registry_run-HaveOwnSlots_from os (registry_step o s) (registry_step-HaveOwnSlots o s h)

-- After any creations of providers and validators, verifications, activations, bindings, pauses and
-- health reports on a new store, no two bindings have one tenant and one network.
pub registry_run-HaveOwnSlots :
    (os : List RegistryOp) → HaveOwnSlots (registry_run os memory_store).bindings
registry_run-HaveOwnSlots os = registry_run-HaveOwnSlots_from os memory_store tt
