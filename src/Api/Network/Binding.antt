-- ===== src/Api/Network/Binding.antt =====
-- What a network context that is resolved rests on.
use canton_pillar.Base.{
  ◌≡◌, refl, ap, sym, ◌∙◌, true, false, ◌&&◌, Option, none, some, List, [], ◌∷◌, Text, Result, ok,
  >>=-eq-ok, codes, text_eq, text_eq_sound, any, or_else, arith, Bool-cases, Option-cases, inl, inr,
  Any, &&-true,
}
use mathlib.Core.Path.{subst}
use canton_pillar.Api.Errors.{Thrown}
use canton_pillar.Api.Network.{
  NetworkDb, BindingRow, NetworkRow, ValidatorRow, NetworkBinding, NetworkRequest, NetworkContext,
  network_of, validator_of, joined, binding_row, resolve_binding, first_some, or_first,
  assert_network, context, bound_context, resolve_network_context, requested_network, default_of,
  to_public_status,
}

-- An active binding of the tenant to a network of this kind, and its validator.
pub record Backs (d : NetworkDb) (tenant network : Text) (c : NetworkContext) (b : BindingRow)
    : Type 0 where
  pub own : b.tenant_id ≡ tenant
  pub is_active : b.status ≡ codes "active"
  pub network_row : NetworkRow
  pub found_network : network_of d b ≡ some network_row
  pub kind : network_row.kind ≡ network
  pub validator_row : ValidatorRow
  pub found_validator : validator_of d b ≡ some validator_row
  pub same_validator : c.validator_id ≡ some validator_row.id
  pub same_provider : c.provider_id ≡ some validator_row.provider_id
  pub same_status : c.status ≡ some (to_public_status validator_row.status)

first_some-Any :
    {P : BindingRow → Type 0} (f : BindingRow → Option NetworkBinding) (y : NetworkBinding)
    (bs : List BindingRow)
    → ((b : BindingRow) → f b ≡ some y → P b)
    → first_some f bs ≡ some y
    → Any P bs
first_some-Any f y [] p h = absurd (ground arith)
first_some-Any f y (b ∷ bs) p h = elim (Option-cases (f b)) [
  | inl e ↦ inr (first_some-Any f y bs p (sym (ap (λ o. or_first o (first_some f bs)) e) ∙ h))
  | inr (z, e) ↦ inl (p b (e ∙ sym (ap (λ o. or_first o (first_some f bs)) e) ∙ h))
]

some_injective : (a b : NetworkBinding) → some a ≡ some b → a ≡ b
some_injective a b h = ground arith

joined-Backs :
    (d : NetworkDb) (tenant network : Text) (x : NetworkBinding) (b : BindingRow)
    (n : Option NetworkRow) (v : Option ValidatorRow)
    → network_of d b ≡ n
    → validator_of d b ≡ v
    → b.tenant_id ≡ tenant
    → b.status ≡ codes "active"
    → joined network n v ≡ some x
    → Backs d tenant network (context network (some x)) b
joined-Backs d tenant network x b none v e e' own live h = absurd (ground arith)
joined-Backs d tenant network x b (some n) none e e' own live h = absurd (ground arith)
joined-Backs d tenant network x b (some n) (some v) e e' own live h =
    elim (Bool-cases (text_eq n.kind network)) [
      | inl same ↦
          let row : NetworkBinding = record {
            network = n.kind;
            provider_id = v.provider_id;
            validator_id = v.id;
            status = to_public_status v.status;
          } in
          let q : row ≡ x = some_injective row x (simp same at h) in
          record {
            own = own;
            is_active = live;
            network_row = n;
            found_network = e;
            kind = text_eq_sound n.kind network same;
            validator_row = v;
            found_validator = e';
            same_validator = ap (λ r. some r.validator_id) (sym q);
            same_provider = ap (λ r. some r.provider_id) (sym q);
            same_status = ap (λ r. some r.status) (sym q);
          }
      | inr other ↦ absurd (ground arith)
    ]

binding_row-Backs :
    (d : NetworkDb) (tenant network : Text) (x : NetworkBinding) (b : BindingRow)
    → binding_row d tenant network b ≡ some x
    → Backs d tenant network (context network (some x)) b
binding_row-Backs d tenant network x b h =
    elim (Bool-cases (text_eq b.tenant_id tenant && text_eq b.status (codes "active"))) [
      | inl both ↦
          let (own, live) = &&-true _ _ both in
          joined-Backs d tenant network x b (network_of d b) (validator_of d b) refl refl
            (text_eq_sound b.tenant_id tenant own) (text_eq_sound b.status (codes "active") live)
            (simp both at h)
      | inr neither ↦ absurd (ground arith)
    ]

abbrev pub IsSupported : Text → Type 0
IsSupported network =
    any (text_eq network) (codes "devnet" ∷ codes "testnet" ∷ codes "mainnet" ∷ []) ≡ true

assert_network-IsSupported :
    (value network : Text)
    → assert_network value ≡ ok network
    → (value ≡ network) × IsSupported value
assert_network-IsSupported value network h =
    elim (Bool-cases
      (any (text_eq value) (codes "devnet" ∷ codes "testnet" ∷ codes "mainnet" ∷ []))) [
        | inl yes' ↦ (text_ok value network (simp yes' at h), yes')
        | inr no' ↦ absurd (ground arith)
      ]
  where
    named : Text → Result Thrown Text
    named v = ok v

    text_ok : (a b : Text) → named a ≡ ok b → a ≡ b
    text_ok a b e = ground arith

-- The tenant's case of the binding guard.
bound_context-Backs :
    (decode_uri : Text → Option Text) (d : NetworkDb) (tenant network : Text) (c : NetworkContext)
    → d.demo ≡ false
    → bound_context decode_uri d (some tenant) network ≡ ok c
    → (c.id ≡ network)
      × (c.livemode ≡ text_eq network (codes "mainnet"))
      × Any (Backs d tenant network c) d.bindings
unfolding resolve_binding
bound_context-Backs decode_uri d tenant network c real h =
    elim (Option-cases (resolve_binding d tenant network)) [
      | inl e ↦ absurd (ground arith)
      | inr (x, e) ↦
          let same : context network (some x) ≡ c = ground arith in
          rw (← same) (
            refl,
            refl,
            first_some-Any (binding_row d tenant network) x d.bindings
                (binding_row-Backs d tenant network x) (simp real at e),
          )
    ]

-- Outside the demo mode, a network context that is resolved for an authenticated tenant names a
-- supported network, is live exactly on mainnet, and carries the validator, the provider and the
-- status of an active binding of that very tenant to that network.
pub resolve_network_context-Backs :
    (decode_uri : Text → Option Text) (d : NetworkDb) (r : NetworkRequest) (tenant : Text)
    (c : NetworkContext)
    → d.demo ≡ false
    → r.tenant ≡ some tenant
    → resolve_network_context decode_uri d r ≡ ok c
    → IsSupported c.id
      × (c.livemode ≡ text_eq c.id (codes "mainnet"))
      × Any (Backs d tenant c.id c) d.bindings
unfolding resolve_network_context
resolve_network_context-Backs decode_uri d r tenant c real who h =
    let (requested, asked, rest) = >>=-eq-ok (requested_network decode_uri r) _ h in
    let (network, named, bound) =
      >>=-eq-ok (assert_network (or_else requested (default_of decode_uri d r.tenant))) _ rest in
    let (same, supported) =
      assert_network-IsSupported (or_else requested (default_of decode_uri d r.tenant)) network
        named in
    let (id, mode, backed) =
      bound_context-Backs decode_uri d tenant network c real
        (ap (λ o. bound_context decode_uri d o network) (sym who) ∙ bound) in
    subst
      (λ n.
        IsSupported n
        × (c.livemode ≡ text_eq n (codes "mainnet"))
        × Any (Backs d tenant n c) d.bindings)
      (sym id) (subst IsSupported same supported, mode, backed)
