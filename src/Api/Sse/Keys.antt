-- ===== src/Api/Sse/Keys.antt =====
-- What the key of a ring says of the tenant and the mode.
use canton_pillar.Base.{
  ◌≡◌, refl, ap, Bool, true, false, [], ◌∷◌, ◌++◌, Text, length, length-append, arith,
}
use canton_pillar.Api.Sse.{mode_suffix, key_for}

append-injective : (s t u v : Text) → length u ≡ length v → s ++ u ≡ t ++ v → (s ≡ t) × (u ≡ v)
append-injective [] [] u v h e = (refl, e)
append-injective [] (y ∷ t) u v h e = absurd (omega (arith, ap length e, length-append t v))
append-injective (x ∷ s) [] u v h e = absurd (omega (arith, ap length e, length-append s u))
append-injective (x ∷ s) (y ∷ t) u v h e =
    let (same, suffix) = append-injective s t u v h (ground arith) in (ground arith, suffix)

length-mode_suffix : (b : Bool) → length (mode_suffix b) ≡ 5
length-mode_suffix true = refl
length-mode_suffix false = refl

mode_suffix-injective : (a b : Bool) → mode_suffix a ≡ mode_suffix b → a ≡ b
mode_suffix-injective true true e = refl
mode_suffix-injective true false e = absurd (ground arith)
mode_suffix-injective false true e = absurd (ground arith)
mode_suffix-injective false false e = refl

pub key_for-injective : (s t : Text) (a b : Bool) → key_for s a ≡ key_for t b → (s ≡ t) × (a ≡ b)
key_for-injective s t a b e =
    let (tenant, suffix) =
      append-injective s t (mode_suffix a) (mode_suffix b)
        (omega (arith, length-mode_suffix a, length-mode_suffix b)) e in
    (tenant, mode_suffix-injective a b suffix)
