-- ===== src/Db/Migrations/Ledger.antt =====
-- The ledger `_migrations`: what a run that is recorded changes.
use canton_pillar.Base.{
  ◌≡◌, ap, false, some, [], ◌∷◌, Text, text_eq, arith, Bool-cases, inl, inr, text_eq_sound,
  text_eq_refl, ◌∙◌,
}
use canton_pillar.Db.Migrations.{Migration, Applied, Ledger, applied, record_run}

abbrev pub row_of : Migration → Applied
row_of m = record { name = m.name; checksum = m.checksum; variant = m.variant }

pub applied-record_run_self :
    (m : Migration) (l : Ledger) → applied m.name (record_run m l) ≡ some (row_of m)
unfolding record_run
applied-record_run_self m [] = ground (arith, text_eq_refl m.name)
applied-record_run_self m (r ∷ l) = elim (Bool-cases (text_eq r.name m.name)) [
  | inl e ↦ simp (e, text_eq_refl m.name)
  | inr e ↦ simp e (applied-record_run_self m l)
]

pub applied-record_run_other :
    (m : Migration) (name : Text) (l : Ledger)
    → text_eq m.name name ≡ false
    → applied name (record_run m l) ≡ applied name l
unfolding record_run
applied-record_run_other m name [] h = simp h
applied-record_run_other m name (r ∷ l) h = elim (Bool-cases (text_eq r.name m.name)) [
  | inl e ↦
      let same : text_eq r.name name ≡ false =
        ap (λ x. text_eq x name) (text_eq_sound r.name m.name e) ∙ h in
      simp (e, h, same)
  | inr e ↦ elim (Bool-cases (text_eq r.name name)) [
    | inl e' ↦ simp (e, e')
    | inr e' ↦ simp (e, e') (applied-record_run_other m name l h)
  ]
]
