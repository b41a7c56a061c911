-- ===== src/Api/Cache/Coherence.antt =====
-- What the cache answers, whatever Redis does.
use canton_pillar.Base.{
  ◌≡◌, refl, ap, sym, ◌∙◌, Bool, true, false, Option, none, some, List, [], ◌∷◌, Text, text_eq,
  text_eq_sound, arith, Bool-cases, inl, inr, All,
}
use canton_pillar.Api.Cache.{Entries, entry, put, store_loaded, hit_or, cache_get}

module _ {A : Type 0} (render : A → Text) (parse : Text → A) where
  -- A read: its key, what the data source holds for the key, and which calls of Redis fail.
  pub record Read : Type 0 where
    pub key : Text
    pub enabled : Bool
    pub get_fails : Bool
    pub set_fails : Bool

  -- Reads over a source that does not change.
  unfoldable pub read_all : (Text → Option A) → List Read → Entries → Entries
  read_all source [] es = es
  read_all source (r ∷ rs) es =
      read_all source rs
        (cache_get render parse r.enabled r.get_fails r.set_fails r.key (source r.key) es).0

  -- Every entry was printed from what the source holds.
  abbrev pub IsCoherent : (Text → Option A) → Text × Text → Type 0
  IsCoherent source (key, value) = (a : A) × (source key ≡ some a) × (value ≡ render a)

  put-IsCoherent :
      (source : Text → Option A) (key : Text) (a : A) (es : Entries)
      → source key ≡ some a
      → All (IsCoherent source) es
      → All (IsCoherent source) (put key (render a) es)
  unfolding put
  put-IsCoherent source key a [] e h = ((a, e, refl), tt)
  put-IsCoherent source key a ((k, v) ∷ es) e (p, h) = elim (Bool-cases (text_eq k key)) [
    | inl same ↦ simp same ((a, e, refl), h)
    | inr other ↦ simp other (p, put-IsCoherent source key a es e h)
  ]

  entry-IsCoherent :
      (source : Text → Option A) (key value : Text) (es : Entries)
      → All (IsCoherent source) es
      → entry key es ≡ some value
      → (a : A) × (source key ≡ some a) × (value ≡ render a)
  entry-IsCoherent source key value [] h e = absurd (ground arith)
  entry-IsCoherent source key value ((k, v) ∷ es) ((a, s, p), h) e =
      elim (Bool-cases (text_eq k key)) [
        | inl same ↦ (
          a,
          sym (ap source (text_eq_sound k key same)) ∙ s,
          (let q : v ≡ value = ground arith in sym q ∙ p),
        )
        | inr other ↦ entry-IsCoherent source key value es h (simp other at e)
      ]

  store_loaded-IsCoherent :
      (source : Text → Option A) (key : Text) (set_fails : Bool) (es : Entries) (o : Option A)
      → source key ≡ o
      → All (IsCoherent source) es
      → All (IsCoherent source) (store_loaded render parse key set_fails es o).0
        × ((store_loaded render parse key set_fails es o).1 ≡ o)
  store_loaded-IsCoherent source key set_fails es none e h = (h, refl)
  store_loaded-IsCoherent source key true es (some a) e h = (h, refl)
  store_loaded-IsCoherent source key false es (some a) e h =
      (put-IsCoherent source key a es e h, refl)

  -- One read keeps the entries coherent, and answers what the source holds.
  cache_get-IsCoherent :
      ((a : A) → parse (render a) ≡ a)
      → (source : Text → Option A) (r : Read) (es : Entries) → All (IsCoherent source) es
      → All
          (IsCoherent source)
          (cache_get render parse r.enabled r.get_fails r.set_fails r.key (source r.key) es).0
        × ((cache_get render parse r.enabled r.get_fails r.set_fails r.key (source r.key) es).1
            ≡ source r.key)
  unfolding cache_get
  cache_get-IsCoherent back source r es h =
      let loads = store_loaded-IsCoherent source r.key r.set_fails es (source r.key) refl h in
      elim (Bool-cases r.enabled) [
        | inr off ↦ simp off (h, refl)
        | inl on ↦ elim (Bool-cases r.get_fails) [
          | inl fails ↦ simp (on, fails) loads
          | inr answers ↦ simp (on, answers) (hit (entry r.key es) refl loads)
        ]
      ]
    where
      hit :
          (o : Option Text)
          → entry r.key es ≡ o
          → All
              (IsCoherent source)
              (store_loaded render parse r.key r.set_fails es (source r.key)).0
            × ((store_loaded render parse r.key r.set_fails es (source r.key)).1 ≡ source r.key)
          → All (IsCoherent source) (hit_or render parse r.key r.set_fails es (source r.key) o).0
            × ((hit_or render parse r.key r.set_fails es (source r.key) o).1 ≡ source r.key)
      hit none e loads = loads
      hit (some []) e loads = loads
      hit (some (c ∷ value)) e loads =
          let (a, held, printed) = entry-IsCoherent source r.key (c ∷ value) es h e in
          (h, ap (λ t. some (parse t)) printed ∙ ap some (back a) ∙ sym held)

  read_all-IsCoherent :
      ((a : A) → parse (render a) ≡ a)
      → (source : Text → Option A) (rs : List Read) (es : Entries) → All (IsCoherent source) es
      → All (IsCoherent source) (read_all source rs es)
  unfolding read_all
  read_all-IsCoherent back source [] es h = h
  read_all-IsCoherent back source (r ∷ rs) es h =
      read_all-IsCoherent back source rs _ (cache_get-IsCoherent back source r es h).0

-- If parsing a printed value gives the value, then over a source that does not change, and after any
-- reads through an empty cache, a read answers what the source holds, whichever calls of Redis fail.
pub cache_get-read_all :
    {A : Type 0} (render : A → Text) (parse : Text → A)
    → ((a : A) → parse (render a) ≡ a)
    → (source : Text → Option A) (rs : List (Read render parse)) (r : Read render parse)
    → (cache_get render parse r.enabled r.get_fails r.set_fails r.key
        (source r.key)
        (read_all render parse source rs [])).1
      ≡ source r.key
cache_get-read_all render parse back source rs r =
    (cache_get-IsCoherent render parse back source r _
      (read_all-IsCoherent render parse back source rs [] tt)).1
