-- ===== src/Api/RateLimit/Window.antt =====
-- Any sequence of requests of one key: how many are let through in a minute.
use canton_pillar.Base.{
  ◌≡◌, refl, ap, ◌∙◌, ℕ, ◌+◌, ◌≤◌, ◌<◌, Bool, false, ◌&&◌, ◌⊎◌, List, [], ◌∷◌, ◌++◌, Text, Result,
  ok, err, if◌then◌else◌, ltb, leb, text_eq, text_eq_refl, text_eq_sound, length, length-keep-le,
  keep, arith, Bool-cases, inl, inr, ltb→lt,
}
use canton_pillar.Api.Errors.{PillarError}
use canton_pillar.Api.RateLimit.{Hits, hits_of, set_hits, is_recent, RateHeaders, rate_hook}

abbrev pub count : Result PillarError RateHeaders → ℕ
count (ok a) = 1
count (err e) = 0

-- A request: its key, and the time that the clock shows.
abbrev pub Asked : Type 0
Asked = Text × ℕ

-- The minute that starts at `from`.
abbrev pub is_within : ℕ → ℕ → Bool
is_within from t = leb from t && ltb t (from + 60000)

-- How many requests of the key are let through in the minute that starts at `from`.
unfoldable pub admitted : (rpm from : ℕ) → Text → List Asked → Hits → ℕ
admitted rpm from key [] hits = 0
admitted rpm from key ((k, now) ∷ rs) hits =
    let answer = rate_hook rpm now k hits in
    let later = admitted rpm from key rs answer.0 in
    if text_eq k key && is_within from now then count answer.1 + later else later

-- The clock does not go back, and starts no earlier than `t`.
abbrev pub Ascend : ℕ → List Asked → Type 0
Ascend t [] = Unit
Ascend t ((k, n) ∷ rs) = (t ≤ n) × Ascend n rs

abbrev in_minute : ℕ → List ℕ → ℕ
in_minute from ts = length (keep (is_within from) ts)

hits_of-set_hits :
    (key : Text) (ts : List ℕ) (hits : Hits) → hits_of key (set_hits key ts hits) ≡ ts
unfolding hits_of set_hits
hits_of-set_hits key ts [] = simp (text_eq_refl key)
hits_of-set_hits key ts ((k, us) ∷ hits) = elim (Bool-cases (text_eq k key)) [
  | inl e ↦ simp (e, text_eq_refl key)
  | inr e ↦ simp e (hits_of-set_hits key ts hits)
]

hits_of-set_hits_other :
    (key k : Text) (ts : List ℕ) (hits : Hits)
    → text_eq k key ≡ false
    → hits_of key (set_hits k ts hits) ≡ hits_of key hits
unfolding hits_of set_hits
hits_of-set_hits_other key k ts [] h = simp h
hits_of-set_hits_other key k ts ((j, us) ∷ hits) h = elim (Bool-cases (text_eq j k)) [
  | inl e ↦
      let same : text_eq j key ≡ false = ap (λ x. text_eq x key) (text_eq_sound j k e) ∙ h in
      simp (e, h, same)
  | inr e ↦ elim (Bool-cases (text_eq j key)) [
    | inl e' ↦ simp (e, e')
    | inr e' ↦ simp (e, e') (hits_of-set_hits_other key k ts hits h)
  ]
]

in_minute-append :
    (from now : ℕ) (ts : List ℕ)
    → in_minute from (ts ++ now ∷ []) ≡ in_minute from ts + (if is_within from now then 1 else 0)
in_minute-append from now [] = ground arith
in_minute-append from now (t ∷ ts) = ground (arith, in_minute-append from now ts)

-- What is dropped lies in no minute that `now` is before the end of.
in_minute-keep :
    (from now : ℕ) (ts : List ℕ)
    → now < from + 60000
    → in_minute from (keep (is_recent now) ts) ≡ in_minute from ts
in_minute-keep from now [] h = refl
in_minute-keep from now (t ∷ ts) h = ground (arith, in_minute-keep from now ts h)

in_minute-le : (from : ℕ) (ts : List ℕ) → in_minute from ts ≤ length ts
in_minute-le from ts = length-keep-le (is_within from) ts

-- `c` requests were let through in the minute; they are remembered, or the minute is over.
abbrev Counted : (rpm from t c : ℕ) → Text → Hits → Type 0
Counted rpm from t c key hits =
    (c ≤ rpm) × ((c ≤ in_minute from (hits_of key hits)) ⊎ (from + 60000 ≤ t))

Counted-admitted :
    (rpm from t c now : ℕ) (old windowed : List ℕ)
    → t ≤ now
    → c ≤ rpm
    → (c ≤ in_minute from old) ⊎ (from + 60000 ≤ t)
    → windowed ≡ keep (is_recent now) old
    → leb rpm (length windowed) ≡ false
    → (c + (if is_within from now then 1 else 0) ≤ rpm)
      × ((c + (if is_within from now then 1 else 0) ≤ in_minute from (windowed ++ now ∷ []))
          ⊎ (from + 60000 ≤ now))
Counted-admitted rpm from t c now old windowed le small kept same room =
    let push = in_minute-append from now windowed in
    let short = in_minute-le from windowed in
    elim (Bool-cases (ltb now (from + 60000))) [
      | inl before_end ↦
          let all =
            ap (in_minute from) same
            ∙ in_minute-keep from now old (ltb→lt now (from + 60000) before_end) in
          ground (arith, push, short, all)
      | inr over ↦ ground arith
    ]

-- One request: what it adds keeps the count.
rate_hook-Counted :
    (rpm from t c now : ℕ) (key k : Text) (hits : Hits)
    → t ≤ now
    → Counted rpm from t c key hits
    → let answer = rate_hook rpm now k hits in
      Counted rpm from now
        (c + (if text_eq k key && is_within from now then count answer.1 else 0))
        key
        answer.0
unfolding rate_hook
rate_hook-Counted rpm from t c now key k hits le (small, kept) =
    let windowed = keep (is_recent now) (hits_of k hits) in
    elim (Bool-cases (leb rpm (length windowed))) [
      | inl full ↦ simp full (ground arith)
      | inr room ↦ elim (Bool-cases (text_eq k key)) [
        | inl mine ↦
            let stored : hits_of key (set_hits k (windowed ++ now ∷ []) hits)
                ≡ windowed ++ now ∷ [] =
              ap (λ x. hits_of key (set_hits x (windowed ++ now ∷ []) hits))
                (text_eq_sound k key mine)
              ∙ hits_of-set_hits key (windowed ++ now ∷ []) hits in
            let own : hits_of k hits ≡ hits_of key hits =
              ap (λ x. hits_of x hits) (text_eq_sound k key mine) in
            simp (room, mine, stored)
              (Counted-admitted rpm from t c now (hits_of key hits) windowed le small kept
                (ap (λ ts. keep (is_recent now) ts) own) room)
        | inr other ↦
            let same = hits_of-set_hits_other key k (windowed ++ now ∷ []) hits other in
            simp (room, other, same) (ground arith)
      ]
    ]

admitted_bound :
    (rpm from t c : ℕ) (key : Text) (rs : List Asked) (hits : Hits)
    → Ascend t rs
    → Counted rpm from t c key hits
    → c + admitted rpm from key rs hits ≤ rpm
unfolding admitted
admitted_bound rpm from t c key [] hits a (small, kept) = omega (arith, small)
admitted_bound rpm from t c key ((k, now) ∷ rs) hits (le, a) counted =
    let answer = rate_hook rpm now k hits in
    let more = rate_hook-Counted rpm from t c now key k hits le counted in
    let rest = admitted_bound rpm from now _ key rs answer.0 a more in ground (arith, rest)

-- If the clock does not go back, then of any requests, of this key and of others, at most `rpm` of
-- this key are let through in any minute, whatever was let through before.
pub admitted-le :
    (rpm from : ℕ) (key : Text) (rs : List Asked) (hits : Hits)
    → Ascend 0 rs
    → admitted rpm from key rs hits ≤ rpm
admitted-le rpm from key rs hits a =
    omega (arith, admitted_bound rpm from 0 0 key rs hits a (omega arith, inl (omega arith)))
