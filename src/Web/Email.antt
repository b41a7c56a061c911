-- ===== src/Web/Email.antt =====
-- apps/web/src/app/get-api-keys/GetApiKeysPageClient.tsx: `EMAIL_REGEX`, /.+@.+\..+/, as a matcher
-- that backtracks, and what it accepts.
use canton_pillar.Base.{
  ◌≡◌, refl, ap, ◌∙◌, ◌↔◌, ℕ, Bool, true, false, ◌&&◌, ◌||◌, not, [], ◌∷◌, ◌++◌, Text, ◌==◌, arith,
  Bool-cases, inl, inr, All,
}

-- What `.` matches: no line terminator.
abbrev pub any_char : ℕ → Bool
any_char c = not (c == 10 || c == 13 || c == 8232 || c == 8233)

-- `.+` and what follows it.
abbrev pub some_chars : (Text → Bool) → Text → Bool
some_chars rest [] = false
some_chars rest (c ∷ s) = any_char c && (rest s || some_chars rest s)

abbrev pub this_char : ℕ → (Text → Bool) → Text → Bool
this_char d rest [] = false
this_char d rest (c ∷ s) = (c == d) && rest s

abbrev pub anything : Text → Bool
anything s = true

abbrev zone_here : Text → Bool
zone_here = some_chars anything

abbrev host_here : Text → Bool
host_here = some_chars (this_char b'.' zone_here)

abbrev pub email_here : Text → Bool
email_here = some_chars (this_char b'@' host_here)

-- `test`: a match that starts anywhere.
abbrev search_from : (Text → Bool) → Text → Bool
search_from m [] = m []
search_from m (c ∷ s) = m (c ∷ s) || search_from m s

unfoldable pub email_regex : Text → Bool
email_regex = search_from email_here

-- One unit or more, none of them a line terminator.
abbrev pub IsWord : Text → Type 0
IsWord [] = ⊥
IsWord (c ∷ s) = All (λ d. any_char d ≡ true) (c ∷ s)

-- A text with a word, `@`, a word, `.`, a word somewhere in it.
abbrev pub HasEmail : Text → Type 0
HasEmail s =
    (before user host zone after : Text) × IsWord user
    × IsWord host
    × IsWord zone
    × (s ≡ before ++ (user ++ b'@' ∷ (host ++ b'.' ∷ (zone ++ after))))

-- A prefix that `.+` takes, and the rest.
abbrev Taken : (Text → Bool) → Text → Type 0
Taken rest s = (w t : Text) × IsWord w × (s ≡ w ++ t) × (rest t ≡ true)

some_chars_sound : (rest : Text → Bool) (s : Text) → some_chars rest s ≡ true → Taken rest s
some_chars_sound rest [] h = absurd (ground arith)
some_chars_sound rest (c ∷ s) h = elim (Bool-cases (any_char c)) [
  | inr e ↦ absurd (ground arith)
  | inl e ↦ elim (Bool-cases (rest s)) [
    | inl r ↦ (c ∷ [], s, (e, tt), refl, r)
    | inr r ↦
        let more : some_chars rest s ≡ true = ground arith in
        extend (some_chars_sound rest s more) e
  ]
]
  where
    extend : Taken rest s → any_char c ≡ true → Taken rest (c ∷ s)
    extend ([], t, bad, _, _) e = absurd bad
    extend (d ∷ w, t, word, same, r) e = (c ∷ d ∷ w, t, (e, word), ap (λ u. c ∷ u) same, r)

some_chars_complete :
    (rest : Text → Bool) (w t : Text) → IsWord w → rest t ≡ true → some_chars rest (w ++ t) ≡ true
some_chars_complete rest [] t bad r = absurd bad
some_chars_complete rest (c ∷ []) t (e, _) r = simp (e, r)
some_chars_complete rest (c ∷ d ∷ w) t (e, word) r =
    let more = some_chars_complete rest (d ∷ w) t word r in ground (arith, more)

this_char_sound :
    (d : ℕ) (rest : Text → Bool) (s : Text)
    → this_char d rest s ≡ true
    → (t : Text) × (s ≡ d ∷ t) × (rest t ≡ true)
this_char_sound d rest [] h = absurd (ground arith)
this_char_sound d rest (c ∷ s) h =
    let e : c ≡ d = ground arith in (s, ap (λ x. x ∷ s) e, ground arith)

search_from_complete : (m : Text → Bool) (p s : Text) → m s ≡ true → search_from m (p ++ s) ≡ true
search_from_complete m [] [] h = h
search_from_complete m [] (c ∷ s) h = simp h
search_from_complete m (d ∷ p) s h = ground (arith, search_from_complete m p s h)

search_from_sound :
    (m : Text → Bool) (s : Text)
    → search_from m s ≡ true
    → (p t : Text) × (s ≡ p ++ t) × (m t ≡ true)
search_from_sound m [] h = ([], [], refl, h)
search_from_sound m (c ∷ s) h = elim (Bool-cases (m (c ∷ s))) [
  | inl e ↦ ([], c ∷ s, refl, e)
  | inr e ↦
      let (p, t, same, r) = search_from_sound m s (ground arith) in
      (c ∷ p, t, ap (λ u. c ∷ u) same, r)
]

email_here_sound :
    (s : Text)
    → email_here s ≡ true
    → (user host zone after : Text) × IsWord user
      × IsWord host
      × IsWord zone
      × (s ≡ user ++ b'@' ∷ (host ++ b'.' ∷ (zone ++ after)))
email_here_sound s h =
    let (user, t, u, e, h1) = some_chars_sound (this_char b'@' host_here) s h in
    let (t', e1, h2) = this_char_sound b'@' host_here t h1 in
    let (host, v, w, e2, h3) = some_chars_sound (this_char b'.' zone_here) t' h2 in
    let (v', e3, h4) = this_char_sound b'.' zone_here v h3 in
    let (zone, after, z, e4, _) = some_chars_sound anything v' h4 in
    let inner : t' ≡ host ++ b'.' ∷ (zone ++ after) =
      e2 ∙ ap (λ x. host ++ x) (e3 ∙ ap (λ x. b'.' ∷ x) e4) in
    (user, host, zone, after, u, w, z, e ∙ ap (λ x. user ++ x) (e1 ∙ ap (λ x. b'@' ∷ x) inner))

-- The regular expression accepts exactly the texts that contain somewhere a word, `@`, a word, `.`
-- and a word, where a word is one unit or more and has no line terminator.
pub email_regex_iff : (s : Text) → (email_regex s ≡ true) ↔ HasEmail s
unfolding email_regex
email_regex_iff s = (found s, accepted s)
  where
    found : (s : Text) → search_from email_here s ≡ true → HasEmail s
    found s h =
        let (p, t, e, m) = search_from_sound email_here s h in
        let (user, host, zone, after, u, w, z, e') = email_here_sound t m in
        (p, user, host, zone, after, u, w, z, e ∙ ap (λ x. p ++ x) e')

    accepted : (s : Text) → HasEmail s → search_from email_here s ≡ true
    accepted s (p, user, host, zone, after, u, w, z, e) =
        ap (search_from email_here) e
        ∙ search_from_complete email_here p _ (
            some_chars_complete (this_char b'@' host_here) user _ u (
              some_chars_complete (this_char b'.' zone_here) host _ w
                (some_chars_complete anything zone after z refl)))
