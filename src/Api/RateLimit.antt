-- ===== src/Api/RateLimit.antt =====
-- apps/api/src/middleware/rate-limit.ts: the sliding window of the preHandler hook. `hits` holds the
-- times at which a key's requests were let through; the clock is an argument.
pub mod Window
use canton_pillar.Base.{
  ◌≡◌, refl, sym, ap, ◌∙◌, ℕ, suc, ◌+◌, ◌-◌, ◌≤◌, ◌<◌, Bool, true, false, ◌&&◌, ◌||◌, not, Option,
  none, some, List, [], ◌∷◌, ◌++◌, Text, Result, ok, err, if◌then◌else◌, ltb, leb, text_eq, length,
  length-append, keep, arith, Bool-cases, inl, inr, leb→le, ltb→lt, All, or_else, codes, before,
}
use canton_pillar.Api.Errors.{PillarError, rate_limit}

abbrev pub Hits : Type 0
Hits = List (Text × List ℕ)

-- `hits.get(key) ?? []`.
unfoldable pub hits_of : Text → Hits → List ℕ
hits_of key [] = []
hits_of key ((k, ts) ∷ hits) = if text_eq k key then ts else hits_of key hits

unfoldable pub set_hits : Text → List ℕ → Hits → Hits
set_hits key ts [] = (key, ts) ∷ []
set_hits key ts ((k, us) ∷ hits) =
    if text_eq k key then (key, ts) ∷ hits else (k, us) ∷ set_hits key ts hits

-- `request.routerPath ?? request.url.split('?')[0]`, and the key id of the credentials.
abbrev pub rate_key : (key_id router_path : Option Text) → (url : Text) → Text
rate_key key_id router_path url =
    or_else key_id (codes "anon") ++ b':' ∷ or_else router_path (before b'?' url)

-- `now - t < 60000`; a time ahead of a clock that went back counts too.
abbrev pub is_recent : ℕ → ℕ → Bool
is_recent now t = ltb now (t + 60000)

-- Pillar-RateLimit-Limit, -Remaining and -Reset.
pub record RateHeaders : Type 0 where
  pub limit : ℕ
  pub remaining : ℕ
  pub reset : ℕ

unfoldable pub rate_hook : (rpm now : ℕ) → Text → Hits → Hits × Result PillarError RateHeaders
unfolding hits_of set_hits
rate_hook rpm now key hits =
    let windowed = keep (is_recent now) (hits_of key hits) in
    if leb rpm (length windowed) then (hits, err rate_limit) else (
      set_hits key (windowed ++ now ∷ []) hits,
      ok (record {
        limit = rpm;
        remaining = rpm - length (windowed ++ now ∷ []);
        reset = now + 60000;
      }),
    )
