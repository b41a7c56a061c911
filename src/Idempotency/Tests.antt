-- ===== src/Idempotency/Tests.antt =====
-- Runs of the claims on small tables, and the theorems at concrete inputs.
use canton_pillar.Base.{
  ◌≡◌, refl, ◌+◌, ◌≤◌, String, true, Option, none, some, List, [], ◌∷◌, Text, ok, if◌then◌else◌,
  text_eq, text_le, text_le-total, text_le_trans, codes, str_eq,
}
use canton_pillar.Idempotency.Canonical.{Json, str, num, Fields, end, field}
use canton_pillar.Idempotency.Canonical.Order.{SameFields, swap}
use canton_pillar.Idempotency.Canonical.Request.{
  CanonicalRequest, canonical_request_hash, canonical_request_hash-Same, to_upper,
}
use canton_pillar.Idempotency.Store.{
  Row, completed, conflict, ClaimInput, claim, complete, release, claim_key, new_row, examine,
}
use canton_pillar.Idempotency.Store.Lifecycle.{
  Op, claims, releases, binds, news, release_count, run, news-le-release_count,
}
use canton_pillar.Idempotency.Store.Replay.{no_faults, claim-complete}

-- A digest that tells the keys of the tests apart.
abbrev digest : Text → String
digest s = if text_eq s (codes "k1") then "d1" else if text_eq s (codes "k2") then "d2" else "d3"

abbrev ask : Text → String → ClaimInput
ask key h = record {
  tenant_id = "ten_1";
  idempotency_key = key;
  request_hash = h;
  route = none;
  method = none;
  api_version = none;
}

abbrev one_row : Row
one_row = new_row digest 86400000 5 (ask (codes "k1") "h1")

abbrev history : List Op
history =
    claims 1 no_faults true (ask (codes "k1") "h1")
    ∷ claims 2 no_faults true (ask (codes "k1") "h1")
    ∷ releases "ten_1" (codes "k1")
    ∷ claims 3 no_faults true (ask (codes "k1") "h2")
    ∷ []

two_executions :
    (news digest 86400000 (claim_key digest "ten_1" (codes "k1")) history [] ≡ 2)
    × (release_count digest 86400000 (claim_key digest "ten_1" (codes "k1")) history ≡ 1)
unfolding news release_count claim release examine
two_executions = (refl, refl)

news-le-release_count_example :
    news digest 86400000 (claim_key digest "ten_1" (codes "k1")) history []
    ≤ 1 + release_count digest 86400000 (claim_key digest "ten_1" (codes "k1")) history
news-le-release_count_example =
    news-le-release_count digest 86400000 (claim_key digest "ten_1" (codes "k1")) history []

abbrev quiet : List Op
quiet = binds "ten_1" (codes "k1") "req_1" "op_1" ∷ releases "ten_1" (codes "k1") ∷ []

claim-complete_example :
    let t' = run digest 9 quiet (complete digest "ten_1" (codes "k1") 200 "{}" (one_row ∷ [])) in
    (operation : Option String) × (claim digest 9 70 no_faults true (ask (codes "k1") "h1") t' ≡ (
      t',
      ok (
          if str_eq "h1" "h1"
          then completed operation (some (record { response_status = 200; response_body = "{}" }))
          else conflict operation),
    ))
unfolding new_row claim_key
claim-complete_example =
    claim-complete digest 9 70 "ten_1" (codes "k1") 200 "{}" "h1" (one_row ∷ []) one_row quiet none
      none none refl (tt, (tt, tt))

abbrev ab : Fields
ab = field (codes "a") (str (codes "1.0")) (field (codes "b") (num (codes "2")) end)

abbrev ba : Fields
ba = field (codes "b") (num (codes "2")) (field (codes "a") (str (codes "1.0")) end)

abbrev ab_ba : SameFields text_le ab ba
ab_ba = swap (codes "a") (codes "b") (str (codes "1.0")) (num (codes "2")) end refl

abbrev transfer : CanonicalRequest
transfer = record {
  method = codes "post";
  path_template = some (codes "/v1/holds");
  path_template_camel = none;
  api_version = some (codes "2026-01-01");
  api_version_camel = none;
  body = none;
  headers = [];
  headers_subset = (codes "Pillar-Version", some (codes "2026-01-01")) ∷ [];
}

canonical_request_hash-Same_example :
    canonical_request_hash text_le digest (record transfer { body = some (Json.obj ab) })
    ≡ canonical_request_hash text_le digest
        (record transfer { body = some (Json.obj ba); method = to_upper transfer.method })
canonical_request_hash-Same_example =
    canonical_request_hash-Same text_le digest text_le-total text_le_trans transfer ab_ba
