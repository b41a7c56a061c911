-- ===== src/Api/PathTemplate/Tests.antt =====
-- Paths with an identifier.
use canton_pillar.Base.{◌≡◌, refl, none, some, [], codes}
use canton_pillar.Api.PathTemplate.{path_template}

template_tests :
    (path_template (some (codes "/holds/:id/release")) (codes "/v1") []
      ≡ codes "/v1/holds/{id}/release")
    × (path_template none [] (codes "/v1/holds/hold_1A/release?x=1")
        ≡ codes "/v1/holds/{id}/release")
unfolding path_template
template_tests = (refl, refl)
