-- ===== src/Config/Tests.antt =====
-- The settings of an empty environment, and of one that sets some.
use pretext_plus_build_full.Common.{none, some, [], ◌∷◌, ◌≡◌, refl}
use mathlib.Core.Option
use pretext_plus_build_full.Config.{Settings}
use pretext_plus_build_full.Config.Load.{load}

default_ttl : Option.map (λ (s : Settings). s.job_ttl) (load []) ≡ some 86400
unfolding load
default_ttl = refl

default_types :
    Option.map (λ (s : Settings). s.asset_cache_types) (load [])
    ≡ some ("latex-image" ∷ "asymptote" ∷ "sageplot" ∷ "prefigure" ∷ [])
unfolding load
default_types = refl

half_a_day :
    Option.map
      (λ (s : Settings). s.asset_cache_max_age)
      (load (("ASSET_CACHE_MAX_AGE_DAYS", "0.5") ∷ []))
    ≡ some 43200
unfolding load
half_a_day = refl

hosts :
    Option.map
      (λ (s : Settings). s.callback_allowed_hosts)
      (load (("CALLBACK_ALLOWED_HOSTS", " PreTeXt.plus. ,, b") ∷ []))
    ≡ some ("pretext.plus" ∷ "b" ∷ [])
unfolding load
hosts = refl

bad_timeout : load (("BUILD_TIMEOUT", "10m") ∷ []) ≡ none
unfolding load
bad_timeout = refl
