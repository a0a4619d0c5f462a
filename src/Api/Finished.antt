-- ===== src/Api/Finished.antt =====
-- What the API answers about a job that a worker has run.
use pretext_plus_build_full.Common.{Option, some, none, ◌≡◌}
use pretext_plus_build_full.Common.Dict
use pretext_plus_build_full.World.{World, Archive}
use pretext_plus_build_full.Api.{Answer, answered, http_error}

-- The zip, or that there is none.
abbrev pub Served : Option Archive → Answer Archive → Type 0
Served (some z) answer = answer ≡ answered z
Served none answer = answer ≡ http_error 404 "Artifact missing, expired, or job produced no output"
