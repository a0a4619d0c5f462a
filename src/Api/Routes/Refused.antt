-- ===== src/Api/Routes/Refused.antt =====
-- What a refused request leaves, whatever its route.
use pretext_plus_build_full.Common.Dict
use pretext_plus_build_full.World.{World}
