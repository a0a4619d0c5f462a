-- ===== src/Api/Status/Files.antt =====
-- The files of a finished generate job, one by one.
use pretext_plus_build_full.Common.{String, true, some, List, ◌≡◌}
use pretext_plus_build_full.Common.Dict
use pretext_plus_build_full.Jobs
use pretext_plus_build_full.Jobs.{Record}
use pretext_plus_build_full.World.{World, Archive, JobDir}
use pretext_plus_build_full.Notify.{Codec}
use pretext_plus_build_full.Notify.Callback.{kind_of}
use pretext_plus_build_full.Api.{is_finished}

-- The record of a generate job that ended with these names listed, and its directory.
pub record Served (codec : Codec) (w : World) (job_id : String) (listing : List String)
    (z : Archive) : Type 0 where
  pub fields : Record
  pub dir : JobDir
  pub known : Jobs.get w.redis job_id ≡ some fields
  pub generate : kind_of fields ≡ "generate"
  pub finished : is_finished (Dict.lookup "status" fields) ≡ true
  pub files : Dict.lookup "files" fields ≡ some (codec.dump_names listing)
  pub there : Dict.lookup job_id w.jobs ≡ some dir
  pub zipped : dir.output_zip ≡ some z
