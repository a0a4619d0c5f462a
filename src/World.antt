-- ===== src/World.antt =====
-- What the processes share: the job store, the directories of the jobs, the cache root, and the
-- requests that the worker has sent to callback URLs. An action may change all of it and raise;
-- what was changed before the raise stays changed.
pub mod Laws
pub mod Total
pub mod Final
use pretext_plus_build_full.Common.{
  ℕ, String, Bool, true, false, Option, none, some, List, if◌then◌else◌,
}
use pretext_plus_build_full.Common.Dict
use pretext_plus_build_full.Common.Dict.{Dict}
use pretext_plus_build_full.Docker.{Exception, Outcome, returned, raised, hangs}
use pretext_plus_build_full.Files.{Bytes, Entries}
use pretext_plus_build_full.Jobs
use pretext_plus_build_full.Jobs.{Redis, Fields}
use pretext_plus_build_full.AssetCache.{Cache}

-- The members of a zip file, in order.
abbrev pub Archive : Type 0
Archive = List (String × Bytes)

-- DATA_DIR/jobs/<id>: its time of last change, the project and `output.zip`.
pub record JobDir : Type 0 where
  pub mtime : ℕ
  pub work : Entries
  pub output_zip : Option Archive

-- A POST to a callback URL: the URL, the body and the signature header.
pub record Request : Type 0 where
  pub url : String
  pub body : String
  pub signature : Option String

pub record World : Type 0 where
  pub redis : Redis
  pub jobs : Dict JobDir
  pub cache : Option Cache
  pub sent : List Request

abbrev pub Action {ℓ} : Type ℓ → Type ℓ
Action A = World → Outcome A × World

module _ {ℓ} {A : Type ℓ} where
  abbrev pub pure : A → Action A
  pure a w = (returned a, w)

  abbrev pub raise : Exception → Action A
  raise e w = (raised e, w)

  abbrev pub forever : Action A
  forever w = (hangs, w)

  abbrev pub gets : (World → A) → Action A
  gets f w = (returned (f w), w)

module _ {ℓ κ} {A : Type ℓ} {B : Type κ} where
  abbrev pub continue : Outcome A → (A → Action B) → Action B
  continue (returned a) f w = f a w
  continue (raised e) f w = (raised e, w)
  continue hangs f w = (hangs, w)

infixl 5 ◌>>=◌ ◌>>◌
abbrev pub ◌>>=◌ {ℓ κ} : {A : Type ℓ} {B : Type κ} → Action A → (A → Action B) → Action B
◌>>=◌ m f w = let (r, w') = m w in continue r f w'

abbrev pub ◌>>◌ {ℓ κ} : {A : Type ℓ} {B : Type κ} → Action A → Action B → Action B
m >> k = m >>= λ _. k

module _ {ℓ} {A : Type ℓ} where
  abbrev handle : Outcome A → (Exception → Action A) → Action A
  handle (returned a) h w = (returned a, w)
  handle (raised e) h w = h e w
  handle hangs h w = (hangs, w)

  -- `try: m except Exception as e: h(e)`
  abbrev pub catch : Action A → (Exception → Action A) → Action A
  catch m h w = let (r, w') = m w in handle r h w'

  abbrev conclude : Outcome A → Action (Unit {0}) → Action A
  conclude (returned a) last w = let (r, w') = last w in continue r (λ _. pure a) w'
  conclude (raised e) last w = let (r, w') = last w in continue r (λ _. raise e) w'
  conclude hangs last w = (hangs, w)

  -- `try: m finally: last`, where an exception of `last` takes the place of the other
  abbrev pub finally : Action A → Action (Unit {0}) → Action A
  finally m last w = let (r, w') = m w in conclude r last w'

-- store.update(job_id, **fields)
unfoldable pub update_job : String → Fields → Action (Unit {0})
update_job job_id fields w = (returned tt, record w { redis = Jobs.update w.redis job_id fields })
