-- ===== src/Notify.antt =====
-- src/notify.py: the signed callback that reports a finished job. URL parsing, name resolution, the
-- POST, JSON and HMAC are the arguments `Network` and `Codec`.
pub mod Guard
pub mod Callback
use Prim.Native.Nat.{zero, suc, max}
use pretext_plus_build_full.Common.{
  ℕ, String, ◌<>◌, Bool, true, false, Option, none, some, List, [], ◌∷◌, ◌++◌, ◌&&◌, ◌||◌, ◌-◌, not,
  ltb, leb, if◌then◌else◌, ◌==◌, any,
}
use pretext_plus_build_full.Common.Dict
use pretext_plus_build_full.Common.Text.{is_truthy, size, drop_text, lower_text, rstrip_dots}
use pretext_plus_build_full.Common.Text.Split.{split}
use pretext_plus_build_full.Common.Decimal.{ℤ, parse_int}
use pretext_plus_build_full.Config.{Settings}
use pretext_plus_build_full.Config.Load.{member}
use pretext_plus_build_full.Docker.{other_error}
use pretext_plus_build_full.Jobs
use pretext_plus_build_full.Jobs.{Record, word, job_prefix}
use pretext_plus_build_full.World.{
  World, Request, Action, pure, raise, gets, ◌>>=◌, ◌>>◌, update_job,
}

-- The parts of a parsed URL that are read; `hostname` is `None` without a host.
pub record Url : Type 0 where
  pub scheme : String
  pub hostname : Option String

-- The properties of an `ipaddress` object that are read.
pub record Address : Type 0 where
  pub is_loopback : Bool
  pub is_private : Bool
  pub is_link_local : Bool
  pub is_reserved : Bool
  pub is_unspecified : Bool
  pub is_multicast : Bool

-- A response with its status code, or a `RequestException` with its text.
pub data Reply : Type 0 where
  response : ℕ → Reply
  failure : String → Reply

-- `none` of `urlparse` is its `ValueError`, and of `getaddrinfo` its `gaierror`. What a name
-- resolves to and what a POST meets may depend on when it is asked.
pub record Network : Type 0 where
  pub urlparse : String → Option Url
  pub getaddrinfo : String → World → Option (List Address)
  pub post : Request → World → Reply
  pub status_error : ℕ → String

pub record Payload : Type 0 where
  pub job_id : String
  pub kind : String
  pub status : Option String
  pub target : Option String
  pub exit_code : Option ℤ
  pub log_tail : String
  pub log_truncated : Bool
  pub log_url : String
  pub assets : Option (List String)
  pub files : Option (List String)
  pub artifact_url : Option String

-- json.dumps and json.loads of a list of texts and of a payload, and the HMAC of a body.
pub record Codec : Type 0 where
  pub dump_names : List String → String
  pub load_names : String → Option (List String)
  pub dump_payload : Payload → String
  pub sign : String → String → String

-- `data.get(key) or ""`
abbrev pub or_empty : Option String → String
or_empty none = ""
or_empty (some s) = s

-- The test of one address.
unfoldable pub is_blocked : Address → Bool
is_blocked ip =
    ip.is_loopback || ip.is_private || ip.is_link_local || ip.is_reserved || ip.is_unspecified
    || ip.is_multicast

any_blocked : List Address → Bool
any_blocked [] = false
any_blocked (ip ∷ infos) = if is_blocked ip then true else any_blocked infos

-- `settings.callback_allowed_hosts and host not in settings.callback_allowed_hosts`
unfoldable pub off_list : List String → String → Bool
unfolding member
off_list [] host = false
off_list (h ∷ hosts) host = not (member host (h ∷ hosts))

module _ (settings : Settings) (net : Network) where
  -- `_resolves_to_blocked_ip`; a name that does not resolve is blocked.
  unfoldable pub resolves_to_blocked_ip : String → World → Bool
  unfolding any_blocked
  resolves_to_blocked_ip hostname w = elim (net.getaddrinfo hostname w) [
    | none ↦ true
    | some infos ↦ any_blocked infos
  ]

  -- `(parsed.hostname or "").lower().rstrip(".")`
  unfoldable pub host_of : Url → String
  host_of parsed = rstrip_dots (lower_text (or_empty parsed.hostname))

  unfoldable pub allowed_url : Url → World → Bool
  unfolding off_list host_of resolves_to_blocked_ip
  allowed_url parsed w =
      let host = host_of parsed in
      if not (member parsed.scheme ("http" ∷ "https" ∷ [])) || not (is_truthy host)
      then false
      else if off_list settings.callback_allowed_hosts host
      then false
      else if not settings.callback_allow_private_ips && resolves_to_blocked_ip host w
      then false
      else true

  unfoldable pub is_allowed_callback_url : String → World → Bool
  unfolding allowed_url
  is_allowed_callback_url url w = elim (net.urlparse url) [
    | none ↦ false
    | some parsed ↦ allowed_url parsed w
  ]
