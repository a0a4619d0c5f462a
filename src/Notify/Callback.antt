-- ===== src/Notify/Callback.antt =====
-- `_build_payload` and `send_callback`.
pub mod Body
pub mod Delivery
pub mod Untouched
use Prim.Native.Nat.{zero, suc, max}
use pretext_plus_build_full.Common.{
  ℕ, String, ◌<>◌, Bool, true, false, Option, none, some, List, [], ◌∷◌, ◌++◌, ◌&&◌, ◌-◌, ltb,
  if◌then◌else◌, ◌==◌,
}
use pretext_plus_build_full.Common.Dict
use pretext_plus_build_full.Common.Text.{is_truthy, size, drop_text}
use pretext_plus_build_full.Common.Text.Split.{split}
use pretext_plus_build_full.Common.Decimal.{ℤ, parse_int}
use pretext_plus_build_full.Config.{Settings}
use pretext_plus_build_full.Docker.{Outcome, returned, raised, other_error}
use pretext_plus_build_full.Jobs
use pretext_plus_build_full.Jobs.{Record, word, job_prefix}
use pretext_plus_build_full.World.{
  World, JobDir, Request, Action, pure, raise, gets, ◌>>=◌, ◌>>◌, update_job,
}
use pretext_plus_build_full.Notify.{
  Network, Reply, response, failure, Codec, Payload, or_empty, is_allowed_callback_url,
}

-- `_as_int`: the `TypeError` of `None` and the `ValueError` give `None`.
unfoldable pub as_int : Option String → Option ℤ
unfolding parse_int
as_int none = none
as_int (some s) = parse_int s

-- `limit > 0 and len(log) > limit`
unfoldable pub is_truncated : ℕ → String → Bool
is_truncated limit log = ltb 0 limit && ltb limit (size log)

-- `log[-limit:] if truncated else log`
unfoldable pub log_tail : ℕ → String → String
unfolding is_truncated
log_tail limit log = if is_truncated limit log then drop_text (size log - limit) log else log

-- os.path.isfile(.../<job_id>/output.zip)
has_zip : Option JobDir → Bool
has_zip none = false
has_zip (some d) = elim d.output_zip [ none ↦ false | some z ↦ true ]

unfoldable pub artifact_exists : World → String → Bool
unfolding has_zip Dict.lookup
artifact_exists w job_id = has_zip (Dict.lookup job_id w.jobs)

-- `data.get("kind", "build")`
unfoldable pub kind_of : Record → String
unfolding Dict.lookup
kind_of fields = elim (Dict.lookup "kind" fields) [ none ↦ "build" | some k ↦ k ]

-- `json.loads(text) if text else []`
unfoldable pub names_of : Codec → String → Option (List String)
names_of codec text = if is_truthy text then codec.load_names text else some []

-- The payload of a job whose prefix and file list are known.
payload : Settings → String → Record → World → String → List String → Payload
unfolding is_truncated log_tail artifact_exists kind_of as_int Dict.lookup split
payload settings job_id fields w prefix files =
    let log = or_empty (Dict.lookup "log" fields) in
    let limit = settings.callback_log_tail_chars in
    let generate = kind_of fields == "generate" in
    record {
      job_id = job_id;
      kind = kind_of fields;
      status = Dict.lookup "status" fields;
      target = Dict.lookup "target" fields;
      exit_code = as_int (Dict.lookup "exit_code" fields);
      log_tail = log_tail limit log;
      log_truncated = is_truncated limit log;
      log_url = prefix <> "/" <> job_id <> "/log";
      assets = if generate then some (split (or_empty (Dict.lookup "assets" fields))) else none;
      files = if generate then some files else none;
      artifact_url =
          if artifact_exists w job_id then some (prefix <> "/" <> job_id <> "/artifact") else none;
    }

-- `_build_payload`; an unknown kind and a file list that is no JSON raise.
unfoldable pub build_payload : Settings → Codec → String → Record → Action Payload
unfolding payload names_of job_prefix
build_payload settings codec job_id fields w = elim (job_prefix (kind_of fields)) [
  | none ↦ (raised other_error, w)
  | some prefix ↦
      elim (if kind_of fields == "generate"
        then names_of codec (or_empty (Dict.lookup "files" fields))
        else some []) [
          | none ↦ (raised other_error, w)
          | some files ↦ (returned (payload settings job_id fields w prefix files), w)
        ]
]

-- `resp.raise_for_status()` raises from 400 on; redirects are not followed and are no errors.
verdict : Network → Reply → Option String
verdict net (failure text) = some text
verdict net (response code) = if ltb code 400 then none else some (net.status_error code)

-- The loop over the attempts that are left; the text is that of the last error.
attempts : Network → String → Request → ℕ → String → Action (Unit {0})
unfolding verdict
attempts net job_id request zero last_error w =
    update_job job_id
      (("callback_status", word "failed") ∷ ("callback_error", word last_error) ∷ []) w
attempts net job_id request (suc n) last_error w =
    let w' = record w { sent = w.sent ++ (request ∷ []) } in
    elim (verdict net (net.post request w)) [
      | none ↦ update_job job_id (("callback_status", word "delivered") ∷ []) w'
      | some e ↦ attempts net job_id request n e w'
    ]

module _ (settings : Settings) (net : Network) (codec : Codec) where
  -- The request of a payload, signed if there is a secret.
  unfoldable pub request_of : String → Payload → Request
  request_of url p =
      let body = codec.dump_payload p in
      record {
        url = url;
        body = body;
        signature =
            if is_truthy settings.callback_secret
            then some ("sha256=" <> codec.sign settings.callback_secret body)
            else none;
      }

  deliver : String → String → Record → Action (Unit {0})
  unfolding request_of attempts
  deliver job_id url fields = do
    p ← build_payload settings codec job_id fields
    attempts net job_id (request_of url p) (max 1 settings.callback_retries) "None"

  -- What `send_callback` does with a record and its `callback_url`.
  pub notify : String → String → Record → Action (Unit {0})
  unfolding deliver
  notify job_id url fields w =
      if is_truthy url
      then (if is_allowed_callback_url settings net url w
          then deliver job_id url fields w
          else update_job job_id
              (("callback_status", word "blocked")
                ∷ ("callback_error", word "callback_url failed validation at send time")
                ∷ [])
              w)
      else (returned tt, w)

  unfoldable pub send_callback : String → Action (Unit {0})
  unfolding notify
  send_callback job_id w = elim (Jobs.get w.redis job_id) [
    | none ↦ (returned tt, w)
    | some fields ↦ notify job_id (or_empty (Dict.lookup "callback_url" fields)) fields w
  ]
