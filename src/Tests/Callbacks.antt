-- ===== src/Tests/Callbacks.antt =====
-- The callback, on concrete input.
use pretext_plus_build_full.Common.{ℕ, true, some, [], ◌++◌, ◌≤◌, ◌≡◌, ◌⊎◌, ◌↔◌, refl}
use pretext_plus_build_full.Jobs.Laws.{field}
use pretext_plus_build_full.World.{Request}
use pretext_plus_build_full.Notify.{Url, is_allowed_callback_url}
use pretext_plus_build_full.Notify.Guard.{Permitted, is_allowed_callback_url_iff}
use pretext_plus_build_full.Notify.Callback.{send_callback}
use pretext_plus_build_full.Notify.Callback.Delivery.{repeat, send_callback_guarded}
use pretext_plus_build_full.Notify.Callback.Untouched.{field-send_callback}
use pretext_plus_build_full.Tests.Fixtures.{settings, network, codec, world}

is_allowed_callback_url_iff_example :
    (is_allowed_callback_url settings network "https://pretext.plus/done" world ≡ true) ↔ (
      (parsed : Url) × (network.urlparse "https://pretext.plus/done" ≡ some parsed)
      × Permitted settings network parsed world)
is_allowed_callback_url_iff_example =
    is_allowed_callback_url_iff settings network "https://pretext.plus/done" world

send_callback_guarded_example :
    let w' = (send_callback settings network codec "b" world).1 in
    (w'.sent ≡ [])
    ⊎ ((request : Request) × (field world.redis "b" "callback_url" ≡ some request.url)
        × (is_allowed_callback_url settings network request.url world ≡ true)
        × (k : ℕ) × (k ≤ 3)
        × (w'.sent ≡ [] ++ repeat k request))
send_callback_guarded_example = send_callback_guarded settings network codec "b" world

field-send_callback_example :
    field ((send_callback settings network codec "b" world).1).redis "b" "status"
    ≡ field world.redis "b" "status"
field-send_callback_example =
    field-send_callback "b" "b" "status" refl refl settings network codec world
