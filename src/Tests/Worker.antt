-- ===== src/Tests/Worker.antt =====
-- The worker, on concrete input.
use pretext_plus_build_full.Common.{
  ℕ, suc, String, Bool, true, false, List, [], ◌∷◌, ◌*◌, ◌<◌, ◌≤◌, ◌≡◌, ◌⊎◌, refl, arith,
}
use pretext_plus_build_full.Common.Text.{join, rstrip_dots, lower_text}
use pretext_plus_build_full.Docker.{raised, read_timeout}
use pretext_plus_build_full.Files.{entry, end, link, dangling, to_file}
use pretext_plus_build_full.Jobs
use pretext_plus_build_full.World.{World}
use pretext_plus_build_full.Build.{build_sandbox}
use pretext_plus_build_full.Notify.{is_allowed_callback_url, is_blocked}
use pretext_plus_build_full.Notify.Callback.{build_payload}
use pretext_plus_build_full.Build.Zip.{zip_dir}
use pretext_plus_build_full.Build.Zip.Links.{cut_all, zip_dir_ignores_links}
use pretext_plus_build_full.Build.Wait.{wait_for_container, is_timeout, cancel_requested}
use pretext_plus_build_full.Build.Wait.Bounds.{Waits, wait_for_container_ends, timeout_is_due}
use pretext_plus_build_full.Build.Sandboxed.Settled.{status_of, is_terminal}
use pretext_plus_build_full.Build.Sandboxed.Calm.{Calm}
use pretext_plus_build_full.Common.Dict
use pretext_plus_build_full.Build.Run.{run_job}
use pretext_plus_build_full.Build.Run.Reports.{run_job_terminal}
use pretext_plus_build_full.Api.{Queue}
use pretext_plus_build_full.Tests.Fixtures.{settings, world, network, codec, endless}

abbrev dump : List String → String
dump names = join "," names

abbrev always : String → Bool
always name = true

zip_dir_ignores_links_example :
    zip_dir (entry "a" (link 3 dangling) end) false
    ≡ zip_dir (entry "a" (link 3 (to_file (7 ∷ []))) end) false
unfolding cut_all
zip_dir_ignores_links_example =
    zip_dir_ignores_links (entry "a" (link 3 (to_file (7 ∷ []))) end) false

wait_for_container_ends_example :
    let result = wait_for_container endless "b" 1 2 5 world in
    (n : ℕ) × Waits endless "b" 1 2 5 (suc n) 0 world result.0 result.1 × ((n ≡ 0) ⊎ (n * 2 < 5))
wait_for_container_ends_example =
    wait_for_container_ends endless "b" 1 2 5 (omega arith) (λ w e. cc) world

timeout_is_due_example :
    (n : ℕ) × Waits endless "b" 1 2 5 n 0 world (raised read_timeout) world × (5 ≤ n * 2)
unfolding wait_for_container is_timeout cancel_requested Jobs.get Jobs.hgetall Jobs.find Jobs.key
timeout_is_due_example =
    timeout_is_due endless "b" 1 2 5 (omega arith) (λ w e. cc) world world read_timeout refl refl

abbrev reported : World
reported =
    (run_job settings endless network codec always "b" "build" "true" (build_sandbox settings) false
      world).1

run_job_terminal_example : is_terminal (status_of "b" reported) ≡ true
unfolding run_job Jobs.get Jobs.hgetall Jobs.find Jobs.key build_sandbox Jobs.update Jobs.write
    Jobs.hset Jobs.strs is_allowed_callback_url rstrip_dots lower_text is_blocked build_payload
run_job_terminal_example =
    run_job_terminal settings endless network codec always "b" (λ c w. refl) "build" "true"
      (build_sandbox settings) false world reported refl

-- RQ finds the job and takes it out of the queue.
abbrev queue : Queue
queue = record { cancel = λ job_id w. (true, w) }
