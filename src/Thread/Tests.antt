-- ===== src/Thread/Tests.antt =====
-- The small run of `Sample`, worker by itself.
use miniosv_apps.Prelude.{◌≡◌, refl, [], ◌∷◌, arith}
use miniosv_apps.Config.{conns_per_worker}
use miniosv_apps.Thread.Fetched.{IsFetched, worker_thread-IsFetched}
use miniosv_apps.Thread.Sample.{
  env, steering, ctx, answers, host, fetched, sample_port, worker_fetches,
}

one : conns_per_worker env ≡ 1
unfolding conns_per_worker
one = refl

worker_thread-IsFetched_example :
    IsFetched env steering host ctx answers.rounds (fetched sample_port ∷ [])
worker_thread-IsFetched_example =
    worker_thread-IsFetched env steering host 0 ctx answers (omega (arith, one))
      (omega (arith, one)) (fetched sample_port ∷ []) worker_fetches
