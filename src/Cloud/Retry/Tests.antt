-- ===== src/Cloud/Retry/Tests.antt =====
-- A run of the retry loop.
use rdp_on_demand_proxy_serv.Base.{◌≤◌, ◌-◌, ◌≡◌, ◌↔◌, true, none, some, [], ◌∷◌, take}
use rdp_on_demand_proxy_serv.Cloud.{start}
use rdp_on_demand_proxy_serv.Cloud.Sample.{cloud, off}
use rdp_on_demand_proxy_serv.Cloud.Retry.{execute_cloud_action_with_retry}
use rdp_on_demand_proxy_serv.Cloud.Retry.Rounds.{sleeps, notices, Reached, Careful}
use rdp_on_demand_proxy_serv.Cloud.Retry.Bounds.{retry_lem}

retry_lem_example :
    let r = execute_cloud_action_with_retry cloud (some "STOP_CHARGING") start off in
    (1 ≤ r.attempts)
    × (r.attempts ≤ 4)
    × (sleeps r.trace ≡ take (r.attempts - 1) (5 ∷ 10 ∷ 20 ∷ []))
    × (notices r.trace ≡ (r.success, r.attempts) ∷ [])
    × ((r.success ≡ true) ↔ Reached start r.trace)
    × Careful start none r.trace
retry_lem_example = retry_lem cloud (some "STOP_CHARGING") start off
