-- ===== src/Cloud/Ensure/Tests.antt =====
-- Runs that ready the instance.
use rdp_on_demand_proxy_serv.Base.{◌≡◌, refl, true, returned, arith}
use rdp_on_demand_proxy_serv.Cloud.{running, state_satisfies_operation, state_blocks_operation}
use rdp_on_demand_proxy_serv.Cloud.Retry.{
  execute_cloud_action_with_retry, loop, round, attempt, attempted, conclude, perform,
}
use rdp_on_demand_proxy_serv.Cloud.Sample.{Clock, cloud, cloud-IsTimed, desk, off}
use rdp_on_demand_proxy_serv.Cloud.Ensure.{
  ended, ensure_instance_running, polling, while_open, resume, turn, checked_turn, turn_on,
  requested,
}
use rdp_on_demand_proxy_serv.Cloud.Ensure.Polling.{Ends, ensure-Ends, ensured_running}

ensure-Ends_example : Ends (ensure_instance_running cloud desk 181 off)
ensure-Ends_example = ensure-Ends cloud cloud-IsTimed desk 180 off (omega arith) (omega arith)

-- The instance is off, is started, and is seen running at the next turn.
abbrev later : Clock
later = record { now = 1005000; on = true }

readied : ensure_instance_running cloud desk 5 off ≡ ended (returned true) later
unfolding ensure_instance_running polling while_open resume turn checked_turn turn_on requested
    execute_cloud_action_with_retry loop round attempt attempted conclude perform
    state_satisfies_operation state_blocks_operation
readied = refl

ensured_running_example : (w : Clock) × (cloud.get_instance_state w ≡ (returned running, later))
ensured_running_example = ensured_running cloud desk refl 5 off later refl readied
