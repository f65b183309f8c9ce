-- ===== src/Cloud/SelfCheck/Tests.antt =====
-- A run of the self-check's retry loop.
use rdp_on_demand_proxy_serv.Base.{some}
use rdp_on_demand_proxy_serv.Cloud.{stop}
use rdp_on_demand_proxy_serv.Cloud.Sample.{cloud, on}
use rdp_on_demand_proxy_serv.Cloud.Retry.{execute_cloud_action_with_retry}
use rdp_on_demand_proxy_serv.Cloud.SelfCheck.{run_cloud_action_with_retry_for_self_check}
use rdp_on_demand_proxy_serv.Cloud.SelfCheck.Agreement.{IsAction, SameRun, self_check_agrees}

self_check_agrees_example :
    SameRun
      (run_cloud_action_with_retry_for_self_check cloud "STOP_CHARGING" stop on)
      (execute_cloud_action_with_retry cloud (some "STOP_CHARGING") stop on)
self_check_agrees_example = self_check_agrees cloud "STOP_CHARGING" stop on IsAction.stops
