-- ===== src/Cloud/Idle/Tests.antt =====
-- Turns of the idle loop.
use rdp_on_demand_proxy_serv.Base.{◌≡◌, List, [], ◌∷◌, arith, refl, true}
use rdp_on_demand_proxy_serv.Cloud.{stop, Exc, state_satisfies_operation, state_blocks_operation}
use rdp_on_demand_proxy_serv.Cloud.Retry.{
  Run, execute_cloud_action_with_retry, loop, round, attempt, attempted, conclude, perform,
}
use rdp_on_demand_proxy_serv.Cloud.Sample.{Clock, cloud, broken, desk, on}
use rdp_on_demand_proxy_serv.Cloud.Idle.{
  IdleState, stops, idle_turn, idle_checked, idle_on, apply_idle_action,
}
use rdp_on_demand_proxy_serv.Cloud.Idle.History.{
  Event, connects, disconnects, turns, chooses, elsewhere, Loop, new_loop, step, run, stop_count,
  AreJustified, idle_stop_justified, idle_thread_dies,
}

abbrev idle : IdleState
idle = record {
  active_connections = 0;
  last_disconnect_at = 100000;
  idle_action = "shutdown_on_idle";
}

abbrev stopping_run : Run Clock
stopping_run = execute_cloud_action_with_retry cloud desk.stop_mode stop on

abbrev restarted : IdleState
restarted = record idle { last_disconnect_at = 1000000 }

stopped_now : idle_turn cloud desk idle on ≡ stops stopping_run restarted
unfolding idle_turn idle_checked idle_on execute_cloud_action_with_retry loop round attempt
    attempted conclude perform state_satisfies_operation state_blocks_operation
stopped_now = refl

-- A session, the choice to stop when idle, and a turn a quarter of an hour later.
abbrev session : List (Event Clock)
session =
    connects
    ∷ chooses "shutdown_on_idle"
    ∷ disconnects
    ∷ elsewhere (record on { now = 1900000 })
    ∷ turns
    ∷ []

one_stop : stop_count (run cloud desk (new_loop cloud desk on) session).log ≡ 1
unfolding run step new_loop apply_idle_action idle_turn idle_checked idle_on
    execute_cloud_action_with_retry loop round attempt attempted conclude perform
    state_satisfies_operation state_blocks_operation
one_stop = refl

idle_stop_justified_example :
    AreJustified cloud desk (cloud.time on) (run cloud desk (new_loop cloud desk on) session).log
idle_stop_justified_example = idle_stop_justified cloud desk on session

abbrev timeout : Exc
timeout = record { kind = "ClientException"; message = "timeout" }

abbrev waiting : Loop Clock
waiting = record { idle = idle; world = on; alive = true; log = [] }

idle_thread_dies_example :
    stop_count (run broken desk waiting (turns ∷ session)).log ≡ stop_count waiting.log
idle_thread_dies_example =
    idle_thread_dies broken desk waiting timeout session refl refl refl refl refl (omega arith) refl
