-- ===== src/Cloud/Idle.antt =====
-- rdp_proxy/proxy.py: one turn of `_idle_shutdown_loop`, and `apply_idle_action`. A turn reads the
-- proxy's counters under the state lock, and is taken as one step with the calls of the provider that follow; a
-- state check that raises is not caught in the loop.
pub mod History
mod Tests
use rdp_on_demand_proxy_serv.Base.{
  ℕ, ◌+◌, ◌*◌, ◌≤◌, ◌<◌, ◌≡◌, ◌≢◌, ◌⊎◌, ◌↔◌, inl, inr, refl, String, Bool, true, false, Option,
  none, some, ◌||◌, Outcome, returned, raised, ltb, not, ◌&&◌, if◌then◌else◌, seconds, ◌==◌, arith,
  Bool-cases, eq_iff,
}
use rdp_on_demand_proxy_serv.Cloud.{InstanceState, running, stop, Exc, World}
use rdp_on_demand_proxy_serv.Cloud.Retry.{Run, execute_cloud_action_with_retry}
use rdp_on_demand_proxy_serv.Cloud.Ensure.{Target, is_running}

-- The fields of `TargetProxy` that the loop and the connections share.
pub record IdleState : Type 0 where
  pub active_connections : ℕ
  pub last_disconnect_at : ℕ
  pub idle_action : String

pub apply_idle_action : IdleState → String → IdleState
apply_idle_action s action =
    if action == "keep_running" || action == "shutdown_on_idle"
    then record s { idle_action = action }
    else s

-- What a turn did: nothing, a stop that was run, or an exception that ends the loop's thread.
pub data IdleTurn (W : Type 0) : Type 0 where
  skips : IdleState → W → IdleTurn W
  stops : Run W → IdleState → IdleTurn W
  dies : Exc → W → IdleTurn W

module _ {W : Type 0} (p : World W) (t : Target) where
  idle_on : IdleState → InstanceState → W → IdleTurn W
  idle_on s st w =
      if not (is_running st)
      then skips s w
      else let r = execute_cloud_action_with_retry p t.stop_mode stop w in
        if not r.success
        then stops r s
        else stops r (record s { last_disconnect_at = p.time r.world })

  idle_checked : IdleState → Outcome Exc InstanceState × W → IdleTurn W
  unfolding idle_on
  idle_checked s (returned st, w) = idle_on s st w
  idle_checked s (raised e, w) = dies e w

  -- The body of the loop after its `time.sleep(10)`.
  pub idle_turn : IdleState → W → IdleTurn W
  unfolding idle_checked
  idle_turn s w =
      if not t.cloud_control_enabled
      then skips s w
      else if not (s.idle_action == "shutdown_on_idle")
      then skips s w
      else if ltb 0 s.active_connections
      then skips s w
      else if ltb (p.time w) (s.last_disconnect_at + seconds (t.idle_shutdown_minutes * 60))
      then skips s w
      else if not t.has_provider
      then skips s w
      else idle_checked s (p.get_instance_state w)

  -- A turn that stops the instance, or tries to, has seen it running; and before that cloud control
  -- was on, the chosen action was to shut down when idle, no connection was active, and the last
  -- disconnect lay at least the idle time back. Only a successful stop restarts the idle time.
  pub stop_needs :
      (s s' : IdleState) (w : W) (r : Run W)
      → idle_turn s w ≡ stops r s'
      → (t.cloud_control_enabled ≡ true)
        × (s.idle_action ≡ "shutdown_on_idle")
        × (s.active_connections ≡ 0)
        × (s.last_disconnect_at + seconds (t.idle_shutdown_minutes * 60) ≤ p.time w)
        × ((p.get_instance_state w).0 ≡ returned running)
        × (r ≡ execute_cloud_action_with_retry p t.stop_mode stop (p.get_instance_state w).1)
        × (s'.active_connections ≡ 0)
        × (s'.idle_action ≡ s.idle_action)
        × (s'.last_disconnect_at ≡ (if r.success then p.time r.world else s.last_disconnect_at))
  unfolding idle_turn
  stop_needs s s' w r e = ground (arith, eq_iff s.idle_action "shutdown_on_idle")

  -- A state check that raises ends the loop's thread.
  pub raised_check_dies :
      (s : IdleState) (w : W) (e : Exc)
      → t.cloud_control_enabled ≡ true
      → t.has_provider ≡ true
      → s.idle_action ≡ "shutdown_on_idle"
      → s.active_connections ≡ 0
      → s.last_disconnect_at + seconds (t.idle_shutdown_minutes * 60) ≤ p.time w
      → (p.get_instance_state w).0 ≡ raised e
      → idle_turn s w ≡ dies e (p.get_instance_state w).1
  unfolding idle_turn
  raised_check_dies s w e cloud provided chosen none_active long check =
      ground (arith, eq_iff s.idle_action "shutdown_on_idle")

  -- A turn that does not stop the instance leaves the counters alone.
  pub skipping_keeps : (s s' : IdleState) (w w' : W) → idle_turn s w ≡ skips s' w' → s' ≡ s
  unfolding idle_turn
  skipping_keeps s s' w w' e = ground (arith, e)
