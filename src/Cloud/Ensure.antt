-- ===== src/Cloud/Ensure.antt =====
-- rdp_proxy/proxy.py: `_ensure_instance_running`, with fuel for its polling loop. A state check that
-- raises is not caught here: it ends the connection.
pub mod Forward
pub mod Polling
mod Tests
use rdp_on_demand_proxy_serv.Base.{
  ℕ, zero, suc, ◌+◌, ◌≡◌, String, Bool, true, false, Option, none, some, List, [], ◌∷◌, ◌++◌,
  Outcome, returned, raised, ltb, not, ◌&&◌, if◌then◌else◌, seconds,
}
use rdp_on_demand_proxy_serv.Cloud.{InstanceState, running, stopped, start, Exc, World}
use rdp_on_demand_proxy_serv.Cloud.Retry.{Run, execute_cloud_action_with_retry}

-- The part of `TargetConfig` that the cloud control reads; `stop_mode` is there if the target has a
-- cloud section.
pub record Target : Type 0 where
  pub cloud_control_enabled : Bool
  pub has_provider : Bool
  pub stop_mode : Option String
  pub startup_timeout_seconds : ℕ
  pub startup_poll_seconds : ℕ
  pub idle_shutdown_minutes : ℕ

-- One turn of the polling loop: it returns, or sleeps and goes on with `started` as given.
pub data Turn (W : Type 0) : Type 0 where
  answers : Outcome Exc Bool → W → Turn W
  waits : Bool → W → Turn W

pub data Ended (W : Type 0) : Type 0 where
  out_of_fuel : Ended W
  ended : Outcome Exc Bool → W → Ended W

abbrev pub is_running : InstanceState → Bool
is_running running = true
is_running _ = false

abbrev pub is_stopped : InstanceState → Bool
is_stopped stopped = true
is_stopped _ = false

module _ {W : Type 0} (p : World W) (t : Target) where
  abbrev pub pause : Bool → W → Turn W
  pause started w = waits started (p.sleep (seconds t.startup_poll_seconds) w)

  -- What follows a start request.
  requested : Run W → Turn W
  requested r = if r.success then pause true r.world else answers (returned false) r.world

  turn_on : Bool → InstanceState → W → Turn W
  unfolding requested
  turn_on started st w =
      if is_running st
      then answers (returned true) w
      else if is_stopped st && not started
      then requested (execute_cloud_action_with_retry p t.stop_mode start w)
      else pause started w

  checked_turn : Bool → Outcome Exc InstanceState × W → Turn W
  unfolding turn_on
  checked_turn started (returned st, w) = turn_on started st w
  checked_turn started (raised e, w) = answers (raised e) w

  pub turn : Bool → W → Turn W
  unfolding checked_turn
  turn started w =
      if t.has_provider
      then checked_turn started (p.get_instance_state w)
      else answers (returned true) w

  resume : (Bool → W → Ended W) → Turn W → Ended W
  resume rest (answers r w) = ended r w
  resume rest (waits started w) = rest started w

  -- The loop's test, with the rest of the loop.
  while_open : Bool → (Bool → W → Ended W) → Bool → W → Ended W
  unfolding resume
  while_open true rest started w = resume rest (turn started w)
  while_open false rest started w = ended (returned false) w

  -- while time.time() < deadline: ...
  pub polling : ℕ → ℕ → Bool → W → Ended W
  unfolding while_open
  polling zero deadline started w = out_of_fuel
  polling (suc fuel) deadline started w =
      while_open (ltb (p.time w) deadline) (λ started' w'. polling fuel deadline started' w')
        started w

  pub ensure_instance_running : ℕ → W → Ended W
  unfolding polling
  ensure_instance_running fuel w =
      if t.cloud_control_enabled
      then polling fuel (p.time w + seconds t.startup_timeout_seconds) false w
      else ended (returned true) w
