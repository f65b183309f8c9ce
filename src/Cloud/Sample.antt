-- ===== src/Cloud/Sample.antt =====
-- A world for the tests: its clock is its state, and its instance runs from a start request on.
use rdp_on_demand_proxy_serv.Base.{
  ℕ, ◌+◌, Bool, true, false, some, returned, raised, if◌then◌else◌, arith,
}
use rdp_on_demand_proxy_serv.Cloud.{running, stopped, World, IsTimed}
use rdp_on_demand_proxy_serv.Cloud.Ensure.{Target}

pub record Clock : Type 0 where
  pub now : ℕ
  pub on : Bool

abbrev pub cloud : World Clock
cloud = record {
  get_instance_state = λ w. (returned (if w.on then running else stopped), w);
  start_instance = λ w. (returned tt, record w { on = true });
  stop_instance = λ m w. (returned tt, record w { on = false });
  time = λ w. w.now;
  sleep = λ n w. record w { now = w.now + n };
}

pub cloud-IsTimed : IsTimed cloud
cloud-IsTimed = record {
  sleep_advances = λ n w. omega arith;
  state_forward = λ w. omega arith;
  start_forward = λ w. omega arith;
  stop_forward = λ m w. omega arith;
}

-- A world whose state check raises.
abbrev pub broken : World Clock
broken = record {
  get_instance_state = λ w. (raised (record { kind = "ClientException"; message = "timeout" }), w);
  start_instance = λ w. (returned tt, w);
  stop_instance = λ m w. (returned tt, w);
  time = λ w. w.now;
  sleep = λ n w. record w { now = w.now + n };
}

abbrev pub desk : Target
desk = record {
  cloud_control_enabled = true;
  has_provider = true;
  stop_mode = some "STOP_CHARGING";
  startup_timeout_seconds = 180;
  startup_poll_seconds = 5;
  idle_shutdown_minutes = 10;
}

abbrev pub off : Clock
off = record { now = 1000000; on = false }

abbrev pub on : Clock
on = record { now = 1000000; on = true }
