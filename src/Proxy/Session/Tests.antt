-- ===== src/Proxy/Session/Tests.antt =====
-- A journey of one connection through rdp_proxy/proxy.py, `_handle_connection`.
use rdp_on_demand_proxy_serv.Base.{
  length, ◌+◌, ◌*◌, ◌≤◌, ℕ, ◌≡◌, ◌≢◌, refl, true, false, List, [], ◌∷◌, arith,
}
use rdp_on_demand_proxy_serv.Base.Int.{pos}
use rdp_on_demand_proxy_serv.Base.Dict.{get, put, pop, entries_where}
use rdp_on_demand_proxy_serv.Verification.{Service}
use rdp_on_demand_proxy_serv.Proxy.{
  Settings, limits_of, new_proxy, consume_ip_connection_slot, is_recently_approved_ip,
  mark_ip_approved, should_send_reconnect_only_notification, register_pending_verification,
  add_waiting, unregister_pending_verification,
}
use rdp_on_demand_proxy_serv.Proxy.Session.{
  Conn, bytes, Target, open_connection, ip_rate_limit, forwarding, wait_forwarding_slot,
}
use rdp_on_demand_proxy_serv.Proxy.Session.Advance.{work, advance}
use rdp_on_demand_proxy_serv.Proxy.Session.Admission.{
  rate_step, probe_step, whitelist_step, security_step, is_rdp_hello, hello_found,
}
use rdp_on_demand_proxy_serv.Proxy.Session.Approval.{
  register_step, reconnect_step, token_step, notice_step, verification_step, leave_pool_step,
  mark_step,
}
use rdp_on_demand_proxy_serv.Proxy.Session.Slot.{
  slot_step, ensure_step, connect_step, established_step,
}
use rdp_on_demand_proxy_serv.Proxy.Session.Gates.{
  Seen, machine, journey, passed, forwarded_passed_gates,
}
use rdp_on_demand_proxy_serv.Proxy.Session.Ends.{zero_wait_never_forwards}
use rdp_on_demand_proxy_serv.Proxy.Session.Waits.{wait_ends}

abbrev settings : ℕ → Settings
settings wait = record {
  security_enabled = true;
  verification_wait_seconds = pos 180;
  deny_if_timeout = true;
  max_pending_verification_connections = pos 8;
  max_pending_verifications_per_ip = pos 1;
  forwarding_slot_wait_seconds = pos wait;
  approved_ip_reuse_seconds = pos 300;
  per_ip_connection_rate_window_seconds = pos 60;
  per_ip_connection_rate_limit = pos 2;
}

-- The operator has followed the link.
abbrev service : Service
service = record {
  external_base_url = "http://proxy";
  ttl_seconds = 600;
  tokens = [];
  action_tokens = [];
  control_auth_tokens = [];
  events = ("t", true) ∷ [];
}

abbrev target : Target
target = record { name = "desk"; instance_id = "i-1" }

abbrev hello : List ℕ
hello = 3 ∷ 0 ∷ 0 ∷ 43 ∷ 38 ∷ 224 ∷ []

-- One step at `now` of a client that says hello, with a free slot and a running instance.
abbrev look : ℕ → ℕ → Seen
look wait now = record {
  proxy = new_proxy (settings wait) 0;
  service = service;
  input = record {
    now = now;
    peek = bytes hello;
    whitelisted = true;
    fresh = "t";
    instance_ready = true;
    upstream = 9;
    stream_ended = true;
    received = 40000;
    raises = false;
  };
}

abbrev client : Conn
client = (open_connection (new_proxy (settings 120) 0) 0 "c1" 7 "203.0.113.9" 50000).1

abbrev looks : List Seen
looks =
    look 120 1000
    ∷ look 120 1001
    ∷ look 120 1002
    ∷ look 120 1003
    ∷ look 120 4000
    ∷ look 120 4001
    ∷ look 120 4002
    ∷ look 120 4003
    ∷ look 120 4004
    ∷ look 120 4005
    ∷ look 120 4006
    ∷ look 120 4007
    ∷ look 120 4008
    ∷ look 120 4009
    ∷ look 120 4010
    ∷ look 120 4011
    ∷ []

starts : client.stage ≡ ip_rate_limit
unfolding open_connection
starts = refl

arrives : (journey target client looks).stage ≡ forwarding
unfolding journey advance work rate_step probe_step whitelist_step security_step is_rdp_hello
    hello_found register_step reconnect_step token_step notice_step verification_step
    leave_pool_step mark_step slot_step ensure_step connect_step established_step open_connection
    new_proxy limits_of consume_ip_connection_slot is_recently_approved_ip mark_ip_approved
    should_send_reconnect_only_notification register_pending_verification add_waiting
    unregister_pending_verification get put pop entries_where
arrives = refl

forwarded_passed_gates_example : passed 3 target client looks ≡ true
forwarded_passed_gates_example =
    forwarded_passed_gates target client looks 3 starts arrives (omega arith)

-- The connection waits for the slot until 5000, and it is 4000 and taken.
abbrev waiting : Conn
waiting = record client { stage = wait_forwarding_slot; deadline = 5000 }

abbrev busy : Seen
busy = record (look 120 4000) { proxy = record (new_proxy (settings 120) 0) { slot_taken = true } }

stays : (advance target (machine waiting busy) busy.input).conn.stage ≡ waiting.stage
unfolding advance work slot_step open_connection new_proxy
stays = refl

wait_ends_example : 3800 + length (busy ∷ []) * 200 ≤ waiting.deadline
wait_ends_example =
    wait_ends target waiting 200 3800 (busy ∷ []) refl (omega arith) (omega arith, tt) (stays, tt)

no_wait : (n : ℕ) → (look 0 n).proxy.limits.slot_wait_seconds ≡ 0
unfolding new_proxy limits_of
no_wait n = refl

zero_wait_never_forwards_example :
    (journey target client (look 0 1000 ∷ look 0 1001 ∷ [])).stage ≢ forwarding
zero_wait_never_forwards_example =
    zero_wait_never_forwards target client (look 0 1000 ∷ look 0 1001 ∷ []) 0 starts
      (omega arith, no_wait 1000, (omega arith, no_wait 1001, tt))
