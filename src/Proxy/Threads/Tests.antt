-- ===== src/Proxy/Threads/Tests.antt =====
-- A run of two threads.
use rdp_on_demand_proxy_serv.Base.{
  ◌==◌, ℕ, ◌≤◌, ◌≡◌, refl, String, true, false, none, some, List, [], ◌∷◌, arith, length,
}
use rdp_on_demand_proxy_serv.Base.Int.{pos}
use rdp_on_demand_proxy_serv.Base.Dict.{get, put, pop, prune, keys, select, pop_all}
use rdp_on_demand_proxy_serv.Base.Count.{count, one_if}
use rdp_on_demand_proxy_serv.Verification.{
  create_token, cleanup, Service, new_service, create_action_links,
}
use rdp_on_demand_proxy_serv.Proxy.{
  try_takeover_same_ip_forwarding_slot, register_active_forwarding, Settings, Waiting, limits_of,
  new_proxy, consume_ip_connection_slot,
}
use rdp_on_demand_proxy_serv.Proxy.Session.{Conn, Input, bytes, Target, open_connection}
use rdp_on_demand_proxy_serv.Proxy.Session.Advance.{work, advance}
use rdp_on_demand_proxy_serv.Proxy.Session.Admission.{
  rate_step, probe_step, hello_found, is_rdp_hello,
}
use rdp_on_demand_proxy_serv.Proxy.Session.Closing.{send_disconnect_options_with_grace}
use rdp_on_demand_proxy_serv.Proxy.Pending.{waiting_from}
use rdp_on_demand_proxy_serv.Proxy.Threads.{
  serves, System, Event, accepts, moves, new_system, step, run, AllFresh,
}
use rdp_on_demand_proxy_serv.Proxy.Threads.Slots.{one_session}
use rdp_on_demand_proxy_serv.Proxy.Threads.SlotMoves.{holds_slot, needs_slot}
use rdp_on_demand_proxy_serv.Proxy.Threads.Active.{is_active, active_connections_lem}
use rdp_on_demand_proxy_serv.Proxy.Threads.PoolMoves.{in_pool_stage}
use rdp_on_demand_proxy_serv.Proxy.Threads.Waiting.{waiting_pool_lem}
use rdp_on_demand_proxy_serv.Proxy.Threads.Requests.{requests, approval_needs_answer}
use rdp_on_demand_proxy_serv.Proxy.Session.Approval.{is_set}
use rdp_on_demand_proxy_serv.Verification.Links.{creates, verifies, handle_verify, verify_found}
use rdp_on_demand_proxy_serv.Verification.Links
use rdp_on_demand_proxy_serv.Verification.Links.Approval.{Answered}
use rdp_on_demand_proxy_serv.Proxy.Threads.Takeover.{takeover_lem}
use rdp_on_demand_proxy_serv.Proxy.Threads.ForwardingMoves.{in_forwarding}
use rdp_on_demand_proxy_serv.Proxy.Session.Admission.{whitelist_step, security_step}
use rdp_on_demand_proxy_serv.Proxy.Session.Slot.{
  slot_step, ensure_step, connect_step, established_step,
}
use rdp_on_demand_proxy_serv.Proxy.Threads.Grace.{reconnect_suppresses_notice}

abbrev settings : Settings
settings = record {
  security_enabled = true;
  verification_wait_seconds = pos 180;
  deny_if_timeout = true;
  max_pending_verification_connections = pos 8;
  max_pending_verifications_per_ip = pos 1;
  forwarding_slot_wait_seconds = pos 120;
  approved_ip_reuse_seconds = pos 300;
  per_ip_connection_rate_window_seconds = pos 60;
  per_ip_connection_rate_limit = pos 2;
}

abbrev target : Target
target = record { name = "desk"; instance_id = "i-1" }

abbrev service : Service
service = new_service "http://proxy" 600

abbrev start : System
start = new_system settings service 0

abbrev at_time : ℕ → Input
at_time now = record {
  now = now;
  peek = bytes (3 ∷ 0 ∷ 0 ∷ 43 ∷ 38 ∷ 224 ∷ []);
  whitelisted = true;
  fresh = "t";
  instance_ready = true;
  upstream = 9;
  stream_ended = true;
  received = 40000;
  raises = false;
}

-- Two clients come, and their threads take turns.
abbrev events : List Event
events =
    accepts 1000 "c1" 7 "a" 50000
    ∷ moves "c1" (at_time 1001)
    ∷ accepts 1500 "c2" 8 "b" 50001
    ∷ moves "c2" (at_time 1501)
    ∷ moves "c1" (at_time 1502)
    ∷ []

fresh_names : AllFresh target start events
unfolding step run new_system new_proxy get put advance work rate_step open_connection
    consume_ip_connection_slot limits_of probe_step hello_found is_rdp_hello
fresh_names = (refl, (tt, (refl, (tt, (tt, tt)))))

one_session_example :
    let y = run target start events in
    (count holds_slot y.conns ≡ one_if y.proxy.slot_taken)
    × (count holds_slot y.conns ≤ 1)
    × ((id : String) (c : Conn)
        → get y.conns id ≡ some c
        → needs_slot c.stage ≡ true
        → holds_slot c ≡ true)
one_session_example = one_session target settings service 0 events fresh_names

active_connections_lem_example :
    let y = run target start events in
    (y.proxy.active_connections ≡ count is_active y.conns)
    × ((id : String) (c : Conn)
        → y.proxy.active_connections ≡ 0
        → get y.conns id ≡ some c
        → needs_slot c.stage ≡ false)
active_connections_lem_example = active_connections_lem target settings service 0 events fresh_names

waiting_pool_lem_example :
    let y = run target start events in
    (length y.proxy.pending_verifications ≤ (limits_of settings).max_pending)
    × ((ip : String) → waiting_from ip y.proxy ≤ (limits_of settings).max_pending_per_ip)
    × ((id : String) (w : Waiting)
        → get y.proxy.pending_verifications id ≡ some w
        → (c : Conn) × (get y.conns id ≡ some c)
          × (c.pending_registered ≡ true)
          × (in_pool_stage c.stage ≡ true)
          × (c.client_ip ≡ w.client_ip)
          × (c.client ≡ w.socket))
waiting_pool_lem_example = waiting_pool_lem target settings service 0 events fresh_names

reconnect_suppresses_notice_example :
    send_disconnect_options_with_grace
      (run target start events).proxy
      (run target start events).service
      31000
      "k"
      "s"
      "desk"
      0
    ≡ none
reconnect_suppresses_notice_example =
    reconnect_suppresses_notice target start events 0 31000 "k" "s" (omega arith) refl

abbrev nothing : List Event
nothing = []

-- The links of the notice.
abbrev sent : Service × String × String
sent = create_action_links service 31000 "k" "s" "desk"

is_sent :
    send_disconnect_options_with_grace
      (run target start nothing).proxy
      (run target start nothing).service
      31000
      "k"
      "s"
      "desk"
      0
    ≡ some sent
unfolding run send_disconnect_options_with_grace new_system new_proxy
is_sent = refl

-- A link is made and followed.
abbrev followed : List Event
followed =
    accepts 1000 "c1" 7 "a" 50000
    ∷ serves (2000, creates "t" (record { target = "desk"; client_ip = "a"; instance_id = "i-1" }))
    ∷ serves (3000, verifies "t")
    ∷ []

set : is_set (get (run target start followed).service.events "t") ≡ true
unfolding run step new_system new_proxy get put open_connection Links.step create_token new_service
    handle_verify verify_found cleanup prune keys select pop_all pop
set = refl

approval_needs_answer_example :
    Answered (new_service "http://proxy" 600) (requests target start followed) "t"
approval_needs_answer_example =
    approval_needs_answer target settings "http://proxy" 600 0 followed "t" set

-- Without security a connection is soon forwarded.
abbrev unguarded : Settings
unguarded = record settings { security_enabled = false }

abbrev forwarded : List Event
forwarded =
    accepts 1000 "c1" 7 "a" 50000
    ∷ moves "c1" (at_time 1001)
    ∷ moves "c1" (at_time 1002)
    ∷ moves "c1" (at_time 1003)
    ∷ moves "c1" (at_time 1004)
    ∷ moves "c1" (at_time 1005)
    ∷ moves "c1" (at_time 1006)
    ∷ moves "c1" (at_time 1007)
    ∷ moves "c1" (at_time 1008)
    ∷ []

forwarded_fresh : AllFresh target (new_system unguarded service 0) forwarded
unfolding new_system get
forwarded_fresh = (refl, (tt, (tt, (tt, (tt, (tt, (tt, (tt, (tt, tt)))))))))

takes_over :
    try_takeover_same_ip_forwarding_slot
      (run target (new_system unguarded service 0) forwarded).proxy
      "c2"
      "a"
    ≡ some (some 7, some 9)
unfolding step run new_system new_proxy get put advance work rate_step open_connection
    consume_ip_connection_slot limits_of probe_step hello_found is_rdp_hello whitelist_step
    security_step slot_step ensure_step connect_step established_step register_active_forwarding
    try_takeover_same_ip_forwarding_slot
takes_over = refl

takeover_lem_example :
    (id : String) × ((id == "c2") ≡ false)
    × (c : Conn) × (get (run target (new_system unguarded service 0) forwarded).conns id ≡ some c)
    × (c.client_ip ≡ "a")
    × (some 7 ≡ some c.client)
    × (c.forwarding_slot_acquired ≡ true)
    × (in_forwarding c.stage ≡ true)
takeover_lem_example =
    takeover_lem target unguarded service 0 forwarded "c2" "a" (some 7) (some 9) forwarded_fresh
      takes_over
