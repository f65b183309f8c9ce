-- ===== src/Proxy/Threads/Grace.antt =====
-- rdp_proxy/proxy.py, `_send_disconnect_options_with_grace`, over all threads.
use rdp_on_demand_proxy_serv.Base.{
  ℕ, ◌+◌, ◌≤◌, ◌≡◌, inl, inr, String, Bool, true, false, ◌&&◌, ◌||◌, Option, none, some, List, [],
  ◌∷◌, arith, Bool-cases,
}
use rdp_on_demand_proxy_serv.Base.Dict.{get}
use rdp_on_demand_proxy_serv.Base.Count.{count, one_if}
use rdp_on_demand_proxy_serv.Verification.{Service}
use rdp_on_demand_proxy_serv.Proxy.{Proxy, Settings}
use rdp_on_demand_proxy_serv.Proxy.Frame
use rdp_on_demand_proxy_serv.Proxy.Session.{
  open_connection, Stage, ip_rate_limit, security_check, create_verification, reconnect_check,
  reconnect_notice, leave_pool, approval_mark, established_notice, finishing, disconnect_record,
  clear_forwarding, Conn, Input, Target, Machine,
}
use rdp_on_demand_proxy_serv.Proxy.Session.Advance.{work, advance, is_tried}
use rdp_on_demand_proxy_serv.Proxy.Session.Admission.{
  rate_step, probe_step, whitelist_step, security_step, hello_found,
}
use rdp_on_demand_proxy_serv.Proxy.Session.Approval.{
  register_step, reconnect_step, reconnect_notice_step, token_step, notice_step, verification_step,
  leave_pool_step, mark_step,
}
use rdp_on_demand_proxy_serv.Proxy.Session.Slot.{
  slot_step, ensure_step, connect_step, established_step, forwarding_step,
}
use rdp_on_demand_proxy_serv.Proxy.Session.Closing.{
  send_disconnect_options_with_grace, finish_step, count_step, record_step, clear_step,
  release_step,
}
use rdp_on_demand_proxy_serv.Proxy.Threads.SlotMoves.{registered_forwarding-SamePool}
use rdp_on_demand_proxy_serv.Proxy.Threads.Active.{is_active, active_connections_lem}
use rdp_on_demand_proxy_serv.Proxy.Threads.{
  System, Event, accepts, moves, serves, new_system, machine_of, moved, step, run, AllFresh,
}

abbrev Newer : Proxy → Proxy → Type 0
Newer x y = x.disconnect_notify_generation ≤ y.disconnect_notify_generation

work-Newer :
    (t : Target) (st : Stage) (m : Machine) (i : Input) → Newer m.proxy (work t st m i).proxy
unfolding work clear_step connect_step count_step ensure_step established_step finish_step
    forwarding_step leave_pool_step mark_step notice_step probe_step hello_found rate_step
    reconnect_notice_step reconnect_step record_step register_step release_step security_step
    slot_step token_step verification_step whitelist_step
work-Newer t ip_rate_limit m i =
    ground
      (arith, (Frame.consume_ip_connection_slot-SamePool m.proxy i.now m.conn.client_ip).generation)
work-Newer t security_check m i =
    ground
      (arith, (Frame.is_recently_approved_ip-SamePool m.proxy i.now m.conn.client_ip).generation)
work-Newer t create_verification m i = ground (
  arith,
  (Frame.register_pending_verification-SameSlot m.proxy m.conn.connection_id (record {
    socket = m.conn.client;
    client_ip = m.conn.client_ip;
    client_port = m.conn.client_port;
  })).generation,
)
work-Newer t reconnect_check m i = ground (
  arith,
  (Frame.should_send_reconnect_only_notification-SamePool m.proxy i.now
      m.conn.client_ip).generation,
)
work-Newer t reconnect_notice m i = ground (
  arith,
  (Frame.unregister_pending_verification-SameSlot m.proxy m.conn.connection_id).generation,
)
work-Newer t leave_pool m i = ground (
  arith,
  (Frame.unregister_pending_verification-SameSlot m.proxy m.conn.connection_id).generation,
)
work-Newer t approval_mark m i =
    ground (arith, (Frame.mark_ip_approved-SamePool m.proxy i.now m.conn.client_ip).generation)
work-Newer t established_notice m i =
    ground (arith, (registered_forwarding-SamePool m.proxy m.conn m.conn.upstream).generation)
work-Newer t finishing m i = ground (
  arith,
  (Frame.unregister_pending_verification-SameSlot m.proxy m.conn.connection_id).generation,
)
work-Newer t disconnect_record m i =
    ground (arith, (Frame.record_ip_disconnect-SamePool m.proxy i.now m.conn.client_ip).generation)
work-Newer t clear_forwarding m i =
    ground (arith, (Frame.clear_active_forwarding-SamePool m.proxy m.conn.connection_id).generation)
work-Newer t st m i = ground arith

advance-Newer : (t : Target) (m : Machine) (i : Input) → Newer m.proxy (advance t m i).proxy
unfolding advance
advance-Newer t m i = elim (Bool-cases (i.raises && is_tried m.conn.stage)) [
  | inl e ↦ simp e (omega arith)
  | inr e ↦ simp e (work-Newer t m.conn.stage m i)
]

moved-Newer :
    (t : Target) (y : System) (id : String) (i : Input) (found : Option Conn)
    → Newer y.proxy (moved t y id i found).proxy
moved-Newer t y id i none = omega arith
moved-Newer t y id i (some c) = advance-Newer t (machine_of y c) i

abbrev pub is_accept : Event → Bool
is_accept (accepts now id socket ip port) = true
is_accept (moves id i) = false
is_accept (serves op) = false

abbrev pub has_accept : List Event → Bool
has_accept [] = false
has_accept (e ∷ es) = is_accept e || has_accept es

step-Newer :
    (t : Target) (y : System) (e : Event)
    → y.proxy.disconnect_notify_generation + one_if (is_accept e)
      ≤ (step t y e).proxy.disconnect_notify_generation
unfolding step open_connection
step-Newer t y (accepts now id socket ip port) = omega arith
step-Newer t y (moves id i) = omega (arith, moved-Newer t y id i (get y.conns id))
step-Newer t y (serves op) = omega arith

run-Newer :
    (t : Target) (y : System) (es : List Event)
    → y.proxy.disconnect_notify_generation + one_if (has_accept es)
      ≤ (run t y es).proxy.disconnect_notify_generation
unfolding run
run-Newer t y [] = omega arith
run-Newer t y (e ∷ es) = ground (arith, step-Newer t y e, run-Newer t (step t y e) es)

-- If any connection is accepted between the end of a session, which took its generation from the count,
-- and the end of the grace time, then no options are sent for that session, whatever else happens.
pub reconnect_suppresses_notice :
    (t : Target) (y : System) (es : List Event) (generation : ℕ) (now : ℕ) (keep_token : String)
    (shutdown_token : String)
    → generation ≤ y.proxy.disconnect_notify_generation
    → has_accept es ≡ true
    → let z = run t y es in
      send_disconnect_options_with_grace z.proxy z.service now keep_token shutdown_token t.name
        generation
      ≡ none
unfolding send_disconnect_options_with_grace
reconnect_suppresses_notice t y es generation now keep_token shutdown_token taken accepted =
    ground (arith, taken, accepted, run-Newer t y es)

-- If accepted connections have new names, options are sent only while every accepted connection has been
-- taken out of the count, and only if the generation is still that of the session's end.
pub notice_needs_idle :
    (t : Target) (s : Settings) (service : Service) (start : ℕ) (es : List Event) (generation : ℕ)
    (now : ℕ) (keep_token : String) (shutdown_token : String) (sent : Service × String × String)
    → AllFresh t (new_system s service start) es
    → let y = run t (new_system s service start) es in
      send_disconnect_options_with_grace y.proxy y.service now keep_token shutdown_token t.name
          generation
        ≡ some sent
      → (count is_active y.conns ≡ 0) × (y.proxy.disconnect_notify_generation ≡ generation)
unfolding send_disconnect_options_with_grace
notice_needs_idle t s service start es generation now keep_token shutdown_token sent fresh h =
    let active = (active_connections_lem t s service start es fresh).0 in
    (ground (arith, active, h), ground (arith, h))
