-- ===== src/Proxy/Threads/Active.antt =====
-- rdp_proxy/proxy.py, `_active_connections`, over all threads.
use rdp_on_demand_proxy_serv.Base.{
  ℕ, ◌+◌, ◌≤◌, ◌≡◌, inl, inr, refl, String, Bool, true, false, ◌&&◌, Option, none, some, List, [],
  ◌∷◌, arith, Bool-cases,
}
use rdp_on_demand_proxy_serv.Base.Dict.{get}
use rdp_on_demand_proxy_serv.Base.Count.{count, one_if, count-put, count-put_fresh, counted}
use rdp_on_demand_proxy_serv.Verification.{Service}
use rdp_on_demand_proxy_serv.Proxy.{Settings, new_proxy}
use rdp_on_demand_proxy_serv.Proxy.Frame
use rdp_on_demand_proxy_serv.Proxy.Session.{
  open_connection, Stage, ip_rate_limit, security_check, create_verification, reconnect_check,
  reconnect_notice, leave_pool, approval_mark, established_notice, finishing, disconnect_record,
  clear_forwarding, release_slot, closed, Conn, Input, Target, Machine,
}
use rdp_on_demand_proxy_serv.Proxy.Session.Advance.{work, advance, is_tried}
use rdp_on_demand_proxy_serv.Proxy.Session.Admission.{
  rate_step, probe_step, whitelist_step, security_step, hello_found,
}
use rdp_on_demand_proxy_serv.Proxy.Session.Approval.{
  register_step, reconnect_step, reconnect_notice_step, token_step, notice_step, verification_step,
  leave_pool_step, mark_step,
}
use rdp_on_demand_proxy_serv.Proxy.Session.Slot.{
  slot_step, ensure_step, connect_step, established_step, forwarding_step,
}
use rdp_on_demand_proxy_serv.Proxy.Session.Closing.{
  finish_step, count_step, record_step, clear_step, release_step,
}
use rdp_on_demand_proxy_serv.Proxy.Threads.SlotMoves.{needs_slot, registered_forwarding-SamePool}
use rdp_on_demand_proxy_serv.Proxy.Threads.{
  System, Event, accepts, moves, serves, new_system, machine_of, moved, step, run, IsFresh,
  AllFresh,
}

-- The thread has not yet run the section of `finally` that takes it out of the count.
abbrev pub is_active : Conn → Bool
is_active c = elim c.stage [
  | disconnect_record ↦ false
  | clear_forwarding ↦ false
  | release_slot ↦ false
  | closed ↦ false
  | _ ↦ true
]

-- A step changes the count as it changes whether its thread is active.
abbrev ActiveMoved : Machine → Machine → Type 0
ActiveMoved m n =
    n.proxy.active_connections + one_if (is_active m.conn)
    ≡ m.proxy.active_connections + one_if (is_active n.conn)

work-ActiveMoved :
    (t : Target) (st : Stage) (m : Machine) (i : Input)
    → m.conn.stage ≡ st
    → one_if (is_active m.conn) ≤ m.proxy.active_connections
    → ActiveMoved m (work t st m i)
unfolding work clear_step connect_step count_step ensure_step established_step finish_step
    forwarding_step leave_pool_step mark_step notice_step probe_step hello_found rate_step
    reconnect_notice_step reconnect_step record_step register_step release_step security_step
    slot_step token_step verification_step whitelist_step
work-ActiveMoved t ip_rate_limit m i e h =
    ground
      (arith, (Frame.consume_ip_connection_slot-SamePool m.proxy i.now m.conn.client_ip).active)
work-ActiveMoved t security_check m i e h =
    ground (arith, (Frame.is_recently_approved_ip-SamePool m.proxy i.now m.conn.client_ip).active)
work-ActiveMoved t create_verification m i e h = ground (
  arith,
  (Frame.register_pending_verification-SameSlot m.proxy m.conn.connection_id (record {
    socket = m.conn.client;
    client_ip = m.conn.client_ip;
    client_port = m.conn.client_port;
  })).active,
)
work-ActiveMoved t reconnect_check m i e h = ground (
  arith,
  (Frame.should_send_reconnect_only_notification-SamePool m.proxy i.now m.conn.client_ip).active,
)
work-ActiveMoved t reconnect_notice m i e h =
    ground
      (arith, (Frame.unregister_pending_verification-SameSlot m.proxy m.conn.connection_id).active)
work-ActiveMoved t leave_pool m i e h =
    ground
      (arith, (Frame.unregister_pending_verification-SameSlot m.proxy m.conn.connection_id).active)
work-ActiveMoved t approval_mark m i e h =
    ground (arith, (Frame.mark_ip_approved-SamePool m.proxy i.now m.conn.client_ip).active)
work-ActiveMoved t established_notice m i e h =
    ground (arith, (registered_forwarding-SamePool m.proxy m.conn m.conn.upstream).active)
work-ActiveMoved t finishing m i e h =
    ground
      (arith, (Frame.unregister_pending_verification-SameSlot m.proxy m.conn.connection_id).active)
work-ActiveMoved t disconnect_record m i e h =
    ground (arith, (Frame.record_ip_disconnect-SamePool m.proxy i.now m.conn.client_ip).active)
work-ActiveMoved t clear_forwarding m i e h =
    ground (arith, (Frame.clear_active_forwarding-SamePool m.proxy m.conn.connection_id).active)
work-ActiveMoved t st m i e h = ground arith

needs_active : (c : Conn) → one_if (is_active c) ≡ 0 → needs_slot c.stage ≡ false
needs_active c h = ground arith

advance-ActiveMoved :
    (t : Target) (m : Machine) (i : Input)
    → one_if (is_active m.conn) ≤ m.proxy.active_connections
    → ActiveMoved m (advance t m i)
unfolding advance
advance-ActiveMoved t m i h = elim (Bool-cases (i.raises && is_tried m.conn.stage)) [
  | inl e ↦ simp e (ground arith)
  | inr e ↦ simp e (work-ActiveMoved t m.conn.stage m i refl h)
]

abbrev pub IsCounted : System → Type 0
IsCounted y = y.proxy.active_connections ≡ count is_active y.conns

moved-IsCounted :
    (t : Target) (y : System) (id : String) (i : Input) (found : Option Conn)
    → IsCounted y
    → get y.conns id ≡ found
    → IsCounted (moved t y id i found)
moved-IsCounted t y id i none x e = x
moved-IsCounted t y id i (some c) x e =
    let a = advance t (machine_of y c) i in
    omega (
      arith,
      advance-ActiveMoved t (machine_of y c) i (omega (arith, x, counted is_active y.conns id c e)),
      count-put is_active y.conns id c a.conn e,
      x,
    )

step-IsCounted :
    (t : Target) (y : System) (e : Event) → IsCounted y → IsFresh y e → IsCounted (step t y e)
unfolding step open_connection
step-IsCounted t y (accepts now id socket ip port) x fresh = omega (
  arith,
  count-put_fresh is_active y.conns id (open_connection y.proxy now id socket ip port).1 fresh,
  x,
)
step-IsCounted t y (moves id i) x fresh = moved-IsCounted t y id i (get y.conns id) x refl
step-IsCounted t y (serves op) x fresh = x

run-IsCounted :
    (t : Target) (y : System) (es : List Event)
    → IsCounted y
    → AllFresh t y es
    → IsCounted (run t y es)
unfolding run
run-IsCounted t y [] x fresh = x
run-IsCounted t y (e ∷ es) x fresh =
    run-IsCounted t (step t y e) es (step-IsCounted t y e x fresh.0) fresh.1

-- From the start of a target on, whatever its threads do, if accepted connections have new names: the count of active connections is the number of
-- accepted connections whose cleanup has not yet taken them out of it. So while the count is 0, which
-- the idle shutdown waits for, no thread readies the instance, connects or forwards.
pub active_connections_lem :
    (t : Target) (s : Settings) (service : Service) (now : ℕ) (es : List Event)
    → AllFresh t (new_system s service now) es
    → let y = run t (new_system s service now) es in
      (y.proxy.active_connections ≡ count is_active y.conns)
      × ((id : String) (c : Conn)
          → y.proxy.active_connections ≡ 0
          → get y.conns id ≡ some c
          → needs_slot c.stage ≡ false)
unfolding new_system new_proxy
active_connections_lem t s service now es fresh =
    let y = run t (new_system s service now) es in
    let x = run-IsCounted t (new_system s service now) es refl fresh in
    (x, λ id c idle e. needs_active c (omega (arith, x, idle, counted is_active y.conns id c e)))
