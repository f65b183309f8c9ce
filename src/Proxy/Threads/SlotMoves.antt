-- ===== src/Proxy/Threads/SlotMoves.antt =====
-- rdp_proxy/proxy.py, `_single_session_lock`, over one step of a thread.
use rdp_on_demand_proxy_serv.Base.{
  ◌+◌, ◌≡◌, inl, inr, refl, Bool, true, false, ◌&&◌, not, Option, none, some, arith, Bool-cases,
}
use rdp_on_demand_proxy_serv.Base.Count.{one_if}
use rdp_on_demand_proxy_serv.Proxy.{Proxy, Socket}
use rdp_on_demand_proxy_serv.Proxy.Frame
use rdp_on_demand_proxy_serv.Proxy.Session.{
  Stage, ip_rate_limit, security_check, create_verification, reconnect_check, reconnect_notice,
  leave_pool, approval_mark, ensure_instance_running, connect_upstream, established_notice,
  forwarding, finishing, disconnect_count, disconnect_record, clear_forwarding, release_slot,
  closed, Conn, Input, Target, Machine,
}
use rdp_on_demand_proxy_serv.Proxy.Session.Advance.{work, advance, is_tried}
use rdp_on_demand_proxy_serv.Proxy.Session.Admission.{
  rate_step, probe_step, whitelist_step, security_step, hello_found,
}
use rdp_on_demand_proxy_serv.Proxy.Session.Approval.{
  register_step, reconnect_step, reconnect_notice_step, token_step, notice_step, verification_step,
  leave_pool_step, mark_step,
}
use rdp_on_demand_proxy_serv.Proxy.Session.Slot.{
  slot_step, ensure_step, connect_step, established_step, forwarding_step, registered_forwarding,
}
use rdp_on_demand_proxy_serv.Proxy.Session.Closing.{
  finish_step, count_step, record_step, clear_step, release_step,
}

abbrev pub is_closed : Stage → Bool
is_closed closed = true
is_closed _ = false

-- The thread has the slot, from its `acquire` to its `release`.
abbrev pub holds_slot : Conn → Bool
holds_slot c = c.forwarding_slot_acquired && not (is_closed c.stage)

abbrev pub before_slot : Stage → Bool
before_slot ensure_instance_running = false
before_slot connect_upstream = false
before_slot established_notice = false
before_slot forwarding = false
before_slot finishing = false
before_slot disconnect_count = false
before_slot disconnect_record = false
before_slot clear_forwarding = false
before_slot release_slot = false
before_slot closed = false
before_slot _ = true

abbrev pub needs_slot : Stage → Bool
needs_slot ensure_instance_running = true
needs_slot connect_upstream = true
needs_slot established_notice = true
needs_slot forwarding = true
needs_slot _ = false

-- No slot before `acquire`, and the slot from then on until the cleanup.
abbrev pub InPlace : Conn → Type 0
InPlace c =
    ((before_slot c.stage && c.forwarding_slot_acquired) ≡ false)
    × ((needs_slot c.stage && not c.forwarding_slot_acquired) ≡ false)

-- A step moves the slot between the thread and the proxy, and loses none.
pub record SlotMoved (m : Machine) (n : Machine) : Type 0 where
  pub balance :
      one_if n.proxy.slot_taken + one_if (holds_slot m.conn)
      ≡ one_if m.proxy.slot_taken + one_if (holds_slot n.conn)
  pub place : InPlace n.conn

pub registered_forwarding-SamePool :
    (x : Proxy) (c : Conn) (u : Option Socket) → Frame.SamePool x (registered_forwarding x c u)
registered_forwarding-SamePool x c none = record {
  slot = refl;
  active = refl;
  generation = refl;
  pool = refl;
  limits = refl;
}
registered_forwarding-SamePool x c (some u) =
    Frame.register_active_forwarding-SamePool x c.connection_id c.client_ip c.client u

work-SlotMoved :
    (t : Target) (st : Stage) (m : Machine) (i : Input)
    → m.conn.stage ≡ st
    → InPlace m.conn
    → (holds_slot m.conn ≡ true → m.proxy.slot_taken ≡ true)
    → SlotMoved m (work t st m i)
unfolding work clear_step connect_step count_step ensure_step established_step finish_step
    forwarding_step leave_pool_step mark_step notice_step probe_step hello_found rate_step
    reconnect_notice_step reconnect_step record_step register_step release_step security_step
    slot_step token_step verification_step whitelist_step
work-SlotMoved t ip_rate_limit m i e p h = record {
  balance =
      ground
        (arith, (Frame.consume_ip_connection_slot-SamePool m.proxy i.now m.conn.client_ip).slot);
  place = (ground arith, ground arith);
}
work-SlotMoved t security_check m i e p h = record {
  balance =
      ground (arith, (Frame.is_recently_approved_ip-SamePool m.proxy i.now m.conn.client_ip).slot);
  place = (ground arith, ground arith);
}
work-SlotMoved t create_verification m i e p h = record {
  balance = ground (
    arith,
    (Frame.register_pending_verification-SameSlot m.proxy m.conn.connection_id (record {
      socket = m.conn.client;
      client_ip = m.conn.client_ip;
      client_port = m.conn.client_port;
    })).slot,
  );
  place = (ground arith, ground arith);
}
work-SlotMoved t reconnect_check m i e p h = record {
  balance = ground (
    arith,
    (Frame.should_send_reconnect_only_notification-SamePool m.proxy i.now m.conn.client_ip).slot,
  );
  place = (ground arith, ground arith);
}
work-SlotMoved t reconnect_notice m i e p h = record {
  balance =
      ground
        (arith, (Frame.unregister_pending_verification-SameSlot m.proxy m.conn.connection_id).slot);
  place = (ground arith, ground arith);
}
work-SlotMoved t leave_pool m i e p h = record {
  balance =
      ground
        (arith, (Frame.unregister_pending_verification-SameSlot m.proxy m.conn.connection_id).slot);
  place = (ground arith, ground arith);
}
work-SlotMoved t approval_mark m i e p h = record {
  balance = ground (arith, (Frame.mark_ip_approved-SamePool m.proxy i.now m.conn.client_ip).slot);
  place = (ground arith, ground arith);
}
work-SlotMoved t established_notice m i e p h = record {
  balance = ground (arith, (registered_forwarding-SamePool m.proxy m.conn m.conn.upstream).slot);
  place = (ground arith, ground arith);
}
work-SlotMoved t finishing m i e p h = record {
  balance =
      ground
        (arith, (Frame.unregister_pending_verification-SameSlot m.proxy m.conn.connection_id).slot);
  place = (ground arith, ground arith);
}
work-SlotMoved t disconnect_record m i e p h = record {
  balance =
      ground (arith, (Frame.record_ip_disconnect-SamePool m.proxy i.now m.conn.client_ip).slot);
  place = (ground arith, ground arith);
}
work-SlotMoved t clear_forwarding m i e p h = record {
  balance =
      ground (arith, (Frame.clear_active_forwarding-SamePool m.proxy m.conn.connection_id).slot);
  place = (ground arith, ground arith);
}
work-SlotMoved t st m i e p h = record {
  balance = ground arith;
  place = (ground arith, ground arith);
}

tried_is_open : (st : Stage) → is_tried st ≡ true → is_closed st ≡ false
tried_is_open st h = ground arith

pub needs_is_open : (st : Stage) → needs_slot st ≡ true → is_closed st ≡ false
needs_is_open st h = ground arith

pub advance-SlotMoved :
    (t : Target) (m : Machine) (i : Input)
    → InPlace m.conn
    → (holds_slot m.conn ≡ true → m.proxy.slot_taken ≡ true)
    → SlotMoved m (advance t m i)
unfolding advance
advance-SlotMoved t m i p h = elim (Bool-cases (i.raises && is_tried m.conn.stage)) [
  | inl e ↦
      simp e (record { balance = ground (arith, tried_is_open m.conn.stage); place = (refl, refl) })
  | inr e ↦ simp e (work-SlotMoved t m.conn.stage m i refl p h)
]
