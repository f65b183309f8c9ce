-- ===== src/Proxy/Threads/PoolSteps.antt =====
-- rdp_proxy/proxy.py: the steps of a thread that leave the pool of waiting connections alone.
use rdp_on_demand_proxy_serv.Base.{◌≡◌, Bool, true, false, arith}
use rdp_on_demand_proxy_serv.Proxy.Frame
use rdp_on_demand_proxy_serv.Proxy.Session.{
  Stage, ip_rate_limit, security_check, create_verification, reconnect_check, reconnect_notice,
  leave_pool, approval_mark, ensure_instance_running, established_notice, finishing,
  disconnect_record, clear_forwarding, Input, Target, Machine,
}
use rdp_on_demand_proxy_serv.Proxy.Session.Advance.{work}
use rdp_on_demand_proxy_serv.Proxy.Session.Admission.{
  rate_step, probe_step, whitelist_step, security_step, hello_found,
}
use rdp_on_demand_proxy_serv.Proxy.Session.Approval.{
  register_step, reconnect_step, reconnect_notice_step, token_step, notice_step, verification_step,
  leave_pool_step, mark_step,
}
use rdp_on_demand_proxy_serv.Proxy.Session.Slot.{
  slot_step, ensure_step, connect_step, established_step, forwarding_step,
}
use rdp_on_demand_proxy_serv.Proxy.Session.Closing.{
  finish_step, count_step, record_step, clear_step, release_step,
}
use rdp_on_demand_proxy_serv.Proxy.Threads.SlotMoves.{registered_forwarding-SamePool}

-- The other steps put a connection into the pool or take it out.
abbrev pub keeps_pool : Stage → Bool
keeps_pool create_verification = false
keeps_pool reconnect_notice = false
keeps_pool leave_pool = false
keeps_pool finishing = false
keeps_pool _ = true

-- The pool and its limits are the same.
pub record SamePlaces (m : Machine) (n : Machine) : Type 0 where
  pub pool : n.proxy.pending_verifications ≡ m.proxy.pending_verifications
  pub limits : n.proxy.limits ≡ m.proxy.limits

pub work-SamePlaces :
    (t : Target) (st : Stage) (m : Machine) (i : Input)
    → keeps_pool st ≡ true
    → SamePlaces m (work t st m i)
unfolding work clear_step connect_step count_step ensure_step established_step finish_step
    forwarding_step leave_pool_step mark_step notice_step probe_step hello_found rate_step
    reconnect_notice_step reconnect_step record_step register_step release_step security_step
    slot_step token_step verification_step whitelist_step
work-SamePlaces t ip_rate_limit m i k =
    let same = Frame.consume_ip_connection_slot-SamePool m.proxy i.now m.conn.client_ip in
    record { pool = ground (arith, same.pool); limits = ground (arith, same.limits) }
work-SamePlaces t security_check m i k =
    let same = Frame.is_recently_approved_ip-SamePool m.proxy i.now m.conn.client_ip in
    record { pool = ground (arith, same.pool); limits = ground (arith, same.limits) }
work-SamePlaces t create_verification m i k = cc
work-SamePlaces t reconnect_check m i k =
    let same =
      Frame.should_send_reconnect_only_notification-SamePool m.proxy i.now m.conn.client_ip in
    record { pool = ground (arith, same.pool); limits = ground (arith, same.limits) }
work-SamePlaces t reconnect_notice m i k = cc
work-SamePlaces t leave_pool m i k = cc
work-SamePlaces t approval_mark m i k =
    let same = Frame.mark_ip_approved-SamePool m.proxy i.now m.conn.client_ip in
    record { pool = ground (arith, same.pool); limits = ground (arith, same.limits) }
work-SamePlaces t ensure_instance_running m i k = record {
  pool = ground arith;
  limits = ground arith;
}
work-SamePlaces t established_notice m i k =
    let same = registered_forwarding-SamePool m.proxy m.conn m.conn.upstream in
    record { pool = ground (arith, same.pool); limits = ground (arith, same.limits) }
work-SamePlaces t finishing m i k = cc
work-SamePlaces t disconnect_record m i k =
    let same = Frame.record_ip_disconnect-SamePool m.proxy i.now m.conn.client_ip in
    record { pool = ground (arith, same.pool); limits = ground (arith, same.limits) }
work-SamePlaces t clear_forwarding m i k =
    let same = Frame.clear_active_forwarding-SamePool m.proxy m.conn.connection_id in
    record { pool = ground (arith, same.pool); limits = ground (arith, same.limits) }
work-SamePlaces t st m i k = record { pool = ground arith; limits = ground arith }

-- A step keeps the connection's name.
pub work-name :
    (t : Target) (st : Stage) (m : Machine) (i : Input)
    → (work t st m i).conn.connection_id ≡ m.conn.connection_id
unfolding work clear_step connect_step count_step ensure_step established_step finish_step
    forwarding_step leave_pool_step mark_step notice_step probe_step hello_found rate_step
    reconnect_notice_step reconnect_step record_step register_step release_step security_step
    slot_step token_step verification_step whitelist_step
work-name t ip_rate_limit m i = ground arith
work-name t st m i = ground arith
