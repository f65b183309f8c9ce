-- ===== src/Proxy/Session/Approval.antt =====
-- rdp_proxy/proxy.py: the stages of a connection that waits for a verification.
use rdp_on_demand_proxy_serv.Base.{
  ◌+◌, String, Bool, true, false, not, Option, none, some, List, ◌∷◌, ltb, if◌then◌else◌, seconds,
}
use rdp_on_demand_proxy_serv.Base.Dict.{get}
use rdp_on_demand_proxy_serv.Verification.{create_token, cancel_token}
use rdp_on_demand_proxy_serv.Proxy.{
  Waiting, mark_ip_approved, register_pending_verification, unregister_pending_verification,
  should_send_reconnect_only_notification,
}
use rdp_on_demand_proxy_serv.Proxy.Session.{
  reconnect_check, reconnect_notice, token_creation, verification_notice, wait_verification,
  leave_pool, approval_mark, finishing, Input, Effect, reconnect_message, verification_sent,
  socket_closed, Target, Machine, go_to, wait_at, gone, enter_slot, approve,
}

abbrev pub closes : Option (String × Waiting) → List Effect → List Effect
closes none es = es
closes (some (id, old)) es = socket_closed old.socket ∷ es

unfoldable pub register_step : Machine → Machine
register_step m =
    let c = m.conn in
    let r =
      register_pending_verification m.proxy c.connection_id
        (record { socket = c.client; client_ip = c.client_ip; client_port = c.client_port }) in
    if not r.accepted then go_to m finishing else record m {
      proxy = r.proxy;
      conn = record c { pending_registered = true; stage = reconnect_check };
      effects = closes r.replaced m.effects;
    }

unfoldable pub reconnect_step : Machine → Input → Machine
reconnect_step m i =
    let r = should_send_reconnect_only_notification m.proxy i.now m.conn.client_ip in
    go_to (record m { proxy = r.0 }) (if r.1 then reconnect_notice else token_creation)

unfoldable pub reconnect_notice_step : Machine → Machine
reconnect_notice_step m = record m {
  proxy = unregister_pending_verification m.proxy m.conn.connection_id;
  conn = record m.conn {
    pending_registered = false;
    approved = true;
    reconnect_bypass_applied = true;
    stage = approval_mark;
  };
  effects = reconnect_message m.conn.client_ip ∷ m.effects;
}

unfoldable pub token_step : Target → Machine → Input → Machine
token_step t m i =
    let r =
      create_token m.service i.now i.fresh
        (record { target = t.name; client_ip = m.conn.client_ip; instance_id = t.instance_id }) in
    record m {
      service = r.0;
      conn = record m.conn { token = i.fresh; verify_url = r.1; stage = verification_notice };
    }

unfoldable pub notice_step : Machine → Input → Machine
notice_step m i =
    wait_at
      (record m {
        effects = verification_sent m.conn.client_ip m.conn.verify_url m.conn.token ∷ m.effects;
      })
      wait_verification (i.now + seconds m.proxy.limits.verification_wait_seconds)

abbrev pub is_set : Option Bool → Bool
is_set none = false
is_set (some b) = b

-- One round of `_wait_for_verification_or_disconnect`, and what follows the loop.
unfoldable pub verification_step : Machine → Input → Machine
verification_step m i =
    if ltb i.now m.conn.deadline
    then if is_set (get m.service.events m.conn.token)
      then go_to (approve m) leave_pool
      else if gone i.peek
      then go_to (record m { service = (cancel_token m.service m.conn.token).0 }) finishing
      else m
    else if m.proxy.limits.deny_if_timeout
    then go_to m finishing
    else go_to m leave_pool

unfoldable pub leave_pool_step : Machine → Input → Machine
leave_pool_step m i =
    let n = record m {
      proxy = unregister_pending_verification m.proxy m.conn.connection_id;
      conn = record m.conn { pending_registered = false };
    } in
    if m.conn.approved then go_to n approval_mark else enter_slot n i.now

unfoldable pub mark_step : Machine → Input → Machine
mark_step m i =
    enter_slot (record m { proxy = mark_ip_approved m.proxy i.now m.conn.client_ip }) i.now
