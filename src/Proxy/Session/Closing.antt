-- ===== src/Proxy/Session/Closing.antt =====
-- rdp_proxy/proxy.py: the `finally` block of `_handle_connection` and the notice after its grace time.
use rdp_on_demand_proxy_serv.Base.{
  ℕ, suc, ◌-◌, String, Bool, true, false, ◌&&◌, ◌||◌, not, Option, none, some, List, ◌∷◌, ltb, leb,
  if◌then◌else◌, seconds, nat_eq,
}
use rdp_on_demand_proxy_serv.Verification.{Service, create_action_links}
use rdp_on_demand_proxy_serv.Proxy.{
  Proxy, Socket, unregister_pending_verification, record_ip_disconnect, clear_active_forwarding,
}
use rdp_on_demand_proxy_serv.Proxy.Session.{
  disconnect_count, disconnect_record, clear_forwarding, release_slot, closed, Input, Effect,
  socket_closed, disconnect_notice, Machine, go_to,
}

-- Whether the end of a session is announced, and the reason that the log names.
unfoldable pub should_send_disconnect_notification : Bool → Bool → Bool → ℕ → ℕ → Bool × String
should_send_disconnect_notification security_enabled approved forwarding_started duration
      upstream_bytes =
    if not approved && security_enabled
    then (false, "verification_not_approved")
    else if not forwarding_started
    then (false, "forwarding_not_started")
    else if not (leb (seconds 12) duration || leb 32768 upstream_bytes)
    then (false, "too_short_or_low_traffic")
    else (true, "eligible")

abbrev pub closed_upstream : Option Socket → List Effect → List Effect
closed_upstream none es = es
closed_upstream (some s) es = socket_closed s ∷ es

-- The connection leaves the pool, and its sockets are closed.
unfoldable pub finish_step : Machine → Machine
finish_step m = record m {
  proxy =
      if m.conn.pending_registered
      then unregister_pending_verification m.proxy m.conn.connection_id
      else m.proxy;
  conn = record m.conn { stage = disconnect_count };
  effects = closed_upstream m.conn.upstream (socket_closed m.conn.client ∷ m.effects);
}

unfoldable pub count_step : Machine → Input → Machine
count_step m i =
    let generation = suc m.proxy.disconnect_notify_generation in
    record m {
      proxy = record m.proxy {
        active_connections = m.proxy.active_connections - 1;
        last_disconnect_at = i.now;
        disconnect_notify_generation = generation;
      };
      conn = record m.conn {
        disconnect_generation = generation;
        previous_action = m.proxy.idle_action;
        stage = disconnect_record;
      };
    }

unfoldable pub record_step : Machine → Input → Machine
record_step m i =
    go_to
      (record m {
        proxy =
            if m.conn.approved && m.conn.forwarding_started
            then record_ip_disconnect m.proxy i.now m.conn.client_ip
            else m.proxy;
      })
      clear_forwarding

unfoldable pub clear_step : Machine → Machine
clear_step m =
    go_to
      (record m {
        proxy =
            if m.conn.forwarding_slot_acquired
            then clear_active_forwarding m.proxy m.conn.connection_id
            else m.proxy;
      })
      release_slot

-- The slot is given back; a session that was real starts the thread that announces its end.
unfoldable pub release_step : Machine → Input → Machine
unfolding should_send_disconnect_notification
release_step m i =
    let c = m.conn in
    let notify =
      should_send_disconnect_notification m.proxy.limits.security_enabled c.approved
        c.forwarding_started (i.now - c.start_ts) c.u2c_bytes in
    record m {
      proxy = if c.forwarding_slot_acquired then record m.proxy { slot_taken = false } else m.proxy;
      conn = record c { stage = closed };
      effects =
          if notify.0
          then disconnect_notice c.client_ip c.previous_action c.disconnect_generation ∷ m.effects
          else m.effects;
    }

-- After the grace time: the links that are sent, or none.
unfoldable pub send_disconnect_options_with_grace :
    Proxy → Service → ℕ → String → String → String → ℕ → Option (Service × String × String)
send_disconnect_options_with_grace x s now keep_token shutdown_token target generation =
    if ltb 0 x.active_connections || not (nat_eq x.disconnect_notify_generation generation)
    then none
    else some (create_action_links s now keep_token shutdown_token target)
