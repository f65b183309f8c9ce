-- ===== src/Proxy/Session/Slot.antt =====
-- rdp_proxy/proxy.py: the stages of a connection from the forwarding slot to the end of the stream.
use rdp_on_demand_proxy_serv.Base.{
  true, ◌&&◌, not, Option, none, some, List, ◌∷◌, ltb, if◌then◌else◌,
}
use rdp_on_demand_proxy_serv.Proxy.{
  Proxy, Socket, register_active_forwarding, try_takeover_same_ip_forwarding_slot,
}
use rdp_on_demand_proxy_serv.Proxy.Session.{
  ensure_instance_running, connect_upstream, established_notice, forwarding, finishing, Conn, Input,
  Effect, connection_established, socket_closed, Machine, go_to, gone,
}

abbrev pub closed_socket : Option Socket → List Effect → List Effect
closed_socket none es = es
closed_socket (some s) es = socket_closed s ∷ es

-- The takeover has been tried; if it was refused, the round goes on with a look at the client.
abbrev pub after_takeover : Machine → Input → Option (Option Socket × Option Socket) → Machine
after_takeover m i none = if gone i.peek then go_to m finishing else m
after_takeover m i (some (client, upstream)) = record m {
  effects = closed_socket upstream (closed_socket client m.effects);
}

-- One round of `_acquire_forwarding_slot_or_disconnect`.
unfoldable pub slot_step : Machine → Input → Machine
slot_step m i =
    let c = m.conn in
    if not (ltb i.now c.deadline)
    then go_to m finishing
    else if not m.proxy.slot_taken
    then record m {
      proxy = record m.proxy { slot_taken = true };
      conn = record c { forwarding_slot_acquired = true; stage = ensure_instance_running };
    }
    else if c.reconnect_bypass_applied && not c.takeover_attempted
    then after_takeover (record m { conn = record c { takeover_attempted = true } }) i
        (try_takeover_same_ip_forwarding_slot m.proxy c.connection_id c.client_ip)
    else if gone i.peek
    then go_to m finishing
    else m

unfoldable pub ensure_step : Machine → Input → Machine
ensure_step m i = if i.instance_ready then go_to m connect_upstream else go_to m finishing

unfoldable pub connect_step : Machine → Input → Machine
connect_step m i = record m {
  conn = record m.conn { upstream = some i.upstream; stage = established_notice };
}

abbrev pub registered_forwarding : Proxy → Conn → Option Socket → Proxy
registered_forwarding x c none = x
registered_forwarding x c (some upstream) =
    register_active_forwarding x c.connection_id c.client_ip c.client upstream

unfoldable pub established_step : Machine → Machine
established_step m = record m {
  proxy = registered_forwarding m.proxy m.conn m.conn.upstream;
  conn = record m.conn { forwarding_started = true; stage = forwarding };
  effects = connection_established ∷ m.effects;
}

unfoldable pub forwarding_step : Machine → Input → Machine
forwarding_step m i =
    if i.stream_ended
    then record m { conn = record m.conn { u2c_bytes = i.received; stage = finishing } }
    else m
