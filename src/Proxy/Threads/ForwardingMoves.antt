-- ===== src/Proxy/Threads/ForwardingMoves.antt =====
-- rdp_proxy/proxy.py, the active forwarding, over one step of a thread.
use rdp_on_demand_proxy_serv.Base.{
  ◌≡◌, ◌⊎◌, refl, String, Bool, true, false, ◌&&◌, Option, none, some, List, [], ◌∷◌, arith, leb,
  length, nat_eq, ◌==◌, eq_refl, Bool-cases, Option-cases, inl, inr,
}
use rdp_on_demand_proxy_serv.Proxy.{
  Proxy, Waiting, Socket, add_waiting, consume_ip_connection_slot, is_recently_approved_ip,
  mark_ip_approved, register_pending_verification, unregister_pending_verification,
  should_send_reconnect_only_notification, record_ip_disconnect, register_active_forwarding,
  clear_active_forwarding,
}
use rdp_on_demand_proxy_serv.Proxy.Session.{
  Stage, create_verification, established_notice, forwarding, finishing, disconnect_count,
  disconnect_record, clear_forwarding, Conn, Input, Target, Machine,
}
use rdp_on_demand_proxy_serv.Proxy.Session.Advance.{work, advance, is_tried}
use rdp_on_demand_proxy_serv.Proxy.Session.Admission.{
  rate_step, probe_step, whitelist_step, security_step, hello_found,
}
use rdp_on_demand_proxy_serv.Proxy.Session.Approval.{
  register_step, reconnect_step, reconnect_notice_step, token_step, notice_step, verification_step,
  leave_pool_step, mark_step,
}
use rdp_on_demand_proxy_serv.Proxy.Session.Slot.{
  slot_step, ensure_step, connect_step, established_step, forwarding_step,
}
use rdp_on_demand_proxy_serv.Proxy.Session.Closing.{
  finish_step, count_step, record_step, clear_step, release_step,
}
use rdp_on_demand_proxy_serv.Proxy.Threads.SlotMoves.{InPlace}

-- A thread whose connection is the active forwarding is at one of these stages.
abbrev pub in_forwarding : Stage → Bool
in_forwarding forwarding = true
in_forwarding finishing = true
in_forwarding disconnect_count = true
in_forwarding disconnect_record = true
in_forwarding clear_forwarding = true
in_forwarding _ = false

abbrev pub is_socket : Option Socket → Socket → Bool
is_socket none s = false
is_socket (some t) s = nat_eq t s

-- The active forwarding is this connection's.
abbrev pub is_active_forwarding : Proxy → Conn → Bool
is_active_forwarding x c =
    c.client_ip == x.forwarding_client_ip
    && is_socket x.forwarding_client_socket c.client
    && c.forwarding_slot_acquired
    && in_forwarding c.stage

pub record SameForwarding (x : Proxy) (y : Proxy) : Type 0 where
  pub id : y.forwarding_connection_id ≡ x.forwarding_connection_id
  pub ip : y.forwarding_client_ip ≡ x.forwarding_client_ip
  pub socket : y.forwarding_client_socket ≡ x.forwarding_client_socket

-- A step leaves the active forwarding, which stays its thread's if it was, or clears it, or makes it its own.
abbrev pub ForwardingMoved : Machine → Machine → Type 0
ForwardingMoved m n =
    (SameForwarding m.proxy n.proxy
      × ((m.proxy.forwarding_connection_id == m.conn.connection_id) ≡ true
          → is_active_forwarding m.proxy m.conn ≡ true
          → is_active_forwarding n.proxy n.conn ≡ true))
    ⊎ (n.proxy.forwarding_connection_id ≡ "")
    ⊎ ((n.proxy.forwarding_connection_id ≡ m.conn.connection_id)
        × (is_active_forwarding n.proxy n.conn ≡ true))

add_waiting-SameForwarding :
    (x : Proxy) (id : String) (w : Waiting) (same_ip : List (String × Waiting))
    → SameForwarding x (add_waiting x id w same_ip).proxy
unfolding add_waiting
add_waiting-SameForwarding x id w [] = record { id = refl; ip = refl; socket = refl }
add_waiting-SameForwarding x id w ((old_id, old) ∷ rest) = record {
  id = ground arith;
  ip = ground arith;
  socket = ground arith;
}

registration-SameForwarding :
    (x : Proxy) (id : String) (w : Waiting)
    → SameForwarding x (register_pending_verification x id w).proxy
unfolding register_pending_verification
registration-SameForwarding x id w =
    elim (Bool-cases (leb x.limits.max_pending (length x.pending_verifications))) [
      | inl full ↦ simp full (record { id = refl; ip = refl; socket = refl })
      | inr room ↦ simp room (add_waiting-SameForwarding x id w _)
    ]

work-ForwardingMoved :
    (t : Target) (st : Stage) (m : Machine) (i : Input)
    → m.conn.stage ≡ st
    → InPlace m.conn
    → ForwardingMoved m (work t st m i)
unfolding work consume_ip_connection_slot is_recently_approved_ip mark_ip_approved
    unregister_pending_verification should_send_reconnect_only_notification record_ip_disconnect
    register_active_forwarding clear_active_forwarding clear_step connect_step count_step
    ensure_step established_step finish_step forwarding_step leave_pool_step mark_step notice_step
    probe_step hello_found rate_step reconnect_notice_step reconnect_step record_step register_step
    release_step security_step slot_step token_step verification_step whitelist_step
work-ForwardingMoved t create_verification m i e p =
    let r = registration-SameForwarding m.proxy m.conn.connection_id (record {
      socket = m.conn.client;
      client_ip = m.conn.client_ip;
      client_port = m.conn.client_port;
    }) in
    inl (
      record {
        id = ground (arith, r.id);
        ip = ground (arith, r.ip);
        socket = ground (arith, r.socket);
      },
      λ own a. ground (arith, e, a),
    )
work-ForwardingMoved t established_notice m i e p = elim (Option-cases m.conn.upstream) [
  | inl u ↦ inl (
    record { id = ground (arith, u); ip = ground (arith, u); socket = ground (arith, u) },
    λ own a. ground (arith, e, a),
  )
  | inr (s, u) ↦ inr (inr (ground (arith, u), ground (arith, u, e, p, eq_refl m.conn.client_ip)))
]
work-ForwardingMoved t clear_forwarding m i e p =
    elim (Bool-cases (
      m.conn.forwarding_slot_acquired
      && m.proxy.forwarding_connection_id == m.conn.connection_id)) [
        | inl both ↦ inr (inl (ground (arith, both)))
        | inr kept ↦ inl (
          record {
            id = ground (arith, kept);
            ip = ground (arith, kept);
            socket = ground (arith, kept);
          },
          λ own a. ground (arith, e, a, own, kept),
        )
      ]
work-ForwardingMoved t st m i e p = inl (
  record { id = ground arith; ip = ground arith; socket = ground arith },
  λ own a. ground (arith, e, a),
)

pub advance-ForwardingMoved :
    (t : Target) (m : Machine) (i : Input) → InPlace m.conn → ForwardingMoved m (advance t m i)
unfolding advance
advance-ForwardingMoved t m i p = elim (Bool-cases (i.raises && is_tried m.conn.stage)) [
  | inl e ↦
      simp e (inl (record { id = refl; ip = refl; socket = refl }, λ own a. ground (arith, a)))
  | inr e ↦ simp e (work-ForwardingMoved t m.conn.stage m i refl p)
]
