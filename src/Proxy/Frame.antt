-- ===== src/Proxy/Frame.antt =====
-- rdp_proxy/proxy.py, `TargetProxy`: the part of the state that each method leaves alone.
use rdp_on_demand_proxy_serv.Base.{
  ℕ, ◌≡◌, refl, String, List, [], ◌∷◌, arith, length, leb, Bool-cases, inl, inr,
}
use rdp_on_demand_proxy_serv.Proxy.{
  Proxy, Waiting, Socket, consume_ip_connection_slot, is_recently_approved_ip, mark_ip_approved,
  add_waiting, register_pending_verification, unregister_pending_verification,
  should_send_reconnect_only_notification, record_ip_disconnect, register_active_forwarding,
  clear_active_forwarding,
}

pub record SameSlot (x : Proxy) (y : Proxy) : Type 0 where
  pub slot : y.slot_taken ≡ x.slot_taken
  pub active : y.active_connections ≡ x.active_connections
  pub generation : y.disconnect_notify_generation ≡ x.disconnect_notify_generation
  pub limits : y.limits ≡ x.limits

-- The pool is the same, too.
pub record SamePool (x : Proxy) (y : Proxy) : Type 0 where
  pub slot : y.slot_taken ≡ x.slot_taken
  pub active : y.active_connections ≡ x.active_connections
  pub generation : y.disconnect_notify_generation ≡ x.disconnect_notify_generation
  pub pool : y.pending_verifications ≡ x.pending_verifications
  pub limits : y.limits ≡ x.limits

pub consume_ip_connection_slot-SamePool :
    (x : Proxy) (now : ℕ) (ip : String) → SamePool x (consume_ip_connection_slot x now ip).0
unfolding consume_ip_connection_slot
consume_ip_connection_slot-SamePool x now ip = record {
  slot = ground arith;
  active = ground arith;
  generation = ground arith;
  pool = ground arith;
  limits = ground arith;
}

pub is_recently_approved_ip-SamePool :
    (x : Proxy) (now : ℕ) (ip : String) → SamePool x (is_recently_approved_ip x now ip).0
unfolding is_recently_approved_ip
is_recently_approved_ip-SamePool x now ip = record {
  slot = ground arith;
  active = ground arith;
  generation = ground arith;
  pool = ground arith;
  limits = ground arith;
}

pub mark_ip_approved-SamePool :
    (x : Proxy) (now : ℕ) (ip : String) → SamePool x (mark_ip_approved x now ip)
unfolding mark_ip_approved
mark_ip_approved-SamePool x now ip = record {
  slot = ground arith;
  active = ground arith;
  generation = ground arith;
  pool = ground arith;
  limits = ground arith;
}

pub should_send_reconnect_only_notification-SamePool :
    (x : Proxy) (now : ℕ) (ip : String)
    → SamePool x (should_send_reconnect_only_notification x now ip).0
unfolding should_send_reconnect_only_notification
should_send_reconnect_only_notification-SamePool x now ip = record {
  slot = ground arith;
  active = ground arith;
  generation = ground arith;
  pool = ground arith;
  limits = ground arith;
}

pub record_ip_disconnect-SamePool :
    (x : Proxy) (now : ℕ) (ip : String) → SamePool x (record_ip_disconnect x now ip)
unfolding record_ip_disconnect
record_ip_disconnect-SamePool x now ip = record {
  slot = ground arith;
  active = ground arith;
  generation = ground arith;
  pool = ground arith;
  limits = ground arith;
}

pub register_active_forwarding-SamePool :
    (x : Proxy) (id : String) (ip : String) (c : Socket) (u : Socket)
    → SamePool x (register_active_forwarding x id ip c u)
unfolding register_active_forwarding
register_active_forwarding-SamePool x id ip c u = record {
  slot = ground arith;
  active = ground arith;
  generation = ground arith;
  pool = ground arith;
  limits = ground arith;
}

pub clear_active_forwarding-SamePool :
    (x : Proxy) (id : String) → SamePool x (clear_active_forwarding x id)
unfolding clear_active_forwarding
clear_active_forwarding-SamePool x id = record {
  slot = ground arith;
  active = ground arith;
  generation = ground arith;
  pool = ground arith;
  limits = ground arith;
}

pub unregister_pending_verification-SameSlot :
    (x : Proxy) (id : String) → SameSlot x (unregister_pending_verification x id)
unfolding unregister_pending_verification
unregister_pending_verification-SameSlot x id = record {
  slot = ground arith;
  active = ground arith;
  generation = ground arith;
  limits = ground arith;
}

add_waiting-SameSlot :
    (x : Proxy) (id : String) (w : Waiting) (same_ip : List (String × Waiting))
    → SameSlot x (add_waiting x id w same_ip).proxy
unfolding add_waiting
add_waiting-SameSlot x id w [] = record {
  slot = refl;
  active = refl;
  generation = refl;
  limits = refl;
}
add_waiting-SameSlot x id w ((old_id, old) ∷ rest) = record {
  slot = ground arith;
  active = ground arith;
  generation = ground arith;
  limits = ground arith;
}

pub register_pending_verification-SameSlot :
    (x : Proxy) (id : String) (w : Waiting)
    → SameSlot x (register_pending_verification x id w).proxy
unfolding register_pending_verification
register_pending_verification-SameSlot x id w =
    elim (Bool-cases (leb x.limits.max_pending (length x.pending_verifications))) [
      | inl full ↦
          simp full (record { slot = refl; active = refl; generation = refl; limits = refl })
      | inr room ↦ simp room (add_waiting-SameSlot x id w _)
    ]
