-- ===== src/Proxy.antt =====
-- rdp_proxy/proxy.py: the state of a `TargetProxy` and the methods that read or write it under its
-- state lock. Each is one atomic step; the time that it reads is an argument.
pub mod Pending
pub mod Rate
pub mod Recent
pub mod Frame
pub mod Session
pub mod Threads
mod Tests
use rdp_on_demand_proxy_serv.Base.{
  ℕ, suc, ◌+◌, ◌-◌, String, Bool, true, false, ◌&&◌, ◌||◌, not, Option, none, some, List, [], ◌∷◌,
  ltb, leb, if◌then◌else◌, seconds, length, max, min, ◌==◌,
}
use rdp_on_demand_proxy_serv.Base.Int.{ℤ, at_least}
use rdp_on_demand_proxy_serv.Base.Dict.{Dict, get, put, pop, prune, entries_where}

-- The constructor's arguments that the state keeps.
pub record Settings : Type 0 where
  pub security_enabled : Bool
  pub verification_wait_seconds : ℤ
  pub deny_if_timeout : Bool
  pub max_pending_verification_connections : ℤ
  pub max_pending_verifications_per_ip : ℤ
  pub forwarding_slot_wait_seconds : ℤ
  pub approved_ip_reuse_seconds : ℤ
  pub per_ip_connection_rate_window_seconds : ℤ
  pub per_ip_connection_rate_limit : ℤ

-- What the methods read: the settings after the constructor's `max(...)`.
pub record Limits : Type 0 where
  pub security_enabled : Bool
  pub verification_wait_seconds : ℕ
  pub deny_if_timeout : Bool
  pub max_pending : ℕ
  pub max_pending_per_ip : ℕ
  pub slot_wait_seconds : ℕ
  pub reuse_seconds : ℕ
  pub rate_window_seconds : ℕ
  pub rate_limit : ℕ

pub limits_of : Settings → Limits
limits_of s = record {
  security_enabled = s.security_enabled;
  verification_wait_seconds = at_least 0 s.verification_wait_seconds;
  deny_if_timeout = s.deny_if_timeout;
  max_pending = at_least 1 s.max_pending_verification_connections;
  max_pending_per_ip = at_least 1 s.max_pending_verifications_per_ip;
  slot_wait_seconds = at_least 0 s.forwarding_slot_wait_seconds;
  reuse_seconds = at_least 0 s.approved_ip_reuse_seconds;
  rate_window_seconds = at_least 0 s.per_ip_connection_rate_window_seconds;
  rate_limit = at_least 0 s.per_ip_connection_rate_limit;
}

-- A socket, by its identity.
abbrev pub Socket : Type 0
Socket = ℕ

pub record Waiting : Type 0 where
  pub socket : Socket
  pub client_ip : String
  pub client_port : ℕ

pub record RateWindow : Type 0 where
  pub started : ℕ
  pub count : ℕ

pub record Proxy : Type 0 where
  pub limits : Limits
  -- in milliseconds
  pub verification_notify_delay : ℕ
  pub active_connections : ℕ
  pub last_disconnect_at : ℕ
  pub idle_action : String
  pub disconnect_notify_generation : ℕ
  pub pending_verifications : Dict Waiting
  pub recent_approved_ips : Dict ℕ
  pub ip_rate_windows : Dict RateWindow
  pub recent_ip_disconnects : Dict ℕ
  -- `_single_session_lock` is held
  pub slot_taken : Bool
  pub forwarding_connection_id : String
  pub forwarding_client_ip : String
  pub forwarding_client_socket : Option Socket
  pub forwarding_upstream_socket : Option Socket

pub new_proxy : Settings → ℕ → Proxy
unfolding limits_of
new_proxy s now = record {
  limits = limits_of s;
  verification_notify_delay = seconds 2;
  active_connections = 0;
  last_disconnect_at = now;
  idle_action = "keep_running";
  disconnect_notify_generation = 0;
  pending_verifications = [];
  recent_approved_ips = [];
  ip_rate_windows = [];
  recent_ip_disconnects = [];
  slot_taken = false;
  forwarding_connection_id = "";
  forwarding_client_ip = "";
  forwarding_client_socket = none;
  forwarding_upstream_socket = none;
}

pub set_verification_notify_delay : Proxy → ℤ → Proxy
set_verification_notify_delay x delay = record x { verification_notify_delay = at_least 0 delay }

-- What `_register_pending_verification` returns; `closed` is the socket that it shuts down.
pub record Registered : Type 0 where
  pub proxy : Proxy
  pub accepted : Bool
  pub reason : String
  pub replaced : Option (String × Waiting)

abbrev pub from_ip : String → Waiting → Bool
from_ip ip w = w.client_ip == ip

add_waiting : Proxy → String → Waiting → List (String × Waiting) → Registered
add_waiting x id w [] = record {
  proxy = record x { pending_verifications = put x.pending_verifications id w };
  accepted = true;
  reason = "registered";
  replaced = none;
}
add_waiting x id w ((old_id, old) ∷ same_ip) =
    if leb x.limits.max_pending_per_ip (length ((old_id, old) ∷ same_ip))
    then record {
      proxy = record x { pending_verifications = put (pop x.pending_verifications old_id) id w };
      accepted = true;
      reason = "registered_with_same_ip_takeover";
      replaced = some (old_id, old);
    }
    else record {
      proxy = record x { pending_verifications = put x.pending_verifications id w };
      accepted = true;
      reason = "registered";
      replaced = none;
    }

pub register_pending_verification : Proxy → String → Waiting → Registered
unfolding add_waiting
register_pending_verification x id w =
    if leb x.limits.max_pending (length x.pending_verifications)
    then record { proxy = x; accepted = false; reason = "pending_pool_full"; replaced = none }
    else add_waiting x id w (entries_where (from_ip w.client_ip) x.pending_verifications)

pub unregister_pending_verification : Proxy → String → Proxy
unregister_pending_verification x id = record x {
  pending_verifications = pop x.pending_verifications id;
}

abbrev recent_of : Option ℕ → ℕ → ℕ → Bool
recent_of none now window = false
recent_of (some at) now window = leb (now - at) window

abbrev pub forget_if : Bool → Dict ℕ → String → Dict ℕ
forget_if true d ip = d
forget_if false d ip = pop d ip

pub is_recently_approved_ip : Proxy → ℕ → String → Proxy × Bool
is_recently_approved_ip x now ip =
    if leb x.limits.reuse_seconds 0
    then (x, false)
    else let recent =
        recent_of (get x.recent_approved_ips ip) now (seconds x.limits.reuse_seconds) in
      (record x { recent_approved_ips = forget_if recent x.recent_approved_ips ip }, recent)

-- self._ip_reconnect_notify_window_seconds
abbrev pub reconnect_window_seconds : ℕ
reconnect_window_seconds = 600

pub should_send_reconnect_only_notification : Proxy → ℕ → String → Proxy × Bool
should_send_reconnect_only_notification x now ip =
    let recent =
      recent_of (get x.recent_ip_disconnects ip) now (seconds reconnect_window_seconds) in
    (record x { recent_ip_disconnects = forget_if recent x.recent_ip_disconnects ip }, recent)

-- The stale entries of `_mark_ip_approved` and `_record_ip_disconnect`: ts < now - window.
abbrev pub older_than : ℕ → ℕ → ℕ → Bool
older_than now window ts = ltb (ts + window) now

pub mark_ip_approved : Proxy → ℕ → String → Proxy
mark_ip_approved x now ip = if leb x.limits.reuse_seconds 0 then x else record x {
  recent_approved_ips =
      prune (older_than now (seconds x.limits.reuse_seconds)) (put x.recent_approved_ips ip now);
}

pub record_ip_disconnect : Proxy → ℕ → String → Proxy
record_ip_disconnect x now ip = record x {
  recent_ip_disconnects =
      prune (older_than now (seconds reconnect_window_seconds))
        (put x.recent_ip_disconnects ip now);
}

pub register_active_forwarding : Proxy → String → String → Socket → Socket → Proxy
register_active_forwarding x id ip client upstream = record x {
  forwarding_connection_id = id;
  forwarding_client_ip = ip;
  forwarding_client_socket = some client;
  forwarding_upstream_socket = some upstream;
}

pub clear_active_forwarding : Proxy → String → Proxy
clear_active_forwarding x id = if not (x.forwarding_connection_id == id) then x else record x {
  forwarding_connection_id = "";
  forwarding_client_ip = "";
  forwarding_client_socket = none;
  forwarding_upstream_socket = none;
}

-- The sockets that the takeover shuts down, or none if it is refused.
pub try_takeover_same_ip_forwarding_slot :
    Proxy → String → String → Option (Option Socket × Option Socket)
try_takeover_same_ip_forwarding_slot x requester ip =
    if x.forwarding_connection_id == ""
    then none
    else if not (x.forwarding_client_ip == ip)
    then none
    else if x.forwarding_connection_id == requester
    then none
    else some (x.forwarding_client_socket, x.forwarding_upstream_socket)

abbrev pub window_or_new : Option RateWindow → ℕ → RateWindow
window_or_new none now = record { started = now; count = 0 }
window_or_new (some w) now = w

-- Whether the connection may go on, and otherwise for how long to wait. `elapsed` is not negative in
-- the code's sense if the clock has not gone back; the wait is written without it.
pub consume_ip_connection_slot : Proxy → ℕ → String → Proxy × Bool × ℕ
consume_ip_connection_slot x now ip =
    if leb x.limits.rate_window_seconds 0 || leb x.limits.rate_limit 0
    then (x, true, 0)
    else let old = window_or_new (get x.ip_rate_windows ip) now in
      let over = leb (seconds x.limits.rate_window_seconds) (now - old.started) in
      let w : RateWindow = if over then record { started = now; count = 0 } else old in
      if ltb w.count x.limits.rate_limit
      then (
        record x { ip_rate_windows = put x.ip_rate_windows ip (record w { count = suc w.count }) },
        true,
        0,
      )
      else (x, false, old.started + seconds x.limits.rate_window_seconds - now)
