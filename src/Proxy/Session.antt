-- ===== src/Proxy/Session.antt =====
-- rdp_proxy/proxy.py: `_handle_connection`, with the loops that wait for a client. A connection's thread
-- stands at a stage; one step is one section under a lock, one round of a loop or one call of another
-- component. The log lines are left out. What the outside supplies is the step's input.
pub mod Admission
pub mod Approval
pub mod Slot
pub mod Closing
pub mod Advance
pub mod Gates
pub mod Waits
pub mod Ends
mod Tests
use rdp_on_demand_proxy_serv.Base.{
  ℕ, suc, zero, ◌+◌, ◌-◌, String, ◌<>◌, Bool, true, false, ◌&&◌, ◌||◌, not, Option, none, some,
  List, [], ◌∷◌, ltb, leb, if◌then◌else◌, seconds, length, nat_eq,
}
use rdp_on_demand_proxy_serv.Base.Dict.{get}
use rdp_on_demand_proxy_serv.Verification.{Meta, Service, create_token, cancel_token}
use rdp_on_demand_proxy_serv.Proxy.{
  Proxy, Waiting, Socket, Registered, consume_ip_connection_slot, is_recently_approved_ip,
  mark_ip_approved, register_pending_verification, unregister_pending_verification,
  should_send_reconnect_only_notification, record_ip_disconnect, register_active_forwarding,
  clear_active_forwarding, try_takeover_same_ip_forwarding_slot,
}

pub data Stage : Type 0 where
  ip_rate_limit : Stage
  rate_limit_wait : Stage
  probe_rdp_hello : Stage
  whitelist_check : Stage
  security_check : Stage
  notify_delay_window : Stage
  create_verification : Stage
  reconnect_check : Stage
  reconnect_notice : Stage
  token_creation : Stage
  verification_notice : Stage
  wait_verification : Stage
  leave_pool : Stage
  approval_mark : Stage
  wait_forwarding_slot : Stage
  ensure_instance_running : Stage
  connect_upstream : Stage
  established_notice : Stage
  forwarding : Stage
  finishing : Stage
  disconnect_count : Stage
  disconnect_record : Stage
  clear_forwarding : Stage
  release_slot : Stage
  closed : Stage

-- The local variables of the thread.
pub record Conn : Type 0 where
  pub connection_id : String
  pub client : Socket
  pub client_ip : String
  pub client_port : ℕ
  pub start_ts : ℕ
  pub stage : Stage
  pub deadline : ℕ
  pub approved : Bool
  pub forwarding_started : Bool
  pub pending_registered : Bool
  pub forwarding_slot_acquired : Bool
  pub reconnect_bypass_applied : Bool
  pub takeover_attempted : Bool
  pub token : String
  pub verify_url : String
  pub upstream : Option Socket
  pub u2c_bytes : ℕ
  pub disconnect_generation : ℕ
  pub previous_action : String

-- A look at the client's socket: nothing to read, a socket error, or the bytes (none: it is closed).
pub data Peek : Type 0 where
  quiet : Peek
  failed : Peek
  bytes : List ℕ → Peek

-- What the outside supplies to a step: the time, the look at the client, what the whitelist and the cloud
-- say, a fresh token, the upstream socket, whether the stream has ended with its count of bytes,
-- and whether the step's call of another component raises.
pub record Input : Type 0 where
  pub now : ℕ
  pub peek : Peek
  pub whitelisted : Bool
  pub fresh : String
  pub instance_ready : Bool
  pub upstream : Socket
  pub stream_ended : Bool
  pub received : ℕ
  pub raises : Bool

-- The calls of other components and the sockets that a step shuts down.
pub data Effect : Type 0 where
  whitelist_rejected : String → Effect
  reconnect_message : String → Effect
  verification_sent : String → String → String → Effect
  connection_established : Effect
  socket_closed : Socket → Effect
  disconnect_notice : String → String → ℕ → Effect

-- The target's name and instance, for a token's meta.
pub record Target : Type 0 where
  pub name : String
  pub instance_id : String

pub record Machine : Type 0 where
  pub proxy : Proxy
  pub service : Service
  pub conn : Conn
  pub effects : List Effect

abbrev pub go_to : Machine → Stage → Machine
go_to m s = record m { conn = record m.conn { stage = s } }

-- A stage that waits takes its deadline when it is entered.
abbrev pub wait_at : Machine → Stage → ℕ → Machine
wait_at m s until = record m { conn = record m.conn { stage = s; deadline = until } }

-- The head of `_handle_connection`.
unfoldable pub open_connection : Proxy → ℕ → String → Socket → String → ℕ → Proxy × Conn
open_connection x now id client ip port = (
  record x {
    active_connections = suc x.active_connections;
    disconnect_notify_generation = suc x.disconnect_notify_generation;
  },
  record {
    connection_id = id;
    client = client;
    client_ip = ip;
    client_port = port;
    start_ts = now;
    stage = ip_rate_limit;
    deadline = 0;
    approved = false;
    forwarding_started = false;
    pending_registered = false;
    forwarding_slot_acquired = false;
    reconnect_bypass_applied = false;
    takeover_attempted = false;
    token = "";
    verify_url = "";
    upstream = none;
    u2c_bytes = 0;
    disconnect_generation = 0;
    previous_action = "";
  },
)

-- The client has hung up, or its socket is broken.
abbrev pub gone : Peek → Bool
gone quiet = false
gone failed = true
gone (bytes []) = true
gone (bytes (b ∷ bs)) = false

-- One round of a loop that waits for its deadline unless the client goes.
abbrev pub waits_for_client : Machine → Input → Stage → Machine
waits_for_client m i after =
    if ltb i.now m.conn.deadline
    then (if gone i.peek then go_to m finishing else m)
    else go_to m after

abbrev pub enter_slot : Machine → ℕ → Machine
enter_slot m now = wait_at m wait_forwarding_slot (now + seconds m.proxy.limits.slot_wait_seconds)

abbrev pub approve : Machine → Machine
approve m = record m { conn = record m.conn { approved = true } }
