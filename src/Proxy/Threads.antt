-- ===== src/Proxy/Threads.antt =====
-- rdp_proxy/proxy.py: the threads of one target. Each accepted connection has its own; their steps and
-- the requests that the verification service answers come in any order.
pub mod Slots
pub mod SlotMoves
pub mod Active
pub mod Pool
pub mod PoolSteps
pub mod PoolLimits
pub mod PoolMoves
pub mod Waiting
pub mod Grace
pub mod ForwardingMoves
pub mod Takeover
pub mod Requests
mod Tests
use rdp_on_demand_proxy_serv.Base.{
  ℕ, String, Bool, true, false, Option, none, some, List, [], ◌∷◌, ◌≡◌,
}
use rdp_on_demand_proxy_serv.Base.Dict.{Dict, get, put}
use rdp_on_demand_proxy_serv.Verification.{Service}
use rdp_on_demand_proxy_serv.Verification.Links.{Op}
use rdp_on_demand_proxy_serv.Verification.Links
use rdp_on_demand_proxy_serv.Proxy.{Proxy, Socket, Settings, new_proxy}
use rdp_on_demand_proxy_serv.Proxy.Session.{Conn, Input, Effect, Target, Machine, open_connection}
use rdp_on_demand_proxy_serv.Proxy.Session.Advance.{advance}

pub record System : Type 0 where
  pub proxy : Proxy
  pub service : Service
  pub conns : Dict Conn
  pub effects : List Effect

unfoldable pub new_system : Settings → Service → ℕ → System
new_system s service now = record {
  proxy = new_proxy s now;
  service = service;
  conns = [];
  effects = [];
}

-- A connection is accepted, with a fresh name; a thread makes its next step; the service answers.
pub data Event : Type 0 where
  accepts : ℕ → String → Socket → String → ℕ → Event
  moves : String → Input → Event
  serves : ℕ × Op → Event

abbrev pub machine_of : System → Conn → Machine
machine_of y c = record { proxy = y.proxy; service = y.service; conn = c; effects = y.effects }

-- The thread of `id` leaves the machine `m` behind.
abbrev pub left_by : System → String → Machine → System
left_by y id m = record {
  proxy = m.proxy;
  service = m.service;
  conns = put y.conns id m.conn;
  effects = m.effects;
}

abbrev pub moved : Target → System → String → Input → Option Conn → System
moved t y id i none = y
moved t y id i (some c) = left_by y id (advance t (machine_of y c) i)

pub step : Target → System → Event → System
unfolding advance
step t y (accepts now id socket ip port) =
    let r = open_connection y.proxy now id socket ip port in
    record y { proxy = r.0; conns = put y.conns id r.1 }
step t y (moves id i) = moved t y id i (get y.conns id)
step t y (serves op) = record y { service = Links.step y.service op }

pub run : Target → System → List Event → System
run t y [] = y
run t y (e ∷ es) = run t (step t y e) es

-- The names of accepted connections are new; they come from `uuid4`.
abbrev pub IsFresh : System → Event → Type 0
IsFresh y (accepts now id socket ip port) = get y.conns id ≡ none
IsFresh y (moves id i) = Unit
IsFresh y (serves op) = Unit

abbrev pub AllFresh : Target → System → List Event → Type 0
AllFresh t y [] = Unit
AllFresh t y (e ∷ es) = IsFresh y e × AllFresh t (step t y e) es
