-- ===== src/Proxy/Threads/Takeover.antt =====
-- rdp_proxy/proxy.py, `_try_takeover_same_ip_forwarding_slot`, over all threads.
use rdp_on_demand_proxy_serv.Base.{
  ℕ, ◌≡◌, refl, subst, ◌∙◌, String, true, false, Option, none, some, List, [], ◌∷◌, arith, ◌==◌,
  eq_iff, eq_refl, Bool-cases, inl, inr,
}
use rdp_on_demand_proxy_serv.Base.Dict.{get, put, get-put}
use rdp_on_demand_proxy_serv.Verification.{Service}
use rdp_on_demand_proxy_serv.Proxy.{
  Proxy, Settings, Limits, limits_of, Socket, new_proxy, try_takeover_same_ip_forwarding_slot,
}
use rdp_on_demand_proxy_serv.Proxy.Session.{Conn, Input, Target, Machine, open_connection}
use rdp_on_demand_proxy_serv.Proxy.Session.Advance.{advance}
use rdp_on_demand_proxy_serv.Proxy.Threads.{
  System, Event, accepts, moves, serves, new_system, machine_of, left_by, moved, step, run, IsFresh,
  AllFresh,
}
use rdp_on_demand_proxy_serv.Proxy.Threads.Slots.{IsExclusive, step-IsExclusive}
use rdp_on_demand_proxy_serv.Proxy.Threads.Waiting.{IsKept, step-IsKept, new_system-IsKept}
use rdp_on_demand_proxy_serv.Proxy.Threads.ForwardingMoves.{
  ForwardingMoved, is_active_forwarding, is_socket, in_forwarding, advance-ForwardingMoved,
}

-- The active forwarding, if there is one, is that of the thread of its name.
abbrev IsHeld : System → Type 0
IsHeld y =
    (y.proxy.forwarding_connection_id == "") ≡ false
    → (c : Conn) × (get y.conns y.proxy.forwarding_connection_id ≡ some c)
      × (is_active_forwarding y.proxy c ≡ true)

left_by-IsHeld :
    (y : System) (id : String) (c : Conn) (n : Machine)
    → IsHeld y
    → get y.conns id ≡ some c
    → c.connection_id ≡ id
    → ForwardingMoved (machine_of y c) n
    → IsHeld (left_by y id n)
left_by-IsHeld y id c n held e name (inl (same, keeps)) h =
    let (d, there, active) = held (ground (arith, h, same.id)) in
    elim (Bool-cases (y.proxy.forwarding_connection_id == id)) [
      | inl own ↦ (
        n.conn,
        ground (
          arith,
          own,
          same.id,
          eq_iff y.proxy.forwarding_connection_id id,
          eq_iff id n.proxy.forwarding_connection_id,
          get-put y.conns id n.proxy.forwarding_connection_id n.conn,
        ),
        keeps (ground (arith, own, name))
            (ground (arith, own, e, there, active, eq_iff y.proxy.forwarding_connection_id id)),
      )
      | inr other ↦ (
        d,
        ground (
          arith,
          other,
          there,
          same.id,
          eq_iff y.proxy.forwarding_connection_id id,
          eq_iff id n.proxy.forwarding_connection_id,
          get-put y.conns id n.proxy.forwarding_connection_id n.conn,
        ),
        ground (arith, active, same.ip, same.socket),
      )
    ]
left_by-IsHeld y id c n held e name (inr (inl cleared)) h =
    absurd (ground (arith, subst (λ k. (k == "") ≡ false) cleared h, eq_refl ""))
left_by-IsHeld y id c n held e name (inr (inr (mine, active))) h = (
  n.conn,
  ground (
    arith,
    mine,
    name,
    eq_iff id n.proxy.forwarding_connection_id,
    get-put y.conns id n.proxy.forwarding_connection_id n.conn,
  ),
  active,
)

-- What holds of a system between any two events.
record IsSettled (l : Limits) (y : System) : Type 0 where
  exclusive : IsExclusive y
  kept : IsKept l y
  held : IsHeld y

moved-IsHeld :
    (l : Limits) (t : Target) (y : System) (id : String) (i : Input) (found : Option Conn)
    → IsSettled l y
    → get y.conns id ≡ found
    → IsHeld (moved t y id i found)
moved-IsHeld l t y id i none x e = x.held
moved-IsHeld l t y id i (some c) x e =
    left_by-IsHeld y id c (advance t (machine_of y c) i) x.held e (x.kept.owned.names id c e)
      (advance-ForwardingMoved t (machine_of y c) i (x.exclusive.places id c e))

accepted-IsHeld :
    (y : System) (now : ℕ) (id : String) (socket : Socket) (ip : String) (port : ℕ)
    → IsHeld y
    → get y.conns id ≡ none
    → let r = open_connection y.proxy now id socket ip port in
      IsHeld (record y { proxy = r.0; conns = put y.conns id r.1 })
unfolding open_connection
accepted-IsHeld y now id socket ip port held fresh h =
    let (d, there, active) = held h in
    let c = (open_connection y.proxy now id socket ip port).1 in
    (
      d,
      ground (
        arith,
        there,
        fresh,
        eq_iff id y.proxy.forwarding_connection_id,
        get-put y.conns id y.proxy.forwarding_connection_id c,
      ),
      active,
    )

step-IsHeld :
    (l : Limits) (t : Target) (y : System) (e : Event)
    → IsSettled l y
    → IsFresh y e
    → IsHeld (step t y e)
unfolding step
step-IsHeld l t y (accepts now id socket ip port) x fresh =
    accepted-IsHeld y now id socket ip port x.held fresh
step-IsHeld l t y (moves id i) x fresh = moved-IsHeld l t y id i (get y.conns id) x refl
step-IsHeld l t y (serves op) x fresh = x.held

run-IsSettled :
    (l : Limits) (t : Target) (y : System) (es : List Event)
    → IsSettled l y
    → AllFresh t y es
    → IsSettled l (run t y es)
unfolding run
run-IsSettled l t y [] x fresh = x
run-IsSettled l t y (e ∷ es) x fresh =
    run-IsSettled l t (step t y e) es
      (record {
        exclusive = step-IsExclusive t y e x.exclusive fresh.0;
        kept = step-IsKept l t y e x.kept fresh.0;
        held = step-IsHeld l t y e x fresh.0;
      })
      fresh.1

new_system-IsSettled :
    (s : Settings) (service : Service) (now : ℕ)
    → IsSettled (limits_of s) (new_system s service now)
unfolding new_system new_proxy get
new_system-IsSettled s service now = record {
  exclusive = record { owners = refl; places = λ id c e. cc };
  kept = new_system-IsKept s service now;
  held = λ h. absurd (ground (arith, h, eq_refl ""));
}

is_socket-some : (o : Option Socket) (s : Socket) → is_socket o s ≡ true → o ≡ some s
is_socket-some none s h = cc
is_socket-some (some t) s h = ground arith

-- What an accepted takeover shows of the proxy.
taken_over :
    (x : Proxy) (requester : String) (ip : String) (client : Option Socket)
    (upstream : Option Socket)
    → try_takeover_same_ip_forwarding_slot x requester ip ≡ some (client, upstream)
    → ((x.forwarding_connection_id == "") ≡ false)
      × (x.forwarding_client_ip ≡ ip)
      × ((x.forwarding_connection_id == requester) ≡ false)
      × (client ≡ x.forwarding_client_socket)
unfolding try_takeover_same_ip_forwarding_slot
taken_over x requester ip client upstream h = ground (arith, h, eq_iff x.forwarding_client_ip ip)

-- From the start of a target on, if accepted connections have new names: a takeover that is accepted shuts
-- down the client's socket of a session that another thread has, which is forwarding or cleaning up with
-- the slot in its hands, and whose client has the address of the one that asks.
pub takeover_lem :
    (t : Target) (s : Settings) (service : Service) (now : ℕ) (es : List Event) (requester : String)
    (ip : String) (client : Option Socket) (upstream : Option Socket)
    → AllFresh t (new_system s service now) es
    → let y = run t (new_system s service now) es in
      try_takeover_same_ip_forwarding_slot y.proxy requester ip ≡ some (client, upstream)
      → (id : String) × ((id == requester) ≡ false)
        × (c : Conn) × (get y.conns id ≡ some c)
        × (c.client_ip ≡ ip)
        × (client ≡ some c.client)
        × (c.forwarding_slot_acquired ≡ true)
        × (in_forwarding c.stage ≡ true)
takeover_lem t s service now es requester ip client upstream fresh h =
    let y = run t (new_system s service now) es in
    let x =
      run-IsSettled (limits_of s) t (new_system s service now) es
        (new_system-IsSettled s service now) fresh in
    let (open_, same_ip, other, socket) = taken_over y.proxy requester ip client upstream h in
    let (c, there, active) = x.held open_ in
    (
      y.proxy.forwarding_connection_id,
      other,
      c,
      there,
      ground (arith, active, same_ip, eq_iff c.client_ip y.proxy.forwarding_client_ip),
      socket ∙ is_socket-some y.proxy.forwarding_client_socket c.client (ground (arith, active)),
      ground (arith, active),
      ground (arith, active),
    )
