-- ===== src/Proxy/Threads/Slots.antt =====
-- rdp_proxy/proxy.py, `_single_session_lock`, over all threads.
use rdp_on_demand_proxy_serv.Base.{
  ℕ, ◌≤◌, ◌≡◌, refl, String, true, Option, none, some, List, [], ◌∷◌, arith,
}
use rdp_on_demand_proxy_serv.Base.Dict.{get}
use rdp_on_demand_proxy_serv.Base.Count.{
  count, one_if, count-put, count-put_fresh, counted, put-Every,
}
use rdp_on_demand_proxy_serv.Verification.{Service}
use rdp_on_demand_proxy_serv.Proxy.{Settings, new_proxy}
use rdp_on_demand_proxy_serv.Proxy.Session.{open_connection, Conn, Input, Target}
use rdp_on_demand_proxy_serv.Proxy.Session.Advance.{advance}
use rdp_on_demand_proxy_serv.Proxy.Threads.{
  System, Event, accepts, moves, serves, new_system, machine_of, moved, step, run, IsFresh,
  AllFresh,
}
use rdp_on_demand_proxy_serv.Proxy.Threads.SlotMoves.{
  holds_slot, needs_slot, InPlace, needs_is_open, advance-SlotMoved,
}

-- The slot is taken exactly if one thread has it, and no two have it.
pub record IsExclusive (y : System) : Type 0 where
  pub owners : count holds_slot y.conns ≡ one_if y.proxy.slot_taken
  pub places : (id : String) (c : Conn) → get y.conns id ≡ some c → InPlace c

owner_took :
    (y : System) (id : String) (c : Conn)
    → IsExclusive y
    → get y.conns id ≡ some c
    → holds_slot c ≡ true
    → y.proxy.slot_taken ≡ true
owner_took y id c x found h = ground (arith, counted holds_slot y.conns id c, x.owners)

moved-IsExclusive :
    (t : Target) (y : System) (id : String) (i : Input) (found : Option Conn)
    → IsExclusive y
    → get y.conns id ≡ found
    → IsExclusive (moved t y id i found)
moved-IsExclusive t y id i none x e = x
moved-IsExclusive t y id i (some c) x e =
    let a = advance t (machine_of y c) i in
    let s = advance-SlotMoved t (machine_of y c) i (x.places id c e) (owner_took y id c x e) in
    record {
      owners = omega (arith, s.balance, count-put holds_slot y.conns id c a.conn e, x.owners);
      places = put-Every (λ _ d. InPlace d) y.conns id a.conn x.places s.place;
    }

pub step-IsExclusive :
    (t : Target) (y : System) (e : Event) → IsExclusive y → IsFresh y e → IsExclusive (step t y e)
unfolding step open_connection
step-IsExclusive t y (accepts now id socket ip port) x fresh = record {
  owners = omega (
    arith,
    count-put_fresh holds_slot y.conns id (open_connection y.proxy now id socket ip port).1 fresh,
    x.owners,
  );
  places =
      put-Every (λ _ d. InPlace d) y.conns id (open_connection y.proxy now id socket ip port).1
        x.places (refl, refl);
}
step-IsExclusive t y (moves id i) x fresh = moved-IsExclusive t y id i (get y.conns id) x refl
step-IsExclusive t y (serves op) x fresh = record { owners = x.owners; places = x.places }

run-IsExclusive :
    (t : Target) (y : System) (es : List Event)
    → IsExclusive y
    → AllFresh t y es
    → IsExclusive (run t y es)
unfolding run
run-IsExclusive t y [] x fresh = x
run-IsExclusive t y (e ∷ es) x fresh =
    run-IsExclusive t (step t y e) es (step-IsExclusive t y e x fresh.0) fresh.1

-- From the start of a target on, whatever its threads do in whatever order, if accepted connections have
-- new names: the slot is taken exactly if
-- a thread has it, at most one thread has it, and every thread that readies the instance, connects
-- or forwards has it.
pub one_session :
    (t : Target) (s : Settings) (service : Service) (now : ℕ) (es : List Event)
    → AllFresh t (new_system s service now) es
    → let y = run t (new_system s service now) es in
      (count holds_slot y.conns ≡ one_if y.proxy.slot_taken)
      × (count holds_slot y.conns ≤ 1)
      × ((id : String) (c : Conn)
          → get y.conns id ≡ some c
          → needs_slot c.stage ≡ true
          → holds_slot c ≡ true)
unfolding new_system new_proxy get
one_session t s service now es fresh =
    let start : IsExclusive (new_system s service now) = record {
      owners = refl;
      places = λ id c e. cc;
    } in
    let x = run-IsExclusive t (new_system s service now) es start fresh in
    (
      x.owners,
      ground (arith, x.owners),
      λ id c e n. ground (arith, n, x.places id c e, needs_is_open c.stage),
    )
