-- ===== src/Proxy/Threads/Waiting.antt =====
-- rdp_proxy/proxy.py, `_pending_verifications`, from the start of a target on.
use rdp_on_demand_proxy_serv.Base.{
  length, ◌==◌, eq_iff, ℕ, ◌≤◌, ◌≡◌, inl, inr, refl, subst, ◌∙◌, String, true, Option, none, some,
  List, [], ◌∷◌, arith, Bool-cases,
}
use rdp_on_demand_proxy_serv.Base.Dict.{Dict, get, put, get-put}
use rdp_on_demand_proxy_serv.Base.Count.{put-Every}
use rdp_on_demand_proxy_serv.Verification.{Service}
use rdp_on_demand_proxy_serv.Proxy.{Waiting, Settings, Limits, limits_of, new_proxy}
use rdp_on_demand_proxy_serv.Proxy.Pending.{IsBounded, waiting_from, new_proxy-IsBounded}
use rdp_on_demand_proxy_serv.Proxy.Threads.Pool.{IsOwned, owner, moved-IsOwned, owner-none}
use rdp_on_demand_proxy_serv.Proxy.Threads.PoolMoves.{in_pool_stage, advance-PoolMoved}
use rdp_on_demand_proxy_serv.Proxy.Session.{open_connection, Conn, Input, Target}
use rdp_on_demand_proxy_serv.Proxy.Threads.{
  System, Event, accepts, moves, serves, new_system, machine_of, moved, step, run, IsFresh,
  AllFresh,
}
use rdp_on_demand_proxy_serv.Proxy.Threads.PoolLimits.{advance-IsBounded}

-- The pool of a system is within its limits, and each entry is that of a thread.
pub record IsKept (limits : Limits) (y : System) : Type 0 where
  pub same : y.proxy.limits ≡ limits
  pub owned : IsOwned y
  pub bounded : IsBounded y.proxy

moved-IsKept :
    (l : Limits) (t : Target) (y : System) (id : String) (i : Input) (found : Option Conn)
    → IsKept l y
    → get y.conns id ≡ found
    → IsKept l (moved t y id i found)
moved-IsKept l t y id i none x e = x
moved-IsKept l t y id i (some c) x e = record {
  same = (advance-PoolMoved t (machine_of y c) i).limits ∙ x.same;
  owned = moved-IsOwned t y id i (some c) x.owned e;
  bounded = advance-IsBounded t (machine_of y c) i x.bounded;
}

accepted_owner :
    (d : Dict Conn) (id : String) (j : String) (c : Conn) (found : Option Waiting)
    → get d id ≡ none
    → owner (get d j) found ≡ true
    → owner (get (put d id c) j) found ≡ true
accepted_owner d id j c none fresh h = owner-none (get (put d id c) j)
accepted_owner d id j c (some w) fresh h = elim (Bool-cases (id == j)) [
  | inl same ↦
      let free : get d j ≡ none = ground (arith, same, eq_iff id j, fresh) in
      absurd (ground (arith, free, h))
  | inr other ↦ rw (get-put d id j c, other) h
]

pub step-IsKept :
    (l : Limits) (t : Target) (y : System) (e : Event)
    → IsKept l y
    → IsFresh y e
    → IsKept l (step t y e)
unfolding step open_connection
step-IsKept l t y (accepts now id socket ip port) x fresh =
    let c = (open_connection y.proxy now id socket ip port).1 in
    record {
      same = x.same;
      owned = record {
        entries = λ j.
            accepted_owner y.conns id j c (get y.proxy.pending_verifications j) fresh
              (x.owned.entries j);
        names = put-Every (λ k d. d.connection_id ≡ k) y.conns id c x.owned.names refl;
      };
      bounded = record {
        total = x.bounded.total;
        per_ip = x.bounded.per_ip;
        some_total = x.bounded.some_total;
        some_per_ip = x.bounded.some_per_ip;
      };
    }
step-IsKept l t y (moves id i) x fresh = moved-IsKept l t y id i (get y.conns id) x refl
step-IsKept l t y (serves op) x fresh = record {
  same = x.same;
  owned = record { entries = x.owned.entries; names = x.owned.names };
  bounded = x.bounded;
}

run-IsKept :
    (l : Limits) (t : Target) (y : System) (es : List Event)
    → IsKept l y
    → AllFresh t y es
    → IsKept l (run t y es)
unfolding run
run-IsKept l t y [] x fresh = x
run-IsKept l t y (e ∷ es) x fresh =
    run-IsKept l t (step t y e) es (step-IsKept l t y e x fresh.0) fresh.1

pub new_system-IsKept :
    (s : Settings) (service : Service) (now : ℕ) → IsKept (limits_of s) (new_system s service now)
unfolding new_system new_proxy limits_of get
new_system-IsKept s service now = record {
  same = refl;
  owned = record { entries = λ id. refl; names = λ id c e. cc };
  bounded = new_proxy-IsBounded s now;
}

owned_entry :
    (found : Option Conn) (w : Waiting)
    → owner found (some w) ≡ true
    → (c : Conn) × (found ≡ some c)
      × (c.pending_registered ≡ true)
      × (in_pool_stage c.stage ≡ true)
      × (c.client_ip ≡ w.client_ip)
      × (c.client ≡ w.socket)
owned_entry none w h = cc
owned_entry (some c) w h = (
  c,
  refl,
  ground arith,
  ground arith,
  ground (arith, eq_iff w.client_ip c.client_ip),
  ground arith,
)

-- From the start of a target on, whatever its threads do in whatever order, if accepted connections have
-- new names: the pool and each address's
-- share of it are within the configured limits, and each entry belongs to a thread of that name, with
-- the same address and socket, which has marked it and stands between its registration and its
-- cleanup. So no connection that has ended stays in the pool.
pub waiting_pool_lem :
    (t : Target) (s : Settings) (service : Service) (now : ℕ) (es : List Event)
    → AllFresh t (new_system s service now) es
    → let y = run t (new_system s service now) es in
      (length y.proxy.pending_verifications ≤ (limits_of s).max_pending)
      × ((ip : String) → waiting_from ip y.proxy ≤ (limits_of s).max_pending_per_ip)
      × ((id : String) (w : Waiting)
          → get y.proxy.pending_verifications id ≡ some w
          → (c : Conn) × (get y.conns id ≡ some c)
            × (c.pending_registered ≡ true)
            × (in_pool_stage c.stage ≡ true)
            × (c.client_ip ≡ w.client_ip)
            × (c.client ≡ w.socket))
waiting_pool_lem t s service now es fresh =
    let y = run t (new_system s service now) es in
    let x =
      run-IsKept (limits_of s) t (new_system s service now) es (new_system-IsKept s service now)
        fresh in
    (
      ground (arith, x.same, x.bounded.total),
      λ ip. ground (arith, x.same, x.bounded.per_ip ip),
      λ id w e.
          owned_entry (get y.conns id) w
            (subst (λ o. owner (get y.conns id) o ≡ true) e (x.owned.entries id)),
    )
