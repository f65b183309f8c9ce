-- ===== src/Proxy/Threads/Pool.antt =====
-- rdp_proxy/proxy.py, `_pending_verifications`: the owners of its entries, over all threads.
use rdp_on_demand_proxy_serv.Base.{
  ◌==◌, eq_refl, eq_iff, ◌≡◌, inl, inr, refl, subst, sym, ◌∙◌, String, Bool, true, false, Option,
  none, some, arith, Bool-cases,
}
use rdp_on_demand_proxy_serv.Base.Dict.{get, put, get-put}
use rdp_on_demand_proxy_serv.Base.Count.{put-Every}
use rdp_on_demand_proxy_serv.Proxy.{Waiting}
use rdp_on_demand_proxy_serv.Proxy.Session.{Conn, Input, Target, Machine}
use rdp_on_demand_proxy_serv.Proxy.Session.Advance.{advance}
use rdp_on_demand_proxy_serv.Proxy.Threads.{System, machine_of, moved}
use rdp_on_demand_proxy_serv.Proxy.Threads.PoolMoves.{owns, PoolMoved, advance-PoolMoved}

abbrev pub owner : Option Conn → Option Waiting → Bool
owner none none = true
owner none (some w) = false
owner (some c) found = owns c found

-- Every entry of the pool is that of a thread, under its name, which will take it out.
pub record IsOwned (y : System) : Type 0 where
  pub entries : (id : String) → owner (get y.conns id) (get y.proxy.pending_verifications id) ≡ true
  pub names : (id : String) (c : Conn) → get y.conns id ≡ some c → c.connection_id ≡ id

pub owner-none : (c : Option Conn) → owner c none ≡ true
owner-none none = refl
owner-none (some c) = refl

own_before :
    (y : System) (id : String) (c : Conn)
    → IsOwned y
    → get y.conns id ≡ some c
    → owns c (get y.proxy.pending_verifications c.connection_id) ≡ true
own_before y id c x e =
    let there = x.entries id in
    subst (λ k. owns c (get y.proxy.pending_verifications k) ≡ true) (sym (x.names id c e))
      (subst (λ o. owner o (get y.proxy.pending_verifications id) ≡ true) e there)

left_by-entries :
    (y : System) (id : String) (c : Conn) (m : Machine)
    → IsOwned y
    → get y.conns id ≡ some c
    → PoolMoved (machine_of y c) m
    → (j : String)
    → owner (get (put y.conns id m.conn) j) (get m.proxy.pending_verifications j) ≡ true
left_by-entries y id c m x e p j = elim (Bool-cases (id == j)) [
  | inl same ↦
      let key : id ≡ j = ground (arith, same, eq_iff id j) in
      let here = p.own (own_before y id c x e) in
      subst
        (λ k. owner (get (put y.conns id m.conn) k) (get m.proxy.pending_verifications k) ≡ true)
        key (ground (arith, here, x.names id c e, get-put y.conns id id m.conn, eq_refl id))
  | inr other ↦
      let before = x.entries j in
      let kept = p.others j (ground (arith, x.names id c e, other)) in
      elim kept [
        | inl same ↦ rw (get-put y.conns id j m.conn, other, same) before
        | inr none_ ↦ rw (get-put y.conns id j m.conn, other, none_) (owner-none (get y.conns j))
      ]
]

pub moved-IsOwned :
    (t : Target) (y : System) (id : String) (i : Input) (found : Option Conn)
    → IsOwned y
    → get y.conns id ≡ found
    → IsOwned (moved t y id i found)
moved-IsOwned t y id i none x e = x
moved-IsOwned t y id i (some c) x e =
    let p = advance-PoolMoved t (machine_of y c) i in
    record {
      entries = left_by-entries y id c (advance t (machine_of y c) i) x e p;
      names =
          put-Every (λ k d. d.connection_id ≡ k) y.conns id (advance t (machine_of y c) i).conn
            x.names (p.name ∙ x.names id c e);
    }
