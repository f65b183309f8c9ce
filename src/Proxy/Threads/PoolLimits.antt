-- ===== src/Proxy/Threads/PoolLimits.antt =====
-- rdp_proxy/proxy.py, `_pending_verifications` and its limits, over one step of a thread.
use rdp_on_demand_proxy_serv.Base.{inl, inr, refl, ◌&&◌, arith, Bool-cases}
use rdp_on_demand_proxy_serv.Proxy.{Waiting, register_pending_verification}
use rdp_on_demand_proxy_serv.Proxy.Pending.{
  IsBounded, register_pending_verification-IsBounded, unregister_pending_verification-IsBounded,
}
use rdp_on_demand_proxy_serv.Proxy.Session.{
  Stage, create_verification, reconnect_notice, leave_pool, finishing, Input, Target, Machine,
}
use rdp_on_demand_proxy_serv.Proxy.Session.Advance.{work, advance, is_tried}
use rdp_on_demand_proxy_serv.Proxy.Session.Approval.{
  register_step, reconnect_notice_step, leave_pool_step,
}
use rdp_on_demand_proxy_serv.Proxy.Session.Closing.{finish_step}
use rdp_on_demand_proxy_serv.Proxy.Threads.PoolSteps.{SamePlaces, work-SamePlaces}

SamePlaces-IsBounded :
    (m : Machine) (n : Machine) → SamePlaces m n → IsBounded m.proxy → IsBounded n.proxy
SamePlaces-IsBounded m n e b = record {
  total = ground (arith, e.pool, e.limits, b.total);
  per_ip = λ ip. ground (arith, e.pool, e.limits, b.per_ip ip);
  some_total = ground (arith, e.limits, b.some_total);
  some_per_ip = ground (arith, e.limits, b.some_per_ip);
}

register_step-IsBounded : (m : Machine) → IsBounded m.proxy → IsBounded (register_step m).proxy
unfolding register_step
register_step-IsBounded m b =
    let w : Waiting = record {
      socket = m.conn.client;
      client_ip = m.conn.client_ip;
      client_port = m.conn.client_port;
    } in
    let r = register_pending_verification m.proxy m.conn.connection_id w in
    elim (Bool-cases r.accepted) [
      | inl yes_ ↦
          simp yes_ (register_pending_verification-IsBounded m.proxy m.conn.connection_id w b)
      | inr no_ ↦ simp no_ b
    ]

finish_step-IsBounded : (m : Machine) → IsBounded m.proxy → IsBounded (finish_step m).proxy
unfolding finish_step
finish_step-IsBounded m b = elim (Bool-cases m.conn.pending_registered) [
  | inl e ↦ simp e (unregister_pending_verification-IsBounded m.proxy m.conn.connection_id b)
  | inr e ↦ simp e b
]

leave_pool_step-IsBounded :
    (m : Machine) (i : Input) → IsBounded m.proxy → IsBounded (leave_pool_step m i).proxy
unfolding leave_pool_step
leave_pool_step-IsBounded m i b = elim (Bool-cases m.conn.approved) [
  | inl e ↦ simp e (unregister_pending_verification-IsBounded m.proxy m.conn.connection_id b)
  | inr e ↦ simp e (unregister_pending_verification-IsBounded m.proxy m.conn.connection_id b)
]

work-IsBounded :
    (t : Target) (st : Stage) (m : Machine) (i : Input)
    → IsBounded m.proxy
    → IsBounded (work t st m i).proxy
unfolding work reconnect_notice_step
work-IsBounded t create_verification m i b = register_step-IsBounded m b
work-IsBounded t reconnect_notice m i b =
    unregister_pending_verification-IsBounded m.proxy m.conn.connection_id b
work-IsBounded t leave_pool m i b = leave_pool_step-IsBounded m i b
work-IsBounded t finishing m i b = finish_step-IsBounded m b
work-IsBounded t st m i b = SamePlaces-IsBounded m (work t st m i) (work-SamePlaces t st m i refl) b

pub advance-IsBounded :
    (t : Target) (m : Machine) (i : Input) → IsBounded m.proxy → IsBounded (advance t m i).proxy
unfolding advance
advance-IsBounded t m i b = elim (Bool-cases (i.raises && is_tried m.conn.stage)) [
  | inl e ↦ simp e b
  | inr e ↦ simp e (work-IsBounded t m.conn.stage m i b)
]
