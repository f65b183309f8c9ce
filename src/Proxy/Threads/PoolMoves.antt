-- ===== src/Proxy/Threads/PoolMoves.antt =====
-- rdp_proxy/proxy.py, `_pending_verifications`, over one step of a thread.
use rdp_on_demand_proxy_serv.Base.{
  ◌==◌, eq_refl, ◌≡◌, ◌⊎◌, inl, inr, refl, String, Bool, true, false, ◌&&◌, Option, none, some,
  arith, nat_eq, Bool-cases,
}
use rdp_on_demand_proxy_serv.Base.Dict.{get, pop, get-pop}
use rdp_on_demand_proxy_serv.Proxy.{
  Waiting, register_pending_verification, unregister_pending_verification,
}
use rdp_on_demand_proxy_serv.Proxy.Frame
use rdp_on_demand_proxy_serv.Proxy.Pending.{register_pending_verification-Joined}
use rdp_on_demand_proxy_serv.Proxy.Session.{
  Stage, create_verification, reconnect_check, reconnect_notice, token_creation,
  verification_notice, wait_verification, leave_pool, finishing, Conn, Input, Target, Machine,
}
use rdp_on_demand_proxy_serv.Proxy.Session.Advance.{work, advance, is_tried}
use rdp_on_demand_proxy_serv.Proxy.Session.Admission.{
  rate_step, probe_step, whitelist_step, security_step, hello_found,
}
use rdp_on_demand_proxy_serv.Proxy.Session.Approval.{
  register_step, reconnect_step, reconnect_notice_step, token_step, notice_step, verification_step,
  leave_pool_step, mark_step,
}
use rdp_on_demand_proxy_serv.Proxy.Session.Slot.{
  slot_step, ensure_step, connect_step, established_step, forwarding_step,
}
use rdp_on_demand_proxy_serv.Proxy.Session.Closing.{
  finish_step, count_step, record_step, clear_step, release_step,
}
use rdp_on_demand_proxy_serv.Proxy.Threads.PoolSteps.{keeps_pool, work-SamePlaces, work-name}

-- A thread whose connection is in the pool is at one of these stages.
abbrev pub in_pool_stage : Stage → Bool
in_pool_stage reconnect_check = true
in_pool_stage reconnect_notice = true
in_pool_stage token_creation = true
in_pool_stage verification_notice = true
in_pool_stage wait_verification = true
in_pool_stage leave_pool = true
in_pool_stage finishing = true
in_pool_stage _ = false

-- The entry `found` of the pool is the thread's own.
abbrev pub owns : Conn → Option Waiting → Bool
owns c none = true
owns c (some w) =
    c.pending_registered
    && in_pool_stage c.stage
    && w.client_ip == c.client_ip
    && nat_eq w.socket c.client

abbrev pub in_pool : Machine → String → Option Waiting
in_pool m id = get m.proxy.pending_verifications id

-- A step touches the thread's own entry, which stays its own, and removes entries at most.
pub record PoolMoved (m : Machine) (n : Machine) : Type 0 where
  pub name : n.conn.connection_id ≡ m.conn.connection_id
  pub limits : n.proxy.limits ≡ m.proxy.limits
  pub own :
      owns m.conn (in_pool m m.conn.connection_id) ≡ true
      → owns n.conn (in_pool n m.conn.connection_id) ≡ true
  pub others :
      (j : String)
      → (m.conn.connection_id == j) ≡ false
      → (in_pool n j ≡ in_pool m j) ⊎ (in_pool n j ≡ none)

register_step-PoolMoved :
    (m : Machine) → m.conn.stage ≡ create_verification → PoolMoved m (register_step m)
unfolding register_step
register_step-PoolMoved m e =
    let w : Waiting = record {
      socket = m.conn.client;
      client_ip = m.conn.client_ip;
      client_port = m.conn.client_port;
    } in
    let r = register_pending_verification m.proxy m.conn.connection_id w in
    let joined = register_pending_verification-Joined m.proxy m.conn.connection_id w in
    elim (Bool-cases r.accepted) [
      | inl yes_ ↦ simp yes_ (record {
        name = refl;
        limits =
            (Frame.register_pending_verification-SameSlot m.proxy m.conn.connection_id w).limits;
        own = λ h. ground (arith, joined.joins yes_, eq_refl m.conn.client_ip);
        others =
            λ j h. elim (joined.others j h) [ inl kept ↦ inl kept | inr (gone_, why) ↦ inr gone_ ];
      })
      | inr no_ ↦
          simp no_ (record {
            name = refl;
            limits = refl;
            own = λ h. ground arith;
            others = λ j h. inl refl;
          })
    ]

-- A step that leaves the pool alone goes to a stage where the thread may still own an entry.
work-owns :
    (t : Target) (st : Stage) (m : Machine) (i : Input)
    → m.conn.stage ≡ st
    → keeps_pool st ≡ true
    → (found : Option Waiting) → owns m.conn found ≡ true
    → owns (work t st m i).conn found ≡ true
unfolding work clear_step connect_step count_step ensure_step established_step finish_step
    forwarding_step leave_pool_step mark_step notice_step probe_step hello_found rate_step
    reconnect_notice_step reconnect_step record_step register_step release_step security_step
    slot_step token_step verification_step whitelist_step
work-owns t create_verification m i e k found h = cc
work-owns t reconnect_notice m i e k found h = cc
work-owns t leave_pool m i e k found h = cc
work-owns t finishing m i e k found h = cc
work-owns t st m i e k found h = ground arith

same-PoolMoved :
    (t : Target) (st : Stage) (m : Machine) (i : Input)
    → m.conn.stage ≡ st
    → keeps_pool st ≡ true
    → PoolMoved m (work t st m i)
same-PoolMoved t st m i e k =
    let same = work-SamePlaces t st m i k in
    let owned = work-owns t st m i e k (in_pool m m.conn.connection_id) in
    record {
      name = work-name t st m i;
      limits = same.limits;
      own = λ h. rw same.pool (owned h);
      others = λ j h. inl (ground (arith, same.pool));
    }

-- Where the thread takes its own entry out of the pool.
popped-PoolMoved :
    (m n : Machine)
    → n.conn.connection_id ≡ m.conn.connection_id
    → n.proxy.limits ≡ m.proxy.limits
    → n.proxy.pending_verifications ≡ pop m.proxy.pending_verifications m.conn.connection_id
    → PoolMoved m n
popped-PoolMoved m n name limits popped =
    let id = m.conn.connection_id in
    record {
      name = name;
      limits = limits;
      own = λ h. ground (arith, popped, get-pop m.proxy.pending_verifications id id, eq_refl id);
      others = λ j h. inl (ground (arith, popped, h, get-pop m.proxy.pending_verifications id j));
    }

finish_step-PoolMoved : (m : Machine) → m.conn.stage ≡ finishing → PoolMoved m (finish_step m)
unfolding finish_step unregister_pending_verification
finish_step-PoolMoved m e = elim (Bool-cases m.conn.pending_registered) [
  | inl there ↦
      popped-PoolMoved m (finish_step m) refl (ground (arith, there)) (ground (arith, there))
  | inr none_ ↦
      simp none_
        (record { name = refl; limits = refl; own = λ h. ground arith; others = λ j h. inl refl })
]

work-PoolMoved :
    (t : Target) (st : Stage) (m : Machine) (i : Input)
    → m.conn.stage ≡ st
    → PoolMoved m (work t st m i)
unfolding work reconnect_notice_step leave_pool_step unregister_pending_verification
work-PoolMoved t create_verification m i e = register_step-PoolMoved m e
work-PoolMoved t reconnect_notice m i e =
    popped-PoolMoved m (work t reconnect_notice m i) refl refl refl
work-PoolMoved t leave_pool m i e =
    popped-PoolMoved m (work t leave_pool m i) (ground arith) (ground arith) (ground arith)
work-PoolMoved t finishing m i e = finish_step-PoolMoved m e
work-PoolMoved t st m i e = same-PoolMoved t st m i e refl

pub advance-PoolMoved : (t : Target) (m : Machine) (i : Input) → PoolMoved m (advance t m i)
unfolding advance
advance-PoolMoved t m i = elim (Bool-cases (i.raises && is_tried m.conn.stage)) [
  | inl e ↦
      simp e
        (record { name = refl; limits = refl; own = λ h. ground arith; others = λ j h. inl refl })
  | inr e ↦ simp e (work-PoolMoved t m.conn.stage m i refl)
]
