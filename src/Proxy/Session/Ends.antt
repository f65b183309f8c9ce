-- ===== src/Proxy/Session/Ends.antt =====
-- rdp_proxy/proxy.py, `_acquire_forwarding_slot_or_disconnect`, with a wait of 0 seconds.
use rdp_on_demand_proxy_serv.Base.{
  ℕ, ◌≤◌, ◌≡◌, inl, inr, refl, ◌≢◌, ◌&&◌, List, [], ◌∷◌, arith, Bool-cases,
}
use rdp_on_demand_proxy_serv.Proxy.Frame
use rdp_on_demand_proxy_serv.Proxy.Session.{
  Stage, ip_rate_limit, leave_pool, approval_mark, wait_forwarding_slot, forwarding, Conn, Input,
  Target, Machine,
}
use rdp_on_demand_proxy_serv.Proxy.Session.Gates.{Seen, machine, journey, level}
use rdp_on_demand_proxy_serv.Proxy.Session.Advance.{work, advance, is_tried}
use rdp_on_demand_proxy_serv.Proxy.Session.Admission.{
  rate_step, probe_step, whitelist_step, security_step, hello_found,
}
use rdp_on_demand_proxy_serv.Proxy.Session.Approval.{
  register_step, reconnect_step, reconnect_notice_step, token_step, notice_step, verification_step,
  leave_pool_step, mark_step,
}
use rdp_on_demand_proxy_serv.Proxy.Session.Slot.{
  slot_step, ensure_step, connect_step, established_step, forwarding_step,
}
use rdp_on_demand_proxy_serv.Proxy.Session.Closing.{
  finish_step, count_step, record_step, clear_step, release_step,
}

-- The deadline of the wait for the slot, if the thread stands there, has passed by `now`.
abbrev Late : Conn → ℕ → Type 0
Late c now = (level c.stage ≤ 4) × (c.stage ≡ wait_forwarding_slot → c.deadline ≤ now)

abbrev pub NoWait : ℕ → List Seen → Type 0
NoWait now [] = Unit
NoWait now (s ∷ ss) =
    (now ≤ s.input.now) × (s.proxy.limits.slot_wait_seconds ≡ 0) × NoWait s.input.now ss

work-Late :
    (t : Target) (st : Stage) (m : Machine) (i : Input) (now : ℕ)
    → m.conn.stage ≡ st
    → m.proxy.limits.slot_wait_seconds ≡ 0
    → Late m.conn now
    → now ≤ i.now
    → Late (work t st m i).conn i.now
unfolding work clear_step connect_step count_step ensure_step established_step finish_step
    forwarding_step leave_pool_step mark_step notice_step probe_step hello_found rate_step
    reconnect_notice_step reconnect_step record_step register_step release_step security_step
    slot_step token_step verification_step whitelist_step
work-Late t leave_pool m i now e z l le = (
  ground
      (arith, (Frame.unregister_pending_verification-SameSlot m.proxy m.conn.connection_id).limits),
  λ h.
      ground (
        arith,
        (Frame.unregister_pending_verification-SameSlot m.proxy m.conn.connection_id).limits,
      ),
)
work-Late t approval_mark m i now e z l le = (
  ground (arith, (Frame.mark_ip_approved-SamePool m.proxy i.now m.conn.client_ip).limits),
  λ h. ground (arith, (Frame.mark_ip_approved-SamePool m.proxy i.now m.conn.client_ip).limits),
)
work-Late t wait_forwarding_slot m i now e z l le =
    let passed = l.1 e in (ground (arith, passed), ground (arith, passed))
work-Late t st m i now e z l le = (ground arith, λ h. ground arith)

advance-Late :
    (t : Target) (c : Conn) (s : Seen) (now : ℕ)
    → s.proxy.limits.slot_wait_seconds ≡ 0
    → Late c now
    → now ≤ s.input.now
    → Late (advance t (machine c s) s.input).conn s.input.now
unfolding advance
advance-Late t c s now z l le = elim (Bool-cases (s.input.raises && is_tried c.stage)) [
  | inl e ↦ rw e (omega arith, λ h. cc)
  | inr e ↦ rw e (work-Late t c.stage (machine c s) s.input now refl z l le)
]

stays-Late :
    (t : Target) (c : Conn) (ss : List Seen) (now : ℕ)
    → NoWait now ss
    → Late c now
    → level (journey t c ss).stage ≤ 4
unfolding journey
stays-Late t c [] now w l = l.0
stays-Late t c (s ∷ ss) now w l =
    stays-Late t (advance t (machine c s) s.input).conn ss s.input.now w.2
      (advance-Late t c s now w.1 l w.0)

-- With a slot wait of 0 seconds no connection is ever forwarded, though the slot may be free: the loop
-- tests its deadline before it tries the lock. The clock is taken not to go back.
pub zero_wait_never_forwards :
    (t : Target) (c : Conn) (ss : List Seen) (now : ℕ)
    → c.stage ≡ ip_rate_limit
    → NoWait now ss
    → (journey t c ss).stage ≢ forwarding
zero_wait_never_forwards t c ss now start w h =
    let low = stays-Late t c ss now w (ground (arith, start), λ e. ground (arith, start, e)) in
    ground (arith, low, h)
