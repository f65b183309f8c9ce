-- ===== src/Proxy/Session/Gates.antt =====
-- rdp_proxy/proxy.py, `_handle_connection`: the checks on the way to the stage that forwards.
use rdp_on_demand_proxy_serv.Base.{
  ℕ, suc, ◌≤◌, ◌≡◌, ◌⊎◌, inl, inr, refl, Bool, true, false, ◌&&◌, ◌||◌, not, List, [], ◌∷◌, arith,
  ltb, leb, if◌then◌else◌, nat_eq, Bool-cases,
}
use rdp_on_demand_proxy_serv.Base.Dict.{get}
use rdp_on_demand_proxy_serv.Verification.{Service}
use rdp_on_demand_proxy_serv.Proxy.{
  Proxy, consume_ip_connection_slot, is_recently_approved_ip,
  should_send_reconnect_only_notification,
}
use rdp_on_demand_proxy_serv.Proxy.Session.{
  Stage, ip_rate_limit, rate_limit_wait, probe_rdp_hello, whitelist_check, security_check,
  notify_delay_window, create_verification, reconnect_check, reconnect_notice, token_creation,
  verification_notice, wait_verification, leave_pool, approval_mark, wait_forwarding_slot,
  ensure_instance_running, connect_upstream, established_notice, forwarding, finishing,
  disconnect_count, disconnect_record, clear_forwarding, release_slot, closed, Conn, Peek, quiet,
  failed, bytes, Input, Target, Machine,
}
use rdp_on_demand_proxy_serv.Proxy.Session.Advance.{work, advance, is_tried}
use rdp_on_demand_proxy_serv.Proxy.Session.Admission.{
  rate_step, probe_step, whitelist_step, security_step, is_rdp_hello, hello_found,
}
use rdp_on_demand_proxy_serv.Proxy.Session.Approval.{
  register_step, reconnect_step, reconnect_notice_step, token_step, notice_step, verification_step,
  leave_pool_step, mark_step, is_set,
}
use rdp_on_demand_proxy_serv.Proxy.Session.Slot.{
  slot_step, ensure_step, connect_step, established_step, forwarding_step,
}
use rdp_on_demand_proxy_serv.Proxy.Session.Closing.{
  finish_step, count_step, record_step, clear_step, release_step,
}

-- What a thread finds at one of its steps; the other threads may have changed all of it since the last.
pub record Seen : Type 0 where
  pub proxy : Proxy
  pub service : Service
  pub input : Input

abbrev pub machine : Conn → Seen → Machine
machine c s = record { proxy = s.proxy; service = s.service; conn = c; effects = [] }

unfoldable pub journey : Target → Conn → List Seen → Conn
unfolding advance
journey t c [] = c
journey t c (s ∷ ss) = journey t (advance t (machine c s) s.input).conn ss

-- How many of the six gates lie behind a stage.
abbrev pub level : Stage → ℕ
level ip_rate_limit = 0
level rate_limit_wait = 0
level probe_rdp_hello = 1
level whitelist_check = 2
level security_check = 3
level notify_delay_window = 3
level create_verification = 3
level reconnect_check = 3
level token_creation = 3
level verification_notice = 3
level wait_verification = 3
level reconnect_notice = 4
level leave_pool = 4
level approval_mark = 4
level wait_forwarding_slot = 4
level ensure_instance_running = 5
level connect_upstream = 6
level established_notice = 6
level forwarding = 6
level finishing = 0
level disconnect_count = 0
level disconnect_record = 0
level clear_forwarding = 0
level release_slot = 0
level closed = 0

abbrev pub hello : Peek → Bool
hello quiet = false
hello failed = false
hello (bytes bs) = is_rdp_hello bs

-- What opens the gate in front of a stage's connection: its share of the rate, the first bytes of RDP, the
-- whitelist, then one of no security, a recent approval, a recent session, the verification
-- link in time, or the time limit where that does not deny; then the free slot and the running
-- instance.
abbrev pub opens : Stage → Machine → Input → Bool
opens ip_rate_limit m i = (consume_ip_connection_slot m.proxy i.now m.conn.client_ip).1
opens probe_rdp_hello m i = ltb i.now m.conn.deadline && hello i.peek
opens whitelist_check m i = i.whitelisted
opens security_check m i =
    not m.proxy.limits.security_enabled
    || (is_recently_approved_ip m.proxy i.now m.conn.client_ip).1
opens reconnect_check m i =
    (should_send_reconnect_only_notification m.proxy i.now m.conn.client_ip).1
opens wait_verification m i =
    if ltb i.now m.conn.deadline
    then is_set (get m.service.events m.conn.token)
    else not m.proxy.limits.deny_if_timeout
opens wait_forwarding_slot m i = ltb i.now m.conn.deadline && not m.proxy.slot_taken
opens ensure_instance_running m i = i.instance_ready
opens _ m i = false

-- A step opens at most the next gate, and only by what opens it.
abbrev Rises : Target → Stage → Machine → Input → Type 0
Rises t st m i =
    (level (work t st m i).conn.stage ≤ level st)
    ⊎ ((level (work t st m i).conn.stage ≡ suc (level st)) × (opens st m i ≡ true))

rises : (t : Target) (st : Stage) (m : Machine) (i : Input) → m.conn.stage ≡ st → Rises t st m i
unfolding work clear_step connect_step count_step ensure_step established_step finish_step
    forwarding_step leave_pool_step mark_step notice_step probe_step hello_found rate_step
    reconnect_notice_step reconnect_step record_step register_step release_step security_step
    slot_step token_step verification_step whitelist_step
rises t ip_rate_limit m i e = ground arith
rises t st m i e = ground arith

-- The connection passes the gate behind level `k` at this step.
abbrev pub passes : ℕ → Conn → Seen → Bool
passes k c s = nat_eq (level c.stage) k && opens c.stage (machine c s) s.input

-- It does so at some step.
abbrev pub passed : ℕ → Target → Conn → List Seen → Bool
passed k t c [] = false
passed k t c (s ∷ ss) =
    let later = passed k t (advance t (machine c s) s.input).conn ss in passes k c s || later

advance_rises :
    (t : Target) (c : Conn) (s : Seen)
    → let d = (advance t (machine c s) s.input).conn in
      (level d.stage ≤ level c.stage)
      ⊎ ((level d.stage ≡ suc (level c.stage)) × (opens c.stage (machine c s) s.input ≡ true))
unfolding advance
advance_rises t c s = elim (Bool-cases (s.input.raises && is_tried c.stage)) [
  | inl e ↦ rw e (inl (omega arith))
  | inr e ↦ rw e (rises t c.stage (machine c s) s.input refl)
]

crossing :
    (k : ℕ) (t : Target) (c : Conn) (s : Seen)
    → leb (suc k) (level (advance t (machine c s) s.input).conn.stage) ≡ true
    → (leb (suc k) (level c.stage) || passes k c s) ≡ true
crossing k t c s h = elim (advance_rises t c s) [
  | inl low ↦ ground (arith, low)
  | inr (up, open_) ↦ ground (arith, up, open_)
]

here_or_later :
    (behind : Bool) (reached : Bool) (here : Bool) (later : Bool)
    → (reached ≡ true → (behind || here) ≡ true)
    → (reached || later) ≡ true
    → (behind || (here || later)) ≡ true
here_or_later true reached here later f h = refl
here_or_later false reached true later f h = refl
here_or_later false true false later f h = cc (f refl)
here_or_later false false false later f h = h

climbs :
    (k : ℕ) (t : Target) (c : Conn) (ss : List Seen)
    → leb (suc k) (level (journey t c ss).stage) ≡ true
    → (leb (suc k) (level c.stage) || passed k t c ss) ≡ true
unfolding journey
climbs k t c [] h = ground arith
climbs k t c (s ∷ ss) h =
    let d = (advance t (machine c s) s.input).conn in
    here_or_later _ (leb (suc k) (level d.stage)) (passes k c s) _ (crossing k t c s)
      (climbs k t d ss h)

-- A connection that has been opened has passed all six gates by the time that it is being forwarded, each
-- at a step of its own thread, whatever the other threads, the operator and the clock did before each
-- of its steps: its share of the rate; the first bytes of RDP in time; the whitelist; no security, a
-- recent approval, a recent session, the event of its link in time, or the end of that time where
-- it does not deny; the free slot in time; and the running instance.
pub forwarded_passed_gates :
    (t : Target) (c : Conn) (ss : List Seen) (k : ℕ)
    → c.stage ≡ ip_rate_limit
    → (journey t c ss).stage ≡ forwarding
    → k ≤ 5
    → passed k t c ss ≡ true
forwarded_passed_gates t c ss k start h le =
    let climbed = climbs k t c ss (ground (arith, h)) in ground (arith, climbed, start)
