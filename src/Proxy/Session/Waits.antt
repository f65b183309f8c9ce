-- ===== src/Proxy/Session/Waits.antt =====
-- rdp_proxy/proxy.py: the waiting loops and the `finally` block of `_handle_connection`.
use rdp_on_demand_proxy_serv.Base.{
  length, ℕ, ◌+◌, ◌*◌, ◌-◌, ◌≤◌, ◌<◌, ◌≡◌, inl, inr, refl, sym, ◌∙◌, ◌≢◌, Bool, true, false, ◌&&◌,
  List, [], ◌∷◌, arith, Bool-cases,
}
use rdp_on_demand_proxy_serv.Proxy.Session.{
  Stage, rate_limit_wait, probe_rdp_hello, notify_delay_window, wait_verification,
  wait_forwarding_slot, finishing, disconnect_count, disconnect_record, clear_forwarding,
  release_slot, closed, Conn, Input, Target, Machine,
}
use rdp_on_demand_proxy_serv.Proxy.Session.Gates.{Seen, machine, journey}
use rdp_on_demand_proxy_serv.Proxy.Session.Advance.{work, advance, is_tried}
use rdp_on_demand_proxy_serv.Proxy.Session.Admission.{
  rate_step, probe_step, whitelist_step, security_step, hello_found,
}
use rdp_on_demand_proxy_serv.Proxy.Session.Approval.{
  register_step, reconnect_step, reconnect_notice_step, token_step, notice_step, verification_step,
  leave_pool_step, mark_step,
}
use rdp_on_demand_proxy_serv.Proxy.Session.Slot.{
  slot_step, ensure_step, connect_step, established_step, forwarding_step,
}
use rdp_on_demand_proxy_serv.Proxy.Session.Closing.{
  finish_step, count_step, record_step, clear_step, release_step,
}

abbrev pub waits : Stage → Bool
waits rate_limit_wait = true
waits probe_rdp_hello = true
waits notify_delay_window = true
waits wait_verification = true
waits wait_forwarding_slot = true
waits _ = false

abbrev Stays : Target → Stage → Machine → Input → Type 0
Stays t st m i =
    (work t st m i).conn.stage ≡ st
    → (i.now < m.conn.deadline) × ((work t st m i).conn.deadline ≡ m.conn.deadline)

work-Stays :
    (t : Target) (st : Stage) (m : Machine) (i : Input)
    → m.conn.stage ≡ st
    → waits st ≡ true
    → Stays t st m i
unfolding work clear_step connect_step count_step ensure_step established_step finish_step
    forwarding_step leave_pool_step mark_step notice_step probe_step hello_found rate_step
    reconnect_notice_step reconnect_step record_step register_step release_step security_step
    slot_step token_step verification_step whitelist_step
work-Stays t rate_limit_wait m i e w = λ h. (ground (arith, h), ground (arith, h))
work-Stays t probe_rdp_hello m i e w = λ h. (ground (arith, h), ground (arith, h))
work-Stays t notify_delay_window m i e w = λ h. (ground (arith, h), ground (arith, h))
work-Stays t wait_verification m i e w = λ h. (ground (arith, h), ground (arith, h))
work-Stays t wait_forwarding_slot m i e w = λ h. (ground (arith, h), ground (arith, h))
work-Stays t st m i e w = cc

waits_is_not_finishing : (st : Stage) → waits st ≡ true → finishing ≢ st
waits_is_not_finishing st w e = ground (arith, w, e)

wait_step :
    (t : Target) (c : Conn) (s : Seen)
    → waits c.stage ≡ true
    → (advance t (machine c s) s.input).conn.stage ≡ c.stage
    → (s.input.now < c.deadline) × ((advance t (machine c s) s.input).conn.deadline ≡ c.deadline)
unfolding advance
wait_step t c s w = elim (Bool-cases (s.input.raises && is_tried c.stage)) [
  | inl e ↦ rw e (λ h. absurd (waits_is_not_finishing c.stage w h))
  | inr e ↦ rw e (work-Stays t c.stage (machine c s) s.input refl w)
]

-- The thread is at the stage after each of its steps.
abbrev pub Remains : Target → Conn → Stage → List Seen → Type 0
Remains t c st [] = Unit
Remains t c st (s ∷ ss) =
    let after = (advance t (machine c s) s.input).conn in (after.stage ≡ st) × Remains t after st ss

-- From `now` on, the clock moves by at least `least` from each step to the next.
abbrev pub Ticks : ℕ → ℕ → List Seen → Type 0
Ticks least now [] = Unit
Ticks least now (s ∷ ss) = (now + least ≤ s.input.now) × Ticks least s.input.now ss

later_steps :
    (t : Target) (c : Conn) (least now deadline : ℕ) (st : Stage) (ss : List Seen)
    → c.stage ≡ st
    → waits st ≡ true
    → c.deadline ≡ deadline
    → now ≤ deadline
    → Ticks least now ss
    → Remains t c st ss
    → now + length ss * least ≤ deadline
later_steps t c least now deadline st [] e w d before k r = omega (arith, before)
later_steps t c least now deadline st (s ∷ ss) e w d before k r =
    let one = wait_step t c s (ground (arith, e, w)) (r.0 ∙ sym e) in
    let rest =
      later_steps t (advance t (machine c s) s.input).conn least s.input.now deadline st ss r.0 w
        (one.1 ∙ d) (omega (arith, one.0, d)) k.1 r.1 in
    grind (arith, rest, k.0)

-- None of the five waits goes on past its deadline: a thread that waits, at whatever proxy and socket its steps
-- see, and that looks at the clock at intervals of at least `least`, takes no more steps in its wait than
-- fit between `now` and the deadline of the wait; with one step more it has left the wait at one of them.
pub wait_ends :
    (t : Target) (c : Conn) (least now : ℕ) (ss : List Seen)
    → waits c.stage ≡ true
    → now ≤ c.deadline
    → Ticks least now ss
    → Remains t c c.stage ss
    → now + length ss * least ≤ c.deadline
wait_ends t c least now ss w before k r =
    later_steps t c least now c.deadline c.stage ss refl w refl before k r

-- The steps that `finally` has left.
abbrev cleanup_left : Stage → ℕ
cleanup_left finishing = 5
cleanup_left disconnect_count = 4
cleanup_left disconnect_record = 3
cleanup_left clear_forwarding = 2
cleanup_left release_slot = 1
cleanup_left _ = 0

work_cleans :
    (t : Target) (st : Stage) (m : Machine) (i : Input)
    → m.conn.stage ≡ st
    → is_tried st ≡ false
    → let after = (work t st m i).conn.stage in
      (is_tried after ≡ false) × (cleanup_left after ≡ cleanup_left st - 1)
unfolding work clear_step connect_step count_step ensure_step established_step finish_step
    forwarding_step leave_pool_step mark_step notice_step probe_step hello_found rate_step
    reconnect_notice_step reconnect_step record_step register_step release_step security_step
    slot_step token_step verification_step whitelist_step
work_cleans t finishing m i e c = (ground arith, ground arith)
work_cleans t disconnect_count m i e c = (ground arith, ground arith)
work_cleans t disconnect_record m i e c = (ground arith, ground arith)
work_cleans t clear_forwarding m i e c = (ground arith, ground arith)
work_cleans t release_slot m i e c = (ground arith, ground arith)
work_cleans t closed m i e c = (ground arith, ground arith)
work_cleans t st m i e c = cc

advance_cleans :
    (t : Target) (c : Conn) (s : Seen)
    → is_tried c.stage ≡ false
    → let after = (advance t (machine c s) s.input).conn.stage in
      (is_tried after ≡ false) × (cleanup_left after ≡ cleanup_left c.stage - 1)
unfolding advance
advance_cleans t c s h =
    let cleaned = work_cleans t c.stage (machine c s) s.input refl h in
    elim (Bool-cases (s.input.raises && is_tried c.stage)) [
      | inl e ↦ absurd (ground (arith, e, h))
      | inr e ↦ rw e cleaned
    ]

cleaning :
    (t : Target) (c : Conn) (ss : List Seen)
    → is_tried c.stage ≡ false
    → let after = (journey t c ss).stage in
      (is_tried after ≡ false) × (cleanup_left after ≡ cleanup_left c.stage - length ss)
unfolding journey
cleaning t c [] h = (h, omega arith)
cleaning t c (s ∷ ss) h =
    let one = advance_cleans t c s h in
    let rest = cleaning t (advance t (machine c s) s.input).conn ss one.0 in
    (rest.0, omega (arith, one.1, rest.1))

cleaned_is_closed : (st : Stage) → is_tried st ≡ false → cleanup_left st ≡ 0 → st ≡ closed
cleaned_is_closed st h e = ground arith

cleanup_left_le : (st : Stage) → cleanup_left st ≤ 5
cleanup_left_le st = ground arith

-- A thread that has entered its `finally` block ends within five steps of its own, whatever the other
-- threads do between them and whatever its steps are given, and stays ended.
pub cleanup_ends :
    (t : Target) (c : Conn) (ss : List Seen)
    → c.stage ≡ finishing
    → 5 ≤ length ss
    → (journey t c ss).stage ≡ closed
cleanup_ends t c ss start enough =
    let done = cleaning t c ss (ground (arith, start)) in
    cleaned_is_closed (journey t c ss).stage done.0 (omega (arith, done.1, cleanup_left_le c.stage))
