-- ===== src/Proxy/Threads/Requests.antt =====
-- rdp_proxy/proxy.py and rdp_proxy/verification.py: what the threads of a target ask of the verification
-- service, among the requests that it answers.
use rdp_on_demand_proxy_serv.Base.{
  ℕ, ◌≡◌, refl, sym, subst, ap, ◌∙◌, String, Bool, true, ◌&&◌, not, Option, none, some, List, [],
  ◌∷◌, ◌++◌, arith, ltb, if◌then◌else◌, Bool-cases, inl, inr,
}
use rdp_on_demand_proxy_serv.Base.Dict.{get}
use rdp_on_demand_proxy_serv.Verification.{Service, new_service}
use rdp_on_demand_proxy_serv.Verification.Links.{Op, creates, cancels}
use rdp_on_demand_proxy_serv.Verification.Links
use rdp_on_demand_proxy_serv.Verification.Links.Approval.{Answered, event_needs_answer}
use rdp_on_demand_proxy_serv.Proxy.{Settings}
use rdp_on_demand_proxy_serv.Proxy.Session.{
  Stage, ip_rate_limit, token_creation, wait_verification, Conn, Input, Target, Machine, gone,
}
use rdp_on_demand_proxy_serv.Proxy.Session.Advance.{work, advance, is_tried}
use rdp_on_demand_proxy_serv.Proxy.Session.Admission.{
  rate_step, probe_step, whitelist_step, security_step, hello_found,
}
use rdp_on_demand_proxy_serv.Proxy.Session.Approval.{
  register_step, reconnect_step, reconnect_notice_step, token_step, notice_step, verification_step,
  leave_pool_step, mark_step, is_set,
}
use rdp_on_demand_proxy_serv.Proxy.Session.Slot.{
  slot_step, ensure_step, connect_step, established_step, forwarding_step,
}
use rdp_on_demand_proxy_serv.Proxy.Session.Closing.{
  finish_step, count_step, record_step, clear_step, release_step,
}
use rdp_on_demand_proxy_serv.Proxy.Threads.{
  System, Event, accepts, moves, serves, new_system, machine_of, moved, step, run,
}

-- What a step of a thread asks of the service: a link, or to cancel the one that it waits on.
abbrev pub asks : Target → Stage → Machine → Input → List (ℕ × Op)
asks t token_creation m i =
    (
      i.now,
      creates i.fresh
          (record { target = t.name; client_ip = m.conn.client_ip; instance_id = t.instance_id }),
    )
    ∷ []
asks t wait_verification m i =
    if ltb i.now m.conn.deadline
      && (not (is_set (get m.service.events m.conn.token)) && gone i.peek)
    then (i.now, cancels m.conn.token) ∷ []
    else []
asks t _ m i = []

work-service :
    (t : Target) (st : Stage) (m : Machine) (i : Input)
    → (work t st m i).service ≡ Links.run m.service (asks t st m i)
unfolding Links.run Links.step work clear_step connect_step count_step ensure_step established_step
    finish_step forwarding_step leave_pool_step mark_step notice_step probe_step hello_found
    rate_step reconnect_notice_step reconnect_step record_step register_step release_step
    security_step slot_step token_step verification_step whitelist_step
work-service t ip_rate_limit m i = ground arith
work-service t st m i = ground arith

abbrev pub requested : Target → Machine → Input → List (ℕ × Op)
requested t m i = if i.raises && is_tried m.conn.stage then [] else asks t m.conn.stage m i

advance-service :
    (t : Target) (m : Machine) (i : Input)
    → (advance t m i).service ≡ Links.run m.service (requested t m i)
unfolding advance Links.run
advance-service t m i = elim (Bool-cases (i.raises && is_tried m.conn.stage)) [
  | inl e ↦ rw e refl
  | inr e ↦ rw e (work-service t m.conn.stage m i)
]

abbrev requested_by : Target → System → Input → Option Conn → List (ℕ × Op)
requested_by t y i none = []
requested_by t y i (some c) = requested t (machine_of y c) i

abbrev pub requests_of : Target → System → Event → List (ℕ × Op)
requests_of t y (accepts now id socket ip port) = []
requests_of t y (moves id i) = requested_by t y i (get y.conns id)
requests_of t y (serves op) = op ∷ []

-- All that the service is asked for, by the threads and from outside, in order.
abbrev pub requests : Target → System → List Event → List (ℕ × Op)
requests t y [] = []
requests t y (e ∷ es) = requests_of t y e ++ requests t (step t y e) es

moved-service :
    (t : Target) (y : System) (id : String) (i : Input) (found : Option Conn)
    → (moved t y id i found).service ≡ Links.run y.service (requested_by t y i found)
unfolding Links.run
moved-service t y id i none = refl
moved-service t y id i (some c) = advance-service t (machine_of y c) i

step-service :
    (t : Target) (y : System) (e : Event)
    → (step t y e).service ≡ Links.run y.service (requests_of t y e)
unfolding step Links.run
step-service t y (accepts now id socket ip port) = refl
step-service t y (moves id i) = moved-service t y id i (get y.conns id)
step-service t y (serves op) = refl

run-append :
    (s : Service) (a : List (ℕ × Op)) (b : List (ℕ × Op))
    → Links.run s (a ++ b) ≡ Links.run (Links.run s a) b
unfolding Links.run
run-append s [] b = refl
run-append s (op ∷ a) b = run-append (Links.step s op) a b

run-service :
    (t : Target) (y : System) (es : List Event)
    → (run t y es).service ≡ Links.run y.service (requests t y es)
unfolding run Links.run
run-service t y [] = refl
run-service t y (e ∷ es) =
    run-service t (step t y e) es
    ∙ ap (λ s. Links.run s (requests t (step t y e) es)) (step-service t y e)
    ∙ sym (run-append y.service (requests_of t y e) (requests t (step t y e) es))

is_set-some : (o : Option Bool) → is_set o ≡ true → o ≡ some true
is_set-some none h = cc
is_set-some (some b) h = ap (λ c. some c) h

-- In a target that starts with a new service, the event that a waiting connection takes for its approval
-- is set only if, among all that the threads and the outside have asked of the service, one request
-- accepted the link of that token while it was open, or cancelled it.
pub approval_needs_answer :
    (t : Target) (s : Settings) (url : String) (ttl : ℕ) (now : ℕ) (es : List Event)
    (token : String)
    → let y = new_system s (new_service url ttl) now in
      is_set (get (run t y es).service.events token) ≡ true
      → Answered (new_service url ttl) (requests t y es) token
unfolding new_system
approval_needs_answer t s url ttl now es token h =
    let y = new_system s (new_service url ttl) now in
    event_needs_answer url ttl (requests t y es) token (
      subst (λ (v : Service). get v.events token ≡ some true) (run-service t y es)
        (is_set-some _ h))
