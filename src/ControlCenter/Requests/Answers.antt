-- ===== src/ControlCenter/Requests/Answers.antt =====
-- rdp_proxy/control_center.py: the answers to a request.
use rdp_on_demand_proxy_serv.Base.{
  ℕ, ◌+◌, ◌≡◌, arith, subst, inl, inr, Bool-cases, String, Bool, true, false, ◌&&◌, not, Option,
  none, some, List, [], ◌∷◌, if◌then◌else◌, ◌==◌,
}
use rdp_on_demand_proxy_serv.Base.Dict.{Dict, get, put, keys}
use rdp_on_demand_proxy_serv.Base.Pairs.{Pair, add, find, set}
use rdp_on_demand_proxy_serv.ControlCenter.{
  Status, idle, pending, approved, closed, superseded, rejected, pending_quick_approval,
  ControlRequestEvent, ControlRequestAggregate, Center, cleanup, is_over, is_quick,
}
use rdp_on_demand_proxy_serv.ControlCenter.Requests.{key_of}

abbrev pub approved_event : ℕ → ControlRequestEvent → ControlRequestEvent
approved_event now e = record e { status = approved; approved_at = some now; awake = true }

abbrev pub approved_aggregate : ℕ → String → ControlRequestAggregate → ControlRequestAggregate
approved_aggregate now reason a = record a {
  status = approved;
  approved_count = a.approved_count + 1;
  active_approved_at = some now;
  last_state_change_at = now;
  last_close_reason = reason;
}

abbrev pub on_key :
    Center
    → Pair
    → Option ControlRequestAggregate
    → (ControlRequestAggregate → ControlRequestAggregate)
    → List (Pair × ControlRequestAggregate)
on_key s k none f = s.requests_by_key
on_key s k (some a) f = set s.requests_by_key k (f a)

-- An approval, with what it makes of the aggregate.
abbrev pub approve :
    Center
    → ℕ
    → String
    → ControlRequestEvent
    → (ControlRequestAggregate → ControlRequestAggregate)
    → Center
approve s now id e f = record s {
  requests_by_id = put s.requests_by_id id (approved_event now e);
  requests_by_key = on_key s (key_of e) (find s.requests_by_key (key_of e)) f;
  total_approved_count = s.total_approved_count + 1;
  whitelist_set = add (key_of e) s.whitelist_set;
}

abbrev pub is_pending : Status → Bool
is_pending pending = true
is_pending idle = false
is_pending approved = false
is_pending closed = false
is_pending superseded = false
is_pending rejected = false
is_pending pending_quick_approval = false

unfoldable pub approve_found :
    Center → ℕ → String → Option ControlRequestEvent → Center × Option ControlRequestEvent
approve_found s now id none = (s, none)
approve_found s now id (some e) =
    if is_pending e.status
    then (approve s now id e (approved_aggregate now ""), some (approved_event now e))
    else (s, none)

-- The answer is the event that was approved, if one was.
unfoldable pub approve_request : Center → ℕ → String → Center × Option ControlRequestEvent
unfolding approve_found
approve_request s now request_id =
    if request_id == ""
    then (s, none)
    else let c = cleanup s now in approve_found c now request_id (get c.requests_by_id request_id)

abbrev pub has_quick_token : String → Option ControlRequestEvent → Bool
has_quick_token token none = false
has_quick_token token (some e) = e.quick_approval_token == token && is_quick e.status

-- The first event that waits with this token.
unfoldable pub search_quick : Dict ControlRequestEvent → List String → String → Option String
search_quick d [] token = none
search_quick d (id ∷ ids) token =
    if has_quick_token token (get d id) then some id else search_quick d ids token

unfoldable pub quick_at : Center → ℕ → Option String → Center × Option ControlRequestEvent
quick_at s now none = (s, none)
quick_at s now (some id) = elim (get s.requests_by_id id) [
  | none ↦ (s, none)
  | some e ↦ (
    approve s now id e (λ a. approved_aggregate now a.last_close_reason a),
    some (approved_event now e),
  )
]

unfoldable pub approve_by_quick_token : Center → ℕ → String → Center × Option ControlRequestEvent
unfolding quick_at search_quick
approve_by_quick_token s now quick_token =
    if quick_token == ""
    then (s, none)
    else quick_at s now (search_quick s.requests_by_id (keys s.requests_by_id) quick_token)

abbrev pub closed_event : ℕ → String → ControlRequestEvent → ControlRequestEvent
closed_event now reason e = record e {
  status = closed;
  closed_at = some now;
  close_reason = reason;
}

abbrev pub closed_aggregate :
    ℕ → String → String → ControlRequestAggregate → ControlRequestAggregate
closed_aggregate now reason id a = if not (a.active_request_id == id) then a else record a {
  status = closed;
  active_request_id = "";
  active_connection_id = "";
  active_requested_at = 0;
  active_approved_at = none;
  last_state_change_at = now;
  last_close_reason = reason;
}

unfoldable pub close_found :
    Center → ℕ → String → String → Option ControlRequestEvent → Center × Bool
close_found s now id reason none = (s, false)
close_found s now id reason (some e) = if is_over e.status then (s, false) else (
  record s {
    requests_by_id = put s.requests_by_id id (closed_event now reason e);
    requests_by_key =
        on_key s (key_of e) (find s.requests_by_key (key_of e)) (closed_aggregate now reason id);
  },
  true,
)

unfoldable pub close_request : Center → ℕ → String → String → Center × Bool
unfolding close_found
close_request s now request_id reason =
    if request_id == ""
    then (s, false)
    else let c = cleanup s now in
      close_found c now request_id reason (get c.requests_by_id request_id)

-- The event that is found waits with this token.
pub search_quick-waits :
    (d : Dict ControlRequestEvent) (ids : List String) (token : String) (id : String)
    → search_quick d ids token ≡ some id
    → has_quick_token token (get d id) ≡ true
unfolding search_quick
search_quick-waits d [] token id h = cc
search_quick-waits d (i ∷ ids) token id h = elim (Bool-cases (has_quick_token token (get d i))) [
  | inl e ↦
      let this : i ≡ id = ground (arith, e, h) in
      subst (λ j. has_quick_token token (get d j) ≡ true) this e
  | inr e ↦ search_quick-waits d ids token id (ground (arith, e, h))
]
