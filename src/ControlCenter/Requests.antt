-- ===== src/ControlCenter/Requests.antt =====
-- rdp_proxy/control_center.py: the life of a request.
pub mod Answers
pub mod Steps
pub mod Lifecycle
pub mod Blacklist
mod Tests
use rdp_on_demand_proxy_serv.Base.{
  ℕ, suc, ◌+◌, String, ◌<>◌, Bool, true, false, ◌&&◌, ◌||◌, not, Option, none, some, List, [], ◌∷◌,
  ◌++◌, ltb, leb, nat_eq, if◌then◌else◌, ◌==◌,
}
use rdp_on_demand_proxy_serv.Base.Dict.{Dict, get, put, keys}
use rdp_on_demand_proxy_serv.Base.Pairs.{Pair, is_in, add, find, set}
use rdp_on_demand_proxy_serv.ControlCenter.{
  Status, idle, pending, approved, closed, superseded, rejected, pending_quick_approval,
  ControlRequestEvent, ControlRequestAggregate, Center, cleanup, is_over, is_quick,
}

abbrev pub new_event : ℕ → String → String → String → ℕ → String → ControlRequestEvent
new_event now target connection_id client_ip client_port geo_text = record {
  request_id = connection_id;
  target = target;
  client_ip = client_ip;
  client_port = client_port;
  geo_text = geo_text;
  requested_at = now;
  status = pending;
  approved_at = none;
  closed_at = none;
  close_reason = "";
  quick_approval_token = "";
  awake = false;
}

abbrev pub new_aggregate : String → String → String → ControlRequestAggregate
new_aggregate target client_ip geo_text = record {
  target = target;
  client_ip = client_ip;
  geo_text = geo_text;
  request_count = 0;
  approved_count = 0;
  first_requested_at = 0;
  last_requested_at = 0;
  previous_requested_at = none;
  status = idle;
  active_request_id = "";
  active_connection_id = "";
  active_requested_at = 0;
  active_approved_at = none;
  last_state_change_at = 0;
  last_close_reason = "";
}

abbrev aggregate_or_new :
    Option ControlRequestAggregate → ControlRequestEvent → ControlRequestAggregate
aggregate_or_new none e = new_aggregate e.target e.client_ip e.geo_text
aggregate_or_new (some a) e = a

abbrev pub key_of : ControlRequestEvent → Pair
key_of e = (e.target, e.client_ip)

-- The event under its id and at the end of the history.
abbrev with_event : Center → ControlRequestEvent → Center
with_event s e = record s {
  requests_by_id = put s.requests_by_id e.request_id e;
  request_history = s.request_history ++ (e.request_id ∷ []);
}

abbrev pub rejected_event : ControlRequestEvent → ControlRequestEvent
rejected_event e = record e {
  status = rejected;
  closed_at = some e.requested_at;
  close_reason = "blacklisted";
  awake = true;
}

abbrev pub quick_event : String → ControlRequestEvent → ControlRequestEvent
quick_event token e = record e { status = pending_quick_approval; quick_approval_token = token }

abbrev quick_aggregate : ControlRequestEvent → ControlRequestAggregate → ControlRequestAggregate
quick_aggregate e a = record a {
  status = pending;
  request_count = a.request_count + 1;
  last_requested_at = e.requested_at;
  first_requested_at =
      if nat_eq a.first_requested_at 0 then e.requested_at else a.first_requested_at;
  active_request_id = e.request_id;
  active_connection_id = e.request_id;
  active_requested_at = e.requested_at;
  last_state_change_at = e.requested_at;
}

abbrev pending_aggregate : ControlRequestEvent → ControlRequestAggregate → ControlRequestAggregate
pending_aggregate e a = record a {
  previous_requested_at = if nat_eq a.last_requested_at 0 then none else some a.last_requested_at;
  last_requested_at = e.requested_at;
  first_requested_at =
      if nat_eq a.first_requested_at 0 then e.requested_at else a.first_requested_at;
  request_count = a.request_count + 1;
  geo_text = if e.geo_text == "" then a.geo_text else e.geo_text;
  status = pending;
  active_request_id = e.request_id;
  active_connection_id = e.request_id;
  active_requested_at = e.requested_at;
  active_approved_at = none;
  last_state_change_at = e.requested_at;
  last_close_reason = "";
}

-- The status is pending or approved.
abbrev pub is_live : Status → Bool
is_live pending = true
is_live approved = true
is_live idle = false
is_live closed = false
is_live superseded = false
is_live rejected = false
is_live pending_quick_approval = false

abbrev pub superseded_event : ℕ → ControlRequestEvent → ControlRequestEvent
superseded_event now e = record e {
  status = superseded;
  closed_at = some now;
  close_reason = "same_ip_takeover";
}

supersede_found :
    Dict ControlRequestEvent → ℕ → String → Option ControlRequestEvent → Dict ControlRequestEvent
supersede_found d now id none = d
supersede_found d now id (some e) =
    if is_live e.status then put d id (superseded_event now e) else d

-- The requests, with the active one of the key before this one.
supersede : Dict ControlRequestEvent → ℕ → Option ControlRequestAggregate → Dict ControlRequestEvent
unfolding supersede_found
supersede d now none = d
supersede d now (some a) =
    if a.active_request_id == ""
    then d
    else supersede_found d now a.active_request_id (get d a.active_request_id)

pub register_quick : Center → String → ControlRequestEvent → Center
register_quick s token e =
    let a = aggregate_or_new (find s.requests_by_key (key_of e)) e in
    let t = with_event s (quick_event token e) in
    record t {
      requests_by_key = set s.requests_by_key (key_of e) (quick_aggregate e a);
      total_requested_count = s.total_requested_count + 1;
    }

pub register_pending : Center → ControlRequestEvent → Center
unfolding supersede
register_pending s e =
    let found = find s.requests_by_key (key_of e) in
    let t =
      with_event (record s { requests_by_id = supersede s.requests_by_id e.requested_at found })
        e in
    record t {
      requests_by_key =
          set s.requests_by_key (key_of e) (pending_aggregate e (aggregate_or_new found e));
      total_requested_count = s.total_requested_count + 1;
    }

-- The last argument is the name for a quick approval.
unfoldable pub register_request :
    Center → ℕ → String → String → String → ℕ → String → String → Center
unfolding register_quick register_pending
register_request s now target connection_id client_ip client_port geo_text quick_token =
    let c = cleanup s now in
    let e = new_event now target connection_id client_ip client_port geo_text in
    if is_in (target, client_ip) c.blacklist_set
    then with_event c (rejected_event e)
    else if is_in (target, client_ip) c.whitelist_set
    then register_quick c quick_token e
    else register_pending c e
