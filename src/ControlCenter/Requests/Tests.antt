-- ===== src/ControlCenter/Requests/Tests.antt =====
-- Calls of the control center in order.
use rdp_on_demand_proxy_serv.Base.{◌≡◌, refl, true, false, ◌&&◌, none, some, List, [], ◌∷◌}
use rdp_on_demand_proxy_serv.Base.Dict.{get, put, keys, prune}
use rdp_on_demand_proxy_serv.Base.Pairs.{discard, find, is_in, drop_where, set, add}
use rdp_on_demand_proxy_serv.ControlCenter.{
  approved, superseded, pending, Center, new_center, cleanup, ControlRequestEvent,
  ControlRequestAggregate, get_request_status, is_whitelisted, is_blacklisted, blacklist_targets,
  get_request_quick_approval_token,
}
use rdp_on_demand_proxy_serv.ControlCenter.Requests.{register_request, new_event, rejected_event}
use rdp_on_demand_proxy_serv.ControlCenter.Requests.Steps.{
  Op, registers, approves, approves_quick, blacklists, shows, step, run, AreNew,
}
use rdp_on_demand_proxy_serv.ControlCenter.Requests.Answers.{
  approve_request, approve_by_quick_token,
}
use rdp_on_demand_proxy_serv.ControlCenter.Requests.Lifecycle.{fits, held_by}
use rdp_on_demand_proxy_serv.ControlCenter.Requests.Lifecycle.Run.{
  every_request_fits, active_request_lem,
}
use rdp_on_demand_proxy_serv.ControlCenter.Requests.Blacklist.{turned_away}
use rdp_on_demand_proxy_serv.ControlCenter.Requests.Blacklist.Run.{blacklisted_never_approved}

abbrev start : Center
start = new_center "http://h" 600 86400 "secret"

-- A second request takes the place of a first one that still waits; after its approval a third one waits
-- for a quick approval.
abbrev ops : List Op
ops =
    registers 1000 "desk" "r1" "ip" 1 "geo" "q1"
    ∷ registers 2000 "desk" "r2" "ip" 2 "geo" "q2"
    ∷ approves 3000 "r2"
    ∷ registers 4000 "desk" "r3" "ip" 3 "" "q3"
    ∷ []

first_superseded : get_request_status (run start ops) "r1" ≡ some superseded
unfolding run get_request_status step register_request approve_request approve_by_quick_token
    cleanup new_center get put find keys prune is_in drop_where set add
first_superseded = refl

third_waits : get_request_quick_approval_token (run start ops) "r3" ≡ some "q3"
unfolding run get_request_quick_approval_token step register_request approve_request
    approve_by_quick_token cleanup new_center get put find keys prune is_in drop_where set add
third_waits = refl

-- The second request stays approved beside the third.
both_approved :
    get_request_status (run (run start ops) (approves_quick 5000 "q3" ∷ [])) "r2" ≡ some approved
unfolding run get_request_status step register_request approve_request approve_by_quick_token
    cleanup new_center get put find keys prune is_in drop_where set add
both_approved = refl

new_ids : AreNew start ops
unfolding run step register_request approve_request approve_by_quick_token cleanup new_center get
    put find keys prune is_in drop_where set add
new_ids = ((refl, refl, refl), ((refl, refl, refl), (tt, ((refl, refl, refl), tt))))

abbrev first_request : ControlRequestEvent
first_request = record {
  request_id = "r1";
  target = "desk";
  client_ip = "ip";
  client_port = 1;
  geo_text = "geo";
  requested_at = 1000;
  status = superseded;
  approved_at = none;
  closed_at = some 2000;
  close_reason = "same_ip_takeover";
  quick_approval_token = "";
  awake = false;
}

first_is : get (run start ops).requests_by_id "r1" ≡ some first_request
unfolding run step register_request approve_request approve_by_quick_token cleanup new_center get
    put find keys prune is_in drop_where set add
first_is = refl

every_request_fits_example : fits first_request ≡ true
every_request_fits_example =
    every_request_fits "http://h" 600 86400 "secret" ops "r1" first_request new_ids first_is

abbrev desk_aggregate : ControlRequestAggregate
desk_aggregate = record {
  target = "desk";
  client_ip = "ip";
  geo_text = "geo";
  request_count = 3;
  approved_count = 1;
  first_requested_at = 1000;
  last_requested_at = 4000;
  previous_requested_at = some 1000;
  status = pending;
  active_request_id = "r3";
  active_connection_id = "r3";
  active_requested_at = 4000;
  active_approved_at = some 3000;
  last_state_change_at = 4000;
  last_close_reason = "";
}

desk_is : find (run start ops).requests_by_key ("desk", "ip") ≡ some desk_aggregate
unfolding run step register_request approve_request approve_by_quick_token cleanup new_center get
    put find keys prune is_in drop_where set add
desk_is = refl

active_request_lem_example : held_by ("desk", "ip") (get (run start ops).requests_by_id "r3") ≡ true
active_request_lem_example =
    active_request_lem "http://h" 600 86400 "secret" ops ("desk", "ip") desk_aggregate new_ids
      desk_is refl

blacklisted_never_approved_example :
    let t = run (blacklist_targets start (("desk", "ip") ∷ [])) (shows 1 ∷ []) in
    let u = register_request t 2 "desk" "r1" "ip" 1 "geo" "q" in
    (get u.requests_by_id "r1" ≡ some (rejected_event (new_event 2 "desk" "r1" "ip" 1 "geo")))
    × (turned_away (get (run u (approves 3 "r1" ∷ [])).requests_by_id "r1") ≡ true)
blacklisted_never_approved_example =
    blacklisted_never_approved start "desk" "ip" (shows 1 ∷ []) 2 "r1" 1 "geo" "q"
      (approves 3 "r1" ∷ []) refl refl refl

-- A request that waited before its target was blacklisted can still be approved, and then stands in both sets.
abbrev late_ops : List Op
late_ops =
    registers 1000 "desk" "r1" "ip" 1 "geo" "q1"
    ∷ blacklists (("desk", "ip") ∷ [])
    ∷ approves 3000 "r1"
    ∷ []

in_both :
    (is_whitelisted (run start late_ops) "desk" "ip"
      && is_blacklisted (run start late_ops) "desk" "ip")
    ≡ true
unfolding run blacklist_targets discard is_whitelisted is_blacklisted step register_request
    approve_request approve_by_quick_token cleanup new_center get put find keys prune is_in
    drop_where set add
in_both = refl
