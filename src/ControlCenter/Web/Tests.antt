-- ===== src/ControlCenter/Web/Tests.antt =====
-- Requests to the web server of the control center.
use rdp_on_demand_proxy_serv.Base.{◌≡◌, ◌⊎◌, refl, String, true, false, none, some, List, [], ◌∷◌}
use rdp_on_demand_proxy_serv.Base.Dict.{get, put, keys}
use rdp_on_demand_proxy_serv.ControlCenter.{
  approved, pending_quick_approval, Center, new_center, ControlRequestEvent,
}
use rdp_on_demand_proxy_serv.ControlCenter.Requests.Answers.{approve_by_quick_token}
use rdp_on_demand_proxy_serv.ControlCenter.Web.{not_found, Reply, reply, do_get}
use rdp_on_demand_proxy_serv.ControlCenter.Web.Secrets.{
  gets, handle, is_quick_name, web_approval_needs_secret, quick_link_not_found,
}

abbrev waiting : ControlRequestEvent
waiting = record {
  request_id = "r1";
  target = "desk";
  client_ip = "ip";
  client_port = 1;
  geo_text = "geo";
  requested_at = 1000;
  status = pending_quick_approval;
  approved_at = none;
  closed_at = none;
  close_reason = "";
  quick_approval_token = "q1";
  awake = false;
}

abbrev now_approved : ControlRequestEvent
now_approved = record waiting { status = approved; approved_at = some 2000; awake = true }

abbrev center : Center
center = record (new_center "http://h" 600 86400 "secret") {
  requests_by_id = ("r1", waiting) ∷ [];
  request_history = "r1" ∷ [];
  whitelist_set = ("desk", "ip") ∷ [];
}

approves_waiting : (handle center 2000 (gets "/quick-approve" "q1")).approved ≡ some now_approved
unfolding handle do_get approve_by_quick_token keys get put
approves_waiting = refl

web_approval_needs_secret_example :
    (◌≡◌ {A = String} "q1" center.control_token)
    ⊎ ((id : String) × (is_quick_name center "q1" id ≡ true))
web_approval_needs_secret_example =
    web_approval_needs_secret center 2000 (gets "/quick-approve" "q1") now_approved approves_waiting

waits : is_quick_name center "q1" "r1" ≡ true
unfolding get
waits = refl

quick_link_not_found_example :
    let h = do_get center 2000 "/quick-approve" "q1" in
    (rest : List Reply) × (e : ControlRequestEvent) × (h.replies
      ≡ reply not_found "Not Found" ∷ rest)
    × (h.approved ≡ some e)
quick_link_not_found_example = quick_link_not_found center 2000 "q1" "r1" refl waits
