-- ===== src/Verification/Links/Tests.antt =====
-- Runs of the link service on concrete requests.
use rdp_on_demand_proxy_serv.Base.{ℕ, ◌≡◌, ◌↔◌, refl, true, false, some, List, [], ◌∷◌, ◌==◌}
use rdp_on_demand_proxy_serv.Base.Dict.{get, put, pop, prune, keys, select, pop_all}
use rdp_on_demand_proxy_serv.Verification.{
  Meta, VerificationToken, Service, new_service, cleanup, create_token, create_action_links,
  create_control_auth_token, is_control_auth_valid, check_auth, cancel_token, cancel_found,
}
use rdp_on_demand_proxy_serv.Verification.Links.{
  Op, creates, creates_auth, creates_links, lists, verifies, acts, step, run, ok, handle_verify,
  verify_found, handle_action, action_found,
}
use rdp_on_demand_proxy_serv.Verification.Links.Invariant.{run-new_service-IsSound}
use rdp_on_demand_proxy_serv.Verification.Links.Tokens.{IsSound}
use rdp_on_demand_proxy_serv.Verification.Links.OneTime.{Refused, verify_once, auth_once}
use rdp_on_demand_proxy_serv.Verification.Links.Approval.{
  LinkOpen, Answered, verify_ok_iff, event_needs_answer,
}

abbrev desk : Meta
desk = record { target = "desk"; client_ip = "203.0.113.9"; instance_id = "i-1" }

abbrev start : Service
start = new_service "http://proxy" 600

-- A verification link, two action links and a management token.
abbrev requests : List (ℕ × Op)
requests =
    (1000, creates "a" desk) ∷ (2000, creates_links "b" "c" "desk") ∷ (3000, creates_auth "d") ∷ []

abbrev stocked : Service
stocked = run start requests

-- What happens between the first use and the second.
abbrev between : List (ℕ × Op)
between = (6000, lists 3) ∷ (7000, creates "e" desk) ∷ (8000, acts "b") ∷ []

accepted : (handle_verify stocked 5000 "a").status ≡ ok
unfolding run step create_token create_action_links create_control_auth_token new_service cleanup
    handle_verify verify_found prune keys select pop_all get put pop
accepted = refl

verify_once_example :
    Refused (handle_verify (run (handle_verify stocked 5000 "a").service between) 9000 "a")
verify_once_example = verify_once stocked "a" 5000 9000 between (refl, (refl, (refl, tt))) accepted

cancelled : (cancel_token stocked "a").1 ≡ true
unfolding run step create_token create_action_links create_control_auth_token new_service cleanup
    cancel_token cancel_found prune keys select pop_all get put pop
cancelled = refl

acted_on : (handle_action stocked 5000 "c").status ≡ ok
unfolding run step create_token create_action_links create_control_auth_token new_service cleanup
    handle_action action_found prune keys select pop_all get put pop
acted_on = refl

admitted : (is_control_auth_valid stocked 5000 "d").1 ≡ true
unfolding run step create_token create_action_links create_control_auth_token new_service cleanup
    is_control_auth_valid check_auth prune keys select pop_all get put pop
admitted = refl

auth_once_example :
    (is_control_auth_valid (run (is_control_auth_valid stocked 5000 "d").0 between) 9000 "d").1
    ≡ false
auth_once_example = auth_once stocked "d" 5000 9000 between (refl, (refl, (refl, tt))) admitted

run-new_service-IsSound_example : IsSound (run (new_service "http://proxy" 600) requests)
run-new_service-IsSound_example = run-new_service-IsSound "http://proxy" 600 requests

verify_ok_iff_example :
    ((handle_verify stocked 5000 "a").status ≡ ok)
    ↔ ((("a" == "") ≡ false) × LinkOpen stocked 5000 "a")
verify_ok_iff_example = verify_ok_iff stocked 5000 "a"

abbrev link : VerificationToken
link = record {
  token = "a";
  created_at = 1000;
  expires_at = 601000;
  used = false;
  approved = false;
  details = desk;
}

there : get stocked.tokens "a" ≡ some link
unfolding run step create_token create_action_links create_control_auth_token new_service cleanup
    prune keys select pop_all get put pop
there = refl

abbrev answered : List (ℕ × Op)
answered = (1000, creates "a" desk) ∷ (5000, verifies "a") ∷ []

set : get (run (new_service "http://proxy" 600) answered).events "a" ≡ some true
unfolding run step create_token new_service cleanup handle_verify verify_found prune keys select
    pop_all get put pop
set = refl

event_needs_answer_example : Answered (new_service "http://proxy" 600) answered "a"
event_needs_answer_example = event_needs_answer "http://proxy" 600 answered "a" set
