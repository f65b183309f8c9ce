-- ===== src/ControlCenter/Requests/Steps.antt =====
-- rdp_proxy/control_center.py: any sequence of calls.
use rdp_on_demand_proxy_serv.Base.{ℕ, ◌≡◌, String, false, none, List, [], ◌∷◌, ◌==◌}
use rdp_on_demand_proxy_serv.Base.Dict.{get}
use rdp_on_demand_proxy_serv.Base.Pairs.{Pair}
use rdp_on_demand_proxy_serv.ControlCenter.{Center, cleanup, blacklist_targets, create_action_links}
use rdp_on_demand_proxy_serv.ControlCenter.Requests.{register_request}
use rdp_on_demand_proxy_serv.ControlCenter.Requests.Answers.{
  approve_request, approve_by_quick_token, close_request,
}

-- The calls that can change the state, with their times. A dashboard only cleans up.
pub data Op : Type 0 where
  registers : ℕ → String → String → String → ℕ → String → String → Op
  approves : ℕ → String → Op
  approves_quick : ℕ → String → Op
  closes : ℕ → String → String → Op
  blacklists : List Pair → Op
  links : ℕ → String → String → String → Op
  shows : ℕ → Op

unfoldable pub step : Center → Op → Center
step s (registers now target id ip port geo token) =
    register_request s now target id ip port geo token
step s (approves now id) = (approve_request s now id).0
step s (approves_quick now token) = (approve_by_quick_token s now token).0
step s (closes now id reason) = (close_request s now id reason).0
step s (blacklists targets) = blacklist_targets s targets
step s (links now keep shutdown target) = (create_action_links s now keep shutdown target).0
step s (shows now) = cleanup s now

unfoldable pub run : Center → List Op → Center
run s [] = s
run s (op ∷ ops) = run (step s op) ops

-- A new request has a new id, and its name for a quick approval is not empty.
abbrev pub IsNew : Center → Op → Type 0
IsNew s (registers now target id ip port geo token) =
    (get s.requests_by_id id ≡ none) × ((id == "") ≡ false) × ((token == "") ≡ false)
IsNew s (approves now id) = Unit
IsNew s (approves_quick now token) = Unit
IsNew s (closes now id reason) = Unit
IsNew s (blacklists targets) = Unit
IsNew s (links now keep shutdown target) = Unit
IsNew s (shows now) = Unit

abbrev pub AreNew : Center → List Op → Type 0
AreNew s [] = Unit
AreNew s (op ∷ ops) = IsNew s op × AreNew (step s op) ops
