-- ===== src/ControlCenter.antt =====
-- rdp_proxy/control_center.py: the table of requests. An event object is found under its id, so the history
-- is a list of ids; ids are new. `wait_event` is the field `awake`; `uuid4().hex` and the clock are
-- arguments. The callback `on_approved` is made with the event that the answer holds.
pub mod Requests
pub mod Web
use rdp_on_demand_proxy_serv.Base.{
  ℕ, suc, ◌+◌, ◌-◌, String, ◌<>◌, Bool, true, false, ◌&&◌, ◌||◌, not, Option, none, some, List, [],
  ◌∷◌, ltb, leb, nat_eq, if◌then◌else◌, ◌==◌, seconds, max, keep,
}
use rdp_on_demand_proxy_serv.Base.Dict.{Dict, get, put, prune}
use rdp_on_demand_proxy_serv.Base.Pairs.{Pair, is_in, add, discard, find, set, drop_where}

pub data Status : Type 0 where
  idle pending approved closed superseded rejected pending_quick_approval : Status

pub record ControlRequestEvent : Type 0 where
  pub request_id : String
  pub target : String
  pub client_ip : String
  pub client_port : ℕ
  pub geo_text : String
  pub requested_at : ℕ
  pub status : Status
  pub approved_at : Option ℕ
  pub closed_at : Option ℕ
  pub close_reason : String
  pub quick_approval_token : String
  pub awake : Bool

pub record ControlRequestAggregate : Type 0 where
  pub target : String
  pub client_ip : String
  pub geo_text : String
  pub request_count : ℕ
  pub approved_count : ℕ
  pub first_requested_at : ℕ
  pub last_requested_at : ℕ
  pub previous_requested_at : Option ℕ
  pub status : Status
  pub active_request_id : String
  pub active_connection_id : String
  pub active_requested_at : ℕ
  pub active_approved_at : Option ℕ
  pub last_state_change_at : ℕ
  pub last_close_reason : String

pub record ActionToken : Type 0 where
  pub token : String
  pub created_at : ℕ
  pub expires_at : ℕ
  pub used : Bool
  pub target : String
  pub action : String

pub record Center : Type 0 where
  pub external_base_url : String
  pub ttl_seconds : ℕ
  pub history_retention_seconds : ℕ
  pub control_token : String
  pub requests_by_id : Dict ControlRequestEvent
  pub requests_by_key : List (Pair × ControlRequestAggregate)
  pub request_history : List String
  pub action_tokens : Dict ActionToken
  pub whitelist_set : List Pair
  pub blacklist_set : List Pair
  pub total_requested_count : ℕ
  pub total_approved_count : ℕ

unfoldable pub new_center : String → ℕ → ℕ → String → Center
new_center url ttl retention control_token = record {
  external_base_url = url;
  ttl_seconds = max 1 ttl;
  history_retention_seconds = max (max 1 ttl) retention;
  control_token = control_token;
  requests_by_id = [];
  requests_by_key = [];
  request_history = [];
  action_tokens = [];
  whitelist_set = [];
  blacklist_set = [];
  total_requested_count = 0;
  total_approved_count = 0;
}

abbrev pub is_over : Status → Bool
is_over idle = false
is_over pending = false
is_over approved = false
is_over closed = true
is_over superseded = true
is_over rejected = false
is_over pending_quick_approval = false

-- The time is before `now - history_retention_seconds`.
abbrev pub is_old : Center → ℕ → ℕ → Bool
is_old s now at = ltb (at + seconds s.history_retention_seconds) now

abbrev old_event : Center → ℕ → Option ControlRequestEvent → Bool
old_event s now none = true
old_event s now (some e) = is_old s now e.requested_at

abbrev pub is_stale_action : Center → ℕ → ActionToken → Bool
is_stale_action s now a = ltb a.expires_at now || (a.used && is_old s now a.created_at)

abbrev pub is_stale_key : Center → ℕ → ControlRequestAggregate → Bool
is_stale_key s now a =
    a.active_request_id == ""
    && not (not (nat_eq a.last_requested_at 0) && not (is_old s now a.last_requested_at))

-- `_cleanup_locked`
unfoldable pub cleanup : Center → ℕ → Center
cleanup s now = record s {
  request_history = keep (λ id. not (old_event s now (get s.requests_by_id id))) s.request_history;
  requests_by_id = prune (λ e. is_old s now e.requested_at && is_over e.status) s.requests_by_id;
  action_tokens = prune (is_stale_action s now) s.action_tokens;
  requests_by_key = drop_where (is_stale_key s now) s.requests_by_key;
}

pub is_blacklisted : Center → String → String → Bool
is_blacklisted s target client_ip = is_in (target, client_ip) s.blacklist_set

pub is_whitelisted : Center → String → String → Bool
is_whitelisted s target client_ip = is_in (target, client_ip) s.whitelist_set

abbrev status_of : Option ControlRequestEvent → Option Status
status_of none = none
status_of (some e) = some e.status

pub get_request_status : Center → String → Option Status
get_request_status s request_id = status_of (get s.requests_by_id request_id)

abbrev is_rejected : Status → Bool
is_rejected rejected = true
is_rejected idle = false
is_rejected pending = false
is_rejected approved = false
is_rejected closed = false
is_rejected superseded = false
is_rejected pending_quick_approval = false

abbrev pub is_quick : Status → Bool
is_quick pending_quick_approval = true
is_quick rejected = false
is_quick idle = false
is_quick pending = false
is_quick approved = false
is_quick closed = false
is_quick superseded = false

abbrev has_status : (Status → Bool) → Option ControlRequestEvent → Bool
has_status p none = false
has_status p (some e) = p e.status

pub is_request_rejected : Center → String → Bool
is_request_rejected s request_id = has_status is_rejected (get s.requests_by_id request_id)

pub is_pending_quick_approval : Center → String → Bool
is_pending_quick_approval s request_id = has_status is_quick (get s.requests_by_id request_id)

abbrev quick_token_of : Option ControlRequestEvent → Option String
quick_token_of none = none
quick_token_of (some e) = if e.quick_approval_token == "" then none else some e.quick_approval_token

pub get_request_quick_approval_token : Center → String → Option String
get_request_quick_approval_token s request_id = quick_token_of (get s.requests_by_id request_id)

abbrev pub control_url : Center → String
control_url s = s.external_base_url <> "/control?token=" <> s.control_token

-- for target, client_ip in targets
unfoldable pub blacklist_targets : Center → List Pair → Center
blacklist_targets s [] = s
blacklist_targets s ((target, client_ip) ∷ targets) =
    blacklist_targets
      (if target == "" || client_ip == "" then s else record s {
        blacklist_set = add (target, client_ip) s.blacklist_set;
        whitelist_set = discard (target, client_ip) s.whitelist_set;
      })
      targets

abbrev pub action_link : Center → ℕ → String → String → String → ActionToken
action_link s now token target action = record {
  token = token;
  created_at = now;
  expires_at = now + seconds s.ttl_seconds;
  used = false;
  target = target;
  action = action;
}

-- The new state, the keep link and the shutdown link.
unfoldable pub create_action_links :
    Center → ℕ → String → String → String → Center × String × String
create_action_links s now keep_token shutdown_token target =
    let c = cleanup s now in
    (
      record c {
        action_tokens =
            put
              (put c.action_tokens keep_token (action_link s now keep_token target "keep_running"))
              shutdown_token (action_link s now shutdown_token target "shutdown_on_idle");
      },
      s.external_base_url <> "/action?token=" <> keep_token,
      s.external_base_url <> "/action?token=" <> shutdown_token,
    )
