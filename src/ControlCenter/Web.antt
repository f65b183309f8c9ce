-- ===== src/ControlCenter/Web.antt =====
-- rdp_proxy/control_center.py: the requests of the web server. A query or a form is given by its fields, the
-- empty text for one that is missing.
pub mod Dashboard
pub mod Secrets
mod Tests
use rdp_on_demand_proxy_serv.Base.{
  ℕ, String, Bool, true, false, Option, none, some, List, [], ◌∷◌, ltb, if◌then◌else◌, ◌==◌, max,
  map, length, not,
}
use rdp_on_demand_proxy_serv.Base.Dict.{Dict, get, put}
use rdp_on_demand_proxy_serv.Base.Pairs.{Pair}
use rdp_on_demand_proxy_serv.ControlCenter.{
  Center, ControlRequestEvent, ActionToken, cleanup, blacklist_targets,
}
use rdp_on_demand_proxy_serv.ControlCenter.Requests.Answers.{
  approve_request, approve_by_quick_token,
}

pub data Code : Type 0 where
  ok bad_request forbidden not_found conflict gone : Code

pub record Reply : Type 0 where
  pub code : Code
  pub message : String

abbrev pub reply : Code → String → Reply
reply code message = record { code = code; message = message }

-- The state, what was sent, and the callbacks `on_approved` and `on_action` that were made.
pub record Handled : Type 0 where
  pub center : Center
  pub replies : List Reply
  pub approved : Option ControlRequestEvent
  pub acted : Option (String × String)

abbrev pub only : Center → Code → String → Handled
only s code message = record {
  center = s;
  replies = reply code message ∷ [];
  approved = none;
  acted = none;
}

-- `_handle_control`, but for the page that is made of the snapshot.
pub handle_control : Center → ℕ → String → Handled
handle_control s now token =
    if not (token == s.control_token)
    then only s forbidden "无效的控制地址"
    else only (cleanup s now) ok "dashboard"

abbrev answered : Code → String → String → Center × Option ControlRequestEvent → Handled
answered refused refusal granted (t, none) = only t refused refusal
answered refused refusal granted (t, some e) = record {
  center = t;
  replies = reply ok granted ∷ [];
  approved = some e;
  acted = none;
}

pub handle_approve : Center → ℕ → String → String → Handled
handle_approve s now token request_id =
    if not (token == s.control_token)
    then only s forbidden "无效的控制地址"
    else if request_id == ""
    then only s bad_request "缺少请求记录"
    else answered conflict "记录已失效或已处理" "请求已放行" (approve_request s now request_id)

-- The value of the field `targets`: no JSON, JSON that is no list, or the list's objects with their two texts.
pub data Targets : Type 0 where
  no_json no_list : Targets
  pairs : List Pair → Targets

-- The count of the targets is left out of the reply.
pub handle_blacklist : Center → String → String → Targets → Handled
handle_blacklist s token targets_raw targets =
    if not (token == s.control_token)
    then only s forbidden "无效的控制地址"
    else if targets_raw == ""
    then only s bad_request "缺少黑名单目标"
    else elim targets [
      | no_json ↦ only s bad_request "黑名单操作失败"
      | no_list ↦ only s ok "已添加目标到黑名单"
      | pairs ps ↦ only (blacklist_targets s ps) ok "已添加目标到黑名单"
    ]

pub handle_quick_approve : Center → ℕ → String → Handled
handle_quick_approve s now quick_token =
    if quick_token == ""
    then only s bad_request "缺少授权令牌"
    else answered gone "链接已失效或已被使用" "请求已通过快速授权" (approve_by_quick_token s now quick_token)

abbrev chosen : String → String
chosen action = if action == "shutdown_on_idle" then "已选择：立即关机（空闲超时后执行）" else "已选择：保持开机"

action_found : Center → ℕ → String → Option ActionToken → Handled
action_found s now token none = only s gone "链接已失效"
action_found s now token (some a) =
    if a.used
    then only s conflict "链接已被使用"
    else if ltb a.expires_at now
    then only s gone "链接已过期"
    else record {
      center = record s { action_tokens = put s.action_tokens token (record a { used = true }) };
      replies = reply ok (chosen a.action) ∷ [];
      approved = none;
      acted = some (a.target, a.action);
    }

pub handle_action : Center → ℕ → String → Handled
unfolding action_found
handle_action s now token =
    if token == ""
    then only s bad_request "Missing token"
    else let c = cleanup s now in action_found c now token (get c.action_tokens token)

abbrev sent_before : Reply → Handled → Handled
sent_before r h = record h { replies = r ∷ h.replies }

-- `do_GET`, on the path and the field `token`. The handler of /quick-approve stands after a reply that is sent
-- for every path that is left.
unfoldable pub do_get : Center → ℕ → String → String → Handled
unfolding handle_control handle_action handle_quick_approve
do_get s now path token =
    if path == "/control"
    then handle_control s now token
    else if path == "/action"
    then handle_action s now token
    else sent_before (reply not_found "Not Found") (
        if path == "/quick-approve"
        then handle_quick_approve s now token
        else only s not_found "Not Found")

-- `do_POST`, on the path and the fields.
unfoldable pub do_post : Center → ℕ → String → String → String → String → Targets → Handled
unfolding handle_approve handle_blacklist
do_post s now path token request_id targets_raw targets =
    if path == "/approve"
    then handle_approve s now token request_id
    else if path == "/blacklist"
    then handle_blacklist s token targets_raw targets
    else only s not_found "Not Found"
