-- ===== src/Verification/Links.antt =====
-- rdp_proxy/verification.py: the two handlers behind one-time links, `/verify` and `/action`, and the
-- timed operations of the service. A request's query is given as `parse_qs` returns it.
pub mod Cleanup
pub mod Invariant
pub mod Tokens
pub mod Spent
pub mod OneTime
pub mod Approval
pub mod Pending
mod Tests
use rdp_on_demand_proxy_serv.Base.{
  ℕ, String, Bool, true, false, Option, none, some, List, [], ◌∷◌, ltb, if◌then◌else◌, ◌==◌,
}
use rdp_on_demand_proxy_serv.Base.Dict.{Dict, get, put}
use rdp_on_demand_proxy_serv.Verification.{
  Meta, VerificationToken, ActionToken, Service, cleanup, create_token, create_control_auth_token,
  is_control_auth_valid, create_action_links, list_pending_verification_links, cancel_token,
}

pub data Status : Type 0 where
  ok bad_request unauthorized not_found conflict gone not_implemented see_other : Status

-- The callbacks that a handler makes, `_on_verified` and `_on_action`.
pub data Call : Type 0 where
  verified : String → Meta → Call
  acted : String → String → Call

pub record Handled : Type 0 where
  pub service : Service
  pub status : Status
  pub message : String
  pub calls : List Call

abbrev pub refuse : Service → Status → String → Handled
refuse s code text = record { service = s; status = code; message = text; calls = [] }

unfoldable pub verify_found : Service → ℕ → String → Option VerificationToken → Handled
verify_found c now token none = refuse c gone "链接已失效"
verify_found c now token (some vt) =
    if vt.used
    then refuse c conflict "链接已被使用"
    else if ltb vt.expires_at now
    then refuse c gone "链接已过期"
    else record {
      service = record c {
        tokens = put c.tokens token (record vt { used = true; approved = true });
        events = put c.events token true;
      };
      status = ok;
      message = "验证成功，RDP 连接已放行";
      calls = verified token vt.details ∷ [];
    }

-- GET /verify
unfoldable pub handle_verify : Service → ℕ → String → Handled
unfolding verify_found
handle_verify s now token =
    if token == ""
    then refuse s bad_request "Missing token"
    else let c = cleanup s now in verify_found c now token (get c.tokens token)

action_found : Service → ℕ → String → Option ActionToken → Handled
action_found c now token none = refuse c gone "链接已失效"
action_found c now token (some at) =
    if at.used
    then refuse c conflict "链接已被使用"
    else if ltb at.expires_at now
    then refuse c gone "链接已过期"
    else record {
      service = record c { action_tokens = put c.action_tokens token (record at { used = true }) };
      status = ok;
      message = if at.action == "shutdown_on_idle" then "已选择：立即关机（空闲超时后执行）" else "已选择：保持开机";
      calls = acted at.target at.action ∷ [];
    }

-- GET /action
pub handle_action : Service → ℕ → String → Handled
unfolding action_found
handle_action s now token =
    if token == ""
    then refuse s bad_request "Missing token"
    else let c = cleanup s now in action_found c now token (get c.action_tokens token)

-- What can happen to the service, each with the time that the code reads.
pub data Op : Type 0 where
  creates : String → Meta → Op
  creates_auth : String → Op
  checks_auth : String → Op
  creates_links : String → String → String → Op
  lists : ℕ → Op
  cancels : String → Op
  verifies : String → Op
  acts : String → Op

unfoldable pub step : Service → ℕ × Op → Service
step s (now, creates token details) = (create_token s now token details).0
step s (now, creates_auth token) = (create_control_auth_token s now token).0
step s (now, checks_auth token) = (is_control_auth_valid s now token).0
step s (now, creates_links keep_token shutdown_token target) =
    (create_action_links s now keep_token shutdown_token target).0
step s (now, lists limit) = (list_pending_verification_links s now limit).0
step s (now, cancels token) = (cancel_token s token).0
step s (now, verifies token) = (handle_verify s now token).service
step s (now, acts token) = (handle_action s now token).service

unfoldable pub run : Service → List (ℕ × Op) → Service
run s [] = s
run s (c ∷ cs) = run (step s c) cs
