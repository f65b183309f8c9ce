-- ===== src/Verification.antt =====
-- rdp_proxy/verification.py: the one-time links and their tables. A `threading.Event` outlives the
-- table entry that refers to it, so the events stand in a table of their own, under their tokens;
-- `uuid4().hex` and the clock are arguments.
pub mod Links
pub mod Forms
use rdp_on_demand_proxy_serv.Base.{
  ℕ, ◌+◌, String, ◌<>◌, Bool, true, false, ◌&&◌, ◌||◌, not, Option, none, some, List, [], ◌∷◌, map,
  ltb, leb, if◌then◌else◌, seconds, take, keep, min, max, ◌==◌,
}
use rdp_on_demand_proxy_serv.Base.Dict.{Dict, get, put, pop, prune, values}
use rdp_on_demand_proxy_serv.Base.Sort.{sort_desc}

-- The fields of a token's `meta`.
pub record Meta : Type 0 where
  pub target : String
  pub client_ip : String
  pub instance_id : String

pub record VerificationToken : Type 0 where
  pub token : String
  pub created_at : ℕ
  pub expires_at : ℕ
  pub used : Bool
  pub approved : Bool
  pub details : Meta

pub record ActionToken : Type 0 where
  pub token : String
  pub created_at : ℕ
  pub expires_at : ℕ
  pub used : Bool
  pub target : String
  pub action : String

pub record ControlAuthToken : Type 0 where
  pub token : String
  pub created_at : ℕ
  pub expires_at : ℕ
  pub used : Bool

pub record Service : Type 0 where
  pub external_base_url : String
  pub ttl_seconds : ℕ
  pub tokens : Dict VerificationToken
  pub action_tokens : Dict ActionToken
  pub control_auth_tokens : Dict ControlAuthToken
  pub events : Dict Bool

unfoldable pub new_service : String → ℕ → Service
new_service url ttl = record {
  external_base_url = url;
  ttl_seconds = ttl;
  tokens = [];
  action_tokens = [];
  control_auth_tokens = [];
  events = [];
}

-- The test of the three comprehensions in `_cleanup_locked`.
abbrev pub is_stale : ℕ → ℕ → ℕ → Bool → Bool
is_stale now created_at expires_at used =
    ltb expires_at now || (used && ltb (created_at + seconds 3600) now)

unfoldable pub cleanup : Service → ℕ → Service
cleanup s now = record s {
  tokens = prune (λ v. is_stale now v.created_at v.expires_at v.used) s.tokens;
  action_tokens = prune (λ v. is_stale now v.created_at v.expires_at v.used) s.action_tokens;
  control_auth_tokens =
      prune (λ v. is_stale now v.created_at v.expires_at v.used) s.control_auth_tokens;
}

abbrev pub fresh_token : Service → ℕ → String → Meta → VerificationToken
fresh_token s now token details = record {
  token = token;
  created_at = now;
  expires_at = now + seconds s.ttl_seconds;
  used = false;
  approved = false;
  details = details;
}

unfoldable pub create_token : Service → ℕ → String → Meta → Service × String
create_token s now token details =
    let c = cleanup s now in
    (
      record c {
        tokens = put c.tokens token (fresh_token s now token details);
        events = put c.events token false;
      },
      s.external_base_url <> "/verify?token=" <> token,
    )

abbrev pub fresh_auth : Service → ℕ → String → ControlAuthToken
fresh_auth s now token = record {
  token = token;
  created_at = now;
  expires_at = now + seconds (min 3600 s.ttl_seconds);
  used = false;
}

unfoldable pub create_control_auth_token : Service → ℕ → String → Service × String
create_control_auth_token s now token =
    let c = cleanup s now in
    (
      record c { control_auth_tokens = put c.control_auth_tokens token (fresh_auth s now token) },
      s.external_base_url <> "/whitelist?auth=" <> token,
    )

check_auth : Service → ℕ → String → Option ControlAuthToken → Service × Bool
check_auth c now token none = (c, false)
check_auth c now token (some cat) = if cat.used || ltb cat.expires_at now then (c, false) else (
  record c { control_auth_tokens = put c.control_auth_tokens token (record cat { used = true }) },
  true,
)

pub is_control_auth_valid : Service → ℕ → String → Service × Bool
unfolding check_auth
is_control_auth_valid s now token =
    if token == ""
    then (s, false)
    else let c = cleanup s now in check_auth c now token (get c.control_auth_tokens token)

abbrev pub action_token : Service → ℕ → String → String → String → ActionToken
action_token s now token target action = record {
  token = token;
  created_at = now;
  expires_at = now + seconds s.ttl_seconds;
  used = false;
  target = target;
  action = action;
}

-- The new state, the keep link and the shutdown link.
unfoldable pub create_action_links :
    Service → ℕ → String → String → String → Service × String × String
create_action_links s now keep_token shutdown_token target =
    let c = cleanup s now in
    (
      record c {
        action_tokens =
            put
              (put c.action_tokens keep_token (action_token s now keep_token target "keep_running"))
              shutdown_token (action_token s now shutdown_token target "shutdown_on_idle");
      },
      s.external_base_url <> "/action?token=" <> keep_token,
      s.external_base_url <> "/action?token=" <> shutdown_token,
    )

approved_of : Option VerificationToken → Bool
approved_of none = false
approved_of (some vt) = vt.approved

pub is_approved : Service → String → Bool
unfolding approved_of
is_approved s token = approved_of (get s.tokens token)

pub record PendingLink : Type 0 where
  pub token : String
  pub target : String
  pub client_ip : String
  pub verify_url : String

abbrev pub pending_link : Service → VerificationToken → PendingLink
pending_link s vt = record {
  token = vt.token;
  target = vt.details.target;
  client_ip = vt.details.client_ip;
  verify_url = s.external_base_url <> "/verify?token=" <> vt.token;
}

abbrev pub is_pending : ℕ → VerificationToken → Bool
is_pending now vt = not vt.used && leb now vt.expires_at

unfoldable pub list_pending_verification_links : Service → ℕ → ℕ → Service × List PendingLink
list_pending_verification_links s now limit =
    let c = cleanup s now in
    let pending = keep (is_pending now) (values c.tokens) in
    (c, map (pending_link s) (take (max 1 limit) (sort_desc (λ vt. vt.created_at) pending)))

cancel_found : Service → String → Option VerificationToken → Service × Bool
cancel_found s token none = (s, false)
cancel_found s token (some vt) =
    (record s { tokens = pop s.tokens token; events = put s.events token true }, true)

pub cancel_token : Service → String → Service × Bool
unfolding cancel_found
cancel_token s token = if token == "" then (s, false) else cancel_found s token (get s.tokens token)
