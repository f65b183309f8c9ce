-- ===== src/Verification/Forms/Page.antt =====
-- rdp_proxy/verification.py: GET of the whitelist page, and of the other paths.
use rdp_on_demand_proxy_serv.Base.{
  ℕ, ◌≡◌, refl, String, Bool, true, false, ◌&&◌, not, Option, none, some, List, map, if◌then◌else◌,
  ◌==◌, arith, leb,
}
use rdp_on_demand_proxy_serv.Base.Dict.{Dict, get, get-prune}
use rdp_on_demand_proxy_serv.Verification.{
  Service, ControlAuthToken, is_control_auth_valid, check_auth, cleanup, is_stale,
}
use rdp_on_demand_proxy_serv.Verification.Forms.{field_of, resolve_request_ip}
use rdp_on_demand_proxy_serv.Whitelist.{Rejection}
use rdp_on_demand_proxy_serv.Whitelist.Storage.{Listed}

abbrev or_text : String → String → String
or_text t other = if t == "" then other else t

-- A row of the whitelist and of the rejections, without the texts of the times.
pub record Row : Type 0 where
  pub ip : String
  pub source : String
  pub entry_id : String
  pub legacy : Bool

abbrev pub row_of : (String → String) → Listed → Row
row_of strip e = record {
  ip = or_text (strip e.ip) "<legacy>";
  source = or_text (strip e.source) "-";
  entry_id = strip e.cipher;
  legacy = e.legacy;
}

pub record RejectedRow : Type 0 where
  pub ip : String
  pub geo : String
  pub target : String
  pub count : ℕ

abbrev pub rejected_row_of : (String → String) → Rejection → RejectedRow
rejected_row_of strip j = record {
  ip = strip j.ip;
  geo = or_text (strip j.geo) "-";
  target = or_text (strip j.target) "-";
  count = j.count;
}

pub record Shown : Type 0 where
  pub visitor_ip : String
  pub flash : Option (Bool × String)
  pub rows : List Row
  pub rejected_rows : List RejectedRow

-- The page with status 200, or the two with status 401.
pub data Page : Type 0 where
  sign_in link_spent : Page
  shown : Shown → Page

abbrev flash_of : Dict String → Option (Bool × String)
flash_of query =
    if field_of query "message" == ""
    then none
    else some (field_of query "level" == "ok", field_of query "message")

abbrev page_of :
    (String → String) → Dict String → String → String → List Listed → List Rejection → Page
page_of strip query forwarded_for client_address entries rejections = shown (record {
  visitor_ip = resolve_request_ip strip forwarded_for client_address;
  flash = flash_of query;
  rows = map (row_of strip) entries;
  rejected_rows = map (rejected_row_of strip) rejections;
})

-- `_render_whitelist_page`, with what the two callbacks list.
unfoldable pub render_whitelist_page :
    (String → String)
    → Service
    → ℕ
    → Dict String
    → String
    → String
    → List Listed
    → List Rejection
    → Service × Page
render_whitelist_page strip s now query forwarded_for client_address entries rejections =
    let auth = field_of query "auth" in
    if auth == ""
    then (s, sign_in)
    else (let checked = is_control_auth_valid s now auth in
        (
          checked.0,
          if checked.1
              then page_of strip query forwarded_for client_address entries rejections
              else link_spent,
        ))

abbrev pub is_shown : Page → Bool
is_shown sign_in = false
is_shown link_spent = false
is_shown (shown p) = true

-- The token is in the table, was not used, and has not expired.
abbrev pub opens : ℕ → Option ControlAuthToken → Bool
opens now none = false
opens now (some cat) = not cat.used && leb now cat.expires_at

is_control_auth_valid-opens :
    (s : Service) (now : ℕ) (token : String) (found : Option ControlAuthToken)
    → get s.control_auth_tokens token ≡ found
    → (is_control_auth_valid s now token).1 ≡ (not (token == "") && opens now found)
unfolding is_control_auth_valid check_auth cleanup
is_control_auth_valid-opens s now token none e = ground (
  arith,
  e,
  get-prune (λ v. is_stale now v.created_at v.expires_at v.used) s.control_auth_tokens token,
)
is_control_auth_valid-opens s now token (some cat) e = ground (
  arith,
  e,
  get-prune (λ v. is_stale now v.created_at v.expires_at v.used) s.control_auth_tokens token,
)

-- The page is shown exactly if the field `auth` is not empty and names a management token that is in the
-- table, was not used, and has not expired; every other request gets one of the two answers with
-- status 401.
pub page_shown_iff :
    (strip : String → String) (s : Service) (now : ℕ) (query : Dict String)
    (forwarded_for client_address : String) (entries : List Listed) (rejections : List Rejection)
    → let auth = field_of query "auth" in
      is_shown
        (render_whitelist_page strip s now query forwarded_for client_address entries rejections).1
      ≡ (not (auth == "") && opens now (get s.control_auth_tokens auth))
unfolding render_whitelist_page
page_shown_iff strip s now query forwarded_for client_address entries rejections =
    let auth = field_of query "auth" in
    ground (arith, is_control_auth_valid-opens s now auth (get s.control_auth_tokens auth) refl)
