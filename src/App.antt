-- ===== src/App.antt =====
-- rdp_proxy/proxy.py, `RDPProxyApp`: the callbacks between the components, and the commands of the chat.
pub mod Commands
pub mod Admission
mod Tests
use rdp_on_demand_proxy_serv.Base.{
  ℕ, String, ◌<>◌, Bool, true, false, Option, none, some, List, [], ◌∷◌, if◌then◌else◌, ◌==◌,
}
use rdp_on_demand_proxy_serv.Base.Dict.{Dict, get, put}
use rdp_on_demand_proxy_serv.Cloud.Idle.{IdleState, apply_idle_action}
use rdp_on_demand_proxy_serv.Whitelist.{
  Codec, Content, Store, WhitelistResult, add_ip, ingest_text, delete_entry, record_rejected_ip,
}
use rdp_on_demand_proxy_serv.Verification.Forms.{Callbacks}

-- The outcome of the store's operation as the web server and the chat are given it.
abbrev pub plain : WhitelistResult → Bool × String
plain r = (r.allowed, r.message)

abbrev pub with_address : WhitelistResult → Bool × String
with_address r = (
  r.allowed,
  if r.normalized_ip == "" then r.message else r.normalized_ip <> " (" <> r.message <> ")",
)

abbrev lifted : (WhitelistResult → Bool × String) → Option WhitelistResult → Option (Bool × String)
lifted f none = none
lifted f (some r) = some (f r)

-- What a changed file gives, the time and the number for a nonce of one call.
pub record Moment : Type 0 where
  pub reload : Option Content
  pub now : ℕ
  pub nonce : ℕ

pub handle_whitelist_message : Codec → Moment → Store → String → Store × Option (Bool × String)
handle_whitelist_message k m s t =
    let r = ingest_text k s m.reload m.now m.nonce t in (r.0, lifted plain r.1)

pub add_whitelist_ip : Codec → Moment → Store → String → String → Store × Option (Bool × String)
add_whitelist_ip k m s client_ip source =
    let r = add_ip k s m.reload m.now m.nonce client_ip source in (r.0, lifted with_address r.1)

pub delete_whitelist_entry : Codec → Moment → Store → String → Store × Option (Bool × String)
delete_whitelist_entry k m s identifier =
    let r = delete_entry k s m.reload identifier in (r.0, lifted with_address r.1)

-- `resolve_geo_text` of the notifier is an argument.
pub record_whitelist_rejection :
    Codec → Moment → (String → String) → Store → String → String → Store
record_whitelist_rejection k m resolve_geo_text s client_ip target_name =
    record_rejected_ip k s m.reload m.now client_ip (resolve_geo_text client_ip) target_name

abbrev pub callbacks : Codec → Moment → Callbacks
callbacks k m = record {
  State = Store;
  strip = k.strip;
  on_whitelist_message = some (handle_whitelist_message k m);
  add_whitelist_ip = some (add_whitelist_ip k m);
  delete_whitelist_entry = some (delete_whitelist_entry k m);
}

abbrev applied : Dict IdleState → String → String → Option IdleState → Dict IdleState
applied targets name action none = targets
applied targets name action (some t) = put targets name (apply_idle_action t action)

-- On the targets under their names.
pub handle_post_disconnect_action : Dict IdleState → String → String → Dict IdleState
handle_post_disconnect_action targets name action = applied targets name action (get targets name)
