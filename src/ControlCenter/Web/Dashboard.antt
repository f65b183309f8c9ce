-- ===== src/ControlCenter/Web/Dashboard.antt =====
-- rdp_proxy/control_center.py: `get_dashboard_snapshot`, and the texts of the page.
use rdp_on_demand_proxy_serv.Base.{
  ℕ, ◌+◌, ◌≡◌, refl, String, Bool, true, false, ◌&&◌, ◌||◌, not, Option, none, some, List, [], ◌∷◌,
  ltb, leb, nat_eq, ◌==◌, seconds, max, keep, length, arith,
}
use rdp_on_demand_proxy_serv.Base.Dict.{Dict, get}
use rdp_on_demand_proxy_serv.Base.Pairs.{is_in, listed}
use rdp_on_demand_proxy_serv.Base.Sort.{sort_by, sort_desc}
use rdp_on_demand_proxy_serv.ControlCenter.{
  Status, idle, pending, approved, closed, superseded, rejected, pending_quick_approval,
  ControlRequestEvent, ControlRequestAggregate, Center, cleanup,
}

-- The records of the active view are the pending ones, then the approved ones; those of the recent view are
-- the recent requests.
pub record Snapshot : Type 0 where
  pub window_seconds : ℕ
  pub requested : ℕ
  pub approved : ℕ
  pub recent_requested : ℕ
  pub recent_approved : ℕ
  pub pending_records : List ControlRequestAggregate
  pub approved_records : List ControlRequestAggregate
  pub previously_approved_records : List ControlRequestAggregate
  pub other_pending_records : List ControlRequestAggregate
  pub recent_records : List ControlRequestEvent

-- The order of (last_requested_at, request_count), reversed.
abbrev pub not_earlier : ControlRequestAggregate → ControlRequestAggregate → Bool
not_earlier a b =
    ltb b.last_requested_at a.last_requested_at
    || (nat_eq a.last_requested_at b.last_requested_at && leb b.request_count a.request_count)

abbrev is_pending : Status → Bool
is_pending pending = true
is_pending idle = false
is_pending approved = false
is_pending closed = false
is_pending superseded = false
is_pending rejected = false
is_pending pending_quick_approval = false

abbrev is_approved : Status → Bool
is_approved approved = true
is_approved pending = false
is_approved idle = false
is_approved closed = false
is_approved superseded = false
is_approved rejected = false
is_approved pending_quick_approval = false

abbrev is_active : (Status → Bool) → ControlRequestAggregate → Bool
is_active p a = p a.status && not (a.active_request_id == "")

abbrev total : (ControlRequestAggregate → ℕ) → List ControlRequestAggregate → ℕ
total f [] = 0
total f (a ∷ as_) = f a + total f as_

abbrev with_some : Option ControlRequestEvent → List ControlRequestEvent → List ControlRequestEvent
with_some none es = es
with_some (some e) es = e ∷ es

-- The events of the history.
abbrev events_of : Dict ControlRequestEvent → List String → List ControlRequestEvent
events_of d [] = []
events_of d (id ∷ ids) = with_some (get d id) (events_of d ids)

-- The time is in the window that ends now.
abbrev within : ℕ → ℕ → ℕ → Bool
within now window at = leb now (at + seconds window)

abbrev approved_within : ℕ → ℕ → Option ℕ → Bool
approved_within now window none = false
approved_within now window (some at) = within now window at

abbrev whitelisted : Center → ControlRequestAggregate → Bool
whitelisted s a = is_in (a.target, a.client_ip) s.whitelist_set

unfoldable pub snapshot_of : Center → ℕ → ℕ → Snapshot
unfolding sort_by sort_desc listed
snapshot_of c now window =
    let aggregates = sort_by not_earlier (listed c.requests_by_key) in
    let recent_events =
      sort_desc (λ e. e.requested_at)
        (keep (λ e. within now window e.requested_at)
          (events_of c.requests_by_id c.request_history)) in
    let pending_records = keep (is_active is_pending) aggregates in
    record {
      window_seconds = window;
      requested = total (λ a. a.request_count) aggregates;
      approved = total (λ a. a.approved_count) aggregates;
      recent_requested = length recent_events;
      recent_approved = length (keep (λ e. approved_within now window e.approved_at) recent_events);
      pending_records = pending_records;
      approved_records = keep (is_active is_approved) aggregates;
      previously_approved_records = keep (whitelisted c) pending_records;
      other_pending_records = keep (λ a. not (whitelisted c a)) pending_records;
      recent_records = recent_events;
    }

pub get_dashboard_snapshot : Center → ℕ → ℕ → Center × Snapshot
unfolding snapshot_of
get_dashboard_snapshot s now window_seconds =
    let c = cleanup s now in (c, snapshot_of c now (max 1 window_seconds))

-- `_status_class`
pub status_class : Status → String
status_class approved = "approved"
status_class pending = "pending"
status_class idle = "closed"
status_class closed = "closed"
status_class superseded = "closed"
status_class rejected = "closed"
status_class pending_quick_approval = "closed"

-- `_status_text`
pub status_text : Status → String
status_text approved = "已放行"
status_text pending = "待授权"
status_text superseded = "已被新请求替代"
status_text closed = "已关闭"
status_text idle = "idle"
status_text rejected = "rejected"
status_text pending_quick_approval = "pending_quick_approval"

length-split :
    (p : ControlRequestAggregate → Bool) (xs : List ControlRequestAggregate)
    → length (keep p xs) + length (keep (λ a. not (p a)) xs) ≡ length xs
length-split p [] = refl
length-split p (x ∷ xs) = ground (arith, length-split p xs)

-- Every pending record stands in one of the two lists of the page.
pub pending_is_split :
    (s : Center) (now window : ℕ)
    → let shown = (get_dashboard_snapshot s now window).1 in
      length shown.previously_approved_records + length shown.other_pending_records
      ≡ length shown.pending_records
unfolding get_dashboard_snapshot
pending_is_split s now window =
    length-split (whitelisted (cleanup s now))
      (snapshot_of (cleanup s now) now (max 1 window)).pending_records
