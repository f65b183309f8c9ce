-- ===== src/ControlCenter/Requests/Blacklist.antt =====
-- rdp_proxy/control_center.py: requests of a blacklisted target and address.
pub mod Run
use rdp_on_demand_proxy_serv.Base.{
  ℕ, ◌≡◌, refl, sym, ◌∙◌, ap, subst, String, Bool, true, false, ◌&&◌, ◌||◌, not, Option, none, some,
  List, [], ◌∷◌, if◌then◌else◌, ◌==◌, eq_iff, eq_refl, arith, inl, inr, Bool-cases, Option-cases,
}
use rdp_on_demand_proxy_serv.Base.Dict.{Dict, get, put, get-put, get-prune, unless, keys}
use rdp_on_demand_proxy_serv.Base.Pairs.{
  Pair, same, same_refl, is_in, add, discard, find, is_in-add,
}
use rdp_on_demand_proxy_serv.ControlCenter.{
  Status, idle, pending, approved, closed, superseded, rejected, pending_quick_approval,
  ControlRequestEvent, ControlRequestAggregate, Center, cleanup, is_over, is_old, is_quick,
  blacklist_targets, create_action_links,
}
use rdp_on_demand_proxy_serv.ControlCenter.Requests.{
  is_live, register_request, register_quick, register_pending, supersede, supersede_found,
  new_event, rejected_event, quick_event, superseded_event, key_of, with_event,
}
use rdp_on_demand_proxy_serv.ControlCenter.Requests.Answers.{
  approve_request, approve_found, approve_by_quick_token, search_quick, quick_at, close_request,
  close_found, approved_event, closed_event, has_quick_token, search_quick-waits, is_pending,
}
use rdp_on_demand_proxy_serv.ControlCenter.Requests.Steps.{
  Op, registers, approves, approves_quick, closes, blacklists, links, shows, step, run,
}

abbrev is_away : Status → Bool
is_away rejected = true
is_away closed = true
is_away idle = false
is_away pending = false
is_away approved = false
is_away superseded = false
is_away pending_quick_approval = false

abbrev unapproved : ControlRequestEvent → Bool
unapproved e = elim e.approved_at [ none ↦ is_away e.status | some t ↦ false ]

-- The request is gone from the table, or rejected or closed without an approval.
abbrev pub turned_away : Option ControlRequestEvent → Bool
turned_away none = true
turned_away (some e) = unapproved e

-- No call registers a request with this id.
abbrev pub leaves_id : String → List Op → Bool
leaves_id id [] = true
leaves_id id (registers now target other ip port geo token ∷ ops) =
    not (other == id) && leaves_id id ops
leaves_id id (approves now other ∷ ops) = leaves_id id ops
leaves_id id (approves_quick now token ∷ ops) = leaves_id id ops
leaves_id id (closes now other reason ∷ ops) = leaves_id id ops
leaves_id id (blacklists targets ∷ ops) = leaves_id id ops
leaves_id id (links now keep shutdown target ∷ ops) = leaves_id id ops
leaves_id id (shows now ∷ ops) = leaves_id id ops

cleanup-away :
    (s : Center) (now : ℕ) (id : String)
    → turned_away (get s.requests_by_id id) ≡ true
    → turned_away (get (cleanup s now).requests_by_id id) ≡ true
unfolding cleanup
cleanup-away s now id h = elim (Option-cases (get s.requests_by_id id)) [
  | inl n ↦ ground (
    arith,
    h,
    n,
    get-prune (λ e. is_old s now e.requested_at && is_over e.status) s.requests_by_id id,
  )
  | inr (f, n) ↦ ground (
    arith,
    h,
    n,
    get-prune (λ e. is_old s now e.requested_at && is_over e.status) s.requests_by_id id,
  )
]

put-away :
    (d : Dict ControlRequestEvent) (id other : String) (e : ControlRequestEvent)
    → (other == id) ≡ false
    → turned_away (get d id) ≡ true
    → turned_away (get (put d other e) id) ≡ true
put-away d id other e differ h = ground (arith, differ, h, get-put d other id e)

-- A request that changes in one of these ways is not away.
change-away :
    (d : Dict ControlRequestEvent) (id other : String) (e f : ControlRequestEvent)
    → get d other ≡ some e
    → (turned_away (some e) ≡ true → turned_away (some f) ≡ true)
    → turned_away (get d id) ≡ true
    → turned_away (get (put d other f) id) ≡ true
change-away d id other e f got keeps h = elim (Bool-cases (other == id)) [
  | inl one ↦
      let same_id : other ≡ id = ground (arith, one, eq_iff other id) in
      let found : get d id ≡ some e = subst (λ i. get d i ≡ some e) same_id got in
      ground (arith, one, keeps (ground (arith, h, found)), get-put d other id f)
  | inr two ↦ put-away d id other f two h
]

-- An event of another status than rejected and closed is not away.
waits_not_away :
    (e : ControlRequestEvent) (status : Status)
    → e.status ≡ status
    → is_away status ≡ false
    → turned_away (some e) ≡ false
waits_not_away e status is h = elim (Option-cases e.approved_at) [
  | inl none_at ↦ ground (arith, none_at, is, h)
  | inr (t, at) ↦ ground (arith, at)
]

pending_not_away :
    (e : ControlRequestEvent) → is_pending e.status ≡ true → turned_away (some e) ≡ false
pending_not_away e h = waits_not_away e e.status refl (ground (arith, h))

quick_not_away : (e : ControlRequestEvent) → is_quick e.status ≡ true → turned_away (some e) ≡ false
quick_not_away e h = waits_not_away e e.status refl (ground (arith, h))

live_not_away : (e : ControlRequestEvent) → is_live e.status ≡ true → turned_away (some e) ≡ false
live_not_away e h = waits_not_away e e.status refl (ground (arith, h))

closed-away :
    (now : ℕ) (reason : String) (e : ControlRequestEvent)
    → turned_away (some e) ≡ true
    → turned_away (some (closed_event now reason e)) ≡ true
closed-away now reason e h = elim (Option-cases e.approved_at) [
  | inl none_at ↦ ground (arith, none_at)
  | inr (t, at) ↦ ground (arith, h, at)
]

supersede-away :
    (d : Dict ControlRequestEvent) (now : ℕ) (id other : String)
    (found : Option ControlRequestEvent)
    → get d other ≡ found
    → turned_away (get d id) ≡ true
    → turned_away (get (supersede_found d now other found) id) ≡ true
unfolding supersede_found
supersede-away d now id other none got h = h
supersede-away d now id other (some e) got h = elim (Bool-cases (is_live e.status)) [
  | inl live ↦ rw live (
      change-away d id other e (superseded_event now e) got
        (λ away. absurd (ground (arith, away, live_not_away e live))) h)
  | inr over ↦ rw over h
]

supersede_key-away :
    (d : Dict ControlRequestEvent) (now : ℕ) (id : String) (found : Option ControlRequestAggregate)
    → turned_away (get d id) ≡ true
    → turned_away (get (supersede d now found) id) ≡ true
unfolding supersede
supersede_key-away d now id none h = h
supersede_key-away d now id (some a) h = elim (Bool-cases (a.active_request_id == "")) [
  | inl nobody ↦ rw nobody h
  | inr there ↦ rw there (supersede-away d now id a.active_request_id _ refl h)
]

register_request-away :
    (s : Center) (now : ℕ) (target other ip : String) (port : ℕ) (geo token : String) (id : String)
    → (other == id) ≡ false
    → turned_away (get s.requests_by_id id) ≡ true
    → turned_away (get (register_request s now target other ip port geo token).requests_by_id id)
      ≡ true
unfolding register_request register_quick register_pending
register_request-away s now target other ip port geo token id differ h =
    let c = cleanup s now in
    let kept = cleanup-away s now id h in
    elim (Bool-cases (is_in (target, ip) c.blacklist_set)) [
      | inl black ↦ rw black (put-away c.requests_by_id id other _ differ kept)
      | inr open_to ↦ elim (Bool-cases (is_in (target, ip) c.whitelist_set)) [
        | inl white ↦ rw (open_to, white) (put-away c.requests_by_id id other _ differ kept)
        | inr neither ↦
            rw (open_to, neither)
              (put-away _ id other (new_event now target other ip port geo) differ (
                supersede_key-away c.requests_by_id now id (find c.requests_by_key (target, ip))
                  kept))
      ]
    ]

approve_found-away :
    (s : Center) (now : ℕ) (other id : String) (found : Option ControlRequestEvent)
    → get s.requests_by_id other ≡ found
    → turned_away (get s.requests_by_id id) ≡ true
    → turned_away (get (approve_found s now other found).0.requests_by_id id) ≡ true
unfolding approve_found
approve_found-away s now other id none got h = h
approve_found-away s now other id (some e) got h = elim (Bool-cases (is_pending e.status)) [
  | inl waits ↦ rw waits (
      change-away s.requests_by_id id other e (approved_event now e) got
        (λ away. absurd (ground (arith, away, pending_not_away e waits))) h)
  | inr over ↦ rw over h
]

approve_request-away :
    (s : Center) (now : ℕ) (other id : String)
    → turned_away (get s.requests_by_id id) ≡ true
    → turned_away (get (approve_request s now other).0.requests_by_id id) ≡ true
unfolding approve_request
approve_request-away s now other id h = elim (Bool-cases (other == "")) [
  | inl e ↦ rw e h
  | inr e ↦ rw e (approve_found-away (cleanup s now) now other id _ refl (cleanup-away s now id h))
]

close_found-away :
    (s : Center) (now : ℕ) (other reason id : String) (found : Option ControlRequestEvent)
    → get s.requests_by_id other ≡ found
    → turned_away (get s.requests_by_id id) ≡ true
    → turned_away (get (close_found s now other reason found).0.requests_by_id id) ≡ true
unfolding close_found
close_found-away s now other reason id none got h = h
close_found-away s now other reason id (some e) got h = elim (Bool-cases (is_over e.status)) [
  | inl over ↦ rw over h
  | inr lives ↦ rw lives (
      change-away s.requests_by_id id other e (closed_event now reason e) got
        (closed-away now reason e) h)
]

close_request-away :
    (s : Center) (now : ℕ) (other reason id : String)
    → turned_away (get s.requests_by_id id) ≡ true
    → turned_away (get (close_request s now other reason).0.requests_by_id id) ≡ true
unfolding close_request
close_request-away s now other reason id h = elim (Bool-cases (other == "")) [
  | inl e ↦ rw e h
  | inr e ↦
      rw e (close_found-away (cleanup s now) now other reason id _ refl (cleanup-away s now id h))
]

blacklist_targets-requests :
    (targets : List Pair) (s : Center)
    → (blacklist_targets s targets).requests_by_id ≡ s.requests_by_id
unfolding blacklist_targets
blacklist_targets-requests [] s = refl
blacklist_targets-requests ((target, ip) ∷ targets) s =
    elim (Bool-cases (target == "" || ip == "")) [
      | inl e ↦ rw (e, blacklist_targets) (blacklist_targets-requests targets s)
      | inr e ↦ rw (e, blacklist_targets) (blacklist_targets-requests targets _)
    ]
