-- ===== src/ControlCenter/Requests/Lifecycle.antt =====
-- rdp_proxy/control_center.py: what holds of every request at any time.
pub mod Registering
pub mod Run
pub mod Approvals
use rdp_on_demand_proxy_serv.Base.{
  ℕ, ◌+◌, ◌≡◌, refl, sym, ◌∙◌, ap, subst, String, Bool, true, false, ◌&&◌, ◌||◌, not, Option, none,
  some, List, [], ◌∷◌, if◌then◌else◌, ◌==◌, eq_iff, eq_refl, arith, inl, inr, Bool-cases,
  Option-cases,
}
use rdp_on_demand_proxy_serv.Base.Dict.{Dict, get, put, prune, get-put, get-prune, unless, keys}
use rdp_on_demand_proxy_serv.Base.Count.{Every, put-Every}
use rdp_on_demand_proxy_serv.Base.Pairs.{
  Pair, same, same_refl, same_eq, is_in, add, discard, find, set, is_in-add, is_in-discard,
  find-set, find-drop_where,
}
use rdp_on_demand_proxy_serv.ControlCenter.{
  Status, idle, pending, approved, closed, superseded, rejected, pending_quick_approval,
  ControlRequestEvent, ControlRequestAggregate, Center, cleanup, is_over, is_old, is_stale_key,
  blacklist_targets, create_action_links, new_center,
}
use rdp_on_demand_proxy_serv.ControlCenter.Requests.{
  is_live, register_request, register_quick, register_pending, supersede, supersede_found,
  new_event, rejected_event, quick_event, superseded_event, key_of, with_event,
}
use rdp_on_demand_proxy_serv.ControlCenter.Requests.Answers.{
  approve_request, approve_found, approve_by_quick_token, search_quick, quick_at, close_request,
  close_found, approved_event, closed_event, has_quick_token,
}
use rdp_on_demand_proxy_serv.ControlCenter.Requests.Steps.{
  Op, registers, approves, approves_quick, closes, blacklists, links, shows, step, run, IsNew,
  AreNew,
}

abbrev pub there {ℓ} : {A : Type ℓ} → Option A → Bool
there none = false
there (some a) = true

-- What the fields of a request are in each status.
abbrev pub fits : ControlRequestEvent → Bool
fits e = elim e.status [
  | idle ↦ false
  | pending ↦ not (there e.approved_at) && not (there e.closed_at) && not e.awake
  | pending_quick_approval ↦
      not (there e.approved_at)
      && not (there e.closed_at)
      && not e.awake
      && not (e.quick_approval_token == "")
  | approved ↦ there e.approved_at && not (there e.closed_at) && e.awake
  | superseded ↦ not (there e.approved_at) && there e.closed_at && not e.awake
  | rejected ↦ not (there e.approved_at) && there e.closed_at && e.awake
  | closed ↦ there e.closed_at
]

-- An approved request's target and address are in one of the two sets.
abbrev known : List Pair → List Pair → ControlRequestEvent → Bool
known white black e =
    not (there e.approved_at) || (is_in (key_of e) white || is_in (key_of e) black)

abbrev pub Good : Center → String → ControlRequestEvent → Type 0
Good s id e = (fits e ≡ true) × (known s.whitelist_set s.blacklist_set e ≡ true)

abbrev pub held_by : Pair → Option ControlRequestEvent → Bool
held_by k none = false
held_by k (some e) = same (key_of e) k && not (is_over e.status)

-- The active request of a key is a request of that key that is not over.
pub record Inv (s : Center) : Type 0 where
  pub good : Every (Good s) s.requests_by_id
  pub active :
      (k : Pair) (a : ControlRequestAggregate)
      → find s.requests_by_key k ≡ some a
      → (a.active_request_id == "") ≡ false
      → held_by k (get s.requests_by_id a.active_request_id) ≡ true

get-cleanup :
    (s : Center) (now : ℕ) (id : String)
    → get (cleanup s now).requests_by_id id
      ≡ unless (λ e. is_old s now e.requested_at && is_over e.status) (get s.requests_by_id id)
unfolding cleanup
get-cleanup s now id =
    get-prune (λ e. is_old s now e.requested_at && is_over e.status) s.requests_by_id id

kept_event :
    (s : Center) (now : ℕ) (id : String) (e : ControlRequestEvent)
    → get (cleanup s now).requests_by_id id ≡ some e
    → get s.requests_by_id id ≡ some e
kept_event s now id e h = elim (Option-cases (get s.requests_by_id id)) [
  | inl n ↦ ground (arith, h, n, get-cleanup s now id)
  | inr (f, n) ↦ ground (arith, h, n, get-cleanup s now id)
]

held-cleanup :
    (s : Center) (now : ℕ) (id : String) (k : Pair)
    → held_by k (get s.requests_by_id id) ≡ true
    → held_by k (get (cleanup s now).requests_by_id id) ≡ true
held-cleanup s now id k h = elim (Option-cases (get s.requests_by_id id)) [
  | inl n ↦ ground (arith, h, n, get-cleanup s now id)
  | inr (f, n) ↦ ground (arith, h, n, get-cleanup s now id)
]

cleanup-Inv : (s : Center) (now : ℕ) → Inv s → Inv (cleanup s now)
unfolding cleanup
cleanup-Inv s now inv = record {
  good = λ id e h. inv.good id e (kept_event s now id e h);
  active = λ k a h there.
      held-cleanup s now a.active_request_id k
        (inv.active k a (find-drop_where (is_stale_key s now) s.requests_by_key k a h) there);
}

absent-cleanup :
    (s : Center) (now : ℕ) (id : String)
    → get s.requests_by_id id ≡ none
    → get (cleanup s now).requests_by_id id ≡ none
absent-cleanup s now id h = ground (arith, h, get-cleanup s now id)

-- A new event does not change what the active ids stand for.
pub held-fresh :
    (d : Dict ControlRequestEvent) (id : String) (other : String) (e : ControlRequestEvent)
    (k : Pair)
    → get d id ≡ none
    → held_by k (get d other) ≡ true
    → held_by k (get (put d id e) other) ≡ true
held-fresh d id other e k fresh h = ground (arith, fresh, h, get-put d id other e, eq_iff id other)

pub superseded_fits :
    (e : ControlRequestEvent) (status : Status)
    → e.status ≡ status
    → fits e ≡ true
    → is_live status ≡ true
    → there e.approved_at ≡ false
    → e.awake ≡ false
superseded_fits e idle is h live never = ground (arith, is, h, live)
superseded_fits e pending is h live never = ground (arith, is, h, live)
superseded_fits e approved is h live never = ground (arith, is, h, live, never)
superseded_fits e closed is h live never = ground (arith, live)
superseded_fits e superseded is h live never = ground (arith, live)
superseded_fits e rejected is h live never = ground (arith, live)
superseded_fits e pending_quick_approval is h live never = ground (arith, live)

-- A key's new active request, where the others are held already.
pub active-set :
    (d : Dict ControlRequestEvent) (keyed : List (Pair × ControlRequestAggregate)) (id : String)
    (e : ControlRequestEvent) (b : ControlRequestAggregate)
    → get d id ≡ none
    → is_over e.status ≡ false
    → b.active_request_id ≡ id
    → ((k : Pair) (a : ControlRequestAggregate)
        → find keyed k ≡ some a
        → same (key_of e) k ≡ false
        → (a.active_request_id == "") ≡ false
        → held_by k (get d a.active_request_id) ≡ true)
    → (k : Pair) (a : ControlRequestAggregate) → find (set keyed (key_of e) b) k ≡ some a
    → (a.active_request_id == "") ≡ false
    → held_by k (get (put d id e) a.active_request_id) ≡ true
active-set d keyed id e b fresh lives names others k a h there =
    elim (Bool-cases (same (key_of e) k)) [
      | inl mine ↦
          let found : b ≡ a = ground (arith, h, mine, find-set keyed (key_of e) k b) in
          let own : a.active_request_id ≡ id = ground (arith, found, names) in
          simp own (ground (arith, lives, mine, get-put d id id e, eq_refl id))
      | inr other ↦
          held-fresh d id a.active_request_id e k fresh
            (others k a (ground (arith, h, other, find-set keyed (key_of e) k b)) other there)
    ]
