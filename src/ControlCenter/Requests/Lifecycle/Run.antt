-- ===== src/ControlCenter/Requests/Lifecycle/Run.antt =====
-- rdp_proxy/control_center.py: the answers to a request, and any sequence of calls.
use rdp_on_demand_proxy_serv.Base.{
  ℕ, ◌≡◌, refl, sym, ap, subst, String, Bool, true, false, ◌||◌, Option, none, some, List, [], ◌∷◌,
  if◌then◌else◌, ◌==◌, eq_iff, arith, inl, inr, Bool-cases,
}
use rdp_on_demand_proxy_serv.Base.Dict.{get, put, get-put}
use rdp_on_demand_proxy_serv.Base.Count.{put-Every}
use rdp_on_demand_proxy_serv.Base.Pairs.{
  Pair, same, is_in, add, discard, find, is_in-add, is_in-discard,
}
use rdp_on_demand_proxy_serv.ControlCenter.{
  ControlRequestEvent, ControlRequestAggregate, Center, cleanup, is_over, blacklist_targets,
  create_action_links, new_center,
}
use rdp_on_demand_proxy_serv.ControlCenter.Requests.{register_request, key_of}
use rdp_on_demand_proxy_serv.ControlCenter.Requests.Answers.{
  close_request, close_found, closed_event,
}
use rdp_on_demand_proxy_serv.ControlCenter.Requests.Steps.{
  Op, registers, approves, approves_quick, closes, blacklists, links, shows, step, run, IsNew,
  AreNew,
}
use rdp_on_demand_proxy_serv.ControlCenter.Requests.Lifecycle.{
  there, fits, Good, held_by, Inv, cleanup-Inv, absent-cleanup,
}
use rdp_on_demand_proxy_serv.ControlCenter.Requests.Lifecycle.Registering.{
  rejected-Inv, quick-Inv, pending-Inv,
}
use rdp_on_demand_proxy_serv.ControlCenter.Requests.Answers.{on_key, closed_aggregate}
use rdp_on_demand_proxy_serv.ControlCenter.Requests.Lifecycle.Approvals.{
  find-on_key, approve_request-Inv, approve_by_quick_token-Inv,
}

module _ (s : Center) (inv : Inv s) where
  close-active :
      (now : ℕ) (id reason : String) (e : ControlRequestEvent) (k : Pair)
      (a b : ControlRequestAggregate) (mine : Bool)
      → get s.requests_by_id id ≡ some e
      → same (key_of e) k ≡ mine
      → find s.requests_by_key k ≡ some b
      → a ≡ (if mine then closed_aggregate now reason id b else b)
      → (a.active_request_id == "") ≡ false
      → held_by k (get (put s.requests_by_id id (closed_event now reason e)) a.active_request_id)
        ≡ true
  close-active now id reason e k a b true got mine f is there =
      elim (Bool-cases (b.active_request_id == id)) [
        | inl this ↦ absurd (
            let empty : ◌≡◌ {A = String} a.active_request_id "" = ground (arith, is, this) in
            ground (arith, there, empty, eq_iff a.active_request_id ""))
        | inr other ↦
            let same_id : a.active_request_id ≡ b.active_request_id = ground (arith, is, other) in
            simp same_id (
              ground (
                arith,
                other,
                eq_iff id b.active_request_id,
                eq_iff b.active_request_id id,
                get-put s.requests_by_id id b.active_request_id (closed_event now reason e),
                inv.active k b f (simp (sym same_id) there),
              ))
      ]
  close-active now id reason e k a b false got mine f is there =
      let same_id : a.active_request_id ≡ b.active_request_id =
        ap (λ (x : ControlRequestAggregate). x.active_request_id) is in
      let held : held_by k (get s.requests_by_id b.active_request_id) ≡ true =
        inv.active k b f (simp (sym same_id) there) in
      simp same_id (elim (Bool-cases (id == b.active_request_id)) [
        | inl one ↦ absurd (
            let id_is : id ≡ b.active_request_id =
              ground (arith, one, eq_iff id b.active_request_id) in
            let found : get s.requests_by_id b.active_request_id ≡ some e =
              subst (λ i. get s.requests_by_id i ≡ some e) id_is got in
            ground (arith, held, found, mine))
        | inr two ↦ ground (
          arith,
          two,
          held,
          get-put s.requests_by_id id b.active_request_id (closed_event now reason e),
        )
      ])

  close-Inv :
      (now : ℕ) (id reason : String) (e : ControlRequestEvent)
      → get s.requests_by_id id ≡ some e
      → Inv (record s {
        requests_by_id = put s.requests_by_id id (closed_event now reason e);
        requests_by_key =
            on_key s
              (key_of e)
              (find s.requests_by_key (key_of e))
              (closed_aggregate now reason id);
      })
  close-Inv now id reason e got = record {
    good =
        put-Every (Good s) s.requests_by_id id (closed_event now reason e) inv.good
          (refl, (inv.good id e got).1);
    active = λ k a h there.
        let r =
          find-on_key s (key_of e) k (closed_aggregate now reason id)
            (find s.requests_by_key (key_of e)) a refl h in
        close-active now id reason e k a r.0 (same (key_of e) k) got refl r.1 r.2 there;
  }

close_found-Inv :
    (s : Center) (now : ℕ) (id reason : String) (found : Option ControlRequestEvent)
    → Inv s
    → get s.requests_by_id id ≡ found
    → Inv (close_found s now id reason found).0
unfolding close_found
close_found-Inv s now id reason none inv got = inv
close_found-Inv s now id reason (some e) inv got = elim (Bool-cases (is_over e.status)) [
  | inl over ↦ rw over inv
  | inr lives ↦ rw lives (close-Inv s inv now id reason e got)
]

close_request-Inv :
    (s : Center) (now : ℕ) (id reason : String) → Inv s → Inv (close_request s now id reason).0
unfolding close_request
close_request-Inv s now id reason inv = elim (Bool-cases (id == "")) [
  | inl e ↦ rw e inv
  | inr e ↦ rw e (close_found-Inv (cleanup s now) now id reason _ (cleanup-Inv s now inv) refl)
]

-- A target that is blacklisted leaves the one set for the other.
blacklisted-Inv :
    (s : Center) (target ip : String)
    → Inv s
    → Inv (record s {
      blacklist_set = add (target, ip) s.blacklist_set;
      whitelist_set = discard (target, ip) s.whitelist_set;
    })
blacklisted-Inv s target ip inv = record {
  good = λ id e h. (
    (inv.good id e h).0,
    ground (
      arith,
      (inv.good id e h).1,
      is_in-add s.blacklist_set (target, ip) (key_of e),
      is_in-discard s.whitelist_set (target, ip) (key_of e),
    ),
  );
  active = inv.active;
}

blacklist_targets-Inv :
    (targets : List Pair) (s : Center) → Inv s → Inv (blacklist_targets s targets)
unfolding blacklist_targets
blacklist_targets-Inv [] s inv = inv
blacklist_targets-Inv ((target, ip) ∷ targets) s inv =
    elim (Bool-cases (target == "" || ip == "")) [
      | inl e ↦ rw e (blacklist_targets-Inv targets s inv)
      | inr e ↦ rw e (blacklist_targets-Inv targets _ (blacklisted-Inv s target ip inv))
    ]

create_action_links-Inv :
    (s : Center) (now : ℕ) (keep shutdown target : String)
    → Inv s
    → Inv (create_action_links s now keep shutdown target).0
unfolding create_action_links
create_action_links-Inv s now keep shutdown target inv =
    let c = cleanup-Inv s now inv in record { good = c.good; active = c.active }

register_request-Inv :
    (s : Center) (now : ℕ) (target id ip : String) (port : ℕ) (geo token : String)
    → Inv s
    → IsNew s (registers now target id ip port geo token)
    → Inv (register_request s now target id ip port geo token)
unfolding register_request
register_request-Inv s now target id ip port geo token inv new =
    let c = cleanup s now in
    let kept = cleanup-Inv s now inv in
    let fresh = absent-cleanup s now id new.0 in
    elim (Bool-cases (is_in (target, ip) c.blacklist_set)) [
      | inl black ↦ rw black (rejected-Inv c kept now target id ip port geo fresh)
      | inr open_to ↦ elim (Bool-cases (is_in (target, ip) c.whitelist_set)) [
        | inl white ↦
            rw (open_to, white) (quick-Inv c kept now target id ip port geo token fresh new.2)
        | inr other ↦
            rw (open_to, other) (pending-Inv c kept now target id ip port geo fresh open_to other)
      ]
    ]

step-Inv : (s : Center) (op : Op) → Inv s → IsNew s op → Inv (step s op)
unfolding step
step-Inv s (registers now target id ip port geo token) inv new =
    register_request-Inv s now target id ip port geo token inv new
step-Inv s (approves now id) inv new = approve_request-Inv s now id inv
step-Inv s (approves_quick now token) inv new = approve_by_quick_token-Inv s now token inv
step-Inv s (closes now id reason) inv new = close_request-Inv s now id reason inv
step-Inv s (blacklists targets) inv new = blacklist_targets-Inv targets s inv
step-Inv s (links now keep shutdown target) inv new =
    create_action_links-Inv s now keep shutdown target inv
step-Inv s (shows now) inv new = cleanup-Inv s now inv

run-Inv : (s : Center) (ops : List Op) → Inv s → AreNew s ops → Inv (run s ops)
unfolding run
run-Inv s [] inv new = inv
run-Inv s (op ∷ ops) inv new = run-Inv (step s op) ops (step-Inv s op inv new.0) new.1

new_center-Inv :
    (url : String) (ttl retention : ℕ) (token : String) → Inv (new_center url ttl retention token)
unfolding new_center get find
new_center-Inv url ttl retention token = record {
  good = λ id e h. absurd (cc);
  active = λ k a h there. absurd (cc);
}

-- At any time, after any calls with new ids, the fields of every request agree with its status: a waiting one
-- is not approved, closed or awake; an approved one is awake and not closed; one that waits
-- for a quick approval has a name for it; one that was turned away is closed and awake but never approved; and
-- one that was superseded was never approved, although the code supersedes approved ones too.
pub every_request_fits :
    (url : String) (ttl retention : ℕ) (control_token : String) (ops : List Op) (id : String)
    (e : ControlRequestEvent)
    → AreNew (new_center url ttl retention control_token) ops
    → get (run (new_center url ttl retention control_token) ops).requests_by_id id ≡ some e
    → fits e ≡ true
every_request_fits url ttl retention control_token ops id e new got =
    let start = new_center url ttl retention control_token in
    ((run-Inv start ops (new_center-Inv url ttl retention control_token) new).good id e got).0

-- At any time, after any calls with new ids, the active request of a target and an address, if there is one,
-- is a request of that target and address that is in the table and is not closed or superseded.
pub active_request_lem :
    (url : String) (ttl retention : ℕ) (control_token : String) (ops : List Op) (k : Pair)
    (a : ControlRequestAggregate)
    → AreNew (new_center url ttl retention control_token) ops
    → find (run (new_center url ttl retention control_token) ops).requests_by_key k ≡ some a
    → (a.active_request_id == "") ≡ false
    → let s = run (new_center url ttl retention control_token) ops in
      held_by k (get s.requests_by_id a.active_request_id) ≡ true
active_request_lem url ttl retention control_token ops k a new found there =
    let start = new_center url ttl retention control_token in
    (run-Inv start ops (new_center-Inv url ttl retention control_token) new).active k a found there
