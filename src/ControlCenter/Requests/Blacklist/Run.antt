-- ===== src/ControlCenter/Requests/Blacklist/Run.antt =====
-- rdp_proxy/control_center.py: requests of a blacklisted target and address, over any calls.
use rdp_on_demand_proxy_serv.Base.{
  ℕ, ◌≡◌, refl, sym, subst, String, true, false, ◌||◌, Option, none, some, List, [], ◌∷◌, ◌==◌,
  eq_refl, arith, inl, inr, Bool-cases, Option-cases,
}
use rdp_on_demand_proxy_serv.Base.Dict.{get, get-put, keys}
use rdp_on_demand_proxy_serv.Base.Pairs.{Pair, same_refl, is_in, is_in-add}
use rdp_on_demand_proxy_serv.ControlCenter.{Center, cleanup, blacklist_targets, create_action_links}
use rdp_on_demand_proxy_serv.ControlCenter.Requests.{
  register_request, register_quick, register_pending, new_event, rejected_event,
}
use rdp_on_demand_proxy_serv.ControlCenter.Requests.Answers.{
  approve_request, approve_found, approve_by_quick_token, search_quick, quick_at, close_request,
  close_found, approved_event, search_quick-waits,
}
use rdp_on_demand_proxy_serv.ControlCenter.Requests.Steps.{
  Op, registers, approves, approves_quick, closes, blacklists, links, shows, step, run,
}
use rdp_on_demand_proxy_serv.ControlCenter.Requests.Blacklist.{
  turned_away, leaves_id, cleanup-away, change-away, quick_not_away, register_request-away,
  approve_request-away, close_request-away, blacklist_targets-requests,
}

quick_at-away :
    (s : Center) (now : ℕ) (token id : String) (found : Option String)
    → search_quick s.requests_by_id (keys s.requests_by_id) token ≡ found
    → turned_away (get s.requests_by_id id) ≡ true
    → turned_away (get (quick_at s now found).0.requests_by_id id) ≡ true
unfolding quick_at
quick_at-away s now token id none q h = h
quick_at-away s now token id (some other) q h =
    let waits = search_quick-waits s.requests_by_id (keys s.requests_by_id) token other q in
    elim (Option-cases (get s.requests_by_id other)) [
      | inl gone ↦ rw (gone, quick_at) h
      | inr (e, got) ↦
          rw (got, quick_at)
            (change-away s.requests_by_id id other e (approved_event now e) got
              (λ away. absurd (ground (arith, away, got, waits, quick_not_away e))) h)
    ]

approve_by_quick_token-away :
    (s : Center) (now : ℕ) (token id : String)
    → turned_away (get s.requests_by_id id) ≡ true
    → turned_away (get (approve_by_quick_token s now token).0.requests_by_id id) ≡ true
unfolding approve_by_quick_token
approve_by_quick_token-away s now token id h = elim (Bool-cases (token == "")) [
  | inl e ↦ rw e h
  | inr e ↦ rw e (quick_at-away s now token id _ refl h)
]

create_action_links-away :
    (s : Center) (now : ℕ) (keep shutdown target id : String)
    → turned_away (get s.requests_by_id id) ≡ true
    → turned_away (get (create_action_links s now keep shutdown target).0.requests_by_id id) ≡ true
unfolding create_action_links
create_action_links-away s now keep shutdown target id h = cleanup-away s now id h

run-away :
    (ops : List Op) (s : Center) (id : String)
    → leaves_id id ops ≡ true
    → turned_away (get s.requests_by_id id) ≡ true
    → turned_away (get (run s ops).requests_by_id id) ≡ true
unfolding run step
run-away [] s id new h = h
run-away (registers now target other ip port geo token ∷ ops) s id new h =
    run-away ops _ id (ground (arith, new))
      (register_request-away s now target other ip port geo token id (ground (arith, new)) h)
run-away (approves now other ∷ ops) s id new h =
    run-away ops _ id new (approve_request-away s now other id h)
run-away (approves_quick now token ∷ ops) s id new h =
    run-away ops _ id new (approve_by_quick_token-away s now token id h)
run-away (closes now other reason ∷ ops) s id new h =
    run-away ops _ id new (close_request-away s now other reason id h)
run-away (blacklists targets ∷ ops) s id new h =
    run-away ops _ id new
      (subst (λ d. turned_away (get d id) ≡ true) (sym (blacklist_targets-requests targets s)) h)
run-away (links now keep shutdown target ∷ ops) s id new h =
    run-away ops _ id new (create_action_links-away s now keep shutdown target id h)
run-away (shows now ∷ ops) s id new h = run-away ops _ id new (cleanup-away s now id h)

register_request-rejects :
    (s : Center) (now : ℕ) (target id ip : String) (port : ℕ) (geo token : String)
    → is_in (target, ip) s.blacklist_set ≡ true
    → get (register_request s now target id ip port geo token).requests_by_id id
      ≡ some (rejected_event (new_event now target id ip port geo))
unfolding register_request cleanup
register_request-rejects s now target id ip port geo token black = rw black (
    ground (
      arith,
      get-put (cleanup s now).requests_by_id id id
          (rejected_event (new_event now target id ip port geo)),
      eq_refl id,
    ))

blacklist_targets-grows :
    (targets : List Pair) (s : Center) (k : Pair)
    → is_in k s.blacklist_set ≡ true
    → is_in k (blacklist_targets s targets).blacklist_set ≡ true
unfolding blacklist_targets
blacklist_targets-grows [] s k h = h
blacklist_targets-grows ((target, ip) ∷ targets) s k h =
    elim (Bool-cases (target == "" || ip == "")) [
      | inl e ↦ rw (e, blacklist_targets) (blacklist_targets-grows targets s k h)
      | inr e ↦
          rw (e, blacklist_targets)
            (blacklist_targets-grows targets _ k
              (ground (arith, h, is_in-add s.blacklist_set (target, ip) k)))
    ]

step-blacklist :
    (op : Op) (s : Center) (k : Pair)
    → is_in k s.blacklist_set ≡ true
    → is_in k (step s op).blacklist_set ≡ true
unfolding step register_request register_quick register_pending approve_request approve_found
    approve_by_quick_token quick_at close_request close_found create_action_links cleanup
step-blacklist (registers now target other ip port geo token) s k h = ground (arith, h)
step-blacklist (approves now other) s k h = ground (arith, h)
step-blacklist (approves_quick now token) s k h = ground (arith, h)
step-blacklist (closes now other reason) s k h = ground (arith, h)
step-blacklist (blacklists targets) s k h = blacklist_targets-grows targets s k h
step-blacklist (links now keep shutdown target) s k h = h
step-blacklist (shows now) s k h = h

run-blacklist :
    (ops : List Op) (s : Center) (k : Pair)
    → is_in k s.blacklist_set ≡ true
    → is_in k (run s ops).blacklist_set ≡ true
unfolding run
run-blacklist [] s k h = h
run-blacklist (op ∷ ops) s k h = run-blacklist ops (step s op) k (step-blacklist op s k h)

blacklists_one :
    (s : Center) (target ip : String)
    → (target == "") ≡ false
    → (ip == "") ≡ false
    → is_in (target, ip) (blacklist_targets s ((target, ip) ∷ [])).blacklist_set ≡ true
unfolding blacklist_targets
blacklists_one s target ip named addressed = ground (
  arith,
  named,
  addressed,
  is_in-add s.blacklist_set (target, ip) (target, ip),
  same_refl (target, ip),
)

-- Once a target and an address, neither empty, have been put on the blacklist, a request of theirs that
-- is registered at any later time is rejected at once, and whatever calls follow, as long as none
-- registers another request with its id, it is never approved: it stays rejected, or is closed without
-- an approval, or is gone from the table.
pub blacklisted_never_approved :
    (s : Center) (target ip : String) (before : List Op) (now : ℕ) (id : String) (port : ℕ)
    (geo token : String) (after : List Op)
    → (target == "") ≡ false
    → (ip == "") ≡ false
    → leaves_id id after ≡ true
    → let t = run (blacklist_targets s ((target, ip) ∷ [])) before in
      let u = register_request t now target id ip port geo token in
      (get u.requests_by_id id ≡ some (rejected_event (new_event now target id ip port geo)))
      × (turned_away (get (run u after).requests_by_id id) ≡ true)
blacklisted_never_approved s target ip before now id port geo token after named addressed own =
    let t = run (blacklist_targets s ((target, ip) ∷ [])) before in
    let black : is_in (target, ip) t.blacklist_set ≡ true =
      run-blacklist before (blacklist_targets s ((target, ip) ∷ [])) (target, ip)
        (blacklists_one s target ip named addressed) in
    let at_once = register_request-rejects t now target id ip port geo token black in
    (
      at_once,
      run-away after (register_request t now target id ip port geo token) id own
          (ground (arith, at_once)),
    )
