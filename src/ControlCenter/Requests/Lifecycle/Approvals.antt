-- ===== src/ControlCenter/Requests/Lifecycle/Approvals.antt =====
-- rdp_proxy/control_center.py: an approval keeps the invariant of the requests.
use rdp_on_demand_proxy_serv.Base.{
  ℕ, ◌≡◌, refl, sym, ◌∙◌, ap, subst, String, Bool, true, false, ◌||◌, Option, none, some, List,
  if◌then◌else◌, ◌==◌, eq_iff, arith, inl, inr, Bool-cases, Option-cases,
}
use rdp_on_demand_proxy_serv.Base.Dict.{Dict, get, put, get-put, keys}
use rdp_on_demand_proxy_serv.Base.Count.{put-Every}
use rdp_on_demand_proxy_serv.Base.Pairs.{
  Pair, same, same_refl, same_eq, add, find, is_in-add, find-set,
}
use rdp_on_demand_proxy_serv.ControlCenter.{
  Status, idle, pending, approved, closed, superseded, rejected, pending_quick_approval,
  ControlRequestEvent, ControlRequestAggregate, Center, cleanup, is_over,
}
use rdp_on_demand_proxy_serv.ControlCenter.Requests.{key_of}
use rdp_on_demand_proxy_serv.ControlCenter.Requests.Answers.{
  approve_request, approve_found, approve_by_quick_token, search_quick, quick_at, approved_event,
  search_quick-waits,
}
use rdp_on_demand_proxy_serv.ControlCenter.Requests.Lifecycle.{
  there, fits, known, Good, held_by, Inv, cleanup-Inv,
}
use rdp_on_demand_proxy_serv.ControlCenter.Requests.Answers.{
  approve, approved_aggregate, on_key, is_pending,
}
use rdp_on_demand_proxy_serv.ControlCenter.{is_quick}

-- Each of two sets only grows, up to what the other takes over.
known-add :
    (white black : List Pair) (k : Pair) (e : ControlRequestEvent)
    → known white black e ≡ true
    → known (add k white) black e ≡ true
known-add white black k e h = ground (arith, h, is_in-add white k (key_of e))

-- The new event of an id whose event was found; it has the same key.
changed-held :
    (d : Dict ControlRequestEvent) (id : String) (e f : ControlRequestEvent) (k : Pair)
    (other : String)
    → get d id ≡ some e
    → key_of f ≡ key_of e
    → is_over f.status ≡ false
    → held_by k (get d other) ≡ true
    → held_by k (get (put d id f) other) ≡ true
changed-held d id e f k other got mine lives h = elim (Bool-cases (id == other)) [
  | inl one ↦
      let id_is : id ≡ other = ground (arith, one, eq_iff id other) in
      let found : get d other ≡ some e = subst (λ i. get d i ≡ some e) id_is got in
      let yours : same (key_of e) k ≡ true = ground (arith, h, found) in
      let ours : same (key_of f) k ≡ true = subst (λ i. same i k ≡ true) (sym mine) yours in
      ground (arith, one, ours, lives, get-put d id other f)
  | inr two ↦ ground (arith, two, h, get-put d id other f)
]

-- What `f` leaves of the active id of an aggregate.
pub find-on_key :
    (s : Center) (k j : Pair) (f : ControlRequestAggregate → ControlRequestAggregate)
    (found : Option ControlRequestAggregate) (a : ControlRequestAggregate)
    → find s.requests_by_key k ≡ found
    → find (on_key s k found f) j ≡ some a
    → (b : ControlRequestAggregate) × (find s.requests_by_key j ≡ some b)
      × (a ≡ (if same k j then f b else b))
find-on_key s k j f none a e h = elim (Bool-cases (same k j)) [
  | inl mine ↦
      let key : k ≡ j = same_eq k j mine in
      let nothing : find s.requests_by_key j ≡ none =
        subst (λ i. find s.requests_by_key i ≡ none) key e in
      absurd (ground (arith, nothing, h))
  | inr other ↦ (a, h, ground (arith, other))
]
find-on_key s k j f (some b) a e h = elim (Bool-cases (same k j)) [
  | inl mine ↦
      let key : k ≡ j = same_eq k j mine in
      (
        b,
        subst (λ i. find s.requests_by_key i ≡ some b) key e,
        ground (arith, mine, h, find-set s.requests_by_key k j (f b)),
      )
  | inr other ↦
      (a, ground (arith, other, h, find-set s.requests_by_key k j (f b)), ground (arith, other))
]

kept_id :
    (f : ControlRequestAggregate → ControlRequestAggregate) (a b : ControlRequestAggregate)
    (c : Bool)
    → a ≡ (if c then f b else b)
    → ((x : ControlRequestAggregate) → (f x).active_request_id ≡ x.active_request_id)
    → a.active_request_id ≡ b.active_request_id
kept_id f a b true e keeps = ap (λ (x : ControlRequestAggregate). x.active_request_id) e ∙ keeps b
kept_id f a b false e keeps = ap (λ (x : ControlRequestAggregate). x.active_request_id) e

module _ (s : Center) (inv : Inv s) where
  approve-Inv :
      (now : ℕ) (id : String) (e : ControlRequestEvent)
      (f : ControlRequestAggregate → ControlRequestAggregate)
      → get s.requests_by_id id ≡ some e
      → there e.closed_at ≡ false
      → ((a : ControlRequestAggregate) → (f a).active_request_id ≡ a.active_request_id)
      → Inv (approve s now id e f)
  approve-Inv now id e f got unclosed keeps = record {
    good =
        put-Every (Good (approve s now id e f)) s.requests_by_id id (approved_event now e)
          (λ i g h. (
            (inv.good i g h).0,
            known-add s.whitelist_set s.blacklist_set (key_of e) g (inv.good i g h).1,
          ))
          (
            ground (arith, unclosed),
            ground (arith, is_in-add s.whitelist_set (key_of e) (key_of e), same_refl (key_of e)),
          );
    active = λ k a h there.
        let r = find-on_key s (key_of e) k f (find s.requests_by_key (key_of e)) a refl h in
        let id_same : a.active_request_id ≡ r.0.active_request_id =
          kept_id f a r.0 (same (key_of e) k) r.2 keeps in
        simp id_same (
          changed-held s.requests_by_id id e (approved_event now e) k r.0.active_request_id got refl
            refl (inv.active k r.0 r.1 (simp (sym id_same) there)));
  }

unclosed :
    (e : ControlRequestEvent) (status : Status)
    → e.status ≡ status
    → fits e ≡ true
    → (is_pending status || is_quick status) ≡ true
    → there e.closed_at ≡ false
unclosed e idle is h waits = ground (arith, waits)
unclosed e pending is h waits = ground (arith, is, h)
unclosed e approved is h waits = ground (arith, waits)
unclosed e closed is h waits = ground (arith, waits)
unclosed e superseded is h waits = ground (arith, waits)
unclosed e rejected is h waits = ground (arith, waits)
unclosed e pending_quick_approval is h waits = ground (arith, is, h)

approve_found-Inv :
    (s : Center) (now : ℕ) (id : String) (found : Option ControlRequestEvent)
    → Inv s
    → get s.requests_by_id id ≡ found
    → Inv (approve_found s now id found).0
unfolding approve_found
approve_found-Inv s now id none inv got = inv
approve_found-Inv s now id (some e) inv got = elim (Bool-cases (is_pending e.status)) [
  | inl waits ↦ rw waits (
      approve-Inv s inv now id e (approved_aggregate now "") got
        (unclosed e e.status refl (inv.good id e got).0 (ground (arith, waits))) (λ a. refl))
  | inr other ↦ rw other inv
]

pub approve_request-Inv :
    (s : Center) (now : ℕ) (id : String) → Inv s → Inv (approve_request s now id).0
unfolding approve_request
approve_request-Inv s now id inv = elim (Bool-cases (id == "")) [
  | inl e ↦ rw e inv
  | inr e ↦ rw e (approve_found-Inv (cleanup s now) now id _ (cleanup-Inv s now inv) refl)
]

quick_at-Inv :
    (s : Center) (now : ℕ) (token : String) (found : Option String)
    → Inv s
    → search_quick s.requests_by_id (keys s.requests_by_id) token ≡ found
    → Inv (quick_at s now found).0
unfolding quick_at
quick_at-Inv s now token none inv h = inv
quick_at-Inv s now token (some id) inv h =
    let waits = search_quick-waits s.requests_by_id (keys s.requests_by_id) token id h in
    elim (Option-cases (get s.requests_by_id id)) [
      | inl gone ↦ rw (gone, quick_at) inv
      | inr (e, got) ↦
          rw (got, quick_at)
            (approve-Inv s inv now id e (λ a. approved_aggregate now a.last_close_reason a) got
              (unclosed e e.status refl (inv.good id e got).0 (ground (arith, waits, got)))
              (λ a. refl))
    ]

pub approve_by_quick_token-Inv :
    (s : Center) (now : ℕ) (token : String) → Inv s → Inv (approve_by_quick_token s now token).0
unfolding approve_by_quick_token
approve_by_quick_token-Inv s now token inv = elim (Bool-cases (token == "")) [
  | inl e ↦ rw e inv
  | inr e ↦ rw e (quick_at-Inv s now token _ inv refl)
]
