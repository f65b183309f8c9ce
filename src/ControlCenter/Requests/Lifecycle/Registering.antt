-- ===== src/ControlCenter/Requests/Lifecycle/Registering.antt =====
-- rdp_proxy/control_center.py: a new request keeps the invariant of the requests.
use rdp_on_demand_proxy_serv.Base.{
  ℕ, ◌≡◌, refl, sym, subst, String, true, false, Option, none, some, ◌==◌, eq_iff, arith, inl, inr,
  Bool-cases, Option-cases,
}
use rdp_on_demand_proxy_serv.Base.Dict.{get, get-put}
use rdp_on_demand_proxy_serv.Base.Count.{Every, put-Every}
use rdp_on_demand_proxy_serv.Base.Pairs.{Pair, same, same_refl, same_eq, is_in, find}
use rdp_on_demand_proxy_serv.ControlCenter.{ControlRequestEvent, ControlRequestAggregate, Center}
use rdp_on_demand_proxy_serv.ControlCenter.Requests.{
  is_live, register_quick, register_pending, supersede, supersede_found, new_event, rejected_event,
  quick_event, superseded_event, key_of, with_event,
}
use rdp_on_demand_proxy_serv.ControlCenter.Requests.Lifecycle.{
  there, Good, held_by, Inv, held-fresh, superseded_fits, active-set,
}

module _ (s : Center) (inv : Inv s) where
  pub rejected-Inv :
      (now : ℕ) (target id ip : String) (port : ℕ) (geo : String)
      → get s.requests_by_id id ≡ none
      → Inv (with_event s (rejected_event (new_event now target id ip port geo)))
  rejected-Inv now target id ip port geo fresh =
      let e = rejected_event (new_event now target id ip port geo) in
      record {
        good = put-Every (Good s) s.requests_by_id id e inv.good (refl, refl);
        active = λ k a h there.
            held-fresh s.requests_by_id id a.active_request_id e k fresh (inv.active k a h there);
      }

  pub quick-Inv :
      (now : ℕ) (target id ip : String) (port : ℕ) (geo : String) (token : String)
      → get s.requests_by_id id ≡ none
      → (token == "") ≡ false
      → Inv (register_quick s token (new_event now target id ip port geo))
  unfolding register_quick
  quick-Inv now target id ip port geo token fresh named =
      let e = quick_event token (new_event now target id ip port geo) in
      record {
        good = put-Every (Good s) s.requests_by_id id e inv.good (ground (arith, named), refl);
        active =
            active-set s.requests_by_id s.requests_by_key id e _ fresh refl refl
              (λ k a h other there. inv.active k a h there);
      }

  -- Only a pending request is superseded: an approved one of the key would put the key in a set.
  superseded-Good :
      (now : ℕ) (id : String) (e : ControlRequestEvent) (k : Pair)
      → Good s id e
      → held_by k (some e) ≡ true
      → is_live e.status ≡ true
      → is_in k s.blacklist_set ≡ false
      → is_in k s.whitelist_set ≡ false
      → Good s id (superseded_event now e)
  superseded-Good now id e k good held live black white =
      let mine : key_of e ≡ k = same_eq (key_of e) k (ground (arith, held)) in
      let white_too : is_in (key_of e) s.whitelist_set ≡ false = simp mine white in
      let black_too : is_in (key_of e) s.blacklist_set ≡ false = simp mine black in
      let never : there e.approved_at ≡ false = ground (arith, good.1, white_too, black_too) in
      let asleep : e.awake ≡ false = superseded_fits e e.status refl good.0 live never in
      (simp (never, asleep) refl, simp never refl)

  -- The requests after the active one of a key, if it was live, has been superseded.
  supersede-Good :
      (now : ℕ) (k : Pair) (found : Option ControlRequestAggregate)
      → find s.requests_by_key k ≡ found
      → is_in k s.blacklist_set ≡ false
      → is_in k s.whitelist_set ≡ false
      → Every (Good s) (supersede s.requests_by_id now found)
  unfolding supersede
  supersede-Good now k none f black white = inv.good
  supersede-Good now k (some a) f black white = elim (Bool-cases (a.active_request_id == "")) [
    | inl nobody ↦ rw nobody inv.good
    | inr there ↦ elim (Option-cases (get s.requests_by_id a.active_request_id)) [
      | inl gone ↦ rw (there, gone) inv.good
      | inr (e, got) ↦ elim (Bool-cases (is_live e.status)) [
        | inl live ↦
            rw (there, got, live)
              (put-Every (Good s) s.requests_by_id a.active_request_id (superseded_event now e)
                inv.good
                (superseded-Good now a.active_request_id e k (inv.good a.active_request_id e got)
                  (ground (arith, got, inv.active k a f there)) live black white))
        | inr over ↦ rw (there, got, over) inv.good
      ]
    ]
  ]

  supersede_found-others :
      (now : ℕ) (k : Pair) (id : String) (found : Option ControlRequestEvent) (j : Pair)
      (other : String)
      → get s.requests_by_id id ≡ found
      → held_by k found ≡ true
      → same k j ≡ false
      → held_by j (get s.requests_by_id other) ≡ true
      → held_by j (get (supersede_found s.requests_by_id now id found) other) ≡ true
  unfolding supersede_found
  supersede_found-others now k id none j other got held differ h = h
  supersede_found-others now k id (some e) j other got held differ h =
      elim (Bool-cases (id == other)) [
        | inl same_id ↦ absurd (
            let one : id ≡ other = ground (arith, same_id, eq_iff id other) in
            let mine : key_of e ≡ k = same_eq (key_of e) k (ground (arith, held)) in
            let theirs : key_of e ≡ j = same_eq (key_of e) j (
              ground
                (arith, subst (λ i. held_by j (get s.requests_by_id i) ≡ true) (sym one) h, got)) in
            let equal : same k j ≡ true =
              subst (λ i. same i j ≡ true) mine
                (subst (λ i. same (key_of e) i ≡ true) theirs (same_refl (key_of e))) in
            ground (arith, equal, differ))
        | inr other_id ↦
            ground (arith, h, other_id, get-put s.requests_by_id id other (superseded_event now e))
      ]

  -- No other key loses its active request by it.
  supersede-others :
      (now : ℕ) (k : Pair) (found : Option ControlRequestAggregate) (j : Pair) (other : String)
      → find s.requests_by_key k ≡ found
      → same k j ≡ false
      → held_by j (get s.requests_by_id other) ≡ true
      → held_by j (get (supersede s.requests_by_id now found) other) ≡ true
  unfolding supersede
  supersede-others now k none j other f differ h = h
  supersede-others now k (some a) j other f differ h =
      elim (Bool-cases (a.active_request_id == "")) [
        | inl nobody ↦ rw nobody h
        | inr there ↦ rw there (
            supersede_found-others now k a.active_request_id
              (get s.requests_by_id a.active_request_id) j other refl (inv.active k a f there)
              differ h)
      ]

  supersede-absent :
      (now : ℕ) (k : Pair) (found : Option ControlRequestAggregate) (id : String)
      → find s.requests_by_key k ≡ found
      → get s.requests_by_id id ≡ none
      → get (supersede s.requests_by_id now found) id ≡ none
  unfolding supersede supersede_found
  supersede-absent now k none id f h = h
  supersede-absent now k (some a) id f h = elim (Bool-cases (a.active_request_id == "")) [
    | inl nobody ↦ rw nobody h
    | inr there ↦ elim (Option-cases (get s.requests_by_id a.active_request_id)) [
      | inl gone ↦ rw (there, gone) h
      | inr (e, got) ↦ ground (
        arith,
        h,
        there,
        got,
        eq_iff a.active_request_id id,
        get-put s.requests_by_id a.active_request_id id (superseded_event now e),
      )
    ]
  ]

  pub pending-Inv :
      (now : ℕ) (target id ip : String) (port : ℕ) (geo : String)
      → get s.requests_by_id id ≡ none
      → is_in (target, ip) s.blacklist_set ≡ false
      → is_in (target, ip) s.whitelist_set ≡ false
      → Inv (register_pending s (new_event now target id ip port geo))
  unfolding register_pending
  pending-Inv now target id ip port geo fresh black white =
      let k : Pair = (target, ip) in
      let e = new_event now target id ip port geo in
      let found = find s.requests_by_key k in
      record {
        good =
            put-Every (Good s) (supersede s.requests_by_id now found) id e
              (supersede-Good now k found refl black white) (refl, refl);
        active =
            active-set (supersede s.requests_by_id now found) s.requests_by_key id e _
              (supersede-absent now k found id refl fresh) refl refl
              (λ j a h other there.
                supersede-others now k found j a.active_request_id refl other
                  (inv.active j a h there));
      }
