-- ===== src/Verification/Links/Approval.antt =====
-- rdp_proxy/verification.py, GET /verify: when a link is accepted, and where a set event comes from.
use rdp_on_demand_proxy_serv.Base.{
  ℕ, ◌≤◌, ◌≡◌, ◌≢◌, ◌⊎◌, ◌↔◌, refl, String, Bool, true, false, none, some, Option, List, [], ◌∷◌,
  arith, eq_iff, Option-cases, inl, inr, Bool-cases, subst, eq_refl, ◌==◌,
}
use rdp_on_demand_proxy_serv.Base.Dict.{Dict, get, get-put}
use rdp_on_demand_proxy_serv.Verification.{
  Meta, is_approved, VerificationToken, Service, new_service, cleanup, check_auth, cancel_found,
  is_control_auth_valid, cancel_token, create_token, create_control_auth_token, create_action_links,
  list_pending_verification_links,
}
use rdp_on_demand_proxy_serv.Verification.Links.{
  Op, creates, cancels, verifies, handle_verify, handle_action, step, run, ok, verify_found,
  action_found, verified,
}
use rdp_on_demand_proxy_serv.Verification.Links.Cleanup.{
  get-events-cleanup, get-tokens-cleanup, events-cleanup,
}

-- A link stands under `k` that is unused and has not expired.
abbrev pub LinkOpen : Service → ℕ → String → Type 0
LinkOpen s now k =
    (vt : VerificationToken) × (get s.tokens k ≡ some vt)
    × (vt.used ≡ false)
    × (now ≤ vt.expires_at)

verify_found_iff :
    (c : Service) (now : ℕ) (k : String) (found : Option VerificationToken)
    → ((verify_found c now k found).status ≡ ok)
      ↔ ((vt : VerificationToken) × (found ≡ some vt) × (vt.used ≡ false) × (now ≤ vt.expires_at))
unfolding verify_found
verify_found_iff c now k none = (λ h. cc, λ h. cc (h.1))
verify_found_iff c now k (some v) =
    (λ h. (v, refl, ground arith, ground arith), λ h. ground (arith, h.1))

cleanup_keeps_open :
    (s : Service) (now : ℕ) (k : String) → LinkOpen s now k ↔ LinkOpen (cleanup s now) now k
cleanup_keeps_open s now k = (
  λ h. (h.0, ground (arith, get-tokens-cleanup s now k), h.2, h.3),
  λ h. (h.0, ground (arith, get-tokens-cleanup s now k), h.2, h.3),
)

-- GET /verify answers 200 exactly if its token is not empty and a link stands under it that is unused
-- and has not expired.
pub verify_ok_iff :
    (s : Service) (now : ℕ) (k : String)
    → ((handle_verify s now k).status ≡ ok) ↔ (((k == "") ≡ false) × LinkOpen s now k)
unfolding handle_verify
verify_ok_iff s now k = elim (Bool-cases (k == "")) [
  | inl empty ↦ rw empty ((λ h. cc), (λ h. cc (h.0)))
  | inr given ↦
      let same = cleanup_keeps_open s now k in
      let found = verify_found_iff (cleanup s now) now k (get (cleanup s now).tokens k) in
      rw given ((λ h. (refl, same.1 (found.0 h))), (λ h. found.1 (same.0 h.1)))
]

approve_effect :
    (c : Service) (now : ℕ) (k : String) (vt : VerificationToken)
    → vt.used ≡ false
    → now ≤ vt.expires_at
    → let r = verify_found c now k (some vt) in
      (r.calls ≡ verified k vt.details ∷ [])
      × (is_approved r.service k ≡ true)
      × (get r.service.events k ≡ some true)
      × ((j : String)
          → (k == j) ≡ false
          → (get r.service.events j ≡ get c.events j) × (get r.service.tokens j ≡ get c.tokens j))
unfolding verify_found is_approved
approve_effect c now k vt unused live = (
  ground arith,
  ground (arith, eq_refl k, get-put c.tokens k k (record vt { used = true; approved = true })),
  ground (arith, eq_refl k, get-put c.events k k true),
  λ j other. (
    ground (arith, get-put c.events k j true),
    ground (arith, get-put c.tokens k j (record vt { used = true; approved = true })),
  ),
)

abbrev EffectOn : Dict Bool → Service → ℕ → String → VerificationToken → Type 0
EffectOn events s now k vt =
    let r = verify_found (cleanup s now) now k (some vt) in
    (r.calls ≡ verified k vt.details ∷ [])
    × (is_approved r.service k ≡ true)
    × (get r.service.events k ≡ some true)
    × ((j : String)
        → (k == j) ≡ false
        → (get r.service.events j ≡ get events j)
          × (get r.service.tokens j ≡ get (cleanup s now).tokens j))

-- Accepting an open link reports it to the callback with its own details, marks it approved, sets its
-- event, and touches no other event and no other link that is not stale.
pub verify_effect :
    (s : Service) (now : ℕ) (k : String) (vt : VerificationToken)
    → (k == "") ≡ false
    → get s.tokens k ≡ some vt
    → vt.used ≡ false
    → now ≤ vt.expires_at
    → let r = handle_verify s now k in
      (r.calls ≡ verified k vt.details ∷ [])
      × (is_approved r.service k ≡ true)
      × (get r.service.events k ≡ some true)
      × ((j : String)
          → (k == j) ≡ false
          → (get r.service.events j ≡ get s.events j)
            × (get r.service.tokens j ≡ get (cleanup s now).tokens j))
unfolding handle_verify
verify_effect s now k vt given found unused live =
    let there : get (cleanup s now).tokens k ≡ some vt =
      ground (arith, get-tokens-cleanup s now k) in
    rw (given, there)
      (subst (λ (d : Dict Bool). EffectOn d s now k vt) (events-cleanup s now k)
        (approve_effect (cleanup s now) now k vt unused live))

no_events : (url : String) (ttl : ℕ) (k : String) → get (new_service url ttl).events k ≢ some true
unfolding new_service get
no_events url ttl k h = cc

-- What an operation does to the link `k` of a waiting connection: it accepts the open link, or it
-- cancels a link that is there.
abbrev pub Answers : Service → ℕ → Op → String → Type 0
Answers s now (verifies token) k = (token ≡ k) × LinkOpen s now k
Answers s now (cancels token) k =
    (token ≡ k) × ((vt : VerificationToken) × (get s.tokens k ≡ some vt))
Answers s now _ k = ⊥

-- One of the operations, at the state that it meets, answers the link.
abbrev pub Answered : Service → List (ℕ × Op) → String → Type 0
Answered s [] k = ⊥
Answered s ((now, op) ∷ cs) k = Answers s now op k ⊎ Answered (step s (now, op)) cs k

verify_found-events :
    (c : Service) (now : ℕ) (t k : String) (found : Option VerificationToken)
    → get (verify_found c now t found).service.events k ≡ some true
    → (get c.events k ≡ some true) ⊎ ((t ≡ k) × ((verify_found c now t found).status ≡ ok))
unfolding verify_found
verify_found-events c now t k none h = inl h
verify_found-events c now t k (some v) h = ground (arith, get-put c.events t k true, eq_iff t k)

handle_verify-events :
    (s : Service) (now : ℕ) (t k : String)
    → get (handle_verify s now t).service.events k ≡ some true
    → (get s.events k ≡ some true) ⊎ ((t ≡ k) × ((handle_verify s now t).status ≡ ok))
unfolding handle_verify
handle_verify-events s now t k h = ground (
  arith,
  verify_found-events (cleanup s now) now t k (get (cleanup s now).tokens t),
  get-events-cleanup s now k,
)

create_token-events :
    (s : Service) (now : ℕ) (t k : String) (m : Meta)
    → get (create_token s now t m).0.events k ≡ some true
    → get s.events k ≡ some true
unfolding create_token
create_token-events s now t k m h =
    ground (arith, get-put (cleanup s now).events t k false, get-events-cleanup s now k)

cancel_token-events :
    (s : Service) (t k : String)
    → get (cancel_token s t).0.events k ≡ some true
    → (get s.events k ≡ some true)
      ⊎ ((t ≡ k) × ((vt : VerificationToken) × (get s.tokens k ≡ some vt)))
unfolding cancel_token cancel_found
cancel_token-events s t k h = elim (Option-cases (get s.tokens t)) [
  | inl e ↦ ground arith
  | inr (vt, e) ↦ elim (Bool-cases (t == k)) [
    | inl same ↦ inr (
      (eq_iff t k).0 same,
      (vt, subst (λ (j : String). get s.tokens j ≡ some vt) ((eq_iff t k).0 same) e),
    )
    | inr other ↦ inl (ground (arith, get-put s.events t k true))
  ]
]

step-events :
    (s : Service) (now : ℕ) (op : Op) (k : String)
    → get (step s (now, op)).events k ≡ some true
    → (get s.events k ≡ some true) ⊎ Answers s now op k
unfolding step create_control_auth_token create_action_links list_pending_verification_links
    is_control_auth_valid check_auth handle_action action_found
step-events s now (verifies t) k h = elim (handle_verify-events s now t k h) [
  | inl old ↦ inl old
  | inr (same, accepted) ↦
      inr (same, subst (LinkOpen s now) same ((verify_ok_iff s now t).0 accepted).1)
]
step-events s now (cancels t) k h = cancel_token-events s t k h
step-events s now (creates t m) k h = inl (create_token-events s now t k m h)
step-events s now op k h = inl (ground (arith, get-events-cleanup s now k))

run-events :
    (s : Service) (cs : List (ℕ × Op)) (k : String)
    → get (run s cs).events k ≡ some true
    → (get s.events k ≡ some true) ⊎ Answered s cs k
unfolding run
run-events s [] k h = inl h
run-events s ((now, op) ∷ cs) k h = elim (run-events (step s (now, op)) cs k h) [
  | inr later ↦ inr (inr later)
  | inl set ↦ elim (step-events s now op k set) [ inl old ↦ inl old | inr here ↦ inr (inl here) ]
]

-- The event that a connection waits on is set only by an operation that accepted its link while it
-- was open, or that cancelled it: whatever operations a new service has gone through, if the event of
-- a token is set then one of them did so.
pub event_needs_answer :
    (url : String) (ttl : ℕ) (cs : List (ℕ × Op)) (k : String)
    → get (run (new_service url ttl) cs).events k ≡ some true
    → Answered (new_service url ttl) cs k
event_needs_answer url ttl cs k h = elim (run-events (new_service url ttl) cs k h) [
  | inl old ↦ absurd (no_events url ttl k old)
  | inr answer ↦ answer
]
