-- ===== src/Verification/Links/Invariant.antt =====
-- rdp_proxy/verification.py: the tables between any two operations.
use rdp_on_demand_proxy_serv.Base.{
  ℕ, ◌≡◌, refl, String, true, none, some, List, [], ◌∷◌, arith, eq_iff, Option, Bool-cases, inl,
  inr, ◌==◌, ltb,
}
use rdp_on_demand_proxy_serv.Base.Dict.{get, put, get-put, get-pop}
use rdp_on_demand_proxy_serv.Verification.{
  VerificationToken, ActionToken, Service, new_service, cancel_found,
  list_pending_verification_links, cancel_token,
}
use rdp_on_demand_proxy_serv.Verification.Links.{
  Op, creates, creates_auth, checks_auth, creates_links, lists, cancels, verifies, acts,
  verify_found, action_found, handle_verify, handle_action, step, run,
}
use rdp_on_demand_proxy_serv.Verification.Links.Tokens.{
  IsSound, cleanup-IsSound, create_token-IsSound, create_auth-IsSound,
  is_control_auth_valid-IsSound, create_links-IsSound,
}

cancel_found-IsSound :
    (s : Service) (token : String) (found : Option VerificationToken)
    → IsSound s
    → IsSound (cancel_found s token found).0
unfolding cancel_found
cancel_found-IsSound s token none h = h
cancel_found-IsSound s token (some vt) h = record {
  link = λ k vt' e. ground (
    arith,
    eq_iff token k,
    get-pop s.tokens token k,
    get-put s.events token k true,
    h.link k vt',
  );
  action = h.action;
  auth = h.auth;
}

cancel_token-IsSound : (s : Service) (token : String) → IsSound s → IsSound (cancel_token s token).0
unfolding cancel_token
cancel_token-IsSound s token h = elim (Bool-cases (token == "")) [
  | inl empty ↦ rw empty h
  | inr given ↦ rw given (cancel_found-IsSound s token _ h)
]

approve-IsSound :
    (c : Service) (token : String) (vt : VerificationToken)
    → IsSound c
    → get c.tokens token ≡ some vt
    → IsSound (record c {
      tokens = put c.tokens token (record vt { used = true; approved = true });
      events = put c.events token true;
    })
approve-IsSound c token vt h found = record {
  link = λ k vt' e. ground (
    arith,
    eq_iff token k,
    get-put c.tokens token k (record vt { used = true; approved = true }),
    get-put c.events token k true,
    h.link k vt',
    h.link token vt,
  );
  action = h.action;
  auth = h.auth;
}

verify_found-IsSound :
    (c : Service) (now : ℕ) (token : String) (found : Option VerificationToken)
    → IsSound c
    → get c.tokens token ≡ found
    → IsSound (verify_found c now token found).service
unfolding verify_found
verify_found-IsSound c now token none h e = h
verify_found-IsSound c now token (some vt) h e = elim (Bool-cases vt.used) [
  | inl used ↦ rw used h
  | inr unused ↦ elim (Bool-cases (ltb vt.expires_at now)) [
    | inl late ↦ rw (unused, late) h
    | inr live ↦ rw (unused, live) (approve-IsSound c token vt h e)
  ]
]

handle_verify-IsSound :
    (s : Service) (now : ℕ) (token : String)
    → IsSound s
    → IsSound (handle_verify s now token).service
unfolding handle_verify
handle_verify-IsSound s now token h = elim (Bool-cases (token == "")) [
  | inl empty ↦ rw empty h
  | inr given ↦ rw given (verify_found-IsSound _ now token _ (cleanup-IsSound s now h) refl)
]

spend_action-IsSound :
    (c : Service) (token : String) (at : ActionToken)
    → IsSound c
    → get c.action_tokens token ≡ some at
    → IsSound (record c { action_tokens = put c.action_tokens token (record at { used = true }) })
spend_action-IsSound c token at h found = record {
  link = h.link;
  action = λ k at' e. ground (
    arith,
    eq_iff token k,
    get-put c.action_tokens token k (record at { used = true }),
    h.action k at',
    h.action token at,
  );
  auth = h.auth;
}

action_found-IsSound :
    (c : Service) (now : ℕ) (token : String) (found : Option ActionToken)
    → IsSound c
    → get c.action_tokens token ≡ found
    → IsSound (action_found c now token found).service
unfolding action_found
action_found-IsSound c now token none h e = h
action_found-IsSound c now token (some at) h e = elim (Bool-cases at.used) [
  | inl used ↦ rw used h
  | inr unused ↦ elim (Bool-cases (ltb at.expires_at now)) [
    | inl late ↦ rw (unused, late) h
    | inr live ↦ rw (unused, live) (spend_action-IsSound c token at h e)
  ]
]

handle_action-IsSound :
    (s : Service) (now : ℕ) (token : String)
    → IsSound s
    → IsSound (handle_action s now token).service
unfolding handle_action
handle_action-IsSound s now token h = elim (Bool-cases (token == "")) [
  | inl empty ↦ rw empty h
  | inr given ↦ rw given (action_found-IsSound _ now token _ (cleanup-IsSound s now h) refl)
]

pub step-IsSound : (s : Service) (c : ℕ × Op) → IsSound s → IsSound (step s c)
unfolding step list_pending_verification_links
step-IsSound s (now, creates token m) h = create_token-IsSound s now token m h
step-IsSound s (now, creates_auth token) h = create_auth-IsSound s now token h
step-IsSound s (now, checks_auth token) h = is_control_auth_valid-IsSound s now token h
step-IsSound s (now, creates_links k1 k2 target) h = create_links-IsSound s now k1 k2 target h
step-IsSound s (now, lists limit) h = cleanup-IsSound s now h
step-IsSound s (now, cancels token) h = cancel_token-IsSound s token h
step-IsSound s (now, verifies token) h = handle_verify-IsSound s now token h
step-IsSound s (now, acts token) h = handle_action-IsSound s now token h

run-IsSound : (s : Service) (cs : List (ℕ × Op)) → IsSound s → IsSound (run s cs)
unfolding run
run-IsSound s [] h = h
run-IsSound s (c ∷ cs) h = run-IsSound (step s c) cs (step-IsSound s c h)

new_service-IsSound : (url : String) (ttl : ℕ) → IsSound (new_service url ttl)
unfolding new_service get
new_service-IsSound url ttl = record {
  link = λ k vt e. cc;
  action = λ k at e. cc;
  auth = λ k cat e. cc;
}

-- After any operations on a new service, in any order and at any times, each entry stands under its
-- own token, and a verification link is approved exactly if it is used and exactly if its event is
-- set.
pub run-new_service-IsSound :
    (url : String) (ttl : ℕ) (cs : List (ℕ × Op)) → IsSound (run (new_service url ttl) cs)
run-new_service-IsSound url ttl cs = run-IsSound _ cs (new_service-IsSound url ttl)
