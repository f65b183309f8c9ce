-- ===== src/Verification/Links/Spent.antt =====
-- rdp_proxy/verification.py: entries of the three tables that have been used, over any operations.
use rdp_on_demand_proxy_serv.Base.{
  ℕ, ◌≡◌, String, Bool, true, false, none, some, Option, List, [], ◌∷◌, arith, inl, inr, Bool-cases,
  All, ◌==◌, ◌||◌,
}
use rdp_on_demand_proxy_serv.Base.Dict.{get, put, get-put, get-pop}
use rdp_on_demand_proxy_serv.Verification.{
  VerificationToken, ActionToken, ControlAuthToken, Service, cleanup, fresh_token, fresh_auth,
  action_token, create_token, create_control_auth_token, check_auth, cancel_found,
  is_control_auth_valid, create_action_links, list_pending_verification_links, cancel_token,
}
use rdp_on_demand_proxy_serv.Verification.Links.{
  Op, creates, creates_auth, checks_auth, creates_links, cancels, verifies, acts, handle_verify,
  handle_action, step, run, verify_found, action_found,
}
use rdp_on_demand_proxy_serv.Verification.Links.Cleanup.{
  get-tokens-cleanup, get-action_tokens-cleanup, get-control_auth_tokens-cleanup,
}

-- The operation makes a new entry under the token `k`.
abbrev pub makes : String → Op → Bool
makes k (creates token m) = token == k
makes k (creates_auth token) = token == k
makes k (creates_links keep_token shutdown_token target) = keep_token == k || shutdown_token == k
makes k _ = false

abbrev pub Unmade : String → List (ℕ × Op) → Type 0
Unmade k cs = All (λ c. makes k c.1 ≡ false) cs

-- No unused entry stands under `k` in the table.
abbrev pub LinkSpent : Service → String → Type 0
LinkSpent s k = (vt : VerificationToken) → get s.tokens k ≡ some vt → vt.used ≡ true

abbrev pub ActionSpent : Service → String → Type 0
ActionSpent s k = (at : ActionToken) → get s.action_tokens k ≡ some at → at.used ≡ true

abbrev pub AuthSpent : Service → String → Type 0
AuthSpent s k = (cat : ControlAuthToken) → get s.control_auth_tokens k ≡ some cat → cat.used ≡ true

module _ (s : Service) (now : ℕ) (k : String) where
  pub cleanup-LinkSpent : LinkSpent s k → LinkSpent (cleanup s now) k
  cleanup-LinkSpent h vt e = ground (arith, get-tokens-cleanup s now k, h vt)

  pub cleanup-ActionSpent : ActionSpent s k → ActionSpent (cleanup s now) k
  cleanup-ActionSpent h at e = ground (arith, get-action_tokens-cleanup s now k, h at)

  pub cleanup-AuthSpent : AuthSpent s k → AuthSpent (cleanup s now) k
  cleanup-AuthSpent h cat e = ground (arith, get-control_auth_tokens-cleanup s now k, h cat)

verify_found-LinkSpent :
    (c : Service) (now : ℕ) (t k : String) (found : Option VerificationToken)
    → LinkSpent c k
    → LinkSpent (verify_found c now t found).service k
unfolding verify_found
verify_found-LinkSpent c now t k none h vt e = h vt e
verify_found-LinkSpent c now t k (some v) h vt e =
    ground (arith, get-put c.tokens t k (record v { used = true; approved = true }), h vt)

handle_verify-LinkSpent :
    (s : Service) (now : ℕ) (t k : String)
    → LinkSpent s k
    → LinkSpent (handle_verify s now t).service k
unfolding handle_verify
handle_verify-LinkSpent s now t k h = elim (Bool-cases (t == "")) [
  | inl empty ↦ rw empty h
  | inr given ↦ rw given (verify_found-LinkSpent _ now t k _ (cleanup-LinkSpent s now k h))
]

action_found-ActionSpent :
    (c : Service) (now : ℕ) (t k : String) (found : Option ActionToken)
    → ActionSpent c k
    → ActionSpent (action_found c now t found).service k
unfolding action_found
action_found-ActionSpent c now t k none h at e = h at e
action_found-ActionSpent c now t k (some a) h at e =
    ground (arith, get-put c.action_tokens t k (record a { used = true }), h at)

handle_action-ActionSpent :
    (s : Service) (now : ℕ) (t k : String)
    → ActionSpent s k
    → ActionSpent (handle_action s now t).service k
unfolding handle_action
handle_action-ActionSpent s now t k h = elim (Bool-cases (t == "")) [
  | inl empty ↦ rw empty h
  | inr given ↦ rw given (action_found-ActionSpent _ now t k _ (cleanup-ActionSpent s now k h))
]

check_auth-AuthSpent :
    (c : Service) (now : ℕ) (t k : String) (found : Option ControlAuthToken)
    → AuthSpent c k
    → AuthSpent (check_auth c now t found).0 k
unfolding check_auth
check_auth-AuthSpent c now t k none h cat e = h cat e
check_auth-AuthSpent c now t k (some a) h cat e =
    ground (arith, get-put c.control_auth_tokens t k (record a { used = true }), h cat)

is_control_auth_valid-AuthSpent :
    (s : Service) (now : ℕ) (t k : String)
    → AuthSpent s k
    → AuthSpent (is_control_auth_valid s now t).0 k
unfolding is_control_auth_valid
is_control_auth_valid-AuthSpent s now t k h = elim (Bool-cases (t == "")) [
  | inl empty ↦ rw empty h
  | inr given ↦ rw given (check_auth-AuthSpent _ now t k _ (cleanup-AuthSpent s now k h))
]

cancel_token-LinkSpent :
    (s : Service) (t k : String) → LinkSpent s k → LinkSpent (cancel_token s t).0 k
unfolding cancel_token
cancel_token-LinkSpent s t k h vt = ground (arith, get-pop s.tokens t k, h vt)

pub step-LinkSpent :
    (s : Service) (c : ℕ × Op) (k : String)
    → makes k c.1 ≡ false
    → LinkSpent s k
    → LinkSpent (step s c) k
unfolding step create_token create_control_auth_token create_action_links
    list_pending_verification_links is_control_auth_valid check_auth handle_action action_found
step-LinkSpent s (now, verifies t) k m h vt e = handle_verify-LinkSpent s now t k h vt e
step-LinkSpent s (now, cancels t) k m h vt e = cancel_token-LinkSpent s t k h vt e
step-LinkSpent s (now, creates t details) k m h vt e = ground (
  arith,
  get-put (cleanup s now).tokens t k (fresh_token s now t details),
  cleanup-LinkSpent s now k h vt,
)
step-LinkSpent s (now, op) k m h vt e = ground (arith, h vt, cleanup-LinkSpent s now k h vt)

pub step-ActionSpent :
    (s : Service) (c : ℕ × Op) (k : String)
    → makes k c.1 ≡ false
    → ActionSpent s k
    → ActionSpent (step s c) k
unfolding step create_token create_control_auth_token create_action_links cancel_token
    list_pending_verification_links is_control_auth_valid check_auth handle_verify verify_found
    cancel_found
step-ActionSpent s (now, acts t) k m h at e = handle_action-ActionSpent s now t k h at e
step-ActionSpent s (now, creates_links t u target) k m h at e =
    let first = action_token s now t target "keep_running" in
    ground (
      arith,
      get-put (cleanup s now).action_tokens t k first,
      get-put (put (cleanup s now).action_tokens t first) u k
          (action_token s now u target "shutdown_on_idle"),
      cleanup-ActionSpent s now k h at,
    )
step-ActionSpent s (now, op) k m h at e = ground (arith, h at, cleanup-ActionSpent s now k h at)

pub step-AuthSpent :
    (s : Service) (c : ℕ × Op) (k : String)
    → makes k c.1 ≡ false
    → AuthSpent s k
    → AuthSpent (step s c) k
unfolding step create_token create_control_auth_token create_action_links cancel_token
    list_pending_verification_links handle_verify verify_found handle_action action_found
    cancel_found
step-AuthSpent s (now, checks_auth t) k m h cat e =
    is_control_auth_valid-AuthSpent s now t k h cat e
step-AuthSpent s (now, creates_auth t) k m h cat e = ground (
  arith,
  get-put (cleanup s now).control_auth_tokens t k (fresh_auth s now t),
  cleanup-AuthSpent s now k h cat,
)
step-AuthSpent s (now, op) k m h cat e = ground (arith, h cat, cleanup-AuthSpent s now k h cat)

pub run-LinkSpent :
    (s : Service) (k : String) (cs : List (ℕ × Op))
    → Unmade k cs
    → LinkSpent s k
    → LinkSpent (run s cs) k
unfolding run
run-LinkSpent s k [] m h = h
run-LinkSpent s k (c ∷ cs) m h = run-LinkSpent (step s c) k cs m.1 (step-LinkSpent s c k m.0 h)

pub run-ActionSpent :
    (s : Service) (k : String) (cs : List (ℕ × Op))
    → Unmade k cs
    → ActionSpent s k
    → ActionSpent (run s cs) k
unfolding run
run-ActionSpent s k [] m h = h
run-ActionSpent s k (c ∷ cs) m h =
    run-ActionSpent (step s c) k cs m.1 (step-ActionSpent s c k m.0 h)

pub run-AuthSpent :
    (s : Service) (k : String) (cs : List (ℕ × Op))
    → Unmade k cs
    → AuthSpent s k
    → AuthSpent (run s cs) k
unfolding run
run-AuthSpent s k [] m h = h
run-AuthSpent s k (c ∷ cs) m h = run-AuthSpent (step s c) k cs m.1 (step-AuthSpent s c k m.0 h)
