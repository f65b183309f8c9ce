-- ===== src/Verification/Links/OneTime.antt =====
-- rdp_proxy/verification.py: what follows the first use of a link, a management token, or a cancellation.
use rdp_on_demand_proxy_serv.Base.{
  ℕ, ◌≡◌, ◌⊎◌, refl, String, true, false, none, some, Option, List, [], arith, eq_iff, inl, inr,
  Bool-cases, ◌==◌,
}
use rdp_on_demand_proxy_serv.Base.Dict.{get-put, get-pop}
use rdp_on_demand_proxy_serv.Verification.{
  VerificationToken, ActionToken, ControlAuthToken, Service, check_auth, cancel_found,
  is_control_auth_valid, cancel_token,
}
use rdp_on_demand_proxy_serv.Verification.Links.{
  Op, handle_verify, handle_action, run, ok, gone, conflict, verify_found, action_found, Handled,
}
use rdp_on_demand_proxy_serv.Verification.Links.Spent.{
  Unmade, LinkSpent, ActionSpent, AuthSpent, cleanup-LinkSpent, cleanup-ActionSpent,
  cleanup-AuthSpent, run-LinkSpent, run-ActionSpent, run-AuthSpent,
}

-- A handler that refuses a link as no longer good, and makes no callback.
abbrev pub Refused : Handled → Type 0
Refused r = ((r.status ≡ gone) ⊎ (r.status ≡ conflict)) × (r.calls ≡ [])

verify_found_spends :
    (c : Service) (now : ℕ) (k : String) (found : Option VerificationToken)
    → (verify_found c now k found).status ≡ ok
    → LinkSpent (verify_found c now k found).service k
unfolding verify_found
verify_found_spends c now k none h vt e = cc
verify_found_spends c now k (some v) h vt e =
    ground (arith, get-put c.tokens k k (record v { used = true; approved = true }), eq_iff k k)

verify_spends :
    (s : Service) (now : ℕ) (k : String)
    → (handle_verify s now k).status ≡ ok
    → LinkSpent (handle_verify s now k).service k × ((k == "") ≡ false)
unfolding handle_verify
verify_spends s now k = elim (Bool-cases (k == "")) [
  | inl empty ↦ rw empty (λ h. cc)
  | inr given ↦ rw given (λ h. (verify_found_spends _ now k _ h, refl))
]

verify_found_refuses :
    (c : Service) (now : ℕ) (k : String) (found : Option VerificationToken)
    → ((vt : VerificationToken) → found ≡ some vt → vt.used ≡ true)
    → Refused (verify_found c now k found)
unfolding verify_found
verify_found_refuses c now k none h = (inl refl, refl)
verify_found_refuses c now k (some v) h = rw (h v refl) (inr refl, refl)

verify_refuses :
    (s : Service) (now : ℕ) (k : String)
    → (k == "") ≡ false
    → LinkSpent s k
    → Refused (handle_verify s now k)
unfolding handle_verify
verify_refuses s now k given h =
    rw given (verify_found_refuses _ now k _ (cleanup-LinkSpent s now k h))

-- After a verification link has been accepted once, it is refused, with no callback, at any later
-- time and after any operations that make no new link under the same token.
pub verify_once :
    (s : Service) (k : String) (now later : ℕ) (cs : List (ℕ × Op))
    → Unmade k cs
    → (handle_verify s now k).status ≡ ok
    → Refused (handle_verify (run (handle_verify s now k).service cs) later k)
verify_once s k now later cs m h =
    let (spent, given) = verify_spends s now k h in
    verify_refuses _ later k given (run-LinkSpent _ k cs m spent)

cancel_found_removes :
    (s : Service) (k : String) (found : Option VerificationToken)
    → (cancel_found s k found).1 ≡ true
    → LinkSpent (cancel_found s k found).0 k
unfolding cancel_found
cancel_found_removes s k none h vt e = cc
cancel_found_removes s k (some v) h vt e = ground (arith, get-pop s.tokens k k, eq_iff k k)

-- After a verification link has been cancelled, it is refused, with no callback, at any later time
-- and after any operations that make no new link under the same token.
pub cancelled_link-Refused :
    (s : Service) (k : String) (later : ℕ) (cs : List (ℕ × Op))
    → Unmade k cs
    → (cancel_token s k).1 ≡ true
    → Refused (handle_verify (run (cancel_token s k).0 cs) later k)
unfolding cancel_token
cancelled_link-Refused s k later cs m = elim (Bool-cases (k == "")) [
  | inl empty ↦ rw empty (λ h. cc)
  | inr given ↦
      rw given
        λ h. verify_refuses _ later k given (run-LinkSpent _ k cs m (cancel_found_removes s k _ h))
]

action_found_spends :
    (c : Service) (now : ℕ) (k : String) (found : Option ActionToken)
    → (action_found c now k found).status ≡ ok
    → ActionSpent (action_found c now k found).service k
unfolding action_found
action_found_spends c now k none h at e = cc
action_found_spends c now k (some a) h at e =
    ground (arith, get-put c.action_tokens k k (record a { used = true }), eq_iff k k)

action_spends :
    (s : Service) (now : ℕ) (k : String)
    → (handle_action s now k).status ≡ ok
    → ActionSpent (handle_action s now k).service k × ((k == "") ≡ false)
unfolding handle_action
action_spends s now k = elim (Bool-cases (k == "")) [
  | inl empty ↦ rw empty (λ h. cc)
  | inr given ↦ rw given (λ h. (action_found_spends _ now k _ h, refl))
]

action_found_refuses :
    (c : Service) (now : ℕ) (k : String) (found : Option ActionToken)
    → ((at : ActionToken) → found ≡ some at → at.used ≡ true)
    → Refused (action_found c now k found)
unfolding action_found
action_found_refuses c now k none h = (inl refl, refl)
action_found_refuses c now k (some a) h = rw (h a refl) (inr refl, refl)

action_refuses :
    (s : Service) (now : ℕ) (k : String)
    → (k == "") ≡ false
    → ActionSpent s k
    → Refused (handle_action s now k)
unfolding handle_action
action_refuses s now k given h =
    rw given (action_found_refuses _ now k _ (cleanup-ActionSpent s now k h))

-- After an action link has been accepted once, it is refused, with no callback, at any later time
-- and after any operations that make no new link under the same token.
pub action_once :
    (s : Service) (k : String) (now later : ℕ) (cs : List (ℕ × Op))
    → Unmade k cs
    → (handle_action s now k).status ≡ ok
    → Refused (handle_action (run (handle_action s now k).service cs) later k)
action_once s k now later cs m h =
    let (spent, given) = action_spends s now k h in
    action_refuses _ later k given (run-ActionSpent _ k cs m spent)

check_auth_spends :
    (c : Service) (now : ℕ) (k : String) (found : Option ControlAuthToken)
    → (check_auth c now k found).1 ≡ true
    → AuthSpent (check_auth c now k found).0 k
unfolding check_auth
check_auth_spends c now k none h cat e = cc
check_auth_spends c now k (some a) h cat e =
    ground (arith, get-put c.control_auth_tokens k k (record a { used = true }), eq_iff k k)

check_auth_refuses :
    (c : Service) (now : ℕ) (k : String) (found : Option ControlAuthToken)
    → ((cat : ControlAuthToken) → found ≡ some cat → cat.used ≡ true)
    → (check_auth c now k found).1 ≡ false
unfolding check_auth
check_auth_refuses c now k none h = refl
check_auth_refuses c now k (some a) h = rw (h a refl) refl

auth_spends :
    (s : Service) (now : ℕ) (k : String)
    → (is_control_auth_valid s now k).1 ≡ true
    → AuthSpent (is_control_auth_valid s now k).0 k × ((k == "") ≡ false)
unfolding is_control_auth_valid
auth_spends s now k = elim (Bool-cases (k == "")) [
  | inl empty ↦ rw empty (λ h. cc)
  | inr given ↦ rw given (λ h. (check_auth_spends _ now k _ h, refl))
]

auth_refuses :
    (s : Service) (now : ℕ) (k : String)
    → (k == "") ≡ false
    → AuthSpent s k
    → (is_control_auth_valid s now k).1 ≡ false
unfolding is_control_auth_valid
auth_refuses s now k given h = rw given (check_auth_refuses _ now k _ (cleanup-AuthSpent s now k h))

-- After a management token has been accepted once, it is not valid at any later time, after any
-- operations that make no new one under the same token.
pub auth_once :
    (s : Service) (k : String) (now later : ℕ) (cs : List (ℕ × Op))
    → Unmade k cs
    → (is_control_auth_valid s now k).1 ≡ true
    → (is_control_auth_valid (run (is_control_auth_valid s now k).0 cs) later k).1 ≡ false
auth_once s k now later cs m h =
    let (spent, given) = auth_spends s now k h in
    auth_refuses _ later k given (run-AuthSpent _ k cs m spent)
