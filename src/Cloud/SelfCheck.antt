-- ===== src/Cloud/SelfCheck.antt =====
-- rdp_proxy/app.py: `_run_cloud_action_with_retry_for_self_check`, the second copy of the retry loop,
-- and how it relates to the first. The target has a cloud section there.
pub mod Agreement
mod Tests
use rdp_on_demand_proxy_serv.Base.{
  ℕ, zero, suc, ◌+◌, ◌≡◌, ◌≢◌, refl, ap, String, ◌<>◌, Bool, true, false, ◌||◌, Option, none, some,
  List, [], ◌∷◌, ◌++◌, map, Outcome, returned, raised, leb, if◌then◌else◌, seconds, ◌==◌, arith,
  sym, ◌∙◌,
}
use rdp_on_demand_proxy_serv.Base.Text.{codes, lower, contains_any}
use rdp_on_demand_proxy_serv.Cloud.{
  InstanceState, running, stopped, starting, stopping, unknown, state_text, Operation, start, stop,
  other, Exc, World,
}
use rdp_on_demand_proxy_serv.Cloud.Retry.{
  Event, checked, performed, failed, slept, notified, Memory, no_memory, Verdict, succeeds, breaks,
  continues, Run, backoff_at, state_or_unknown, remember_check, failure_text,
  execute_cloud_action_with_retry,
}
use rdp_on_demand_proxy_serv.Cloud.Retry

-- This module's own `_state_satisfies_operation` and `_state_blocks_operation`.
pub state_satisfies_operation : Operation → InstanceState → Bool
state_satisfies_operation start running = true
state_satisfies_operation start starting = true
state_satisfies_operation stop stopped = true
state_satisfies_operation stop stopping = true
state_satisfies_operation _ _ = false

pub state_blocks_operation : Operation → InstanceState → Bool
state_blocks_operation start stopping = true
state_blocks_operation stop starting = true
state_blocks_operation _ _ = false

-- f"{type(exc).__name__}: {exc}".lower()
abbrev lowered_text : Exc → List ℕ
lowered_text e = lower (codes e.kind ++ codes ": " ++ codes e.message)

abbrev auth_keywords : List String
auth_keywords =
    "invalidsecretid" ∷ "signaturefailure" ∷ "authfailure" ∷ "unauthorizedoperation"
    ∷ "unauthorized" ∷ "invalidaccesskeyid" ∷ "signaturedoesnotmatch"
    ∷ "security token included in the request is invalid" ∷ "access key" ∷ "ak" ∷ []

abbrev business_keywords : List String
business_keywords =
    "invalidinstanceid" ∷ "invalidparameter" ∷ "resource not found" ∷ "instance not found" ∷ []

pub is_non_retryable_auth_error : Exc → Bool
unfolding contains_any lower
is_non_retryable_auth_error e = contains_any (lowered_text e) auth_keywords

pub is_non_retryable_business_error : Exc → Bool
unfolding contains_any lower
is_non_retryable_business_error e = contains_any (lowered_text e) business_keywords

abbrev pub non_retryable : Exc → Bool
non_retryable e = is_non_retryable_auth_error e || is_non_retryable_business_error e

abbrev pub max_retries : ℕ
max_retries = 3

abbrev backoff_seconds : List ℕ
backoff_seconds = 5 ∷ 10 ∷ 20 ∷ []

-- backoff_seconds[min(retry_index, len(backoff_seconds) - 1)]
abbrev pub backoff : ℕ → ℕ
backoff = backoff_at backoff_seconds

-- The state after a check, and what a check leaves in the variables.
abbrev pub seen_state : Outcome Exc InstanceState → InstanceState
seen_state (returned st) = st
seen_state (raised e) = unknown

abbrev pub after_failed_check : Memory → Outcome Exc InstanceState → Memory
after_failed_check m (returned st) = m
after_failed_check m (raised e) = record {
  last_exc = some e;
  wait_reason = "state-check-failed: " <> e.message;
}

self_check_failure_text : Memory → String
self_check_failure_text m =
    let text : String = elim m.last_exc [ none ↦ "unknown error" | some e ↦ e.message ] in
    if m.wait_reason == "" then text else text <> "; " <> m.wait_reason

module _ {W : Type 0} (p : World W) (stop_mode : String) where
  -- Every operation but "start" stops the instance.
  self_check_perform : Operation → W → Outcome Exc (Unit {0}) × W
  self_check_perform start w = p.start_instance w
  self_check_perform _ w = p.stop_instance stop_mode w

  self_check_recover : ℕ → Operation → Memory → Exc → W → Verdict W
  self_check_recover index op m e w =
      let (answer, w') = p.get_instance_state w in
      let st = seen_state answer in
      let m' : Memory = record m { last_exc = some e } in
      if state_satisfies_operation op st
      then succeeds m' (failed e ∷ checked st ∷ []) w'
      else if non_retryable e || leb max_retries index
      then breaks m' (failed e ∷ checked st ∷ []) w'
      else continues m' (failed e ∷ checked st ∷ slept (backoff index) ∷ [])
          (p.sleep (seconds (backoff index)) w')

  self_check_attempted : ℕ → Operation → Memory → Outcome Exc (Unit {0}) × W → Verdict W
  unfolding self_check_recover
  self_check_attempted index op m (returned _, w) = succeeds m (performed ∷ []) w
  self_check_attempted index op m (raised e, w) = self_check_recover index op m e w

  abbrev after_check : InstanceState → Verdict W → Verdict W
  after_check st (succeeds m es w) = succeeds m (checked st ∷ es) w
  after_check st (breaks m es w) = breaks m (checked st ∷ es) w
  after_check st (continues m es w) = continues m (checked st ∷ es) w

  self_check_round : ℕ → Operation → Memory → W → Verdict W
  self_check_round index op m w =
      let (answer, w') = p.get_instance_state w in
      let st = seen_state answer in
      let m' = after_failed_check m answer in
      let blocked : Memory = record m' { wait_reason = "state-blocked:" <> state_text st } in
      if state_satisfies_operation op st
      then succeeds m' (checked st ∷ []) w'
      else if state_blocks_operation op st
      then (if leb max_retries index
          then breaks blocked (checked st ∷ []) w'
          else continues blocked (checked st ∷ slept (backoff index) ∷ [])
              (p.sleep (seconds (backoff index)) w'))
      else after_check st (self_check_attempted index op m' (self_check_perform op w'))

  abbrev ended : Bool → ℕ → String → List Event → W → Run W
  ended success attempts text es w = record {
    success = success;
    attempts = attempts;
    trace = es ++ notified success attempts text ∷ [];
    world = w;
  }

  self_check_conclude : (Memory → W → Run W) → ℕ → Verdict W → Run W
  self_check_conclude rest attempts (succeeds m es w) = ended true attempts "" es w
  self_check_conclude rest attempts (breaks m es w) =
      ended false attempts (self_check_failure_text m) es w
  self_check_conclude rest attempts (continues m es w) =
      let r = rest m w in record r { trace = es ++ r.trace }

  self_check_loop : ℕ → ℕ → Operation → Memory → W → Run W
  unfolding self_check_conclude
  self_check_loop zero index op m w = ended false index (self_check_failure_text m) [] w
  self_check_loop (suc left) index op m w =
      self_check_conclude (λ m' w'. self_check_loop left (index + 1) op m' w') (index + 1)
        (self_check_round index op m w)

  pub run_cloud_action_with_retry_for_self_check : Operation → W → Run W
  unfolding self_check_loop
  run_cloud_action_with_retry_for_self_check op w =
      self_check_loop (max_retries + 1) 0 op no_memory w

-- A trace without the message of the final notification.
abbrev pub without_text : List Event → List Event
without_text [] = []
without_text (notified b n text ∷ es) = notified b n "" ∷ without_text es
without_text (e ∷ es) = e ∷ without_text es
