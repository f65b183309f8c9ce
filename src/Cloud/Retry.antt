-- ===== src/Cloud/Retry.antt =====
-- rdp_proxy/proxy.py: `_execute_cloud_action_with_retry`. The run leaves a trace of what it did.
pub mod Rounds
pub mod Bounds
mod Tests
use rdp_on_demand_proxy_serv.Base.{
  ℕ, zero, suc, ◌+◌, ◌≤◌, String, ◌<>◌, Bool, true, false, ◌||◌, Option, none, some, List, [], ◌∷◌,
  ◌++◌, Outcome, returned, raised, leb, min, if◌then◌else◌, seconds, ◌==◌,
}
use rdp_on_demand_proxy_serv.Cloud.{
  InstanceState, unknown, state_text, Operation, start, stop, other, state_satisfies_operation,
  state_blocks_operation, Exc, non_retryable, World,
}

pub data Event : Type 0 where
  -- a state check, with the state that the code goes on with
  checked : InstanceState → Event
  performed : Event
  failed : Exc → Event
  -- `time.sleep`, in seconds
  slept : ℕ → Event
  -- `send_cloud_operation_result`: success, attempts, error
  notified : Bool → ℕ → String → Event

-- The variables `last_exc` and `state_wait_reason`.
pub record Memory : Type 0 where
  pub last_exc : Option Exc
  pub wait_reason : String

abbrev pub no_memory : Memory
no_memory = record { last_exc = none; wait_reason = "" }

-- How a round of the loop ends: by `return True`, by `break`, or by going on to the next.
pub data Verdict (W : Type 0) : Type 0 where
  succeeds breaks continues : Memory → List Event → W → Verdict W

pub record Run (W : Type 0) : Type 0 where
  pub success : Bool
  pub attempts : ℕ
  pub trace : List Event
  pub world : W

abbrev pub max_action_retries : ℕ
max_action_retries = 3

-- self._retry_backoff_seconds[min(retry_index, len(self._retry_backoff_seconds) - 1)]
abbrev pub backoff_at : List ℕ → ℕ → ℕ
backoff_at [] i = 0
backoff_at (x ∷ []) i = x
backoff_at (x ∷ y ∷ ys) zero = x
backoff_at (x ∷ y ∷ ys) (suc i) = backoff_at (y ∷ ys) i

abbrev pub backoff : ℕ → ℕ
backoff = backoff_at (5 ∷ 10 ∷ 20 ∷ [])

abbrev pub state_or_unknown : Outcome Exc InstanceState → InstanceState
state_or_unknown (returned st) = st
state_or_unknown (raised e) = unknown

abbrev pub remember_check : Memory → Outcome Exc InstanceState → Memory
remember_check m (returned st) = m
remember_check m (raised e) = record {
  last_exc = some e;
  wait_reason = "state-check-failed: " <> e.message;
}

-- The message of the final notification.
unfoldable pub failure_text : Memory → String
failure_text m =
    let text : String = elim m.last_exc [ none ↦ "unknown error" | some e ↦ e.message ] in
    if m.wait_reason == ""
    then text
    else if text == ""
    then m.wait_reason
    else text <> "; " <> m.wait_reason

module _ {W : Type 0} (p : World W) (stop_mode : Option String) where
  -- The call of the provider; an unknown operation raises `ValueError` inside the `try`.
  unfoldable pub perform : Operation → W → Outcome Exc (Unit {0}) × W
  perform start w = p.start_instance w
  perform stop w = p.stop_instance (elim stop_mode [ none ↦ "STOP_CHARGING" | some m ↦ m ]) w
  perform (other name) w =
      (raised (record { kind = "ValueError"; message = "Unknown operation: " <> name }), w)

  -- The `except` branch: the state may be right in spite of the error.
  unfoldable pub recover : ℕ → Operation → Memory → Exc → W → Verdict W
  recover index op m e w =
      let (answer, w') = p.get_instance_state w in
      let st = state_or_unknown answer in
      let m' : Memory = record m { last_exc = some e } in
      if state_satisfies_operation op st
      then succeeds m' (checked st ∷ []) w'
      else if non_retryable e || leb max_action_retries index
      then breaks m' (checked st ∷ []) w'
      else continues m' (checked st ∷ slept (backoff index) ∷ [])
          (p.sleep (seconds (backoff index)) w')

  abbrev pub after : List Event → Verdict W → Verdict W
  after es (succeeds m fs w) = succeeds m (es ++ fs) w
  after es (breaks m fs w) = breaks m (es ++ fs) w
  after es (continues m fs w) = continues m (es ++ fs) w

  unfoldable pub attempted : ℕ → Operation → Memory → Outcome Exc (Unit {0}) × W → Verdict W
  attempted index op m (returned _, w) = succeeds m (performed ∷ []) w
  attempted index op m (raised e, w) = after (failed e ∷ []) (recover index op m e w)

  unfoldable pub attempt : ℕ → Operation → Memory → W → Verdict W
  unfolding attempted
  attempt index op m w = attempted index op m (perform op w)

  unfoldable pub round : ℕ → Operation → Memory → W → Verdict W
  round index op m w =
      let (answer, w') = p.get_instance_state w in
      let st = state_or_unknown answer in
      let m' = remember_check m answer in
      let blocked : Memory = record m' { wait_reason = "state-blocked:" <> state_text st } in
      if state_satisfies_operation op st
      then succeeds m' (checked st ∷ []) w'
      else if state_blocks_operation op st
      then (if leb max_action_retries index
          then breaks blocked (checked st ∷ []) w'
          else continues blocked (checked st ∷ slept (backoff index) ∷ [])
              (p.sleep (seconds (backoff index)) w'))
      else after (checked st ∷ []) (attempt index op m' w')

  abbrev pub prefixed : List Event → Run W → Run W
  prefixed es r = record r { trace = es ++ r.trace }

  abbrev pub give_up : ℕ → Memory → W → Run W
  give_up attempts m w = record {
    success = false;
    attempts = attempts;
    trace = notified false attempts (failure_text m) ∷ [];
    world = w;
  }

  abbrev pub report_success : ℕ → W → Run W
  report_success attempts w = record {
    success = true;
    attempts = attempts;
    trace = notified true attempts "" ∷ [];
    world = w;
  }

  -- The end of a round after `attempts` attempts; `rest` is the rest of the loop.
  unfoldable pub conclude : (Memory → W → Run W) → ℕ → Verdict W → Run W
  conclude rest attempts (succeeds m es w) = prefixed es (report_success attempts w)
  conclude rest attempts (breaks m es w) = prefixed es (give_up attempts m w)
  conclude rest attempts (continues m es w) = prefixed es (rest m w)

  -- `for retry_index in range(...)` with the rounds that are left.
  unfoldable pub loop : ℕ → ℕ → Operation → Memory → W → Run W
  unfolding conclude
  loop zero index op m w = give_up index m w
  loop (suc left) index op m w =
      conclude (λ m' w'. loop left (index + 1) op m' w') (index + 1) (round index op m w)

  -- With a provider. Without one the code returns True at once.
  unfoldable pub execute_cloud_action_with_retry : Operation → W → Run W
  unfolding loop
  execute_cloud_action_with_retry op w = loop (max_action_retries + 1) 0 op no_memory w
