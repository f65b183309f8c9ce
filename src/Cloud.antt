-- ===== src/Cloud.antt =====
-- rdp_proxy/cloud and the cloud control of rdp_proxy/proxy.py and rdp_proxy/app.py: the normalized
-- instance states, the operations, the classes of errors, and the world that they act on.
pub mod Retry
pub mod Idle
pub mod Ensure
pub mod SelfCheck
mod Sample
use rdp_on_demand_proxy_serv.Base.{
  ℕ, ◌+◌, ◌≤◌, String, ◌<>◌, Bool, true, false, ◌||◌, List, [], ◌∷◌, ◌++◌, Outcome, seconds,
}
use rdp_on_demand_proxy_serv.Base.Text.{codes, lower, contains_any}

-- What `get_instance_state` returns, and the "UNKNOWN" that the retry loop puts for a failed check.
pub data InstanceState : Type 0 where
  running stopped starting stopping pending unknown : InstanceState

abbrev pub state_text : InstanceState → String
state_text running = "RUNNING"
state_text stopped = "STOPPED"
state_text starting = "STARTING"
state_text stopping = "STOPPING"
state_text pending = "PENDING"
state_text unknown = "UNKNOWN"

pub data Operation : Type 0 where
  start stop : Operation
  other : String → Operation

unfoldable pub state_satisfies_operation : Operation → InstanceState → Bool
state_satisfies_operation start running = true
state_satisfies_operation start starting = true
state_satisfies_operation stop stopped = true
state_satisfies_operation stop stopping = true
state_satisfies_operation _ _ = false

unfoldable pub state_blocks_operation : Operation → InstanceState → Bool
state_blocks_operation start stopping = true
state_blocks_operation stop starting = true
state_blocks_operation _ _ = false

-- An exception: the name of its type, and `str(exc)`.
pub record Exc : Type 0 where
  pub kind : String
  pub message : String

-- f"{type(exc).__name__}: {exc}".lower()
abbrev pub error_text : Exc → List ℕ
error_text e = lower (codes e.kind ++ codes ": " ++ codes e.message)

unfoldable pub is_non_retryable_auth_error : Exc → Bool
unfolding contains_any lower
is_non_retryable_auth_error e = contains_any (error_text e) (
    "invalidsecretid" ∷ "signaturefailure" ∷ "authfailure" ∷ "unauthorizedoperation"
    ∷ "unauthorized" ∷ "invalidaccesskeyid" ∷ "signaturedoesnotmatch"
    ∷ "security token included in the request is invalid" ∷ "access key" ∷ "ak" ∷ [])

unfoldable pub is_non_retryable_business_error : Exc → Bool
unfolding contains_any lower
is_non_retryable_business_error e =
    contains_any (error_text e)
      ("invalidinstanceid" ∷ "invalidparameter" ∷ "resource not found" ∷ "instance not found" ∷ [])

abbrev pub non_retryable : Exc → Bool
non_retryable e = is_non_retryable_auth_error e || is_non_retryable_business_error e

-- The provider's SDK, the clock and `time.sleep`, over an unknown world.
pub record World (W : Type 0) : Type 0 where
  pub get_instance_state : W → Outcome Exc InstanceState × W
  pub start_instance : W → Outcome Exc (Unit {0}) × W
  pub stop_instance : String → W → Outcome Exc (Unit {0}) × W
  pub time : W → ℕ
  pub sleep : ℕ → W → W

-- Sleeping takes at least the time that it is given, and no call turns the clock back.
pub record IsTimed {W : Type 0} (p : World W) : Type 0 where
  pub sleep_advances : (n : ℕ) (w : W) → p.time w + n ≤ p.time (p.sleep n w)
  pub state_forward : (w : W) → p.time w ≤ p.time (p.get_instance_state w).1
  pub start_forward : (w : W) → p.time w ≤ p.time (p.start_instance w).1
  pub stop_forward : (m : String) (w : W) → p.time w ≤ p.time (p.stop_instance m w).1
