-- ===== src/Cloud/Ensure/Polling.antt =====
-- The polling loop of rdp_proxy/proxy.py, `_ensure_instance_running`, as a whole.
use rdp_on_demand_proxy_serv.Base.{
  ℕ, zero, suc, ◌+◌, ◌*◌, ◌≤◌, ◌<◌, ◌≡◌, ◌∙◌, refl, Bool, true, false, Outcome, returned, raised,
  Bool-cases, inl, inr, arith, ltb, le→ltb, seconds,
}
use rdp_on_demand_proxy_serv.Cloud.{InstanceState, running, stopped, start, Exc, World, IsTimed}
use rdp_on_demand_proxy_serv.Cloud.Retry.{execute_cloud_action_with_retry}
use rdp_on_demand_proxy_serv.Cloud.Ensure.{
  Target, Turn, answers, waits, requested, turn_on, checked_turn, turn, Ended, out_of_fuel, ended,
  resume, while_open, polling, ensure_instance_running,
}
use rdp_on_demand_proxy_serv.Cloud.Ensure.Forward.{Paused, turn-Paused}

-- The loop came to an end, whatever its answer.
abbrev pub Ends : {W : Type 0} → Ended W → Type 0
Ends out_of_fuel = ⊥
Ends (ended r w) = Unit

module _ {W : Type 0} (p : World W) (timed : IsTimed p) (t : Target) where
  resume-Ends :
      (n : ℕ) (rest : Bool → W → Ended W) (v : Turn W)
      → Paused p timed t n v
      → ((started : Bool) (w : W)
          → n + seconds t.startup_poll_seconds ≤ p.time w
          → Ends (rest started w))
      → Ends (resume p t rest v)
  unfolding resume
  resume-Ends n rest (answers r w) h k = tt
  resume-Ends n rest (waits started w) h k = k started w h

  polling-Ends :
      (fuel deadline : ℕ) (started : Bool) (w : W)
      → deadline < p.time w + fuel * seconds t.startup_poll_seconds + 1
      → Ends (polling p t (suc fuel) deadline started w)
  unfolding polling while_open
  polling-Ends zero deadline started w h = rw (le→ltb (p.time w) deadline (omega arith)) tt
  polling-Ends (suc fuel) deadline started w h = elim (Bool-cases (ltb (p.time w) deadline)) [
    | inl open_ ↦ rw open_ (
        resume-Ends (p.time w) _ (turn p t started w) (turn-Paused p timed t started w)
          (λ started' w' later. polling-Ends fuel deadline started' w' (grind arith)))
    | inr over ↦ rw over tt
  ]

  -- Polling ends, on a clock that every `time.sleep` moves on by at least its time and that no call turns back:
  -- with a poll interval of at least a second, fuel for one turn a second of the timeout, and one
  -- more to see that it has passed, is enough, whatever the provider answers. Nothing is claimed of a clock
  -- that is set back in the meantime, as `time.time()` can be.
  pub ensure-Ends :
      (fuel : ℕ) (w : W)
      → 0 < t.startup_poll_seconds
      → t.startup_timeout_seconds ≤ fuel
      → Ends (ensure_instance_running p t (suc fuel) w)
  unfolding ensure_instance_running
  ensure-Ends fuel w pos enough = elim (Bool-cases t.cloud_control_enabled) [
    | inl on ↦ simp on (polling-Ends fuel _ false w (grind arith))
    | inr off ↦ simp off tt
  ]

-- The instance was seen running by the last thing that was done.
abbrev pub SeenRunning : {W : Type 0} → World W → Outcome Exc Bool → W → Type 0
SeenRunning {W} p (returned true) w = (w₀ : W) × (p.get_instance_state w₀ ≡ (returned running, w))
SeenRunning p _ w = Unit

module _ {W : Type 0} (p : World W) (t : Target) (provided : t.has_provider ≡ true) where
  abbrev TurnSeen : Turn W → Type 0
  TurnSeen (answers r w) = SeenRunning p r w
  TurnSeen (waits started w) = Unit

  turn_on_seen :
      (started : Bool) (st : InstanceState) (w₀ w : W)
      → p.get_instance_state w₀ ≡ (returned st, w)
      → TurnSeen (turn_on p t started st w)
  unfolding turn_on requested
  turn_on_seen started running w₀ w e = (w₀, e)
  turn_on_seen true stopped w₀ w e = tt
  turn_on_seen false stopped w₀ w e =
      elim (Bool-cases (execute_cloud_action_with_retry p t.stop_mode start w).success) [
        | inl done ↦ rw done tt
        | inr undone ↦ rw undone tt
      ]
  turn_on_seen started st w₀ w e = tt

  checked_turn_seen :
      (started : Bool) (answer : Outcome Exc InstanceState) (w₀ w : W)
      → p.get_instance_state w₀ ≡ (answer, w)
      → TurnSeen (checked_turn p t started (answer, w))
  unfolding checked_turn
  checked_turn_seen started (returned st) w₀ w e = turn_on_seen started st w₀ w e
  checked_turn_seen started (raised x) w₀ w e = tt

  turn_seen : (started : Bool) (w : W) → TurnSeen (turn p t started w)
  unfolding turn
  turn_seen started w =
      let (answer, w') = p.get_instance_state w in
      simp provided (checked_turn_seen started answer w w' refl)

  resume_seen :
      (rest : Bool → W → Ended W) (v : Turn W) (w : W)
      → TurnSeen v
      → ((started : Bool) (w₁ : W)
          → rest started w₁ ≡ ended (returned true) w
          → SeenRunning p (returned true) w)
      → resume p t rest v ≡ ended (returned true) w
      → SeenRunning p (returned true) w
  unfolding resume
  resume_seen rest (answers (returned true) w₁) w h k e = (h.0, h.1 ∙ cc)
  resume_seen rest (answers (returned false) w₁) w h k e = cc
  resume_seen rest (answers (raised x) w₁) w h k e = cc
  resume_seen rest (waits started w₁) w h k e = k started w₁ e

  polling_seen :
      (fuel deadline : ℕ) (started : Bool) (w w' : W)
      → polling p t fuel deadline started w ≡ ended (returned true) w'
      → SeenRunning p (returned true) w'
  unfolding polling while_open
  polling_seen zero deadline started w w' = λ e. cc
  polling_seen (suc fuel) deadline started w w' = elim (Bool-cases (ltb (p.time w) deadline)) [
    | inl open_ ↦ rw open_ (
        resume_seen _ (turn p t started w) w' (turn_seen started w)
          (λ started' w₁ e. polling_seen fuel deadline started' w₁ w' e))
    | inr over ↦ rw over (λ e. cc)
  ]

  -- With cloud control on and a provider, a client is let through only if the last thing that was
  -- done is a state check that answered RUNNING.
  pub ensured_running :
      (fuel : ℕ) (w w' : W)
      → t.cloud_control_enabled ≡ true
      → ensure_instance_running p t fuel w ≡ ended (returned true) w'
      → (w₀ : W) × (p.get_instance_state w₀ ≡ (returned running, w'))
  unfolding ensure_instance_running
  ensured_running fuel w w' on = simp on (polling_seen fuel _ false w w')
