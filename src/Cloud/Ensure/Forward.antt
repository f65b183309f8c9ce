-- ===== src/Cloud/Ensure/Forward.antt =====
-- The clock over the steps of rdp_proxy/proxy.py, `_execute_cloud_action_with_retry` and one turn of
-- `_ensure_instance_running`.
use native.Mathlib.Nat.{le_refl, le_trans}
use rdp_on_demand_proxy_serv.Base.{
  ℕ, zero, suc, ◌+◌, ◌≤◌, Bool, true, false, ◌||◌, Option, String, List, [], ◌∷◌, Outcome, returned,
  raised, Bool-cases, inl, inr, arith, leb, if◌then◌else◌, seconds, ◌&&◌, not,
}
use rdp_on_demand_proxy_serv.Cloud.{
  InstanceState, Operation, start, stop, other, Exc, World, IsTimed, non_retryable,
  state_satisfies_operation, state_blocks_operation,
}
use rdp_on_demand_proxy_serv.Cloud.Retry.{
  Event, failed, checked, Memory, no_memory, Verdict, succeeds, breaks, continues, Run,
  max_action_retries, round, loop, conclude, attempt, attempted, recover, perform, after,
  execute_cloud_action_with_retry, state_or_unknown, remember_check, backoff,
}
use rdp_on_demand_proxy_serv.Cloud.Ensure.{
  Target, Turn, answers, waits, pause, requested, turn_on, checked_turn, turn, is_running,
  is_stopped,
}

abbrev world_of : {W : Type 0} → Verdict W → W
world_of (succeeds m es w) = w
world_of (breaks m es w) = w
world_of (continues m es w) = w

module _ {W : Type 0} (p : World W) (timed : IsTimed p) (stop_mode : Option String) where
  record Later (n : ℕ) (v : Verdict W) : Type 0 where
    at : n ≤ p.time (world_of v)

  Later-trans : (m n : ℕ) (v : Verdict W) → m ≤ n → Later n v → Later m v
  Later-trans m n v le h = record { at = le_trans le h.at }

  sleep_forward : (n : ℕ) (w : W) → p.time w ≤ p.time (p.sleep n w)
  sleep_forward n w = omega (arith, timed.sleep_advances n w)

  after-Later :
      (n : ℕ) (es : List Event) (v : Verdict W) → Later n v → Later n (after p stop_mode es v)
  after-Later n es (succeeds m fs w) h = record { at = h.at }
  after-Later n es (breaks m fs w) h = record { at = h.at }
  after-Later n es (continues m fs w) h = record { at = h.at }

  perform_later : (op : Operation) (w : W) → p.time w ≤ p.time (perform p stop_mode op w).1
  unfolding perform
  perform_later start w = timed.start_forward w
  perform_later stop w = timed.stop_forward _ w
  perform_later (other name) w = le_refl _

  choice-Later :
      (n : ℕ) (b : Bool) (v₁ v₂ : Verdict W)
      → Later n v₁
      → Later n v₂
      → Later n (if b then v₁ else v₂)
  choice-Later n true v₁ v₂ h₁ h₂ = h₁
  choice-Later n false v₁ v₂ h₁ h₂ = h₂

  recover-Later :
      (index : ℕ) (op : Operation) (m : Memory) (e : Exc) (w : W)
      → Later (p.time w) (recover p stop_mode index op m e w)
  unfolding recover
  recover-Later index op m e w =
      let (answer, w') = p.get_instance_state w in
      let forward = timed.state_forward w in
      elim (Bool-cases (state_satisfies_operation op (state_or_unknown answer))) [
        | inl there ↦ rw there (record { at = forward })
        | inr away ↦ rw away (
            choice-Later (p.time w) (non_retryable e || leb max_action_retries index) _ _
              (record { at = forward })
              (record { at = le_trans forward (sleep_forward (seconds (backoff index)) w') }))
      ]

  attempted-Later :
      (index : ℕ) (op : Operation) (m : Memory) (answer : Outcome Exc (Unit {0})) (w : W)
      → Later (p.time w) (attempted p stop_mode index op m (answer, w))
  unfolding attempted
  attempted-Later index op m (returned u) w = record { at = le_refl _ }
  attempted-Later index op m (raised e) w =
      after-Later _ (failed e ∷ []) _ (recover-Later index op m e w)

  attempt-Later :
      (index : ℕ) (op : Operation) (m : Memory) (w : W)
      → Later (p.time w) (attempt p stop_mode index op m w)
  unfolding attempt
  attempt-Later index op m w =
      let (answer, w') = perform p stop_mode op w in
      Later-trans _ _ _ (perform_later op w) (attempted-Later index op m answer w')

  round-Later :
      (index : ℕ) (op : Operation) (m : Memory) (w : W)
      → Later (p.time w) (round p stop_mode index op m w)
  unfolding round
  round-Later index op m w =
      let (answer, w') = p.get_instance_state w in
      let forward = timed.state_forward w in
      let here : p.time w ≤ p.time w' = forward in
      let st = state_or_unknown answer in
      elim (Bool-cases (state_satisfies_operation op st)) [
        | inl there ↦ rw there (record { at = forward })
        | inr away ↦ elim (Bool-cases (state_blocks_operation op st)) [
          | inl blocked ↦
              rw (away, blocked)
                (choice-Later (p.time w) (leb max_action_retries index) _ _
                  (record { at = forward })
                  (record { at = le_trans forward (sleep_forward (seconds (backoff index)) w') }))
          | inr free ↦
              rw (away, free)
                (after-Later _ (checked st ∷ []) _
                  (Later-trans _ _ _ here (attempt-Later index op (remember_check m answer) w')))
        ]
      ]

  conclude-Later :
      (n attempts : ℕ) (rest : Memory → W → Run W) (v : Verdict W)
      → ((m : Memory) (w : W) → p.time w ≤ p.time (rest m w).world)
      → Later n v
      → n ≤ p.time (conclude p stop_mode rest attempts v).world
  unfolding conclude
  conclude-Later n attempts rest (succeeds m es w) h l = l.at
  conclude-Later n attempts rest (breaks m es w) h l = l.at
  conclude-Later n attempts rest (continues m es w) h l = le_trans l.at (h m w)

  loop_later :
      (left index : ℕ) (op : Operation) (m : Memory) (w : W)
      → p.time w ≤ p.time (loop p stop_mode left index op m w).world
  unfolding loop
  loop_later zero index op m w = le_refl _
  loop_later (suc left) index op m w =
      conclude-Later (p.time w) (index + 1) _ _ (λ m' w'. loop_later left (index + 1) op m' w')
        (round-Later index op m w)

  pub execute_later :
      (op : Operation) (w : W)
      → p.time w ≤ p.time (execute_cloud_action_with_retry p stop_mode op w).world
  unfolding execute_cloud_action_with_retry
  execute_later op w = loop_later (max_action_retries + 1) 0 op no_memory w

module _ {W : Type 0} (p : World W) (timed : IsTimed p) (t : Target) where
  -- A turn that goes on ends at least the poll interval after it began.
  abbrev pub Paused : ℕ → Turn W → Type 0
  Paused n (answers r w) = Unit
  Paused n (waits started w) = n + seconds t.startup_poll_seconds ≤ p.time w

  pause-Paused : (n : ℕ) (started : Bool) (w : W) → n ≤ p.time w → Paused n (pause p t started w)
  pause-Paused n started w h =
      omega (arith, timed.sleep_advances (seconds t.startup_poll_seconds) w)

  requested-Paused : (n : ℕ) (r : Run W) → n ≤ p.time r.world → Paused n (requested p t r)
  unfolding requested
  requested-Paused n r h = elim (Bool-cases r.success) [
    | inl done ↦ rw done (pause-Paused n true r.world h)
    | inr undone ↦ rw undone tt
  ]

  turn_on-Paused :
      (started : Bool) (st : InstanceState) (w : W) → Paused (p.time w) (turn_on p t started st w)
  unfolding turn_on
  turn_on-Paused started st w = elim (Bool-cases (is_running st)) [
    | inl up ↦ rw up tt
    | inr down ↦ elim (Bool-cases (is_stopped st && not started)) [
      | inl ask ↦
          rw (down, ask)
            (requested-Paused _ (execute_cloud_action_with_retry p t.stop_mode start w)
              (execute_later p timed t.stop_mode start w))
      | inr wait ↦ rw (down, wait) (pause-Paused _ started w (le_refl _))
    ]
  ]

  Paused-mono : (m n : ℕ) (v : Turn W) → m ≤ n → Paused n v → Paused m v
  Paused-mono m n (answers r w) le h = tt
  Paused-mono m n (waits started w) le h = omega arith

  checked_turn-Paused :
      (started : Bool) (answer : Outcome Exc InstanceState) (w : W)
      → Paused (p.time w) (checked_turn p t started (answer, w))
  unfolding checked_turn
  checked_turn-Paused started (returned st) w = turn_on-Paused started st w
  checked_turn-Paused started (raised e) w = tt

  pub turn-Paused : (started : Bool) (w : W) → Paused (p.time w) (turn p t started w)
  unfolding turn
  turn-Paused started w = elim (Bool-cases t.has_provider) [
    | inl there ↦
        let (answer, w') = p.get_instance_state w in
        simp there (
          Paused-mono _ _ (checked_turn p t started (answer, w')) (timed.state_forward w)
            (checked_turn-Paused started answer w'))
    | inr away ↦ simp away tt
  ]
