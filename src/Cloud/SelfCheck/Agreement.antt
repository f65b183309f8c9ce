-- ===== src/Cloud/SelfCheck/Agreement.antt =====
-- The retry loops of rdp_proxy/app.py and rdp_proxy/proxy.py, side by side.
use rdp_on_demand_proxy_serv.Base.{
  ℕ, zero, suc, ◌+◌, ◌≡◌, refl, ap, String, Bool, true, false, ◌||◌, some, List, [], ◌∷◌, ◌++◌,
  Outcome, returned, raised, leb, if◌then◌else◌, seconds, arith,
}
use rdp_on_demand_proxy_serv.Cloud.{
  InstanceState, Operation, start, stop, other, state_satisfies_operation, state_blocks_operation,
  Exc, World, is_non_retryable_auth_error, is_non_retryable_business_error, non_retryable,
}
use rdp_on_demand_proxy_serv.Cloud.Retry.{
  Event, checked, performed, failed, slept, notified, Memory, no_memory, Verdict, succeeds, breaks,
  continues, Run, max_action_retries, backoff, round, loop, conclude, attempt, attempted, recover,
  perform, after, execute_cloud_action_with_retry, state_or_unknown, remember_check,
}
use rdp_on_demand_proxy_serv.Cloud.SelfCheck.{
  without_text, self_check_round, self_check_loop, self_check_conclude, self_check_perform,
  seen_state, after_failed_check, self_check_attempted, run_cloud_action_with_retry_for_self_check,
  after_check, state_satisfies_operation as own_satisfies, state_blocks_operation as own_blocks,
  is_non_retryable_auth_error as own_auth_error,
  is_non_retryable_business_error as own_business_error, non_retryable as own_non_retryable,
}

-- The command line's operations.
pub data IsAction : Operation → Type 0 where
  starts : IsAction start
  stops : IsAction stop

-- The same result, attempts and world, and the same trace but for the text of a notification.
pub record SameRun {W : Type 0} (r r' : Run W) : Type 0 where
  pub success : r.success ≡ r'.success
  pub attempts : r.attempts ≡ r'.attempts
  pub world : r.world ≡ r'.world
  pub trace : without_text r.trace ≡ without_text r'.trace

without_text-append :
    (es fs gs : List Event)
    → without_text fs ≡ without_text gs
    → without_text (es ++ fs) ≡ without_text (es ++ gs)
without_text-append [] fs gs h = h
without_text-append (notified b n t ∷ es) fs gs h =
    ap (λ hs. notified b n "" ∷ hs) (without_text-append es fs gs h)
without_text-append (checked st ∷ es) fs gs h =
    ap (λ hs. checked st ∷ hs) (without_text-append es fs gs h)
without_text-append (performed ∷ es) fs gs h =
    ap (λ hs. performed ∷ hs) (without_text-append es fs gs h)
without_text-append (failed e ∷ es) fs gs h =
    ap (λ hs. failed e ∷ hs) (without_text-append es fs gs h)
without_text-append (slept n ∷ es) fs gs h =
    ap (λ hs. slept n ∷ hs) (without_text-append es fs gs h)

-- The two modules' predicates on states and errors have the same values.
own_satisfies_same :
    (op : Operation) (st : InstanceState) → own_satisfies op st ≡ state_satisfies_operation op st
unfolding own_satisfies state_satisfies_operation
own_satisfies_same op st = ground arith

own_blocks_same :
    (op : Operation) (st : InstanceState) → own_blocks op st ≡ state_blocks_operation op st
unfolding own_blocks state_blocks_operation
own_blocks_same op st = ground arith

seen_state_same : (o : Outcome Exc InstanceState) → seen_state o ≡ state_or_unknown o
seen_state_same (returned st) = refl
seen_state_same (raised e) = refl

after_failed_check_same :
    (m : Memory) (o : Outcome Exc InstanceState) → after_failed_check m o ≡ remember_check m o
after_failed_check_same m (returned st) = refl
after_failed_check_same m (raised e) = refl

own_non_retryable_same : (e : Exc) → own_non_retryable e ≡ non_retryable e
unfolding own_auth_error own_business_error is_non_retryable_auth_error
    is_non_retryable_business_error
own_non_retryable_same e = refl

module _ {W : Type 0} (p : World W) (stop_mode : String) where
  conclude_same :
      (rest rest' : Memory → W → Run W) (attempts : ℕ) (v : Verdict W)
      → ((m : Memory) (w : W) → SameRun (rest m w) (rest' m w))
      → SameRun
          (self_check_conclude p stop_mode rest attempts v)
          (conclude p (some stop_mode) rest' attempts v)
  unfolding self_check_conclude conclude
  conclude_same rest rest' attempts (succeeds m es w) h = record {
    success = refl;
    attempts = refl;
    world = refl;
    trace = without_text-append es _ _ refl;
  }
  conclude_same rest rest' attempts (breaks m es w) h = record {
    success = refl;
    attempts = refl;
    world = refl;
    trace = without_text-append es _ _ refl;
  }
  conclude_same rest rest' attempts (continues m es w) h =
      let same = h m w in
      record {
        success = same.success;
        attempts = same.attempts;
        world = same.world;
        trace = without_text-append es _ _ same.trace;
      }

  attempted_same :
      (index : ℕ) (op : Operation) (st : InstanceState) (m : Memory)
      (answer : Outcome Exc (Unit {0})) (w : W)
      → after_check p stop_mode st (self_check_attempted p stop_mode index op m (answer, w))
        ≡ after p
            (some stop_mode)
            (checked st ∷ [])
            (attempted p (some stop_mode) index op m (answer, w))
  unfolding self_check_attempted attempted recover
  attempted_same index op st m (returned u) w = refl
  attempted_same index op st m (raised e) w =
      rw
        (
          seen_state_same (p.get_instance_state w).0,
          own_satisfies_same op (state_or_unknown (p.get_instance_state w).0),
          own_non_retryable_same e,
        )
        (branch (state_satisfies_operation op (state_or_unknown (p.get_instance_state w).0))
          (non_retryable e || leb max_action_retries index))
    where
      w' : W
      w' = (p.get_instance_state w).1

      now : InstanceState
      now = state_or_unknown (p.get_instance_state w).0

      m' : Memory
      m' = record m { last_exc = some e }

      branch :
          (b c : Bool)
          → after_check p stop_mode st (
              if b
              then succeeds m' (failed e ∷ checked now ∷ []) w'
              else if c
              then breaks m' (failed e ∷ checked now ∷ []) w'
              else continues m'
                  (failed e ∷ checked now ∷ slept (backoff index) ∷ [])
                  (p.sleep (seconds (backoff index)) w'))
            ≡ after p (some stop_mode) (checked st ∷ []) (
                after p (some stop_mode) (failed e ∷ []) (
                  if b
                  then succeeds m' (checked now ∷ []) w'
                  else if c
                  then breaks m' (checked now ∷ []) w'
                  else continues m'
                      (checked now ∷ slept (backoff index) ∷ [])
                      (p.sleep (seconds (backoff index)) w')))
      branch true c = refl
      branch false true = refl
      branch false false = refl

  round_same :
      (index : ℕ) (op : Operation) (m : Memory) (w : W)
      → IsAction op
      → self_check_round p stop_mode index op m w ≡ round p (some stop_mode) index op m w
  unfolding self_check_round round attempt self_check_perform perform
  round_same index start m w _ =
      let w' = (p.get_instance_state w).1 in
      let st = state_or_unknown (p.get_instance_state w).0 in
      let (called, w'') = p.start_instance w' in
      rw (
        own_satisfies_same start st,
        own_blocks_same start st,
        attempted_same index start _ _ called w'',
      )
  round_same index stop m w _ =
      let w' = (p.get_instance_state w).1 in
      let (called, w'') = p.stop_instance stop_mode w' in
      let st = state_or_unknown (p.get_instance_state w).0 in
      rw (
        own_satisfies_same stop st,
        own_blocks_same stop st,
        attempted_same index stop _ _ called w'',
      )
  round_same index (other name) m w x = elim x [ ]

  loop_same :
      (left index : ℕ) (op : Operation) (m : Memory) (w : W)
      → IsAction op
      → SameRun
          (self_check_loop p stop_mode left index op m w)
          (loop p (some stop_mode) left index op m w)
  unfolding self_check_loop loop
  loop_same zero index op m w a = record {
    success = refl;
    attempts = refl;
    world = refl;
    trace = refl;
  }
  loop_same (suc left) index op m w a = rw (round_same index op m w a) (
      conclude_same _ _ (index + 1) (round p (some stop_mode) index op m w)
        (λ m' w'. loop_same left (index + 1) op m' w' a))

  -- For the command line's two operations and a target with a cloud section, the self-check's copy of
  -- the retry loop, with its own copies of the tests of states and errors, of the number of retries and of the
  -- backoffs, has the result, the attempts and the effects of the proxy's, step by step; only the message of
  -- the final notification may differ.
  pub self_check_agrees :
      (op : Operation) (w : W)
      → IsAction op
      → SameRun
          (run_cloud_action_with_retry_for_self_check p stop_mode op w)
          (execute_cloud_action_with_retry p (some stop_mode) op w)
  unfolding run_cloud_action_with_retry_for_self_check execute_cloud_action_with_retry
  self_check_agrees op w a = loop_same (max_action_retries + 1) 0 op no_memory w a
