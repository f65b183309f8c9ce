-- ===== src/Cloud/Retry/Rounds.antt =====
-- What one round of the retry loop leaves in the trace, and what the rest of the run adds.
use rdp_on_demand_proxy_serv.Base.{
  ℕ, ◌<◌, ◌≡◌, refl, Bool, true, false, Option, none, some, List, [], ◌∷◌, ◌⊎◌, inl, inr, arith,
  Outcome, returned, raised, Bool-cases, leb, String, ◌||◌, if◌then◌else◌,
}
use rdp_on_demand_proxy_serv.Cloud.{
  InstanceState, Operation, state_satisfies_operation, state_blocks_operation, Exc, World,
  non_retryable,
}
use rdp_on_demand_proxy_serv.Cloud.Retry.{
  Event, checked, performed, failed, slept, notified, Memory, Verdict, succeeds, breaks, continues,
  max_action_retries, backoff, perform, recover, after, attempted, attempt, round, state_or_unknown,
  remember_check,
}

abbrev pub sleeps : List Event → List ℕ
sleeps [] = []
sleeps (slept n ∷ es) = n ∷ sleeps es
sleeps (_ ∷ es) = sleeps es

abbrev pub notices : List Event → List (Bool × ℕ)
notices [] = []
notices (notified b n e ∷ es) = (b, n) ∷ notices es
notices (_ ∷ es) = notices es

-- The desired state was seen, or the provider's call returned.
abbrev pub Reached : Operation → List Event → Type 0
Reached op [] = ⊥
Reached op (checked st ∷ es) = (state_satisfies_operation op st ≡ true) ⊎ Reached op es
Reached op (performed ∷ es) = Unit
Reached op (_ ∷ es) = Reached op es

-- The state just seen neither satisfies nor blocks the operation.
abbrev pub Allowed : Operation → Option InstanceState → Type 0
Allowed op none = ⊥
Allowed op (some st) =
    (state_satisfies_operation op st ≡ false) × (state_blocks_operation op st ≡ false)

-- Every call of the provider comes directly after a state check that allowed it.
abbrev pub Careful : Operation → Option InstanceState → List Event → Type 0
Careful op seen [] = Unit
Careful op seen (checked st ∷ es) = Careful op (some st) es
Careful op seen (performed ∷ es) = Allowed op seen × Careful op none es
Careful op seen (failed e ∷ es) = Allowed op seen × Careful op none es
Careful op seen (slept n ∷ es) = Careful op none es
Careful op seen (notified b n e ∷ es) = Careful op none es

-- A round sleeps only where it goes on, once, for its own backoff; it sends no notification; and it
-- ends by success exactly if it reached the state.
abbrev pub RoundLaw : {W : Type 0} → ℕ → Operation → Option InstanceState → Verdict W → Type 0
RoundLaw index op seen (succeeds m es w) =
    (sleeps es ≡ []) × (notices es ≡ []) × Reached op es × Careful op seen es
RoundLaw index op seen (breaks m es w) =
    (sleeps es ≡ []) × (notices es ≡ []) × (Reached op es → ⊥) × Careful op seen es
RoundLaw index op seen (continues m es w) =
    (sleeps es ≡ backoff index ∷ [])
    × (notices es ≡ [])
    × (Reached op es → ⊥)
    × Careful op seen es
    × (index < max_action_retries)

missed :
    (op : Operation) (st : InstanceState) (es : List Event)
    → state_satisfies_operation op st ≡ false
    → (Reached op es → ⊥)
    → Reached op (checked st ∷ es)
    → ⊥
missed op st es away h (inl there) = cc (away, there)
missed op st es away h (inr later) = h later

module _ {W : Type 0} (p : World W) (stop_mode : Option String) where
  wait_law :
      (index : ℕ) (op : Operation) (m : Memory) (st : InstanceState) (w w' : W) (stops : Bool)
      → state_satisfies_operation op st ≡ false
      → (stops ≡ false → index < max_action_retries)
      → RoundLaw index op none (
          if stops
          then breaks m (checked st ∷ []) w
          else continues m (checked st ∷ slept (backoff index) ∷ []) w')
  wait_law index op m st w w' true away h = (refl, refl, missed op st [] away (λ r. r), tt)
  wait_law index op m st w w' false away h =
      (refl, refl, missed op st (slept (backoff index) ∷ []) away (λ r. r), tt, h refl)

  recover_law :
      (index : ℕ) (op : Operation) (m : Memory) (e : Exc) (w : W)
      → RoundLaw index op none (recover p stop_mode index op m e w)
  unfolding recover
  recover_law index op m e w =
      let st = state_or_unknown (p.get_instance_state w).0 in
      elim (Bool-cases (state_satisfies_operation op st)) [
        | inl there ↦ rw there (refl, refl, inl there, tt)
        | inr away ↦ rw away (
            wait_law index op _ st _ _ (non_retryable e || leb max_action_retries index) away
              (λ h. ground arith))
      ]

  failed_law :
      (index : ℕ) (op : Operation) (st : InstanceState) (e : Exc) (v : Verdict W)
      → Allowed op (some st)
      → RoundLaw index op none v
      → RoundLaw index op (some st) (after p stop_mode (failed e ∷ []) v)
  failed_law index op st e (succeeds m es w) a h = (h.0, h.1, h.2, (a, h.3))
  failed_law index op st e (breaks m es w) a h = (h.0, h.1, h.2, (a, h.3))
  failed_law index op st e (continues m es w) a h = (h.0, h.1, h.2, (a, h.3), h.4)

  checked_law :
      (index : ℕ) (op : Operation) (st : InstanceState) (v : Verdict W)
      → state_satisfies_operation op st ≡ false
      → RoundLaw index op (some st) v
      → RoundLaw index op none (after p stop_mode (checked st ∷ []) v)
  checked_law index op st (succeeds m es w) away h = (h.0, h.1, inr h.2, h.3)
  checked_law index op st (breaks m es w) away h = (h.0, h.1, missed op st es away h.2, h.3)
  checked_law index op st (continues m es w) away h = (h.0, h.1, missed op st es away h.2, h.3, h.4)

  attempted_law :
      (index : ℕ) (op : Operation) (st : InstanceState) (m : Memory)
      (answer : Outcome Exc (Unit {0})) (w : W)
      → Allowed op (some st)
      → RoundLaw index op (some st) (attempted p stop_mode index op m (answer, w))
  unfolding attempted
  attempted_law index op st m (returned u) w a = (refl, refl, tt, (a, tt))
  attempted_law index op st m (raised e) w a =
      failed_law index op st e (recover p stop_mode index op m e w) a (recover_law index op m e w)

  -- The law of a round.
  pub round_law :
      (index : ℕ) (op : Operation) (m : Memory) (w : W)
      → RoundLaw index op none (round p stop_mode index op m w)
  unfolding round attempt
  round_law index op m w =
      let (answer, w') = p.get_instance_state w in
      let st = state_or_unknown answer in
      let m' = remember_check m answer in
      elim (Bool-cases (state_satisfies_operation op st)) [
        | inl there ↦ rw there (refl, refl, inl there, tt)
        | inr away ↦ elim (Bool-cases (state_blocks_operation op st)) [
          | inl blocked ↦
              rw (away, blocked)
                (wait_law index op _ st _ _ (leb max_action_retries index) away (λ h. ground arith))
          | inr free ↦
              let (called, w'') = perform p stop_mode op w' in
              rw (away, free)
                (checked_law index op st _ away
                  (attempted_law index op st m' called w'' (away, free)))
        ]
      ]
