-- ===== src/Cloud/Idle/History.antt =====
-- rdp_proxy/proxy.py: `_idle_shutdown_loop` among the connections and the operator's choices, in any order, and
-- what is to be read from the history of them. The `time.sleep(10)` of the loop, and all else that moves the
-- world on, is the event `elsewhere`.
use rdp_on_demand_proxy_serv.Base.{
  ℕ, suc, ◌+◌, ◌-◌, ◌*◌, ◌≤◌, ◌≡◌, refl, ◌∙◌, String, Bool, true, false, List, [], ◌∷◌, raised,
  seconds, if◌then◌else◌, ◌==◌, ◌||◌, arith, ap, sym, subst, Bool-cases, inl, inr,
}
use rdp_on_demand_proxy_serv.Cloud.{Exc, World}
use rdp_on_demand_proxy_serv.Cloud.Retry.{Run}
use rdp_on_demand_proxy_serv.Cloud.Ensure.{Target}
use rdp_on_demand_proxy_serv.Cloud.Idle.{
  IdleState, IdleTurn, skips, stops, dies, idle_turn, apply_idle_action, stop_needs,
  raised_check_dies, skipping_keeps,
}

-- What happened: a stop has the time when its turn read the counters, whether it succeeded, and the time
-- of its end.
pub data Entry : Type 0 where
  opened failed_check : Entry
  closed : ℕ → Entry
  chose : String → Entry
  tried_stop : ℕ → Bool → ℕ → Entry

-- The log has the latest entry first.
pub record Loop (W : Type 0) : Type 0 where
  pub idle : IdleState
  pub world : W
  pub alive : Bool
  pub log : List Entry

pub data Event (W : Type 0) : Type 0 where
  connects disconnects turns : Event W
  chooses : String → Event W
  elsewhere : W → Event W

-- The connections that are open at the end of a history.
abbrev pub open_count : List Entry → ℕ
open_count [] = 0
open_count (opened ∷ l) = suc (open_count l)
open_count (closed at ∷ l) = open_count l - 1
open_count (e ∷ l) = open_count l

-- The time of the last disconnect or of the end of the last stop that succeeded, or else the time of the start.
abbrev pub quiet_since : ℕ → List Entry → ℕ
quiet_since begun [] = begun
quiet_since begun (closed at ∷ l) = at
quiet_since begun (tried_stop read true at ∷ l) = at
quiet_since begun (e ∷ l) = quiet_since begun l

-- The last choice that is one of the two actions.
abbrev pub chosen : List Entry → String
chosen [] = "keep_running"
chosen (chose action ∷ l) =
    let before = chosen l in
    if action == "keep_running" || action == "shutdown_on_idle" then action else before
chosen (e ∷ l) = chosen l

abbrev pub stop_count : List Entry → ℕ
stop_count [] = 0
stop_count (tried_stop read done at ∷ l) = suc (stop_count l)
stop_count (e ∷ l) = stop_count l

module _ {W : Type 0} (p : World W) (t : Target) where
  unfoldable pub new_loop : W → Loop W
  new_loop w = record {
    idle = record {
      active_connections = 0;
      last_disconnect_at = p.time w;
      idle_action = "keep_running";
    };
    world = w;
    alive = true;
    log = [];
  }

  abbrev after_turn : Loop W → IdleTurn W → Loop W
  after_turn y (skips s w) = record y { idle = s; world = w }
  after_turn y (stops r s) = record y {
    idle = s;
    world = r.world;
    log = tried_stop (p.time y.world) r.success (p.time r.world) ∷ y.log;
  }
  after_turn y (dies e w) = record y { world = w; alive = false; log = failed_check ∷ y.log }

  unfoldable pub step : Loop W → Event W → Loop W
  step y connects = record y {
    idle = record y.idle { active_connections = y.idle.active_connections + 1 };
    log = opened ∷ y.log;
  }
  step y disconnects = record y {
    idle = record y.idle {
      active_connections = y.idle.active_connections - 1;
      last_disconnect_at = p.time y.world;
    };
    log = closed (p.time y.world) ∷ y.log;
  }
  step y (chooses action) = record y {
    idle = apply_idle_action y.idle action;
    log = chose action ∷ y.log;
  }
  step y (elsewhere w) = record y { world = w }
  step y turns = if y.alive then after_turn y (idle_turn p t y.idle y.world) else y

  unfoldable pub run : Loop W → List (Event W) → Loop W
  run y [] = y
  run y (e ∷ es) = run (step y e) es

  -- Each stop of a history was tried with no connection open, by the last choice, and after the idle time.
  abbrev pub AreJustified : ℕ → List Entry → Type 0
  AreJustified begun [] = Unit
  AreJustified begun (tried_stop read done at ∷ l) =
      (open_count l ≡ 0)
      × (chosen l ≡ "shutdown_on_idle")
      × (quiet_since begun l + seconds (t.idle_shutdown_minutes * 60) ≤ read)
      × AreJustified begun l
  AreJustified begun (e ∷ l) = AreJustified begun l

  -- The counters are what the history says.
  record Tracks (begun : ℕ) (y : Loop W) : Type 0 where
    active : y.idle.active_connections ≡ open_count y.log
    quiet : y.idle.last_disconnect_at ≡ quiet_since begun y.log
    action : y.idle.idle_action ≡ chosen y.log
    justified : AreJustified begun y.log

  stop_quiet :
      (begun : ℕ) (y : Loop W) (s : IdleState) (r : Run W)
      → s.last_disconnect_at ≡ (if r.success then p.time r.world else y.idle.last_disconnect_at)
      → y.idle.last_disconnect_at ≡ quiet_since begun y.log
      → s.last_disconnect_at
        ≡ quiet_since begun (tried_stop (p.time y.world) r.success (p.time r.world) ∷ y.log)
  stop_quiet begun y s r e k = elim (Bool-cases r.success) [
    | inl done ↦ simp done (simp done at e)
    | inr failed ↦ simp failed (simp failed at e ∙ k)
  ]

  turned-Tracks :
      (begun : ℕ) (y : Loop W) (v : IdleTurn W)
      → idle_turn p t y.idle y.world ≡ v
      → Tracks begun y
      → Tracks begun (after_turn y v)
  turned-Tracks begun y (skips s w) e k =
      let same = skipping_keeps p t y.idle s y.world w e in
      record {
        active = ap (λ (i : IdleState). i.active_connections) same ∙ k.active;
        quiet = ap (λ (i : IdleState). i.last_disconnect_at) same ∙ k.quiet;
        action = ap (λ (i : IdleState). i.idle_action) same ∙ k.action;
        justified = k.justified;
      }
  turned-Tracks begun y (stops r s) e k =
      let (cloud, chosen_, none_active, long, seen, is, active_, action_, quiet_) =
        stop_needs p t y.idle s y.world r e in
      record {
        active = active_ ∙ sym none_active ∙ k.active;
        quiet = stop_quiet begun y s r quiet_ k.quiet;
        action = action_ ∙ k.action;
        justified = (
          sym k.active ∙ none_active,
          sym k.action ∙ chosen_,
          subst (λ n. n + seconds (t.idle_shutdown_minutes * 60) ≤ p.time y.world) k.quiet long,
          k.justified,
        );
      }
  turned-Tracks begun y (dies x w) e k = record {
    active = k.active;
    quiet = k.quiet;
    action = k.action;
    justified = k.justified;
  }

  step-Tracks : (begun : ℕ) (y : Loop W) (e : Event W) → Tracks begun y → Tracks begun (step y e)
  unfolding step apply_idle_action
  step-Tracks begun y connects k = record {
    active = ground (arith, k.active);
    quiet = k.quiet;
    action = k.action;
    justified = k.justified;
  }
  step-Tracks begun y disconnects k = record {
    active = ground (arith, k.active);
    quiet = refl;
    action = k.action;
    justified = k.justified;
  }
  step-Tracks begun y (chooses a) k = record {
    active = ground (arith, k.active);
    quiet = ground (arith, k.quiet);
    action = ground (arith, k.action);
    justified = k.justified;
  }
  step-Tracks begun y (elsewhere w) k = record {
    active = k.active;
    quiet = k.quiet;
    action = k.action;
    justified = k.justified;
  }
  step-Tracks begun y turns k = elim (Bool-cases y.alive) [
    | inl e ↦ simp e (turned-Tracks begun y (idle_turn p t y.idle y.world) refl k)
    | inr e ↦ simp e k
  ]

  run-Tracks :
      (begun : ℕ) (y : Loop W) (es : List (Event W)) → Tracks begun y → Tracks begun (run y es)
  unfolding run
  run-Tracks begun y [] k = k
  run-Tracks begun y (e ∷ es) k = run-Tracks begun (step y e) es (step-Tracks begun y e k)

  -- After the start of a target, whatever connections, choices and turns of the idle loop follow in whatever
  -- order, and whatever the provider and the clock give: each time that the loop tried to stop the instance, at
  -- the moment when the turn read the counters no connection was open, the last valid choice of the operator was
  -- `shutdown_on_idle`, and the idle time had passed since the last disconnect, the end of the last stop that
  -- succeeded, or the start, whichever was recorded last.
  pub idle_stop_justified :
      (w : W) (es : List (Event W)) → AreJustified (p.time w) (run (new_loop w) es).log
  unfolding new_loop
  idle_stop_justified w es =
      (run-Tracks (p.time w) (new_loop w) es
        (record { active = refl; quiet = refl; action = refl; justified = tt })).justified

  dead_turn : (y : Loop W) → y.alive ≡ false → step y turns ≡ y
  unfolding step
  dead_turn y d = simp d refl

  stays_dead :
      (y : Loop W) (es : List (Event W))
      → y.alive ≡ false
      → stop_count (run y es).log ≡ stop_count y.log
  unfolding run step
  stays_dead y [] d = refl
  stays_dead y (connects ∷ es) d = stays_dead (step y connects) es d
  stays_dead y (disconnects ∷ es) d = stays_dead (step y disconnects) es d
  stays_dead y (chooses a ∷ es) d = stays_dead (step y (chooses a)) es d
  stays_dead y (elsewhere w ∷ es) d = stays_dead (step y (elsewhere w)) es d
  stays_dead y (turns ∷ es) d =
      ap (λ (z : Loop W). stop_count (run z es).log) (dead_turn y d) ∙ stays_dead y es d

  turn_of :
      (y : Loop W) (e : Exc)
      → y.alive ≡ true
      → idle_turn p t y.idle y.world ≡ dies e (p.get_instance_state y.world).1
      → step y turns ≡ after_turn y (dies e (p.get_instance_state y.world).1)
  unfolding step
  turn_of y e alive d = rw (alive, d) refl

  -- A turn of the idle loop whose state check raises, where the turn gets to the check, is the last turn that does
  -- anything: whatever connections, choices and turns follow, and however long the target is idle, the loop
  -- tries no stop any more.
  pub idle_thread_dies :
      (y : Loop W) (e : Exc) (es : List (Event W))
      → y.alive ≡ true
      → t.cloud_control_enabled ≡ true
      → t.has_provider ≡ true
      → y.idle.idle_action ≡ "shutdown_on_idle"
      → y.idle.active_connections ≡ 0
      → y.idle.last_disconnect_at + seconds (t.idle_shutdown_minutes * 60) ≤ p.time y.world
      → (p.get_instance_state y.world).0 ≡ raised e
      → stop_count (run y (turns ∷ es)).log ≡ stop_count y.log
  unfolding run
  idle_thread_dies y e es alive cloud provided chosen_ none_active long check =
      let dead = after_turn y (dies e (p.get_instance_state y.world).1) in
      let died : step y turns ≡ dead =
        turn_of y e alive
          (raised_check_dies p t y.idle y.world e cloud provided chosen_ none_active long check) in
      ap (λ (z : Loop W). stop_count (run z es).log) died ∙ stays_dead dead es refl
