-- ===== src/Notifications/Life/Deletion.antt =====
-- rdp_proxy/notifications.py: that no verification message is left.
use rdp_on_demand_proxy_serv.Base.{
  ℕ, ◌+◌, ◌≤◌, ◌≡◌, refl, ap, sym, ◌∙◌, arith, inl, inr, Bool-cases, String, false, Option, none,
  some, List, [], ◌∷◌, nat_eq,
}
use rdp_on_demand_proxy_serv.Base.Dict.{get}
use rdp_on_demand_proxy_serv.Notifications.{
  Settings, Outcomes, Notifier, new_notifier, broadcast, send_verification, record_verification,
  on_verification_approved, delete_verification_message_after_ttl,
}
use rdp_on_demand_proxy_serv.Notifications.Life.{
  System, Event, sends, records, ends, approves, new_system, tally, drop_one, sending, recorded,
  ended, step, run,
}
use rdp_on_demand_proxy_serv.Notifications.Life.Counts.{
  held, deleted, tally-drop_one, held-record, after_ttl-sum, after_ttl-timed, approved-sum,
  approved-held,
}

-- Every message that was sent waits for its lock, or for its deletion, or was deleted; a timer runs for
-- each that waits for its deletion.
record IsKept (y : System) : Type 0 where
  balance :
      (k : String) (i : ℕ)
      → tally k i y.sent ≡ tally k i y.unrecorded + (held k i y.notifier + deleted k i y.notifier)
  timed : (k : String) (i : ℕ) → held k i y.notifier ≤ tally k i y.timers
  quiet : (k : String) (i : ℕ) → y.notifier.cfg.telegram_enabled ≡ false → tally k i y.sent ≡ 0

after_ttl-off :
    (n : Notifier) (token : String) (m : ℕ)
    → n.cfg.telegram_enabled ≡ false
    → delete_verification_message_after_ttl n token m ≡ n
unfolding delete_verification_message_after_ttl
after_ttl-off n token m off = rw off refl

cfg-after_ttl :
    (n : Notifier) (token : String) (m : ℕ)
    → (delete_verification_message_after_ttl n token m).cfg ≡ n.cfg
unfolding delete_verification_message_after_ttl
cfg-after_ttl n token m = ground arith

cfg-approved : (n : Notifier) (token : String) → (on_verification_approved n token).cfg ≡ n.cfg
unfolding on_verification_approved
cfg-approved n token = ground arith

disabled_sends_none :
    (c : Settings) (token : String) (o : Outcomes)
    → c.telegram_enabled ≡ false
    → send_verification c token o ≡ none
unfolding send_verification broadcast
disabled_sends_none c token o off = ground (arith, off)

sending-IsKept :
    (y : System) (token : String) (found : Option ℕ)
    → (y.notifier.cfg.telegram_enabled ≡ false → found ≡ none)
    → IsKept y
    → IsKept (sending y token found)
unfolding tally
sending-IsKept y token none off x = x
sending-IsKept y token (some m) off x = record {
  balance = λ k i. omega (arith, x.balance k i);
  timed = x.timed;
  quiet = λ k i h. absurd (cc (off h));
}

recorded-IsKept :
    (y : System) (token : String) (m : ℕ)
    → nat_eq (tally token m y.unrecorded) 0 ≡ false
    → IsKept y
    → IsKept (recorded y token m)
unfolding tally record_verification
recorded-IsKept y token m there x = record {
  balance = λ k i. omega (
    arith,
    x.balance k i,
    tally-drop_one k i token m y.unrecorded there,
    held-record k i y.notifier token m,
  );
  timed = λ k i. omega (arith, x.timed k i, held-record k i y.notifier token m);
  quiet = x.quiet;
}

-- While Telegram is off, nothing waits.
quiet-held :
    (y : System) (k : String) (i : ℕ)
    → IsKept y
    → y.notifier.cfg.telegram_enabled ≡ false
    → held k i y.notifier ≡ 0
quiet-held y k i x off = omega (arith, x.balance k i, x.quiet k i off)

ended-timed :
    (y : System) (token : String) (m : ℕ)
    → nat_eq (tally token m y.timers) 0 ≡ false
    → IsKept y
    → (k : String) (i : ℕ)
    → held k i (ended y token m).notifier ≤ tally k i (drop_one token m y.timers)
ended-timed y token m there x k i = elim (Bool-cases y.notifier.cfg.telegram_enabled) [
  | inl on ↦
      after_ttl-timed k i y.notifier token m (tally k i y.timers)
        (tally k i (drop_one token m y.timers)) on (x.timed k i)
        (tally-drop_one k i token m y.timers there)
  | inr off ↦
      omega (arith, quiet-held y k i x off, ap (held k i) (after_ttl-off y.notifier token m off))
]

ended-IsKept :
    (y : System) (token : String) (m : ℕ)
    → nat_eq (tally token m y.timers) 0 ≡ false
    → IsKept y
    → IsKept (ended y token m)
ended-IsKept y token m there x = record {
  balance = λ k i. omega (arith, x.balance k i, after_ttl-sum k i y.notifier token m);
  timed = ended-timed y token m there x;
  quiet = λ k i h.
      x.quiet k i (sym (ap (λ c. c.telegram_enabled) (cfg-after_ttl y.notifier token m)) ∙ h);
}

step-IsKept : (y : System) (e : Event) → IsKept y → IsKept (step y e)
unfolding step
step-IsKept y (sends token o) x =
    sending-IsKept y token (send_verification y.notifier.cfg token o)
      (disabled_sends_none y.notifier.cfg token o) x
step-IsKept y (records token m) x = elim (Bool-cases (nat_eq (tally token m y.unrecorded) 0)) [
  | inl e ↦ rw e x
  | inr e ↦ rw e (recorded-IsKept y token m e x)
]
step-IsKept y (ends token m) x = elim (Bool-cases (nat_eq (tally token m y.timers) 0)) [
  | inl e ↦ rw e x
  | inr e ↦ rw e (ended-IsKept y token m e x)
]
step-IsKept y (approves token) x = record {
  balance = λ k i. omega (arith, x.balance k i, approved-sum k i y.notifier token);
  timed = λ k i. omega (arith, x.timed k i, approved-held k i y.notifier token);
  quiet =
      λ k i h. x.quiet k i (sym (ap (λ c. c.telegram_enabled) (cfg-approved y.notifier token)) ∙ h);
}

run-IsKept : (y : System) (es : List Event) → IsKept y → IsKept (run y es)
unfolding run
run-IsKept y [] x = x
run-IsKept y (e ∷ es) x = run-IsKept (step y e) es (step-IsKept y e x)

new_system-IsKept : (c : Settings) → IsKept (new_system c)
unfolding new_system new_notifier tally get
new_system-IsKept c = record {
  balance = λ k i. refl;
  timed = λ k i. omega arith;
  quiet = λ k i h. refl;
}

-- However the threads take turns, the deletion of no message that was sent with a link is asked for more often
-- than the message was sent.
pub deleted_was_sent :
    (c : Settings) (es : List Event) (token : String) (message_id : ℕ)
    → deleted token message_id (run (new_system c) es).notifier
      ≤ tally token message_id (run (new_system c) es).sent
deleted_was_sent c es k i =
    omega (arith, (run-IsKept (new_system c) es (new_system-IsKept c)).balance k i)

-- However the threads that send verification messages, answers to links and timers take turns from the start,
-- when no thread is about to record a message and no timer sleeps, the deletion of every message that had a
-- token was asked for exactly as often as the message was sent.
pub sent_is_deleted :
    (c : Settings) (es : List Event) (token : String) (message_id : ℕ)
    → (run (new_system c) es).unrecorded ≡ []
    → (run (new_system c) es).timers ≡ []
    → tally token message_id (run (new_system c) es).notifier.verification_deletes
      ≡ tally token message_id (run (new_system c) es).sent
unfolding tally
sent_is_deleted c es k i none_unrecorded no_timer =
    let x = run-IsKept (new_system c) es (new_system-IsKept c) in
    omega
      (arith, x.balance k i, x.timed k i, ap (tally k i) none_unrecorded, ap (tally k i) no_timer)
