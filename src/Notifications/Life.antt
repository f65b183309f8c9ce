-- ===== src/Notifications/Life.antt =====
-- rdp_proxy/notifications.py: the threads that send verification messages, record them, and delete them when
-- their time is over or their link was answered.
pub mod Counts
pub mod Deletion
use rdp_on_demand_proxy_serv.Base.{
  ℕ, zero, suc, ◌+◌, ◌≤◌, ◌≡◌, refl, ap, sym, ◌∙◌, arith, inl, inr, Bool-cases, Option-cases,
  String, Bool, true, false, ◌&&◌, ◌||◌, not, Option, none, some, List, [], ◌∷◌, ◌++◌, nat_eq,
  if◌then◌else◌, ◌==◌, eq_iff, eq_refl,
}
use rdp_on_demand_proxy_serv.Base.Count.{one_if}
use rdp_on_demand_proxy_serv.Base.Dict.{Dict, get, put, pop, get-put, get-pop}
use rdp_on_demand_proxy_serv.Notifications.{
  Settings, Outcomes, Notifier, new_notifier, broadcast, waiting, remember, delete_all,
  send_verification, record_verification, on_verification_approved, is_among, remove, put_or_pop,
  delete_verification_message_after_ttl,
}

-- `sent` has every message that was sent with a token; a thread of `unrecorded` is about to take the lock; one of `timers`
-- sleeps.
pub record System : Type 0 where
  pub notifier : Notifier
  pub sent : List (String × ℕ)
  pub unrecorded : List (String × ℕ)
  pub timers : List (String × ℕ)

pub data Event : Type 0 where
  sends : String → Outcomes → Event
  records ends : String → ℕ → Event
  approves : String → Event

unfoldable pub new_system : Settings → System
new_system cfg = record { notifier = new_notifier cfg; sent = []; unrecorded = []; timers = [] }

abbrev pub is_pair : String → ℕ → String → ℕ → Bool
is_pair k i j m = j == k && nat_eq m i

-- How often a message stands in a list.
unfoldable pub tally : String → ℕ → List (String × ℕ) → ℕ
tally k i [] = 0
tally k i ((j, m) ∷ l) = one_if (is_pair k i j m) + tally k i l

unfoldable pub drop_one : String → ℕ → List (String × ℕ) → List (String × ℕ)
drop_one k i [] = []
drop_one k i ((j, m) ∷ l) =
    let rest = (j, m) ∷ drop_one k i l in if is_pair k i j m then l else rest

abbrev pub sending : System → String → Option ℕ → System
sending y token none = y
sending y token (some message_id) = record y {
  sent = (token, message_id) ∷ y.sent;
  unrecorded = (token, message_id) ∷ y.unrecorded;
}

abbrev pub recorded : System → String → ℕ → System
recorded y token message_id = record y {
  notifier = record_verification y.notifier token message_id;
  unrecorded = drop_one token message_id y.unrecorded;
  timers = (token, message_id) ∷ y.timers;
}

abbrev pub ended : System → String → ℕ → System
ended y token message_id = record y {
  notifier = delete_verification_message_after_ttl y.notifier token message_id;
  timers = drop_one token message_id y.timers;
}

-- A step of a thread that is not there does nothing.
unfoldable pub step : System → Event → System
step y (sends token o) = sending y token (send_verification y.notifier.cfg token o)
step y (records token message_id) =
    if nat_eq (tally token message_id y.unrecorded) 0 then y else recorded y token message_id
step y (ends token message_id) =
    if nat_eq (tally token message_id y.timers) 0 then y else ended y token message_id
step y (approves token) = record y { notifier = on_verification_approved y.notifier token }

unfoldable pub run : System → List Event → System
run y [] = y
run y (e ∷ es) = run (step y e) es
