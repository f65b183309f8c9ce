-- ===== src/Notifications.antt =====
-- rdp_proxy/notifications.py: what a notification sends, and the Telegram messages that are to be deleted. A post's
-- outcome is given: whether it was accepted, and the JSON that came back. A number of that JSON is an integer.
pub mod Life
pub mod Inbound
mod Tests
use rdp_on_demand_proxy_serv.Base.{
  ℕ, ◌+◌, String, ◌<>◌, Bool, true, false, ◌||◌, not, Option, none, some, List, [], ◌∷◌, ◌++◌,
  nat_eq, if◌then◌else◌, ◌==◌,
}
use rdp_on_demand_proxy_serv.Base.Dict.{Dict, get, put, pop}
use rdp_on_demand_proxy_serv.Whitelist.File.{Json, null, flag, number, text, array, object, find}

pub record Settings : Type 0 where
  pub telegram_enabled : Bool
  pub bot_token : String
  pub chat_id : String
  pub dingtalk_enabled : Bool
  pub dingtalk_webhook : String
  pub wecom_enabled : Bool
  pub wecom_webhook : String

-- What the three posts of a notification give, if they are made.
pub record Outcomes : Type 0 where
  pub telegram : Bool × Option Json
  pub dingtalk : Bool
  pub wecom : Bool

-- A log of deletions has the token or the target with the id of each message, the latest first.
pub record Notifier : Type 0 where
  pub cfg : Settings
  pub telegram_verification_messages : Dict (List ℕ)
  pub telegram_disconnect_messages : Dict (List ℕ)
  pub verification_deletes : List (String × ℕ)
  pub disconnect_deletes : List (String × ℕ)

unfoldable pub new_notifier : Settings → Notifier
new_notifier cfg = record {
  cfg = cfg;
  telegram_verification_messages = [];
  telegram_disconnect_messages = [];
  verification_deletes = [];
  disconnect_deletes = [];
}

-- A value that `isinstance` finds to be an int, which a Boolean is.
abbrev pub int_value : Option Json → Option ℕ
int_value (some (number n)) = some n
int_value (some (flag b)) = some (if b then 1 else 0)
int_value (some null) = none
int_value (some (text t)) = none
int_value (some (array js)) = none
int_value (some (object fs)) = none
int_value none = none

abbrev field_value : Option Json → String → Option Json
field_value (some (object fs)) name = find fs name
field_value o name = none

-- Whether Telegram took the message, and the message's id.
unfoldable pub send_telegram : Settings → Bool × Option Json → Bool × Option ℕ
unfolding find
send_telegram c (ok, response) =
    if c.bot_token == "" || c.chat_id == ""
    then (false, none)
    else if not ok
    then (false, none)
    else (true, int_value (field_value (field_value response "result") "message_id"))

-- `_send_dingtalk` and `_send_wecom`, less the text and the signature.
abbrev pub send_webhook : String → Bool → Bool
send_webhook webhook ok = if webhook == "" then false else ok

abbrev channel : Bool → String → Bool → Dict Bool
channel enabled name ok = if enabled then (name, ok) ∷ [] else []

-- The results of the channels that are enabled, and the id of the Telegram message.
unfoldable pub broadcast : Settings → Outcomes → Dict Bool × Option ℕ
unfolding send_telegram
broadcast c o = (
  channel c.telegram_enabled "telegram" (send_telegram c o.telegram).0
      ++ channel c.dingtalk_enabled "dingtalk" (send_webhook c.dingtalk_webhook o.dingtalk)
      ++ channel c.wecom_enabled "wecom" (send_webhook c.wecom_webhook o.wecom),
  if c.telegram_enabled then (send_telegram c o.telegram).1 else none,
)

abbrev or_nil : Option (List ℕ) → List ℕ
or_nil none = []
or_nil (some ids) = ids

-- d.get(key, [])
abbrev pub waiting : Dict (List ℕ) → String → List ℕ
waiting d key = or_nil (get d key)

-- d.setdefault(key, []).append(message_id)
abbrev pub remember : Dict (List ℕ) → String → ℕ → Dict (List ℕ)
remember d key message_id = put d key (waiting d key ++ (message_id ∷ []))

-- The loop that deletes each message.
unfoldable pub delete_all : String → List ℕ → List (String × ℕ) → List (String × ℕ)
delete_all key [] log = log
delete_all key (message_id ∷ ids) log = delete_all key ids ((key, message_id) ∷ log)

-- `send_verification`, up to its lock: the id that is to be recorded under the token.
unfoldable pub send_verification : Settings → String → Outcomes → Option ℕ
unfolding broadcast
send_verification c token o = if token == "" then none else (broadcast c o).1

-- `send_verification`, under its lock.
unfoldable pub record_verification : Notifier → String → ℕ → Notifier
record_verification n token message_id = record n {
  telegram_verification_messages = remember n.telegram_verification_messages token message_id;
}

-- `send_disconnect_options`, under its lock, with what `broadcast` gave.
unfoldable pub record_disconnect : Notifier → String → Option ℕ → Notifier
record_disconnect n target none = n
record_disconnect n target (some message_id) = record n {
  telegram_disconnect_messages = remember n.telegram_disconnect_messages target message_id;
}

unfoldable pub on_verification_approved : Notifier → String → Notifier
unfolding delete_all
on_verification_approved n token =
    if token == "" then n else if not n.cfg.telegram_enabled then n else record n {
      telegram_verification_messages = pop n.telegram_verification_messages token;
      verification_deletes =
          delete_all token (waiting n.telegram_verification_messages token) n.verification_deletes;
    }

unfoldable pub on_connection_established : Notifier → String → Notifier
unfolding delete_all
on_connection_established n target =
    if target == "" then n else if not n.cfg.telegram_enabled then n else record n {
      telegram_disconnect_messages = pop n.telegram_disconnect_messages target;
      disconnect_deletes =
          delete_all target (waiting n.telegram_disconnect_messages target) n.disconnect_deletes;
    }

abbrev pub is_among : ℕ → List ℕ → Bool
is_among i [] = false
is_among i (m ∷ ids) = nat_eq m i || is_among i ids

-- ids.remove(message_id)
abbrev pub remove : ℕ → List ℕ → List ℕ
remove i [] = []
remove i (m ∷ ids) = let rest = m ∷ remove i ids in if nat_eq m i then ids else rest

abbrev pub put_or_pop : Dict (List ℕ) → String → List ℕ → Dict (List ℕ)
put_or_pop d key [] = pop d key
put_or_pop d key (m ∷ ids) = put d key (m ∷ ids)

-- `_delete_verification_message_after_ttl`, after its sleep.
unfoldable pub delete_verification_message_after_ttl : Notifier → String → ℕ → Notifier
delete_verification_message_after_ttl n token message_id =
    if not n.cfg.telegram_enabled
    then n
    else if is_among message_id (waiting n.telegram_verification_messages token)
    then record n {
      telegram_verification_messages =
          put_or_pop n.telegram_verification_messages token
            (remove message_id (waiting n.telegram_verification_messages token));
      verification_deletes = (token, message_id) ∷ n.verification_deletes;
    }
    else n
