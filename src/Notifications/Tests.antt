-- ===== src/Notifications/Tests.antt =====
-- rdp_proxy/notifications.py: the notifier on concrete messages.
use rdp_on_demand_proxy_serv.Base.{
  ℕ, ◌≡◌, refl, String, Bool, true, false, Option, none, some, List, [], ◌∷◌, keep, nat_eq,
  if◌then◌else◌, ◌==◌,
}
use rdp_on_demand_proxy_serv.Base.Dict.{get, put, pop}
use rdp_on_demand_proxy_serv.Whitelist.File.{
  Json, null, flag, number, text, array, object, last, item, end, field, find,
}
use rdp_on_demand_proxy_serv.Notifications.{
  Settings, Outcomes, new_notifier, broadcast, send_verification, record_verification,
  on_verification_approved, delete_verification_message_after_ttl,
}
use rdp_on_demand_proxy_serv.Notifications.Life.{
  Event, sends, records, ends, approves, new_system, tally, drop_one, step, run,
}
use rdp_on_demand_proxy_serv.Notifications.Life.Deletion.{sent_is_deleted}
use rdp_on_demand_proxy_serv.Notifications.Inbound.{
  Handlers, handled, poll_items, poll_telegram_once, updates, update_id,
}
use rdp_on_demand_proxy_serv.Notifications.Inbound.Once.{
  own_texts, serve, ascends, is_passed, polled_once,
}

abbrev settings : Settings
settings = record {
  telegram_enabled = true;
  bot_token = "bot";
  chat_id = "7";
  dingtalk_enabled = true;
  dingtalk_webhook = "";
  wecom_enabled = false;
  wecom_webhook = "";
}

-- The posts of a message that Telegram gives this id.
abbrev posted : ℕ → Outcomes
posted n = record {
  telegram =
      (true, some (object (field "result" (object (field "message_id" (number n) end)) end)));
  dingtalk = true;
  wecom = true;
}

broadcast_results :
    (broadcast settings (posted 5)).0 ≡ ("telegram", true) ∷ ("dingtalk", false) ∷ []
unfolding broadcast
broadcast_results = refl

-- The link of the first message is answered before the second message is recorded, which its timer then deletes.
abbrev events : List Event
events =
    sends "t" (posted 5)
    ∷ records "t" 5
    ∷ sends "t" (posted 6)
    ∷ approves "t"
    ∷ records "t" 6
    ∷ ends "t" 5
    ∷ ends "t" 6
    ∷ []

all_recorded : (run (new_system settings) events).unrecorded ≡ []
unfolding run step new_system new_notifier send_verification tally drop_one record_verification
    on_verification_approved delete_verification_message_after_ttl get put pop
all_recorded = refl

all_ended : (run (new_system settings) events).timers ≡ []
unfolding run step new_system new_notifier send_verification tally drop_one record_verification
    on_verification_approved delete_verification_message_after_ttl get put pop
all_ended = refl

sent_is_deleted_example :
    tally "t" 6 (run (new_system settings) events).notifier.verification_deletes
    ≡ tally "t" 6 (run (new_system settings) events).sent
sent_is_deleted_example = sent_is_deleted settings events "t" 6 all_recorded all_ended

-- The handler of commands notes each text, and raises on one.
abbrev note : List String → String → List String × Option (Bool × String)
note s t = if t == "/bad" then (s, none) else (t ∷ s, some (true, t))

abbrev as_text : Json → String
as_text (number n) = if nat_eq n 7 then "7" else "8"
as_text (text t) = t
as_text null = ""
as_text (flag b) = ""
as_text (array js) = ""
as_text (object fs) = ""

abbrev handlers : Handlers
handlers = record {
  State = List String;
  str_of = as_text;
  strip = λ t. t;
  telegram_command_handler = some note;
  telegram_inbound_handler = none;
}

abbrev update : ℕ → ℕ → String → Json
update n chat t = object (
    field "update_id" (number n) (
      field "message"
        (object (field "chat" (object (field "id" (number chat) end)) (field "text" (text t) end)))
        end))

abbrev response : Bool × Option Json
response = (
  true,
  some (
      object (
        field "ok" (flag true) (
          field "result"
            (array (
              item (update 11 7 "/help") (
                item (update 12 8 "/approve")
                  (item (update 14 7 "/bad") (item (update 15 7 "/x") last)))))
            end))),
)

ids_ascend : ascends handlers settings 0 (updates handlers settings response) ≡ true
unfolding ascends updates update_id find
ids_ascend = refl

-- The update behind the one that raised is asked for again.
offset_after : (poll_telegram_once handlers settings [] none response).offset ≡ some 15
unfolding poll_telegram_once poll_items handled
offset_after = refl

polled_once_example :
    (poll_telegram_once handlers settings [] none response).state
    ≡ serve handlers settings [] (
        own_texts handlers settings (
          keep
            (is_passed handlers settings
              (poll_telegram_once handlers settings [] none response).offset)
            (updates handlers settings response)))
polled_once_example = polled_once handlers settings [] none response ids_ascend
