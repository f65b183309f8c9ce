-- ===== src/Notifications/Inbound.antt =====
-- rdp_proxy/notifications.py: the polling of Telegram for messages, and what is done with one.
pub mod Once
use rdp_on_demand_proxy_serv.Base.{
  ℕ, suc, ◌+◌, ◌≤◌, ◌≡◌, ◌≢◌, refl, sym, subst, ◌∙◌, arith, inl, inr, Bool-cases, Option-cases,
  String, ◌<>◌, Bool, true, false, ◌&&◌, ◌||◌, not, Option, none, some, List, [], ◌∷◌, ◌++◌, ltb,
  leb, nat_eq, if◌then◌else◌, ◌==◌, keep,
}
use rdp_on_demand_proxy_serv.Base.Text.{codes, starts_with}
use rdp_on_demand_proxy_serv.Whitelist.File.{
  Json, null, flag, number, text, array, object, last, item, Fields, end, field, find, items,
}
use rdp_on_demand_proxy_serv.Notifications.{Settings, int_value}

-- The handlers that the notifier was given, over a state; an answer is none where the call raises. `str_of` is
-- `str` of a value.
pub record Handlers : Type 1 where
  pub State : Type 0
  pub str_of : Json → String
  pub strip : String → String
  pub telegram_command_handler : Option (State → String → State × Option (Bool × String))
  pub telegram_inbound_handler : Option (State → String → State × Option (Bool × String))

-- A reply that is sent to the chat, with the message it answers.
pub record Reply : Type 0 where
  pub chat_id : String
  pub text : String
  pub reply_to_message_id : Option ℕ

abbrev str_or_empty : (Json → String) → Option Json → String
str_or_empty str_of none = ""
str_or_empty str_of (some j) = str_of j

abbrev dict_in : Option Json → Option Fields
dict_in (some (object fs)) = some fs
dict_in other = none

abbrev message_in : Option Fields → Option Fields
message_in none = none
message_in (some update) = dict_in (find update "message")

unfoldable pub message_of : Json → Option Fields
unfolding find
message_of j = message_in (dict_in (some j))

abbrev id_in : Option Fields → Option ℕ
id_in none = none
id_in (some update) = int_value (find update "update_id")

-- The `update_id` of an item.
unfoldable pub update_id : Json → Option ℕ
unfolding find
update_id j = id_in (dict_in (some j))

abbrev pub next_offset : Option ℕ → Option ℕ → Option ℕ
next_offset offset none = offset
next_offset offset (some n) = some (n + 1)

-- `response.get("ok")` as a condition.
abbrev is_truthy : Option Json → Bool
is_truthy none = false
is_truthy (some null) = false
is_truthy (some (flag b)) = b
is_truthy (some (number n)) = not (nat_eq n 0)
is_truthy (some (text t)) = not (t == "")
is_truthy (some (array last)) = false
is_truthy (some (array (item j js))) = true
is_truthy (some (object end)) = false
is_truthy (some (object (field k j fs))) = true

-- The list of updates in an answer, empty where there is none.
abbrev list_in : Option Json → List Json
list_in (some (array js)) = items js
list_in other = []

abbrev results_in : Option Fields → List Json
results_in none = []
results_in (some fs) = if is_truthy (find fs "ok") then list_in (find fs "result") else []

module _ (h : Handlers) (c : Settings) where
  abbrev chat_of : Option Fields → Option String
  chat_of none = none
  chat_of (some chat) = some (h.strip (str_or_empty h.str_of (find chat "id")))

  -- str(message.get("text", "")).strip()
  abbrev pub text_of : Fields → String
  text_of message = h.strip (str_or_empty h.str_of (find message "text"))

  abbrev is_ours : Option String → Bool
  is_ours none = false
  is_ours (some id) = id == h.strip c.chat_id

  -- The message comes from the chat of the configuration and has a text.
  unfoldable pub is_accepted : Fields → Bool
  unfolding find
  is_accepted message =
      is_ours (chat_of (dict_in (find message "chat"))) && not (text_of message == "")

  abbrev outcome : String → Bool → String
  outcome subject true = subject <> "成功"
  outcome subject false = subject <> "失败"

  abbrev answered : String → h.State × Option (Bool × String) → h.State × Option String
  answered subject (s, none) = (s, none)
  answered subject (s, some (done, detail)) = (s, some (outcome subject done <> ": " <> detail))

  abbrev inbound : h.State → String → h.State × Option String
  inbound s t = elim h.telegram_inbound_handler [
    | none ↦ (s, some "处理失败: inbound handler is disabled")
    | some f ↦ answered "白名单处理" (f s t)
  ]

  -- What a text does to the state, and the reply's text, none where a handler raises.
  unfoldable pub dispatch : h.State → String → h.State × Option String
  unfolding starts_with
  dispatch s t =
      if starts_with (codes t) (codes "/")
      then elim h.telegram_command_handler [ none ↦ inbound s t | some f ↦ answered "命令执行" (f s t) ]
      else inbound s t

  -- `_send_telegram_reply`, where it posts.
  abbrev reply : Fields → String → List Reply
  reply message t =
      if c.bot_token == "" || h.strip c.chat_id == ""
      then []
      else record {
        chat_id = h.strip c.chat_id;
        text = t;
        reply_to_message_id = int_value (find message "message_id");
      }
        ∷ []

  -- The state, the replies, and whether a handler raised.
  abbrev pub replied : Fields → h.State × Option String → h.State × List Reply × Bool
  replied message (s, none) = (s, [], true)
  replied message (s, some t) = (s, reply message t, false)

  unfoldable pub handle_telegram_message : h.State → Fields → h.State × List Reply × Bool
  unfolding is_accepted dispatch find
  handle_telegram_message s message =
      if is_accepted message then replied message (dispatch s (text_of message)) else (s, [], false)

  -- The state, `_telegram_update_offset`, the replies, and whether a handler raised.
  pub record Polled : Type 0 where
    pub state : h.State
    pub offset : Option ℕ
    pub replies : List Reply
    pub raised : Bool

  unfoldable pub handled : h.State → Option Fields → h.State × List Reply × Bool
  unfolding handle_telegram_message
  handled s none = (s, [], false)
  handled s (some message) = handle_telegram_message s message

  abbrev pub before : List Reply → Polled → Polled
  before rs p = record p { replies = rs ++ p.replies }

  -- The loop over the updates of one answer, which an exception ends.
  unfoldable pub poll_items : h.State → Option ℕ → List Json → Polled
  unfolding handled update_id message_of
  poll_items s offset [] = record { state = s; offset = offset; replies = []; raised = false }
  poll_items s offset (j ∷ js) =
      let after = next_offset offset (update_id j) in
      let rest =
        before (handled s (message_of j)).1 (poll_items (handled s (message_of j)).0 after js) in
      if (handled s (message_of j)).2
      then record {
        state = (handled s (message_of j)).0;
        offset = after;
        replies = (handled s (message_of j)).1;
        raised = true;
      }
      else rest

  -- The updates that the loop is over, none where the code waits or returns before.
  unfoldable pub updates : Bool × Option Json → List Json
  unfolding find
  updates (ok, response) = if c.bot_token == "" || not ok then [] else results_in (dict_in response)

  -- `_poll_telegram_once`, with what `_get_json_with_response` gives.
  unfoldable pub poll_telegram_once : h.State → Option ℕ → Bool × Option Json → Polled
  unfolding poll_items updates
  poll_telegram_once s offset response = poll_items s offset (updates response)
