-- ===== src/Verification/Forms.antt =====
-- rdp_proxy/verification.py: the whitelist page, its forms and the message interface. A query or a form is given
-- as `parse_qs` returns it, with the first value of each field; a request's JSON is given decoded, the
-- empty object where it is none. `html.escape` is left out.
pub mod Page
use Prim.Native.Char.{code}
use rdp_on_demand_proxy_serv.Base.{
  ℕ, String, ◌<>◌, Bool, true, false, not, Option, none, some, List, [], ◌∷◌, nat_eq, if◌then◌else◌,
  ◌==◌,
}
use rdp_on_demand_proxy_serv.Base.Dict.{Dict, get}
use rdp_on_demand_proxy_serv.Base.Text.{codes, contains}
use rdp_on_demand_proxy_serv.Verification.Links.{
  Status, ok, bad_request, not_found, not_implemented, see_other,
}
use rdp_on_demand_proxy_serv.Whitelist.File.{
  Json, null, flag, number, text, array, object, Fields, find,
}

-- The callbacks of the whitelist that the service was given, over a state; an answer is none where the call
-- raises.
pub record Callbacks : Type 1 where
  pub State : Type 0
  pub strip : String → String
  pub on_whitelist_message : Option (State → String → State × Option (Bool × String))
  pub add_whitelist_ip : Option (State → String → String → State × Option (Bool × String))
  pub delete_whitelist_entry : Option (State → String → State × Option (Bool × String))

pub record Posted : Type 0 where
  pub path : String
  pub content_type : String
  pub raw_body : String
  pub payload : Json
  pub form : Dict String
  pub forwarded_for : String
  pub client_address : String

-- What is sent: a page with a message, a way back to the whitelist page, or nothing, where the handler raises.
pub data Sent : Type 0 where
  html : Status → String → Sent
  redirect : String → Bool → Sent
  raised_error : Sent

abbrev or_empty : Option String → String
or_empty none = ""
or_empty (some t) = t

-- form.get(name, [""])[0]
abbrev pub field_of : Dict String → String → String
field_of d name = or_empty (get d name)

-- text.split(",", 1)[0]
unfoldable pub before_comma : String → String
before_comma String.[] = ""
before_comma (String.◌∷◌ c s) =
    let rest = String.◌∷◌ c (before_comma s) in if nat_eq (code c) b',' then "" else rest

-- `_resolve_request_ip`
unfoldable pub resolve_request_ip : (String → String) → String → String → String
unfolding before_comma
resolve_request_ip strip forwarded_for client_address =
    if forwarded_for == ""
    then client_address
    else if strip (before_comma forwarded_for) == ""
    then client_address
    else strip (before_comma forwarded_for)

abbrev text_value : (String → String) → Option Json → String
text_value strip (some (text t)) = strip t
text_value strip other = ""

-- The first of the fields that is a text and not blank.
unfoldable pub first_text : (String → String) → Fields → List String → String
first_text strip fs [] = ""
first_text strip fs (key ∷ keys) =
    let rest = first_text strip fs keys in
    if text_value strip (find fs key) == "" then rest else text_value strip (find fs key)

abbrev nested_text : (String → String) → Option Json → String
unfolding first_text
nested_text strip (some (object fs)) = first_text strip fs ("text" ∷ "message" ∷ "ip" ∷ [])
nested_text strip other = ""

json_text : (String → String) → Json → String
unfolding first_text
json_text strip (object fs) =
    let direct = first_text strip fs ("text" ∷ "content" ∷ "message" ∷ "ip" ∷ []) in
    if direct == "" then nested_text strip (find fs "content") else direct
json_text strip other = ""

abbrev pub has_word : String → String → Bool
has_word content_type word = contains (codes content_type) (codes word)

-- The message of a body.
unfoldable pub body_message : (String → String) → Posted → String
unfolding json_text contains
body_message strip p =
    if not (has_word p.content_type "application/json")
    then strip p.raw_body
    else if json_text strip p.payload == ""
    then strip p.raw_body
    else json_text strip p.payload

module _ (c : Callbacks) where
  abbrev pub api_answer : c.State × Option (Bool × String) → c.State × Sent
  api_answer (s, none) = (s, raised_error)
  api_answer (s, some (true, detail)) = (s, html ok ("Whitelist updated: " <> detail))
  api_answer (s, some (false, detail)) = (s, html bad_request detail)

  -- `_handle_whitelist_api`, with a body.
  unfoldable pub handle_whitelist_api : c.State → Posted → c.State × Sent
  unfolding body_message
  handle_whitelist_api s p = elim c.on_whitelist_message [
    | none ↦ (s, html not_implemented "Whitelist ingestion is disabled")
    | some f ↦
        if body_message c.strip p == ""
        then (s, html bad_request "Missing whitelist message")
        else api_answer (f s (body_message c.strip p))
  ]

  abbrev pub form_answer : c.State × Option (Bool × String) → c.State × Sent
  form_answer (s, none) = (s, raised_error)
  form_answer (s, some (done, detail)) = (s, redirect detail done)

  abbrev unknown : c.State → c.State × Sent
  unknown s = (s, redirect "unknown action" false)

  abbrev adding : c.State → String → String → c.State × Sent
  adding s ip source = elim c.add_whitelist_ip [
    | none ↦ unknown s
    | some f ↦ form_answer (f s ip source)
  ]

  abbrev deleting : c.State → String → c.State × Sent
  deleting s identifier = elim c.delete_whitelist_entry [
    | none ↦ unknown s
    | some f ↦ form_answer (f s identifier)
  ]

  -- `_handle_whitelist_form`
  unfoldable pub handle_whitelist_form : c.State → Posted → c.State × Sent
  unfolding resolve_request_ip
  handle_whitelist_form s p =
      let action = c.strip (field_of p.form "action") in
      if action == "add_ip"
      then adding s (c.strip (field_of p.form "ip")) "http-manual"
      else if action == "allow_current"
      then adding s (resolve_request_ip c.strip p.forwarded_for p.client_address) "http-visitor"
      else if action == "allow_rejected"
      then adding s (c.strip (field_of p.form "rejected_ip")) "http-rejected"
      else if action == "delete_entry"
      then deleting s (c.strip (field_of p.form "entry_id"))
      else unknown s

  unfoldable pub do_post : c.State → Posted → c.State × Sent
  unfolding handle_whitelist_form handle_whitelist_api
  do_post s p =
      if not (p.path == "/whitelist")
      then (s, html not_found "Not Found")
      else if has_word p.content_type "application/x-www-form-urlencoded"
      then handle_whitelist_form s p
      else handle_whitelist_api s p
