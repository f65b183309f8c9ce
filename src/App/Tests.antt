-- ===== src/App/Tests.antt =====
-- Forms, commands and the page with a small codec.
use rdp_on_demand_proxy_serv.Base.{
  ℕ, ◌+◌, ◌≡◌, refl, subst, inl, inr, Bool-cases, String, ◌<>◌, true, none, some, List, [], ◌∷◌,
  leb, min, seconds, nat_eq, if◌then◌else◌, ◌==◌, arith,
}
use rdp_on_demand_proxy_serv.Base.Dict.{get, put, prune, values, select, keys}
use rdp_on_demand_proxy_serv.Base.Sort.{sort_desc}
use rdp_on_demand_proxy_serv.Base.Text.{contains}
use rdp_on_demand_proxy_serv.Whitelist.{Codec, Store, contains as contains_ip}
use rdp_on_demand_proxy_serv.Whitelist.Listing.{IsCodec, Op, deletes, rejects, run, listed}
use rdp_on_demand_proxy_serv.Whitelist.File.{null, text, object, end, field, find}
use rdp_on_demand_proxy_serv.Verification.{
  Service, new_service, create_token, list_pending_verification_links, cleanup,
}
use rdp_on_demand_proxy_serv.Verification.Forms.{Posted, do_post, body_message, has_word, field_of}
use rdp_on_demand_proxy_serv.Verification.Forms.Page.{render_whitelist_page, is_shown}
use rdp_on_demand_proxy_serv.App.{callbacks}
use rdp_on_demand_proxy_serv.App.Admission.{
  moment, post_op, post_is_operation, anyone_admits_himself,
}
use rdp_on_demand_proxy_serv.App.Commands.{Words, handle_telegram_command, before_at}
use rdp_on_demand_proxy_serv.App.Commands.Authority.{
  Quiet, is_page_command, command_approves_nothing, page_command_opens, page_label, page_url,
}

-- Every text but "" and "x" is an address in its normal form.
abbrev codec : Codec
codec = record {
  strip = λ t. t;
  normalize_ip = λ t. if t == "" then none else if t == "x" then none else some t;
  cipher_of = λ t. t;
  encrypt_ip = λ n t. t;
}

codec-normal :
    (t : String) (ip : String) → codec.normalize_ip t ≡ some ip → codec.normalize_ip ip ≡ some ip
codec-normal t ip h = elim (Bool-cases (t == "")) [
  | inl empty ↦ absurd (ground (arith, h, empty))
  | inr there ↦ elim (Bool-cases (t == "x")) [
    | inl bad ↦ absurd (ground (arith, h, there, bad))
    | inr good ↦
        let same : t ≡ ip = ground (arith, h, there, good) in
        subst (λ i. codec.normalize_ip i ≡ some i) same (ground (arith, there, good))
  ]
]

codec-IsCodec : IsCodec codec
codec-IsCodec = record { normal = codec-normal; one_cipher = λ a b na nb e. e }

abbrev empty : Store
empty = record {
  enabled = true;
  writable = true;
  entries = [];
  rejected = [];
  saved = record { entries = []; rejected = [] };
}

abbrev form_type : String
form_type = "application/x-www-form-urlencoded"

abbrev visit : Posted
visit = record {
  path = "/whitelist";
  content_type = form_type;
  raw_body = "";
  payload = null;
  form = ("action", "allow_current") ∷ [];
  forwarded_for = "";
  client_address = "visitor";
}

is_a_form : has_word form_type "application/x-www-form-urlencoded" ≡ true
unfolding contains
is_a_form = refl

visit_action : codec.strip (field_of visit.form "action") ≡ "allow_current"
unfolding get
visit_action = refl

abbrev afterwards : List Op
afterwards = rejects 6 "visitor" "" "desk" ∷ deletes "other" ∷ []

anyone_admits_himself_example :
    (contains_ip codec
      (run codec (do_post (callbacks codec (moment 5 1)) empty visit).0 afterwards)
      none
      "visitor").1
    ≡ some (listed codec afterwards "visitor" true)
anyone_admits_himself_example =
    anyone_admits_himself codec 5 1 empty visit afterwards "visitor" "visitor" codec-IsCodec refl
      refl is_a_form visit_action refl refl refl

post_is_operation_example :
    (do_post (callbacks codec (moment 5 1)) empty visit).0
    ≡ run codec empty (post_op codec 5 1 visit)
post_is_operation_example = post_is_operation codec 5 1 empty visit

-- The nested field of a message is found, and the address is let in.
abbrev message : Posted
message = record visit {
  content_type = "application/json";
  payload =
      object (field "text" (text "") (field "content" (object (field "ip" (text "b") end)) end));
}

nested_message : body_message (λ t. t) message ≡ "b"
unfolding body_message find
nested_message = refl

-- Words are the whole text, or "approve" with its number.
abbrev words : Words
words = record {
  split = λ t. if t == "/approve 9" then "/approve" ∷ "9" ∷ [] else t ∷ [];
  lower = λ t. if t == "/CONTROL@bot" then "/control@bot" else t;
  int_of = λ t. some 9;
}

abbrev name : ℕ → String
name i = if nat_eq i 0 then "n0" else "n1"

abbrev waiting : Service
waiting =
    (create_token (new_service "http://h" 600) 1000 "t1"
      (record { target = "desk"; client_ip = "ip"; instance_id = "i" })).0

command_approves_nothing_example :
    Quiet waiting
      (handle_telegram_command words waiting 2000 name ("desk" ∷ []) "/approve 9").service
command_approves_nothing_example =
    command_approves_nothing words waiting 2000 name ("desk" ∷ []) "/approve 9"

-- The answer has the one link that waits.
approve_answer :
    (handle_telegram_command words waiting 2000 name ("desk" ∷ []) "/approve 9").detail
    ≡ "最近待授权链接:\n- desk ip: http://h/verify?token=t1"
unfolding handle_telegram_command create_token list_pending_verification_links cleanup new_service
    get put prune values sort_desc select keys
approve_answer = refl

control_word : is_page_command (before_at (words.lower "/CONTROL@bot")) ≡ true
unfolding before_at
control_word = refl

page_command_opens_example :
    let asked = handle_telegram_command words waiting 2000 name ("desk" ∷ []) "/CONTROL@bot" in
    (asked.detail ≡ page_label (before_at (words.lower "/CONTROL@bot")) <> page_url waiting "n0")
    × (is_shown
          (render_whitelist_page
            (λ t. t)
            asked.service
            3000
            (("auth", "n0") ∷ [])
            ""
            "visitor"
            []
            []).1
        ≡ leb 3000 (2000 + seconds (min 3600 waiting.ttl_seconds)))
page_command_opens_example =
    page_command_opens words waiting 2000 3000 name ("desk" ∷ []) "/CONTROL@bot" "/CONTROL@bot" []
      (λ t. t) "" "visitor" [] [] refl control_word refl
