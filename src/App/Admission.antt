-- ===== src/App/Admission.antt =====
-- rdp_proxy/verification.py and rdp_proxy/proxy.py: the forms over the whitelist store.
use rdp_on_demand_proxy_serv.Base.{
  ℕ, ◌≡◌, refl, ap, ◌∙◌, String, Bool, true, false, not, Option, none, some, List, [], ◌∷◌,
  if◌then◌else◌, ◌==◌, arith, inl, inr, Bool-cases, eq_refl, eq_iff,
}
use rdp_on_demand_proxy_serv.Whitelist.{Codec, Store, add_ip, contains}
use rdp_on_demand_proxy_serv.Whitelist.Listing.{
  has, run-has, run-enabled, listed, IsCodec, Op, adds, ingests, deletes_entry, step, run,
  contains_lem, reads_as,
}
use rdp_on_demand_proxy_serv.Verification.Forms.{
  Posted, raised_error, do_post, handle_whitelist_form, handle_whitelist_api, field_of, form_answer,
  api_answer, has_word, body_message, resolve_request_ip,
}
use rdp_on_demand_proxy_serv.App.{
  Moment, callbacks, handle_whitelist_message, add_whitelist_ip, delete_whitelist_entry,
}

abbrev pub moment : ℕ → ℕ → Moment
moment now nonce = record { reload = none; now = now; nonce = nonce }

-- The operation of the store that a posted form is.
abbrev pub form_op : Codec → ℕ → ℕ → Posted → List Op
form_op k now nonce p =
    let action = k.strip (field_of p.form "action") in
    if action == "add_ip"
    then adds now nonce (k.strip (field_of p.form "ip")) "http-manual" ∷ []
    else if action == "allow_current"
    then adds now nonce (resolve_request_ip k.strip p.forwarded_for p.client_address) "http-visitor"
      ∷ []
    else if action == "allow_rejected"
    then adds now nonce (k.strip (field_of p.form "rejected_ip")) "http-rejected" ∷ []
    else if action == "delete_entry"
    then deletes_entry (k.strip (field_of p.form "entry_id")) ∷ []
    else []

form_answer-state :
    (k : Codec) (now nonce : ℕ) (r : Store × Option (Bool × String))
    → (form_answer (callbacks k (moment now nonce)) r).0 ≡ r.0
form_answer-state k now nonce (s, none) = refl
form_answer-state k now nonce (s, some (done, detail)) = refl

api_answer-state :
    (k : Codec) (now nonce : ℕ) (r : Store × Option (Bool × String))
    → (api_answer (callbacks k (moment now nonce)) r).0 ≡ r.0
api_answer-state k now nonce (s, none) = refl
api_answer-state k now nonce (s, some (true, detail)) = refl
api_answer-state k now nonce (s, some (false, detail)) = refl

form-state :
    (k : Codec) (now nonce : ℕ) (s : Store) (p : Posted)
    → (handle_whitelist_form (callbacks k (moment now nonce)) s p).0
      ≡ run k s (form_op k now nonce p)
unfolding handle_whitelist_form run step add_whitelist_ip delete_whitelist_entry
form-state k now nonce s p =
    let action = k.strip (field_of p.form "action") in
    let current = resolve_request_ip k.strip p.forwarded_for p.client_address in
    let c = callbacks k (moment now nonce) in
    elim (Bool-cases (action == "add_ip")) [
      | inl a ↦ ground (
        arith,
        a,
        form_answer-state k now nonce (
            add_whitelist_ip k (moment now nonce) s (k.strip (field_of p.form "ip")) "http-manual"),
      )
      | inr a ↦ elim (Bool-cases (action == "allow_current")) [
        | inl b ↦ ground (
          arith,
          a,
          b,
          form_answer-state k now nonce
              (add_whitelist_ip k (moment now nonce) s current "http-visitor"),
        )
        | inr b ↦ elim (Bool-cases (action == "allow_rejected")) [
          | inl d ↦ ground (
            arith,
            a,
            b,
            d,
            form_answer-state k now nonce (
                add_whitelist_ip k (moment now nonce) s (k.strip (field_of p.form "rejected_ip"))
                  "http-rejected"),
          )
          | inr d ↦ elim (Bool-cases (action == "delete_entry")) [
            | inl e ↦ ground (
              arith,
              a,
              b,
              d,
              e,
              form_answer-state k now nonce (
                  delete_whitelist_entry k (moment now nonce) s
                    (k.strip (field_of p.form "entry_id"))),
            )
            | inr e ↦ ground (arith, a, b, d, e)
          ]
        ]
      ]
    ]

abbrev is_form : Posted → Bool
is_form p = has_word p.content_type "application/x-www-form-urlencoded"

-- The operation of the store that a POST is: at most one.
abbrev pub post_op : Codec → ℕ → ℕ → Posted → List Op
post_op k now nonce p =
    if not (p.path == "/whitelist")
    then []
    else if is_form p
    then form_op k now nonce p
    else if body_message k.strip p == ""
    then []
    else ingests now nonce (body_message k.strip p) ∷ []

api-state :
    (k : Codec) (now nonce : ℕ) (s : Store) (p : Posted)
    → (handle_whitelist_api (callbacks k (moment now nonce)) s p).0
      ≡ run k s (
          if body_message k.strip p == ""
          then []
          else ingests now nonce (body_message k.strip p) ∷ [])
unfolding handle_whitelist_api run step handle_whitelist_message
api-state k now nonce s p = elim (Bool-cases (body_message k.strip p == "")) [
  | inl e ↦ ground (arith, e)
  | inr e ↦ ground (
    arith,
    e,
    api_answer-state k now nonce
        (handle_whitelist_message k (moment now nonce) s (body_message k.strip p)),
  )
]

-- A POST to the web server does to the whitelist what one operation of the store does, or nothing: the form's
-- actions are the addition of the stated address, of the visitor's and of a rejected one, and the deletion of
-- an entry, a message is taken as an address, and every other request leaves the whitelist as it
-- was. The file is not changed from outside.
pub post_is_operation :
    (k : Codec) (now nonce : ℕ) (s : Store) (p : Posted)
    → (do_post (callbacks k (moment now nonce)) s p).0 ≡ run k s (post_op k now nonce p)
unfolding do_post run
post_is_operation k now nonce s p = elim (Bool-cases (p.path == "/whitelist")) [
  | inl here ↦ elim (Bool-cases (is_form p)) [
    | inl form ↦ ground (arith, here, form, form-state k now nonce s p)
    | inr message ↦ ground (arith, here, message, api-state k now nonce s p)
  ]
  | inr away ↦ ground (arith, away)
]

reads_as_self : (k : Codec) (t ip : String) → k.normalize_ip t ≡ some ip → reads_as k t ip ≡ true
reads_as_self k t ip e = ground (arith, e, eq_refl ip)

no_proxy :
    (strip : String → String) (forwarded client : String)
    → forwarded ≡ ""
    → resolve_request_ip strip forwarded client ≡ client
unfolding resolve_request_ip
no_proxy strip forwarded client e = ground (arith, e, eq_iff forwarded "")

-- Whoever can reach the web server lets his own address through an enabled whitelist by one POST of the
-- form with the action `allow_current`, without a management token or any other secret: after it and any
-- later operations of this store, the address, in any spelling, is in the whitelist exactly if the last of
-- those that put it in or took it out put it in, or there was none, so it stays until an operation takes it
-- out. The request has no X-Forwarded-For, the client's address can be read, normal forms are normal, no two
-- addresses share a digest, and the file or secret is not changed from outside.
pub anyone_admits_himself :
    (k : Codec) (now nonce : ℕ) (s : Store) (p : Posted) (later : List Op) (spelling ip : String)
    → IsCodec k
    → s.enabled ≡ true
    → (p.path == "/whitelist") ≡ true
    → has_word p.content_type "application/x-www-form-urlencoded" ≡ true
    → k.strip (field_of p.form "action") ≡ "allow_current"
    → p.forwarded_for ≡ ""
    → k.normalize_ip p.client_address ≡ some ip
    → k.normalize_ip spelling ≡ some ip
    → (contains k (run k (do_post (callbacks k (moment now nonce)) s p).0 later) none spelling).1
      ≡ some (listed k later ip true)
anyone_admits_himself k now nonce s p later spelling ip codec on here form action direct e f =
    let added = adds now nonce p.client_address "http-visitor" ∷ [] in
    let visitor : resolve_request_ip k.strip p.forwarded_for p.client_address ≡ p.client_address =
      no_proxy k.strip p.forwarded_for p.client_address direct in
    let op : post_op k now nonce p ≡ added = ground (
      arith,
      here,
      form,
      action,
      visitor,
      eq_iff (k.strip (field_of p.form "action")) "add_ip",
      eq_iff (k.strip (field_of p.form "action")) "allow_current",
      eq_iff "allow_current" "add_ip",
    ) in
    let there : has k (run k s added) ip ≡ true =
      run-has k s added ip codec (codec.normal spelling ip f)
      ∙ simp (reads_as_self k p.client_address ip e) refl in
    ap (λ (t : Store). (contains k (run k t later) none spelling).1)
      (post_is_operation k now nonce s p ∙ ap (λ (ops : List Op). run k s ops) op)
    ∙ contains_lem k (run k s added) later spelling ip codec f (run-enabled k s added ∙ on)
    ∙ ap (λ b. some (listed k later ip b)) there

-- A form that adds a text that is no address gets no answer: the handler raises, and the whitelist
-- stays as it was.
pub bad_address_no_reply :
    (k : Codec) (m : Moment) (s : Store) (p : Posted)
    → (p.path == "/whitelist") ≡ true
    → has_word p.content_type "application/x-www-form-urlencoded" ≡ true
    → k.strip (field_of p.form "action") ≡ "add_ip"
    → k.normalize_ip (k.strip (field_of p.form "ip")) ≡ none
    → do_post (callbacks k m) s p ≡ (s, raised_error)
unfolding do_post handle_whitelist_form add_whitelist_ip add_ip
bad_address_no_reply k m s p here form action bad =
    ground (arith, here, form, action, bad, eq_iff (k.strip (field_of p.form "action")) "add_ip")
