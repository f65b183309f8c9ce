-- ===== src/App/Commands/Authority.antt =====
-- rdp_proxy/proxy.py: what a command of the chat can do to the verification service.
use rdp_on_demand_proxy_serv.Base.{
  ℕ, ◌+◌, ◌*◌, ◌≡◌, refl, subst, ◌∙◌, String, ◌<>◌, if◌then◌else◌, Bool, true, false, ◌||◌, Option,
  none, some, List, [], ◌∷◌, leb, min, seconds, ◌==◌, eq_iff, eq_refl, arith, inl, inr, Bool-cases,
}
use rdp_on_demand_proxy_serv.Base.Dict.{get, get-put}
use rdp_on_demand_proxy_serv.Base.Sort.{sort_by}
use rdp_on_demand_proxy_serv.Verification.{
  Service, VerificationToken, PendingLink, cleanup, create_control_auth_token, create_action_links,
  list_pending_verification_links, fresh_auth,
}
use rdp_on_demand_proxy_serv.Verification.Links.Cleanup.{get-tokens-cleanup}
use rdp_on_demand_proxy_serv.Verification.Forms.Page.{
  render_whitelist_page, is_shown, page_shown_iff, opens,
}
use rdp_on_demand_proxy_serv.Whitelist.{Rejection}
use rdp_on_demand_proxy_serv.Whitelist.Storage.{Listed}
use rdp_on_demand_proxy_serv.Whitelist.File.Payload.{not_above}
use rdp_on_demand_proxy_serv.App.Commands.{
  Words, Answer, pending_answer, mode_answer, all_links, action_command, command_answer,
  handle_telegram_command, before_at, limit_arg, is_target, parts_answer,
}

-- The links and their events are as they were, but for expired links that are gone.
abbrev pub Quiet : Service → Service → Type 0
Quiet s t =
    ((k : String) (v : VerificationToken) → get t.tokens k ≡ some v → get s.tokens k ≡ some v)
    × (t.events ≡ s.events)

kept :
    (s : Service) (now : ℕ) (k : String) (v : VerificationToken) (old : Option VerificationToken)
    → get s.tokens k ≡ old
    → get (cleanup s now).tokens k ≡ some v
    → old ≡ some v
kept s now k v none e h = ground (arith, e, h, get-tokens-cleanup s now k)
kept s now k v (some w) e h = ground (arith, e, h, get-tokens-cleanup s now k)

cleanup-Quiet : (s : Service) (now : ℕ) → Quiet s (cleanup s now)
unfolding cleanup
cleanup-Quiet s now = (λ k v h. kept s now k v (get s.tokens k) refl h, refl)

same-Quiet : (s : Service) → Quiet s s
same-Quiet s = (λ k v h. h, refl)

links-Quiet :
    (s : Service) (now : ℕ) (keep shutdown target : String)
    → Quiet s (create_action_links s now keep shutdown target).0
unfolding create_action_links
links-Quiet s now keep shutdown target = cleanup-Quiet s now

auth-Quiet :
    (s : Service) (now : ℕ) (token : String) → Quiet s (create_control_auth_token s now token).0
unfolding create_control_auth_token
auth-Quiet s now token = cleanup-Quiet s now

pending-Quiet :
    (s : Service) (now limit : ℕ) → Quiet s (list_pending_verification_links s now limit).0
unfolding list_pending_verification_links
pending-Quiet s now limit = cleanup-Quiet s now

trans-Quiet : (s t u : Service) → Quiet s t → Quiet t u → Quiet s u
trans-Quiet s t u a b = (λ k v h. a.0 k v (b.0 k v h), b.1 ∙ a.1)

all_links-Quiet :
    (targets : List String) (s : Service) (now : ℕ) (names : ℕ → String) (i : ℕ)
    → Quiet s (all_links s now names i targets).0
unfolding all_links
all_links-Quiet [] s now names i = same-Quiet s
all_links-Quiet (target ∷ targets) s now names i =
    let made = create_action_links s now (names (2 * i)) (names (2 * i + 1)) target in
    trans-Quiet s made.0 (all_links made.0 now names (i + 1) targets).0
      (links-Quiet s now (names (2 * i)) (names (2 * i + 1)) target)
      (all_links-Quiet targets made.0 now names (i + 1))

pending_answer-Quiet :
    (s : Service) (r : Service × List PendingLink)
    → Quiet s r.0
    → Quiet s (pending_answer r).service
pending_answer-Quiet s (t, []) q = q
pending_answer-Quiet s (t, l ∷ ls) q = q

mode_answer-Quiet :
    (mode : String) (s : Service) (r : Service × String × String)
    → Quiet s r.0
    → Quiet s (mode_answer mode r).service
mode_answer-Quiet mode s (t, keep, shutdown) q =
    elim (Bool-cases (mode == "keep" || mode == "keep_running")) [
      | inl a ↦ rw a q
      | inr a ↦
          elim (Bool-cases (mode == "shutdown" || mode == "shutdown_on_idle" || mode == "stop")) [
            | inl b ↦ rw (a, b) q
            | inr b ↦ rw (a, b) q
          ]
    ]

action_command-Quiet :
    (w : Words) (s : Service) (now : ℕ) (names : ℕ → String) (targets args : List String)
    → Quiet s (action_command w s now names targets args).service
unfolding action_command
action_command-Quiet w s now names targets [] =
    all_links-Quiet (sort_by not_above targets) s now names 0
action_command-Quiet w s now names targets (name ∷ []) =
    all_links-Quiet (sort_by not_above targets) s now names 0
action_command-Quiet w s now names targets (name ∷ mode ∷ args) =
    elim (Bool-cases (is_target targets name)) [
      | inl e ↦ rw e (
          mode_answer-Quiet (w.lower mode) s (create_action_links s now (names 0) (names 1) name)
            (links-Quiet s now (names 0) (names 1) name))
      | inr e ↦ rw e (same-Quiet s)
    ]

module _ (w : Words) (s : Service) (now : ℕ) (names : ℕ → String) (targets : List String) where
  command_answer-Quiet :
      (command : String) (args : List String)
      → Quiet s (command_answer w s now names targets command args).service
  unfolding command_answer
  command_answer-Quiet command args =
      elim (Bool-cases (command == "/help" || command == "/start")) [
        | inl a ↦ rw a (same-Quiet s)
        | inr a ↦ elim (Bool-cases (command == "/control")) [
          | inl b ↦ rw (a, b) (auth-Quiet s now (names 0))
          | inr b ↦
              elim (Bool-cases (
                command == "/quick-approve"
                || command == "/quick_approve"
                || command == "/approve")) [
                  | inl c ↦
                      rw (a, b, c)
                        (pending_answer-Quiet s
                          (list_pending_verification_links s now (limit_arg w args))
                          (pending-Quiet s now (limit_arg w args)))
                  | inr c ↦ elim (Bool-cases (command == "/action")) [
                    | inl d ↦ rw (a, b, c, d) (action_command-Quiet w s now names targets args)
                    | inr d ↦ elim (Bool-cases (command == "/blacklist")) [
                      | inl e ↦ rw (a, b, c, d, e) (auth-Quiet s now (names 0))
                      | inr e ↦ elim (Bool-cases (command == "/whitelist")) [
                        | inl f ↦ rw (a, b, c, d, e, f) (auth-Quiet s now (names 0))
                        | inr f ↦ rw (a, b, c, d, e, f) (same-Quiet s)
                      ]
                    ]
                  ]
                ]
        ]
      ]

  parts-Quiet : (parts : List String) → Quiet s (parts_answer w s now names targets parts).service
  parts-Quiet [] = same-Quiet s
  parts-Quiet (word ∷ args) = command_answer-Quiet (before_at (w.lower word)) args

  -- A command of the chat, whatever its text, approves nothing and wakes no connection: the events of the
  -- verification links are as they were, and every link that is in the table afterwards was there
  -- before, with the same fields.
  pub command_approves_nothing :
      (t : String) → Quiet s (handle_telegram_command w s now names targets t).service
  unfolding handle_telegram_command
  command_approves_nothing t = parts-Quiet (w.split t)

abbrev pub is_page_command : String → Bool
is_page_command command =
    command == "/control" || command == "/blacklist" || command == "/whitelist"

-- What stands before the link in the answer.
abbrev pub page_label : String → String
page_label command =
    if command == "/control"
    then "管理页面（此链接有效期1小时）: "
    else if command == "/blacklist"
    then "黑名单管理（此链接有效期1小时）: "
    else "白名单管理页（此链接有效期1小时）: "

-- The answer to a command for the page.
abbrev PageAnswer : Service → ℕ → String → String → Answer → Type 0
PageAnswer s now token command a =
    (a.service ≡ (create_control_auth_token s now token).0)
    × (a.detail ≡ page_label command <> (create_control_auth_token s now token).1)

page_command-auth :
    (w : Words) (s : Service) (now : ℕ) (names : ℕ → String) (targets : List String)
    (command : String) (args : List String)
    → is_page_command command ≡ true
    → PageAnswer s now (names 0) command (command_answer w s now names targets command args)
unfolding command_answer
page_command-auth w s now names targets command args h =
    let as_auth =
      λ (c : String). PageAnswer s now (names 0) c (command_answer w s now names targets c args) in
    elim (Bool-cases (command == "/control")) [
      | inl a ↦
          let is : ◌≡◌ {A = String} "/control" command =
            ground (arith, a, eq_iff command "/control") in
          subst as_auth is (refl, refl)
      | inr a ↦ elim (Bool-cases (command == "/blacklist")) [
        | inl b ↦
            let is : ◌≡◌ {A = String} "/blacklist" command =
              ground (arith, b, eq_iff command "/blacklist") in
            subst as_auth is (refl, refl)
        | inr b ↦
            let is : ◌≡◌ {A = String} "/whitelist" command =
              ground (arith, a, b, h, eq_iff command "/whitelist") in
            subst as_auth is (refl, refl)
      ]
    ]

-- The address that an answer links to, where the management token has this name.
abbrev pub page_url : Service → String → String
page_url s token = s.external_base_url <> "/whitelist?auth=" <> token

created-url :
    (s : Service) (now : ℕ) (token : String)
    → (create_control_auth_token s now token).1 ≡ page_url s token
unfolding create_control_auth_token
created-url s now token = refl

created-opens :
    (s : Service) (now later : ℕ) (token : String)
    → opens later (get (create_control_auth_token s now token).0.control_auth_tokens token)
      ≡ leb later (now + seconds (min 3600 s.ttl_seconds))
unfolding create_control_auth_token cleanup
created-opens s now later token = ground (
  arith,
  get-put (cleanup s now).control_auth_tokens token token (fresh_auth s now token),
  eq_refl token,
)

-- The commands /control, /blacklist and /whitelist, in any spelling that they are known by, answer with the address
-- of the page whose `auth` field is a new management token, and nothing behind it; and the next request, one
-- for the page with that field, is shown the page exactly if it comes no later than an hour after the command
-- and, if that is sooner, than the life time of the links. (A second request is not: the token is spent.)
pub page_command_opens :
    (w : Words) (s : Service) (now later : ℕ) (names : ℕ → String) (targets : List String)
    (t word : String) (args : List String) (strip : String → String)
    (forwarded_for client_address : String) (entries : List Listed) (rejections : List Rejection)
    → w.split t ≡ word ∷ args
    → is_page_command (before_at (w.lower word)) ≡ true
    → (names 0 == "") ≡ false
    → let asked = handle_telegram_command w s now names targets t in
      (asked.detail ≡ page_label (before_at (w.lower word)) <> page_url s (names 0))
      × (is_shown
            (render_whitelist_page strip asked.service later
              (("auth", names 0) ∷ [])
              forwarded_for
              client_address
              entries
              rejections).1
          ≡ leb later (now + seconds (min 3600 s.ttl_seconds)))
unfolding handle_telegram_command get
page_command_opens w s now later names targets t word args strip forwarded_for client_address
      entries rejections parts command named =
    let asked = (handle_telegram_command w s now names targets t).service in
    let made = page_command-auth w s now names targets (before_at (w.lower word)) args command in
    let same : asked ≡ (create_control_auth_token s now (names 0)).0 = rw parts made.0 in
    (
      rw parts (rw (← created-url s now (names 0)) made.1),
      page_shown_iff strip asked later (("auth", names 0) ∷ []) forwarded_for client_address entries
            rejections
          ∙ simp (named, same) (created-opens s now later (names 0)),
    )
