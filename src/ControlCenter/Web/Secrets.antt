-- ===== src/ControlCenter/Web/Secrets.antt =====
-- rdp_proxy/control_center.py: what a request to the web server can change, and with which secret.
use rdp_on_demand_proxy_serv.Base.{
  ℕ, ◌≡◌, refl, sym, String, Bool, true, false, Option, none, some, List, [], ◌∷◌, ◌==◌, eq_iff,
  arith, inl, inr, Bool-cases, Option-cases, ◌⊎◌, subst,
}
use rdp_on_demand_proxy_serv.Base.Dict.{Dict, get, keys, member, member-keys}
use rdp_on_demand_proxy_serv.ControlCenter.{Center, ControlRequestEvent}
use rdp_on_demand_proxy_serv.ControlCenter.Requests.Answers.{
  approve_by_quick_token, quick_at, search_quick, search_quick-waits, has_quick_token,
  approved_event,
}
use rdp_on_demand_proxy_serv.ControlCenter.Web.{
  Code, not_found, gone, Reply, reply, Handled, handle_approve, handle_quick_approve,
  handle_control, handle_action, handle_blacklist, do_get, do_post, Targets, answered,
}

-- A request in the table waits for this name.
abbrev pub is_quick_name : Center → String → String → Bool
is_quick_name s token id = has_quick_token token (get s.requests_by_id id)

-- A request to the server: its path and its fields.
pub data WebRequest : Type 0 where
  gets : String → String → WebRequest
  posts : String → String → String → String → Targets → WebRequest

unfoldable pub handle : Center → ℕ → WebRequest → Handled
handle s now (gets path token) = do_get s now path token
handle s now (posts path token request_id raw targets) =
    do_post s now path token request_id raw targets

abbrev pub token_of : WebRequest → String
token_of (gets path token) = token
token_of (posts path token request_id raw targets) = token

quick-waits :
    (s : Center) (now : ℕ) (token : String) (found : Option String) (e : ControlRequestEvent)
    → search_quick s.requests_by_id (keys s.requests_by_id) token ≡ found
    → (quick_at s now found).1 ≡ some e
    → (id : String) × (is_quick_name s token id ≡ true)
unfolding quick_at
quick-waits s now token none e q h = absurd (cc)
quick-waits s now token (some id) e q h =
    (id, search_quick-waits s.requests_by_id (keys s.requests_by_id) token id q)

answered-approved :
    (refused : Code) (refusal granted : String) (r : Center × Option ControlRequestEvent)
    (e : ControlRequestEvent)
    → (answered refused refusal granted r).approved ≡ some e
    → r.1 ≡ some e
answered-approved refused refusal granted (t, none) e h = h
answered-approved refused refusal granted (t, some f) e h = h

handle_quick_approve-name :
    (s : Center) (now : ℕ) (token : String) (e : ControlRequestEvent)
    → (handle_quick_approve s now token).approved ≡ some e
    → (id : String) × (is_quick_name s token id ≡ true)
unfolding handle_quick_approve approve_by_quick_token
handle_quick_approve-name s now token e h = elim (Bool-cases (token == "")) [
  | inl empty ↦ absurd (ground (arith, h, empty))
  | inr named ↦
      let found = search_quick s.requests_by_id (keys s.requests_by_id) token in
      quick-waits s now token found e refl (
        answered-approved gone "链接已失效或已被使用" "请求已通过快速授权" (quick_at s now found) e
          (ground (arith, h, named)))
]

handle_approve-token :
    (s : Center) (now : ℕ) (token id : String) (e : ControlRequestEvent)
    → (handle_approve s now token id).approved ≡ some e
    → token ≡ s.control_token
unfolding handle_approve
handle_approve-token s now token id e h = elim (Bool-cases (token == s.control_token)) [
  | inl right ↦ ground (arith, right, eq_iff token s.control_token)
  | inr wrong ↦ absurd (ground (arith, h, wrong))
]

-- The handlers that approve nothing.
handle_control-quiet :
    (s : Center) (now : ℕ) (token : String) → (handle_control s now token).approved ≡ none
unfolding handle_control
handle_control-quiet s now token = ground arith

handle_action-quiet :
    (s : Center) (now : ℕ) (token : String) → (handle_action s now token).approved ≡ none
unfolding handle_action
handle_action-quiet s now token = ground arith

handle_blacklist-quiet :
    (s : Center) (token raw : String) (targets : Targets)
    → (handle_blacklist s token raw targets).approved ≡ none
unfolding handle_blacklist
handle_blacklist-quiet s token raw Targets.no_json = ground arith
handle_blacklist-quiet s token raw Targets.no_list = ground arith
handle_blacklist-quiet s token raw (Targets.pairs ps) = ground arith

do_get-name :
    (s : Center) (now : ℕ) (path token : String) (e : ControlRequestEvent)
    → (do_get s now path token).approved ≡ some e
    → (id : String) × (is_quick_name s token id ≡ true)
unfolding do_get
do_get-name s now path token e h = elim (Bool-cases (path == "/control")) [
  | inl a ↦ absurd (ground (arith, h, a, handle_control-quiet s now token))
  | inr a ↦ elim (Bool-cases (path == "/action")) [
    | inl b ↦ absurd (ground (arith, h, a, b, handle_action-quiet s now token))
    | inr b ↦ elim (Bool-cases (path == "/quick-approve")) [
      | inl c ↦ handle_quick_approve-name s now token e (ground (arith, h, a, b, c))
      | inr c ↦ absurd (ground (arith, h, a, b, c))
    ]
  ]
]

do_post-token :
    (s : Center) (now : ℕ) (path token id raw : String) (targets : Targets)
    (e : ControlRequestEvent)
    → (do_post s now path token id raw targets).approved ≡ some e
    → token ≡ s.control_token
unfolding do_post
do_post-token s now path token id raw targets e h = elim (Bool-cases (path == "/approve")) [
  | inl a ↦ handle_approve-token s now token id e (ground (arith, h, a))
  | inr a ↦ elim (Bool-cases (path == "/blacklist")) [
    | inl b ↦ absurd (ground (arith, h, a, b, handle_blacklist-quiet s token raw targets))
    | inr b ↦ absurd (ground (arith, h, a, b))
  ]
]

-- A request to the web server, whatever its method, path and fields, approves a connection only if its field
-- `token` is the control token or the name that a request in the table, which waits for a quick approval,
-- has for it.
pub web_approval_needs_secret :
    (s : Center) (now : ℕ) (r : WebRequest) (e : ControlRequestEvent)
    → (handle s now r).approved ≡ some e
    → (token_of r ≡ s.control_token) ⊎ ((id : String) × (is_quick_name s (token_of r) id ≡ true))
unfolding handle
web_approval_needs_secret s now (gets path token) e h = inr (do_get-name s now path token e h)
web_approval_needs_secret s now (posts path token id raw targets) e h =
    inl (do_post-token s now path token id raw targets e h)

search_quick-finds :
    (d : Dict ControlRequestEvent) (ids : List String) (token id : String)
    → member id ids ≡ true
    → has_quick_token token (get d id) ≡ true
    → (other : String) × (search_quick d ids token ≡ some other)
      × (has_quick_token token (get d other) ≡ true)
unfolding search_quick
search_quick-finds d [] token id h q = absurd (cc)
search_quick-finds d (i ∷ ids) token id h q = elim (Bool-cases (has_quick_token token (get d i))) [
  | inl e ↦ (i, ground (arith, e), e)
  | inr e ↦
      let later : member id ids ≡ true = elim (Bool-cases (i == id)) [
        | inl one ↦ absurd (
            let same_id : i ≡ id = ground (arith, one, eq_iff i id) in
            let waits = subst (λ j. has_quick_token token (get d j) ≡ true) (sym same_id) q in
            ground (arith, waits, e))
        | inr two ↦ ground (arith, h, two)
      ] in
      let r = search_quick-finds d ids token id later q in (r.0, ground (arith, e, r.1), r.2)
]

quick_at-approves :
    (s : Center) (now : ℕ) (token id : String)
    → has_quick_token token (get s.requests_by_id id) ≡ true
    → (e : ControlRequestEvent) × ((quick_at s now (some id)).1 ≡ some e)
unfolding quick_at
quick_at-approves s now token id q = elim (Option-cases (get s.requests_by_id id)) [
  | inl gone_too ↦ absurd (ground (arith, q, gone_too))
  | inr (e, got) ↦ (approved_event now e, ground (arith, got))
]

in_table :
    (d : Dict ControlRequestEvent) (token id : String)
    → has_quick_token token (get d id) ≡ true
    → member id (keys d) ≡ true
in_table d token id q = elim (Option-cases (get d id)) [
  | inl none_there ↦ absurd (ground (arith, q, none_there))
  | inr (e, got) ↦ member-keys d id e got
]

-- The link for a quick approval is answered by "Not Found" first, although the request that waits for its
-- name, if there is one, is approved: for a name that is not empty and that a request in the table waits for,
-- the first reply has the status 404, and a request is approved.
pub quick_link_not_found :
    (s : Center) (now : ℕ) (token id : String)
    → (token == "") ≡ false
    → is_quick_name s token id ≡ true
    → let h = do_get s now "/quick-approve" token in
      (rest : List Reply) × (e : ControlRequestEvent) × (h.replies
        ≡ reply not_found "Not Found" ∷ rest)
      × (h.approved ≡ some e)
unfolding do_get handle_quick_approve approve_by_quick_token
quick_link_not_found s now token id named q =
    let found =
      search_quick-finds s.requests_by_id (keys s.requests_by_id) token id
        (in_table s.requests_by_id token id q) q in
    let done = quick_at-approves s now token found.0 found.2 in
    (_, done.0, refl, ground (arith, named, found.1, done.1))
