-- ===== src/Notifications/Inbound/Once.antt =====
-- rdp_proxy/notifications.py: which updates a poll has served when it ends.
use rdp_on_demand_proxy_serv.Base.{
  ℕ, ◌+◌, ◌≤◌, ◌≡◌, ◌≢◌, refl, sym, subst, ◌∙◌, arith, inl, inr, Bool-cases, Option-cases, String,
  Bool, true, false, ◌&&◌, Option, none, some, List, [], ◌∷◌, ◌++◌, ltb, leb, if◌then◌else◌, keep,
}
use rdp_on_demand_proxy_serv.Whitelist.File.{Json, Fields}
use rdp_on_demand_proxy_serv.Notifications.{Settings}
use rdp_on_demand_proxy_serv.Notifications.Inbound.{
  Handlers, Polled, message_of, update_id, handled, poll_items, before, dispatch, is_accepted,
  text_of, replied, poll_telegram_once, handle_telegram_message, updates,
}

module _ (h : Handlers) (c : Settings) where
  abbrev accepted_text : Option Fields → List String
  accepted_text none = []
  accepted_text (some message) = if is_accepted h c message then text_of h c message ∷ [] else []

  -- The texts of the configured chat, in their order.
  unfoldable pub own_texts : List Json → List String
  unfolding is_accepted message_of
  own_texts [] = []
  own_texts (j ∷ js) = accepted_text (message_of j) ++ own_texts js

  -- The handlers on each text in turn.
  unfoldable pub serve : h.State → List String → h.State
  unfolding dispatch
  serve s [] = s
  serve s (t ∷ ts) = serve (dispatch h c s t).0 ts

  abbrev from_id : ℕ → Option ℕ → Bool
  from_id low none = false
  from_id low (some n) = leb low n

  abbrev after_id : Option ℕ → ℕ
  after_id none = 0
  after_id (some n) = n + 1

  -- Every update has an id, and the ids ascend from a first one on.
  unfoldable pub ascends : ℕ → List Json → Bool
  unfolding update_id
  ascends low [] = true
  ascends low (j ∷ js) = from_id low (update_id j) && ascends (after_id (update_id j)) js

  abbrev id_below : Option ℕ → Option ℕ → Bool
  id_below (some bound) (some n) = ltb n bound
  id_below (some bound) none = false
  id_below none n = false

  -- The offset has passed the update, so that it is not asked for again.
  abbrev pub is_passed : Option ℕ → Json → Bool
  is_passed offset j = id_below offset (update_id j)

  serve-append : (s : h.State) (ts us : List String) → serve s (ts ++ us) ≡ serve (serve s ts) us
  unfolding serve
  serve-append s [] us = refl
  serve-append s (t ∷ ts) us = serve-append (dispatch h c s t).0 ts us

  replied-state : (message : Fields) (r : h.State × Option String) → (replied h c message r).0 ≡ r.0
  replied-state message (s, none) = refl
  replied-state message (s, some t) = refl

  handled-serve :
      (s : h.State) (m : Option Fields) → (handled h c s m).0 ≡ serve s (accepted_text m)
  unfolding serve handled handle_telegram_message
  handled-serve s none = refl
  handled-serve s (some message) = elim (Bool-cases (is_accepted h c message)) [
    | inl e ↦ rw e (replied-state message (dispatch h c s (text_of h c message)))
    | inr e ↦ rw e refl
  ]

  no_id_lem :
      (j : Json) (js : List Json) (low : ℕ) → update_id j ≡ none → ascends low (j ∷ js) ≢ true
  unfolding ascends
  no_id_lem j js low e a = ground (arith, e, a)

  none_passed :
      (js : List Json) (low bound : ℕ)
      → bound ≤ low
      → ascends low js ≡ true
      → keep (is_passed (some bound)) js ≡ []
  unfolding ascends
  none_passed [] low bound b a = refl
  none_passed (j ∷ js) low bound b a = elim (Option-cases (update_id j)) [
    | inl e ↦ absurd (no_id_lem j js low e a)
    | inr (k, e) ↦ let rest = none_passed js (k + 1) bound in ground (arith, e, a, b, rest)
  ]

  ascends-head :
      (j : Json) (js : List Json) (low k : ℕ)
      → update_id j ≡ some k
      → ascends low (j ∷ js) ≡ true
      → (leb low k ≡ true) × (ascends (k + 1) js ≡ true)
  unfolding ascends
  ascends-head j js low k e a = (ground (arith, e, a), ground (arith, e, a))

  from_id-weaken :
      (low k : ℕ) (o : Option ℕ)
      → leb low k ≡ true
      → from_id (k + 1) o ≡ true
      → from_id low o ≡ true
  from_id-weaken low k none l f = cc
  from_id-weaken low k (some n) l f = ground (arith, l, f)

  from_self : (s : h.State) (low : ℕ) → from_id low (poll_items h c s (some low) []).offset ≡ true
  unfolding poll_items
  from_self s low = ground arith

  poll-raised :
      (j : Json) (js : List Json) (s : h.State) (offset : Option ℕ) (k : ℕ)
      → update_id j ≡ some k
      → (handled h c s (message_of j)).2 ≡ true
      → poll_items h c s offset (j ∷ js) ≡ record {
        state = (handled h c s (message_of j)).0;
        offset = some (k + 1);
        replies = (handled h c s (message_of j)).1;
        raised = true;
      }
  unfolding poll_items
  poll-raised j js s offset k e r = rw (r, e) refl

  poll-goes_on :
      (j : Json) (js : List Json) (s : h.State) (offset : Option ℕ) (k : ℕ)
      → update_id j ≡ some k
      → (handled h c s (message_of j)).2 ≡ false
      → poll_items h c s offset (j ∷ js)
        ≡ before h c
            (handled h c s (message_of j)).1
            (poll_items h c (handled h c s (message_of j)).0 (some (k + 1)) js)
  unfolding poll_items
  poll-goes_on j js s offset k e r = rw (r, e) refl

  offset_grows :
      (js : List Json) (s : h.State) (low : ℕ)
      → ascends low js ≡ true
      → from_id low (poll_items h c s (some low) js).offset ≡ true
  offset_grows [] s low a = from_self s low
  offset_grows (j ∷ js) s low a = elim (Option-cases (update_id j)) [
    | inl e ↦ absurd (no_id_lem j js low e a)
    | inr (k, e) ↦
        let t = (handled h c s (message_of j)).0 in
        let (above, later) = ascends-head j js low k e a in
        elim (Bool-cases (handled h c s (message_of j)).2) [
          | inl r ↦ rw (poll-raised j js s (some low) k e r) (ground (arith, above))
          | inr r ↦ rw (poll-goes_on j js s (some low) k e r) (
              from_id-weaken low k (poll_items h c t (some (k + 1)) js).offset above
                (offset_grows js t (k + 1) later))
        ]
  ]

  passed_below :
      (j : Json) (k : ℕ) (o : Option ℕ)
      → update_id j ≡ some k
      → from_id (k + 1) o ≡ true
      → is_passed o j ≡ true
  passed_below j k none e f = cc
  passed_below j k (some n) e f = ground (arith, e, f)

  serve_first :
      (s : h.State) (j : Json) (js : List Json)
      → serve (handled h c s (message_of j)).0 (own_texts js) ≡ serve s (own_texts (j ∷ js))
  unfolding own_texts
  serve_first s j js =
      rw (handled-serve s (message_of j))
        (sym (serve-append s (accepted_text (message_of j)) (own_texts js)))

  serve_one :
      (s : h.State) (j : Json) (js : List Json)
      → js ≡ []
      → (handled h c s (message_of j)).0 ≡ serve s (own_texts (j ∷ js))
  unfolding own_texts serve
  serve_one s j js e =
      rw e (handled-serve s (message_of j) ∙ sym (serve-append s (accepted_text (message_of j)) []))

  nothing_served :
      (s : h.State) (offset : Option ℕ)
      → (poll_items h c s offset []).state ≡ serve s (own_texts [])
  unfolding poll_items own_texts serve
  nothing_served s offset = refl

  self_id : (k : ℕ) → from_id (k + 1) (some (k + 1)) ≡ true
  self_id k = ground arith

  abbrev Serves : h.State → List Json → Polled h c → Type 0
  Serves s js p = p.state ≡ serve s (own_texts (keep (is_passed p.offset) js))

  keep_passed :
      (o : Option ℕ) (j : Json) (js : List Json)
      → is_passed o j ≡ true
      → keep (is_passed o) (j ∷ js) ≡ j ∷ keep (is_passed o) js
  keep_passed o j js e = rw e refl

  poll_items-Serves :
      (js : List Json) (s : h.State) (offset : Option ℕ) (low : ℕ)
      → ascends low js ≡ true
      → (poll_items h c s offset js).state
        ≡ serve s (own_texts (keep (is_passed (poll_items h c s offset js).offset) js))
  poll_items-Serves [] s offset low a = nothing_served s offset
  poll_items-Serves (j ∷ js) s offset low a = elim (Option-cases (update_id j)) [
    | inl e ↦ absurd (no_id_lem j js low e a)
    | inr (k, e) ↦
        let t = (handled h c s (message_of j)).0 in
        let (above, later) = ascends-head j js low k e a in
        elim (Bool-cases (handled h c s (message_of j)).2) [
          | inl r ↦ subst (Serves s (j ∷ js)) (sym (poll-raised j js s offset k e r)) (
              rw (keep_passed (some (k + 1)) j js (passed_below j k (some (k + 1)) e (self_id k))) (
                serve_one s j (keep (is_passed (some (k + 1))) js)
                  (none_passed js (k + 1) (k + 1) (omega arith) later)))
          | inr r ↦
              let after = poll_items h c t (some (k + 1)) js in
              let passed = passed_below j k after.offset e (offset_grows js t (k + 1) later) in
              subst (Serves s (j ∷ js)) (sym (poll-goes_on j js s offset k e r)) (
                rw (keep_passed after.offset j js passed) (
                  poll_items-Serves js t (some (k + 1)) (k + 1) later
                  ∙ serve_first s j (keep (is_passed after.offset) js)))
        ]
  ]

  -- Where every update has an id and the ids ascend, a poll serves the texts of the configured chat in the
  -- updates that its new offset has passed, each once and in their order, and no others, whether or not a
  -- handler raises.
  pub polled_once :
      (s : h.State) (offset : Option ℕ) (response : Bool × Option Json)
      → ascends 0 (updates h c response) ≡ true
      → (poll_telegram_once h c s offset response).state
        ≡ serve s (
            own_texts (
              keep
                (is_passed (poll_telegram_once h c s offset response).offset)
                (updates h c response)))
  unfolding poll_telegram_once
  polled_once s offset response a = poll_items-Serves (updates h c response) s offset 0 a
