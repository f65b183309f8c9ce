-- ===== src/Proxy/Recent.antt =====
-- rdp_proxy/proxy.py: the tables of recent approvals and disconnects, and the history of their calls.
use rdp_on_demand_proxy_serv.Base.{
  ℕ, ◌≤◌, ◌≡◌, refl, subst, ◌∙◌, String, Bool, true, false, ◌&&◌, not, Option, none, some, List, [],
  ◌∷◌, arith, leb, ◌==◌, if◌then◌else◌, eq_iff, Bool-cases, inl, inr, seconds,
}
use rdp_on_demand_proxy_serv.Base.Dict.{Dict, get, put, prune, get-put, get-pop, get-prune}
use rdp_on_demand_proxy_serv.Proxy.{
  Proxy, Settings, new_proxy, limits_of, recent_of, forget_if, older_than, is_recently_approved_ip,
  mark_ip_approved, should_send_reconnect_only_notification, record_ip_disconnect,
  reconnect_window_seconds,
}

-- From `now` on, the table answers as `last` does, the last recorded time of each address.
abbrev Tracks : Dict ℕ → (String → Option ℕ) → ℕ → ℕ → Type 0
Tracks d last now window =
    (ip : String) (t : ℕ) → now ≤ t → recent_of (get d ip) t window ≡ recent_of (last ip) t window

abbrev noted : (String → Option ℕ) → ℕ → String → String → Option ℕ
noted last now ip j = if ip == j then some now else last j

-- Dropping what is too old does not change a later answer.
drop_old :
    (found : Option ℕ) (now : ℕ) (window : ℕ) (t : ℕ)
    → now ≤ t
    → recent_of
        (elim found [ none ↦ none | some v ↦ if older_than now window v then none else some v ])
        t
        window
      ≡ recent_of found t window
drop_old none now window t h = refl
drop_old (some v) now window t h = ground arith

put-Tracks :
    (d : Dict ℕ) (last : String → Option ℕ) (before : ℕ) (now : ℕ) (window : ℕ) (ip : String)
    → Tracks d last before window
    → before ≤ now
    → Tracks (prune (older_than now window) (put d ip now)) (noted last now ip) now window
put-Tracks d last before now window ip h le j t l =
    rw (get-prune (older_than now window) (put d ip now) j, get-put d ip j now)
      (ground (arith, h j t, drop_old (get d j) now window t))

later_false :
    (found : Option ℕ) (now : ℕ) (t : ℕ) (window : ℕ)
    → recent_of found now window ≡ false
    → now ≤ t
    → recent_of found t window ≡ false
later_false none now t window e l = refl
later_false (some v) now t window e l = ground arith

forget-Tracks :
    (d : Dict ℕ) (last : String → Option ℕ) (before : ℕ) (now : ℕ) (window : ℕ) (ip : String)
    → Tracks d last before window
    → before ≤ now
    → Tracks (forget_if (recent_of (get d ip) now window) d ip) last now window
forget-Tracks d last before now window ip h le j t l =
    elim (Bool-cases (recent_of (get d ip) now window)) [
      | inl e ↦ rw e (h j t (omega arith))
      | inr e ↦
          rw (e, get-pop d ip j)
            (ground (arith, h j t, eq_iff ip j, later_false (get d ip) now t window))
    ]

-- The calls of the four methods, each with its time and address.
pub data Op : Type 0 where
  marks_approved : ℕ → String → Op
  asks_approved : ℕ → String → Op
  records_disconnect : ℕ → String → Op
  asks_reconnect : ℕ → String → Op

abbrev pub time_of : Op → ℕ
time_of (marks_approved now ip) = now
time_of (asks_approved now ip) = now
time_of (records_disconnect now ip) = now
time_of (asks_reconnect now ip) = now

pub step : Proxy → Op → Proxy
step x (marks_approved now ip) = mark_ip_approved x now ip
step x (asks_approved now ip) = (is_recently_approved_ip x now ip).0
step x (records_disconnect now ip) = record_ip_disconnect x now ip
step x (asks_reconnect now ip) = (should_send_reconnect_only_notification x now ip).0

pub run : Proxy → List Op → Proxy
run x [] = x
run x (op ∷ ops) = run (step x op) ops

-- The times do not go back, from `now` on and up to `until`.
abbrev pub InOrder : ℕ → List Op → ℕ → Type 0
InOrder now [] until = now ≤ until
InOrder now (op ∷ ops) until = (now ≤ time_of op) × InOrder (time_of op) ops until

-- The last time of each address in the history, by its definition.
abbrev note_approval : (String → Option ℕ) → Op → String → Option ℕ
note_approval last (marks_approved now ip) = noted last now ip
note_approval last (asks_approved now ip) = last
note_approval last (records_disconnect now ip) = last
note_approval last (asks_reconnect now ip) = last

abbrev pub last_approval : (String → Option ℕ) → List Op → String → Option ℕ
last_approval last [] = last
last_approval last (op ∷ ops) = last_approval (note_approval last op) ops

abbrev note_disconnect : (String → Option ℕ) → Op → String → Option ℕ
note_disconnect last (marks_approved now ip) = last
note_disconnect last (asks_approved now ip) = last
note_disconnect last (records_disconnect now ip) = noted last now ip
note_disconnect last (asks_reconnect now ip) = last

abbrev pub last_disconnect : (String → Option ℕ) → List Op → String → Option ℕ
last_disconnect last [] = last
last_disconnect last (op ∷ ops) = last_disconnect (note_disconnect last op) ops

later-Tracks :
    (d : Dict ℕ) (last : String → Option ℕ) (before : ℕ) (now : ℕ) (window : ℕ)
    → Tracks d last before window
    → before ≤ now
    → Tracks d last now window
later-Tracks d last before now window h le ip t l = h ip t (omega arith)

-- Both tables track the history.
record Follows (x : Proxy) (approval : String → Option ℕ) (disconnect : String → Option ℕ) (now : ℕ)
    : Type 0 where
  approvals :
      1 ≤ x.limits.reuse_seconds
      → Tracks x.recent_approved_ips approval now (seconds x.limits.reuse_seconds)
  disconnects : Tracks x.recent_ip_disconnects disconnect now (seconds reconnect_window_seconds)

asked-Follows :
    (x : Proxy) (a : String → Option ℕ) (d : String → Option ℕ) (before : ℕ) (now : ℕ) (ip : String)
    → Follows x a d before
    → before ≤ now
    → (off : Bool) → leb x.limits.reuse_seconds 0 ≡ off
    → let recent = recent_of (get x.recent_approved_ips ip) now (seconds x.limits.reuse_seconds) in
      Follows
        (if◌then◌else◌ {A = Proxy × Bool} off
          (x, false)
          (record x { recent_approved_ips = forget_if recent x.recent_approved_ips ip }, recent)).0
        a
        d
        now
asked-Follows x a d before now ip f le true off = record {
  approvals = λ on. absurd (ground arith);
  disconnects = later-Tracks _ d before now _ f.disconnects le;
}
asked-Follows x a d before now ip f le false on = record {
  approvals = λ o. forget-Tracks _ a before now _ ip (f.approvals o) le;
  disconnects = later-Tracks _ d before now _ f.disconnects le;
}

step-Follows :
    (x : Proxy) (approval : String → Option ℕ) (disconnect : String → Option ℕ) (now : ℕ) (op : Op)
    → Follows x approval disconnect now
    → now ≤ time_of op
    → Follows (step x op) (note_approval approval op) (note_disconnect disconnect op) (time_of op)
unfolding step mark_ip_approved is_recently_approved_ip record_ip_disconnect
    should_send_reconnect_only_notification
step-Follows x a d before (marks_approved now ip) f le =
    elim (Bool-cases (leb x.limits.reuse_seconds 0)) [
      | inl off ↦ simp off (record {
        approvals = λ on. absurd (ground arith);
        disconnects = later-Tracks _ d before now _ f.disconnects le;
      })
      | inr on ↦ simp on (record {
        approvals = λ o. put-Tracks _ a before now _ ip (f.approvals o) le;
        disconnects = later-Tracks _ d before now _ f.disconnects le;
      })
    ]
step-Follows x a d before (asks_approved now ip) f le =
    asked-Follows x a d before now ip f le (leb x.limits.reuse_seconds 0) refl
step-Follows x a d before (records_disconnect now ip) f le = record {
  approvals = λ on. later-Tracks _ a before now _ (f.approvals on) le;
  disconnects = put-Tracks _ d before now _ ip f.disconnects le;
}
step-Follows x a d before (asks_reconnect now ip) f le = record {
  approvals = λ on. later-Tracks _ a before now _ (f.approvals on) le;
  disconnects = forget-Tracks _ d before now _ ip f.disconnects le;
}

run-Follows :
    (x : Proxy) (a : String → Option ℕ) (d : String → Option ℕ) (now : ℕ) (ops : List Op)
    (until : ℕ)
    → Follows x a d now
    → InOrder now ops until
    → Follows (run x ops) (last_approval a ops) (last_disconnect d ops) until
unfolding run
run-Follows x a d now [] until f o = record {
  approvals = λ on. later-Tracks _ a now until _ (f.approvals on) o;
  disconnects = later-Tracks _ d now until _ f.disconnects o;
}
run-Follows x a d now (op ∷ ops) until f o =
    run-Follows (step x op) (note_approval a op) (note_disconnect d op) (time_of op) ops until
      (step-Follows x a d now op f o.0) o.1

new_proxy-Follows : (s : Settings) (now : ℕ) → Follows (new_proxy s now) (λ ip. none) (λ ip. none) 0
unfolding new_proxy get
new_proxy-Follows s now = record { approvals = λ on ip t l. refl; disconnects = λ ip t l. refl }

run-limits : (x : Proxy) (ops : List Op) → (run x ops).limits ≡ x.limits
unfolding run step mark_ip_approved is_recently_approved_ip record_ip_disconnect
    should_send_reconnect_only_notification
run-limits x [] = refl
run-limits x (marks_approved now ip ∷ ops) =
    ground (arith, run-limits (step x (marks_approved now ip)) ops)
run-limits x (asks_approved now ip ∷ ops) =
    ground (arith, run-limits (step x (asks_approved now ip)) ops)
run-limits x (records_disconnect now ip ∷ ops) =
    ground (arith, run-limits (step x (records_disconnect now ip)) ops)
run-limits x (asks_reconnect now ip ∷ ops) =
    ground (arith, run-limits (step x (asks_reconnect now ip)) ops)

answered :
    (x : Proxy) (a : String → Option ℕ) (d : String → Option ℕ) (now : ℕ) (ip : String)
    → Follows x a d now
    → (is_recently_approved_ip x now ip).1 ≡ (
        not (leb x.limits.reuse_seconds 0) && recent_of (a ip) now (seconds x.limits.reuse_seconds))
unfolding is_recently_approved_ip
answered x a d now ip f = elim (Bool-cases (leb x.limits.reuse_seconds 0)) [
  | inl off ↦ ground arith
  | inr on ↦ let same = f.approvals (ground arith) ip now (omega arith) in ground arith
]

new_proxy-limits : (s : Settings) (now : ℕ) → (new_proxy s now).limits ≡ limits_of s
unfolding new_proxy
new_proxy-limits s now = refl

-- After any calls of the four methods in order of time, an address is taken as recently approved exactly
-- if the reuse is on and the last approval that was recorded for it, if any, is at most the reuse
-- time ago: what the calls drop from the table changes no answer.
pub recent_approval_lem :
    (s : Settings) (start : ℕ) (ops : List Op) (now : ℕ) (ip : String)
    → InOrder 0 ops now
    → let x = run (new_proxy s start) ops in
      (is_recently_approved_ip x now ip).1 ≡ (
        not (leb (limits_of s).reuse_seconds 0)
        && recent_of (last_approval (λ j. none) ops ip) now (seconds (limits_of s).reuse_seconds))
recent_approval_lem s start ops now ip o =
    let x = run (new_proxy s start) ops in
    let last = last_approval (λ j. none) ops in
    subst
      (λ y.
        (is_recently_approved_ip x now ip).1
        ≡ (not (leb y.reuse_seconds 0) && recent_of (last ip) now (seconds y.reuse_seconds)))
      (run-limits (new_proxy s start) ops ∙ new_proxy-limits s start)
      (answered x last (last_disconnect (λ j. none) ops) now ip (
        run-Follows (new_proxy s start) (λ j. none) (λ j. none) 0 ops now
          (new_proxy-Follows s start) o))

-- The same of disconnects: an address counts as reconnecting exactly if its last recorded disconnect is
-- at most ten minutes ago.
pub recent_disconnect_lem :
    (s : Settings) (start : ℕ) (ops : List Op) (now : ℕ) (ip : String)
    → InOrder 0 ops now
    → (should_send_reconnect_only_notification (run (new_proxy s start) ops) now ip).1
      ≡ recent_of (last_disconnect (λ j. none) ops ip) now (seconds reconnect_window_seconds)
unfolding should_send_reconnect_only_notification
recent_disconnect_lem s start ops now ip o =
    (run-Follows (new_proxy s start) (λ j. none) (λ j. none) 0 ops now (new_proxy-Follows s start)
        o).disconnects
      ip now (omega arith)
