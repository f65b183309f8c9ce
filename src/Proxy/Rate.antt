-- ===== src/Proxy/Rate.antt =====
-- rdp_proxy/proxy.py, `_consume_ip_connection_slot`, over any sequence of calls.
use rdp_on_demand_proxy_serv.Base.{
  ℕ, suc, ◌+◌, ◌-◌, ◌*◌, ◌≤◌, ◌<◌, ◌≡◌, refl, sym, ◌∙◌, subst, String, true, false, ◌&&◌, Option,
  none, some, List, [], ◌∷◌, arith, leb, All, ◌==◌, if◌then◌else◌, eq_iff, Option-cases, inl, inr,
  min, seconds,
}
use rdp_on_demand_proxy_serv.Base.Dict.{get, get-put}
use rdp_on_demand_proxy_serv.Proxy.{Proxy, RateWindow, consume_ip_connection_slot}

-- Calls of all addresses, each with its time, and how many of one address's are granted.
abbrev pub granted : Proxy → String → List (ℕ × String) → ℕ
granted x ip [] = 0
granted x ip ((now, caller) ∷ calls) =
    let r = consume_ip_connection_slot x now caller in
    let rest = granted r.0 ip calls in if caller == ip && r.1 then rest + 1 else rest

-- The grants that an address has left in a span that starts at `from`: those of its open window, and
-- those of the window that the span may still open.
abbrev left : ℕ → ℕ → Option RateWindow → ℕ
left limit from none = limit
left limit from (some w) = (limit - w.count) + (if leb from w.started then 0 else limit)

consumed :
    (x : Proxy) (now : ℕ) (caller : String) (ip : String) (from : ℕ)
    → 1 ≤ x.limits.rate_window_seconds
    → 1 ≤ x.limits.rate_limit
    → from ≤ now
    → now < from + seconds x.limits.rate_window_seconds
    → let r = consume_ip_connection_slot x now caller in
      left x.limits.rate_limit from (get r.0.ip_rate_windows ip)
        + (if caller == ip && r.1 then 1 else 0)
      ≤ left x.limits.rate_limit from (get x.ip_rate_windows ip)
unfolding consume_ip_connection_slot
consumed x now caller ip from w l a b = elim (Option-cases (get x.ip_rate_windows caller)) [
  | inl e ↦ ground (
    arith,
    eq_iff caller ip,
    get-put x.ip_rate_windows caller ip (record { started = now; count = 1 }),
  )
  | inr (v, e) ↦ ground (
    arith,
    eq_iff caller ip,
    get-put x.ip_rate_windows caller ip (record { started = now; count = 1 }),
    get-put x.ip_rate_windows caller ip (record { started = v.started; count = suc v.count }),
  )
]

same_limits :
    (x : Proxy) (now : ℕ) (ip : String) → (consume_ip_connection_slot x now ip).0.limits ≡ x.limits
unfolding consume_ip_connection_slot
same_limits x now ip = ground arith

-- A call's time lies in the span that starts at `from` and is shorter than the window.
abbrev pub InSpan : Proxy → ℕ → ℕ × String → Type 0
InSpan x from call = (from ≤ call.0) × (call.0 < from + seconds x.limits.rate_window_seconds)

granted-left :
    (x : Proxy) (ip : String) (from : ℕ) (calls : List (ℕ × String))
    → 1 ≤ x.limits.rate_window_seconds
    → 1 ≤ x.limits.rate_limit
    → All (InSpan x from) calls
    → granted x ip calls ≤ left x.limits.rate_limit from (get x.ip_rate_windows ip)
granted-left x ip from [] w l h = omega arith
granted-left x ip from ((now, caller) ∷ calls) w l h =
    let r = consume_ip_connection_slot x now caller in
    let e = same_limits x now caller in
    let one = consumed x now caller ip from w l h.0.0 h.0.1 in
    let rest =
      granted-left r.0 ip from calls (subst (λ y. 1 ≤ y.rate_window_seconds) (sym e) w)
        (subst (λ y. 1 ≤ y.rate_limit) (sym e) l)
        (subst
          (λ y.
            All
              (λ (call : ℕ × String).
                (from ≤ call.0) × (call.0 < from + seconds y.rate_window_seconds))
              calls)
          (sym e) h.1) in
    let rest_ =
      subst (λ y. granted r.0 ip calls ≤ left y.rate_limit from (get r.0.ip_rate_windows ip)) e
        rest in
    ground (arith, one, rest_)

left_le : (limit : ℕ) (from : ℕ) (w : Option RateWindow) → left limit from w ≤ 2 * limit
left_le limit from none = omega arith
left_le limit from (some w) = ground arith

-- In any span that is shorter than the rate window, whatever calls other addresses make and whatever
-- the state was, an address is granted at most twice the limit, if the limit and the window are
-- not 0.
pub rate_is_bounded :
    (x : Proxy) (ip : String) (from : ℕ) (calls : List (ℕ × String))
    → 1 ≤ x.limits.rate_window_seconds
    → 1 ≤ x.limits.rate_limit
    → All (InSpan x from) calls
    → granted x ip calls ≤ 2 * x.limits.rate_limit
rate_is_bounded x ip from calls w l h = omega (
  arith,
  granted-left x ip from calls w l h,
  left_le x.limits.rate_limit from (get x.ip_rate_windows ip),
)

abbrev pub calls_of : String → List (ℕ × String) → ℕ
calls_of ip [] = 0
calls_of ip ((now, caller) ∷ calls) = (if caller == ip then 1 else 0) + calls_of ip calls

-- The grants that an address has for certain.
abbrev sure : ℕ → Option RateWindow → ℕ
sure limit none = limit
sure limit (some w) = limit - w.count

surely :
    (x : Proxy) (now : ℕ) (caller : String) (ip : String)
    → let r = consume_ip_connection_slot x now caller in
      sure x.limits.rate_limit (get x.ip_rate_windows ip)
      ≤ sure x.limits.rate_limit (get r.0.ip_rate_windows ip)
        + (if caller == ip && r.1 then 1 else 0)
unfolding consume_ip_connection_slot
surely x now caller ip = elim (Option-cases (get x.ip_rate_windows caller)) [
  | inl e ↦ ground (
    arith,
    eq_iff caller ip,
    get-put x.ip_rate_windows caller ip (record { started = now; count = 1 }),
  )
  | inr (v, e) ↦ ground (
    arith,
    eq_iff caller ip,
    get-put x.ip_rate_windows caller ip (record { started = now; count = 1 }),
    get-put x.ip_rate_windows caller ip (record { started = v.started; count = suc v.count }),
  )
]

-- What a refusal shows: the address has an open window that has used up the limit.
record Refused (x : Proxy) (now : ℕ) (ip : String) (v : RateWindow) : Type 0 where
  found : get x.ip_rate_windows ip ≡ some v
  limited : 1 ≤ x.limits.rate_limit
  timed : 1 ≤ x.limits.rate_window_seconds
  used : x.limits.rate_limit ≤ v.count
  current : now - v.started < seconds x.limits.rate_window_seconds
  waits :
      (consume_ip_connection_slot x now ip).2
      ≡ v.started + seconds x.limits.rate_window_seconds - now
  keeps : (consume_ip_connection_slot x now ip).0 ≡ x

Refused-window :
    (x : Proxy) (now : ℕ) (ip : String) (found : Option RateWindow)
    → get x.ip_rate_windows ip ≡ found
    → (consume_ip_connection_slot x now ip).1 ≡ false
    → (v : RateWindow) × Refused x now ip v
unfolding consume_ip_connection_slot
Refused-window x now ip none e h = absurd (ground arith)
Refused-window x now ip (some v) e h = (
  v,
  record {
    found = e;
    limited = ground arith;
    timed = ground arith;
    used = ground arith;
    current = ground arith;
    waits = ground arith;
    keeps = ground arith;
  },
)

refused_sure :
    (x : Proxy) (now : ℕ) (ip : String)
    → (consume_ip_connection_slot x now ip).1 ≡ false
    → sure x.limits.rate_limit (get x.ip_rate_windows ip) ≡ 0
refused_sure x now ip h =
    let (v, r) = Refused-window x now ip _ refl h in ground (arith, r.found, r.used)

granted-sure :
    (x : Proxy) (ip : String) (calls : List (ℕ × String))
    → min (sure x.limits.rate_limit (get x.ip_rate_windows ip)) (calls_of ip calls)
      ≤ granted x ip calls
granted-sure x ip [] = omega arith
granted-sure x ip ((now, caller) ∷ calls) =
    let r = consume_ip_connection_slot x now caller in
    let one = surely x now caller ip in
    let rest =
      subst
        (λ y.
          min (sure y.rate_limit (get r.0.ip_rate_windows ip)) (calls_of ip calls)
          ≤ granted r.0 ip calls)
        (same_limits x now caller) (granted-sure r.0 ip calls) in
    ground (arith, one, rest, eq_iff caller ip, refused_sure x now caller)

-- An address that has no rate window yet is granted its first calls, up to the limit, whatever calls
-- other addresses make between them.
pub first_are_granted :
    (x : Proxy) (ip : String) (calls : List (ℕ × String))
    → get x.ip_rate_windows ip ≡ none
    → min x.limits.rate_limit (calls_of ip calls) ≤ granted x ip calls
first_are_granted x ip calls e =
    subst (λ w. min (sure x.limits.rate_limit w) (calls_of ip calls) ≤ granted x ip calls) e
      (granted-sure x ip calls)

window_ended :
    (y : Proxy) (later : ℕ) (ip : String) (v : RateWindow)
    → get y.ip_rate_windows ip ≡ some v
    → seconds y.limits.rate_window_seconds ≤ later - v.started
    → (consume_ip_connection_slot y later ip).1 ≡ true
unfolding consume_ip_connection_slot
window_ended y later ip v e over = ground arith

-- A refused call changes nothing, and the wait that it names is enough: a call of the address at the
-- end of the wait or later, with the same settings and the same window of the address, is granted;
-- other addresses' calls may come between. The wait is not longer than the window if the window did not start in the future.
pub wait_is_enough :
    (x : Proxy) (now : ℕ) (ip : String) (y : Proxy) (later : ℕ)
    → (consume_ip_connection_slot x now ip).1 ≡ false
    → now + (consume_ip_connection_slot x now ip).2 ≤ later
    → y.limits ≡ x.limits
    → get y.ip_rate_windows ip ≡ get x.ip_rate_windows ip
    → ((consume_ip_connection_slot x now ip).0 ≡ x)
      × ((consume_ip_connection_slot y later ip).1 ≡ true)
      × ((w : RateWindow)
          → get x.ip_rate_windows ip ≡ some w
          → w.started ≤ now
          → (consume_ip_connection_slot x now ip).2 ≤ seconds x.limits.rate_window_seconds)
wait_is_enough x now ip y later refused long same kept =
    let (v, r) = Refused-window x now ip (get x.ip_rate_windows ip) refl refused in
    (
      r.keeps,
      window_ended y later ip v (kept ∙ r.found) (ground (arith, same, r.current, r.waits)),
      λ w e started. ground (arith, r.waits, r.found),
    )
