-- ===== src/Proxy/Tests.antt =====
-- Runs of the proxy's methods.
use rdp_on_demand_proxy_serv.Base.{
  ℕ, ◌+◌, ◌*◌, ◌≤◌, ◌<◌, ◌≡◌, refl, String, true, false, ◌&&◌, not, none, some, List, [], ◌∷◌,
  arith, leb, seconds,
}
use rdp_on_demand_proxy_serv.Base.Int.{pos}
use rdp_on_demand_proxy_serv.Base.Dict.{get, put}
use rdp_on_demand_proxy_serv.Proxy.{
  Proxy, Settings, Waiting, RateWindow, limits_of, new_proxy, consume_ip_connection_slot, recent_of,
  is_recently_approved_ip,
}
use rdp_on_demand_proxy_serv.Proxy.Rate.{granted, rate_is_bounded, wait_is_enough}
use rdp_on_demand_proxy_serv.Proxy.Recent.{
  Op, marks_approved, asks_approved, records_disconnect, run, last_approval, recent_approval_lem,
}

-- Two connections a minute for an address.
abbrev pub settings : Settings
settings = record {
  security_enabled = true;
  verification_wait_seconds = pos 180;
  deny_if_timeout = true;
  max_pending_verification_connections = pos 8;
  max_pending_verifications_per_ip = pos 1;
  forwarding_slot_wait_seconds = pos 120;
  approved_ip_reuse_seconds = pos 300;
  per_ip_connection_rate_window_seconds = pos 60;
  per_ip_connection_rate_limit = pos 2;
}

abbrev fresh : Proxy
fresh = new_proxy settings 0

abbrev calls : List (ℕ × String)
calls = (1000, "a") ∷ (2000, "a") ∷ (2500, "b") ∷ (3000, "a") ∷ []

window_on : 1 ≤ fresh.limits.rate_window_seconds
unfolding new_proxy limits_of
window_on = omega arith

limit_on : 1 ≤ fresh.limits.rate_limit
unfolding new_proxy limits_of
limit_on = omega arith

in_span :
    (n : ℕ)
    → 1000 ≤ n
    → n ≤ 3000
    → (1000 ≤ n) × (n < 1000 + seconds fresh.limits.rate_window_seconds)
unfolding new_proxy limits_of
in_span n a b = (a, omega arith)

rate_is_bounded_example : granted fresh "a" calls ≤ 2 * fresh.limits.rate_limit
rate_is_bounded_example = rate_is_bounded fresh "a" 1000 calls window_on limit_on (
  in_span 1000 (omega arith) (omega arith),
  (
    in_span 2000 (omega arith) (omega arith),
    (in_span 2500 (omega arith) (omega arith), (in_span 3000 (omega arith) (omega arith), tt)),
  ),
)

-- After its two calls the address waits.
abbrev used_up : Proxy
used_up = (consume_ip_connection_slot (consume_ip_connection_slot fresh 1000 "a").0 2000 "a").0

refused : (consume_ip_connection_slot used_up 3000 "a").1 ≡ false
unfolding consume_ip_connection_slot new_proxy limits_of get put
refused = refl

long : 3000 + (consume_ip_connection_slot used_up 3000 "a").2 ≤ 61000
unfolding consume_ip_connection_slot new_proxy limits_of get put
long = omega arith

wait_is_enough_example :
    ((consume_ip_connection_slot used_up 3000 "a").0 ≡ used_up)
    × ((consume_ip_connection_slot used_up 61000 "a").1 ≡ true)
    × ((w : RateWindow)
        → get used_up.ip_rate_windows "a" ≡ some w
        → w.started ≤ 3000
        → (consume_ip_connection_slot used_up 3000 "a").2
          ≤ seconds used_up.limits.rate_window_seconds)
wait_is_enough_example = wait_is_enough used_up 3000 "a" used_up 61000 refused long refl refl

abbrev visits : List Op
visits =
    marks_approved 1000 "a"
    ∷ records_disconnect 5000 "a"
    ∷ asks_approved 6000 "b"
    ∷ marks_approved 7000 "b"
    ∷ []

recent_approval_lem_example :
    (is_recently_approved_ip (run (new_proxy settings 0) visits) 9000 "a").1 ≡ (
      not (leb (limits_of settings).reuse_seconds 0)
      && recent_of
          (last_approval (λ j. none) visits "a")
          9000
          (seconds (limits_of settings).reuse_seconds))
recent_approval_lem_example =
    recent_approval_lem settings 0 visits 9000 "a"
      (omega arith, (omega arith, (omega arith, (omega arith, omega arith))))

abbrev client : Waiting
client = record { socket = 7; client_ip = "a"; client_port = 50000 }
