-- ===== src/Proxy/Session/Admission.antt =====
-- rdp_proxy/proxy.py: the stages of a connection before it needs an approval.
use rdp_on_demand_proxy_serv.Base.{
  ℕ, suc, zero, ◌+◌, Bool, ◌&&◌, not, List, [], ◌∷◌, ltb, leb, if◌then◌else◌, seconds, length,
  nat_eq,
}
use rdp_on_demand_proxy_serv.Proxy.{consume_ip_connection_slot, is_recently_approved_ip}
use rdp_on_demand_proxy_serv.Proxy.Session.{
  rate_limit_wait, probe_rdp_hello, whitelist_check, security_check, notify_delay_window,
  approval_mark, finishing, Peek, quiet, failed, bytes, Input, whitelist_rejected, Machine, go_to,
  wait_at, enter_slot, approve,
}

unfoldable pub rate_step : Machine → Input → Machine
rate_step m i =
    let r = consume_ip_connection_slot m.proxy i.now m.conn.client_ip in
    let n = record m { proxy = r.0 } in
    if r.1
    then wait_at n probe_rdp_hello (i.now + seconds 2)
    else wait_at n rate_limit_wait (i.now + r.2)

-- TPKT and the X.224 connection request, in the first six of at most twelve bytes.
abbrev pub byte_at : List ℕ → ℕ → ℕ
byte_at [] n = 0
byte_at (b ∷ bs) zero = b
byte_at (b ∷ bs) (suc n) = byte_at bs n

unfoldable pub is_rdp_hello : List ℕ → Bool
is_rdp_hello bs =
    leb 6 (length bs)
    && nat_eq (byte_at bs 0) 3
    && nat_eq (byte_at bs 1) 0
    && nat_eq (byte_at bs 5) 224

unfoldable pub hello_found : Machine → Peek → Machine
hello_found m quiet = m
hello_found m failed = go_to m finishing
hello_found m (bytes bs) = if is_rdp_hello bs then go_to m whitelist_check else go_to m finishing

-- One round of `_looks_like_rdp_client_hello`; no byte is no hello.
unfoldable pub probe_step : Machine → Input → Machine
unfolding hello_found
probe_step m i = if ltb i.now m.conn.deadline then hello_found m i.peek else go_to m finishing

unfoldable pub whitelist_step : Machine → Input → Machine
whitelist_step m i =
    if i.whitelisted
    then go_to m security_check
    else go_to (record m { effects = whitelist_rejected m.conn.client_ip ∷ m.effects }) finishing

unfoldable pub security_step : Machine → Input → Machine
security_step m i =
    if not m.proxy.limits.security_enabled
    then enter_slot m i.now
    else let r = is_recently_approved_ip m.proxy i.now m.conn.client_ip in
      let n = record m { proxy = r.0 } in
      if r.1
      then go_to (approve n) approval_mark
      else wait_at n notify_delay_window (i.now + m.proxy.verification_notify_delay)
