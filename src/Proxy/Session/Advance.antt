-- ===== src/Proxy/Session/Advance.antt =====
-- rdp_proxy/proxy.py: `_handle_connection` as a step function, stage by stage.
use rdp_on_demand_proxy_serv.Base.{Bool, true, false, ◌&&◌, if◌then◌else◌}
use rdp_on_demand_proxy_serv.Proxy.Session.{
  Stage, ip_rate_limit, rate_limit_wait, probe_rdp_hello, whitelist_check, security_check,
  notify_delay_window, create_verification, reconnect_check, reconnect_notice, token_creation,
  verification_notice, wait_verification, leave_pool, approval_mark, wait_forwarding_slot,
  ensure_instance_running, connect_upstream, established_notice, forwarding, finishing,
  disconnect_count, disconnect_record, clear_forwarding, release_slot, closed, Input, Target,
  Machine, go_to, waits_for_client,
}
use rdp_on_demand_proxy_serv.Proxy.Session.Admission.{
  rate_step, probe_step, whitelist_step, security_step,
}
use rdp_on_demand_proxy_serv.Proxy.Session.Approval.{
  register_step, reconnect_step, reconnect_notice_step, token_step, notice_step, verification_step,
  leave_pool_step, mark_step,
}
use rdp_on_demand_proxy_serv.Proxy.Session.Slot.{
  slot_step, ensure_step, connect_step, established_step, forwarding_step,
}
use rdp_on_demand_proxy_serv.Proxy.Session.Closing.{
  finish_step, count_step, record_step, clear_step, release_step,
}

-- A stage of the `try` block; an exception there ends at `finally`.
abbrev pub is_tried : Stage → Bool
is_tried finishing = false
is_tried disconnect_count = false
is_tried disconnect_record = false
is_tried clear_forwarding = false
is_tried release_slot = false
is_tried closed = false
is_tried _ = true

unfoldable pub work : Target → Stage → Machine → Input → Machine
work t ip_rate_limit m i = rate_step m i
work t rate_limit_wait m i = waits_for_client m i ip_rate_limit
work t probe_rdp_hello m i = probe_step m i
work t whitelist_check m i = whitelist_step m i
work t security_check m i = security_step m i
work t notify_delay_window m i = waits_for_client m i create_verification
work t create_verification m i = register_step m
work t reconnect_check m i = reconnect_step m i
work t reconnect_notice m i = reconnect_notice_step m
work t token_creation m i = token_step t m i
work t verification_notice m i = notice_step m i
work t wait_verification m i = verification_step m i
work t leave_pool m i = leave_pool_step m i
work t approval_mark m i = mark_step m i
work t wait_forwarding_slot m i = slot_step m i
work t ensure_instance_running m i = ensure_step m i
work t connect_upstream m i = connect_step m i
work t established_notice m i = established_step m
work t forwarding m i = forwarding_step m i
work t finishing m i = finish_step m
work t disconnect_count m i = count_step m i
work t disconnect_record m i = record_step m i
work t clear_forwarding m i = clear_step m
work t release_slot m i = release_step m i
work t closed m i = m

unfoldable pub advance : Target → Machine → Input → Machine
advance t m i =
    if i.raises && is_tried m.conn.stage then go_to m finishing else work t m.conn.stage m i
