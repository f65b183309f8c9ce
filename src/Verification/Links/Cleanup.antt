-- ===== src/Verification/Links/Cleanup.antt =====
-- rdp_proxy/verification.py, `_cleanup_locked`.
use rdp_on_demand_proxy_serv.Base.{
  ℕ, ◌≤◌, ◌+◌, ◌≡◌, ◌↔◌, ◌⊎◌, String, false, some, arith, seconds, Option-cases, inl, inr,
}
use rdp_on_demand_proxy_serv.Base.Dict.{get, unless, get-prune}
use rdp_on_demand_proxy_serv.Verification.{VerificationToken, Service, cleanup, is_stale}

module _ (s : Service) (now : ℕ) (k : String) where
  pub get-tokens-cleanup :
      get (cleanup s now).tokens k
      ≡ unless (λ v. is_stale now v.created_at v.expires_at v.used) (get s.tokens k)
  unfolding cleanup
  get-tokens-cleanup = get-prune _ s.tokens k

  pub get-action_tokens-cleanup :
      get (cleanup s now).action_tokens k
      ≡ unless (λ v. is_stale now v.created_at v.expires_at v.used) (get s.action_tokens k)
  unfolding cleanup
  get-action_tokens-cleanup = get-prune _ s.action_tokens k

  pub get-control_auth_tokens-cleanup :
      get (cleanup s now).control_auth_tokens k
      ≡ unless (λ v. is_stale now v.created_at v.expires_at v.used) (get s.control_auth_tokens k)
  unfolding cleanup
  get-control_auth_tokens-cleanup = get-prune _ s.control_auth_tokens k

  pub events-cleanup : (cleanup s now).events ≡ s.events
  unfolding cleanup
  events-cleanup = ground arith

  pub get-events-cleanup : get (cleanup s now).events k ≡ get s.events k
  get-events-cleanup = rw events-cleanup

  -- A verification link survives the clean-up at `now` exactly while it has not expired and was not
  -- used more than an hour ago after its creation; the survivor is unchanged.
  pub survives_cleanup :
      (vt : VerificationToken)
      → (get (cleanup s now).tokens k ≡ some vt) ↔ (
          (get s.tokens k ≡ some vt)
          × (now ≤ vt.expires_at)
          × ((vt.used ≡ false) ⊎ (now ≤ vt.created_at + seconds 3600)))
  survives_cleanup vt = elim (Option-cases (get s.tokens k)) [
    | inl e ↦ rw (get-tokens-cleanup, e) ((λ h. cc), (λ h. cc))
    | inr (v, e) ↦ rw (get-tokens-cleanup, e) (ground arith)
  ]
