-- ===== src/Verification/Links/Pending.antt =====
-- rdp_proxy/verification.py, `list_pending_verification_links`, behind the quick-approve commands.
use rdp_on_demand_proxy_serv.Base.{
  ℕ, ◌≤◌, ◌≡◌, String, true, false, some, List, arith, map, length, length-take, take, max, All-imp,
  All-map, length-map, subst, sym, ◌==◌, refl, All, All-take, All-keep, keep,
}
use rdp_on_demand_proxy_serv.Base.Dict.{get, values, All-values}
use rdp_on_demand_proxy_serv.Base.Sort.{
  sort_desc, All-sort_desc, sort_desc-IsDescending, IsDescending, IsDescending-take,
}
use rdp_on_demand_proxy_serv.Verification.{
  VerificationToken, Service, cleanup, pending_link, is_pending, list_pending_verification_links,
}
use rdp_on_demand_proxy_serv.Verification.Links.{handle_verify, ok}
use rdp_on_demand_proxy_serv.Verification.Links.Cleanup.{get-tokens-cleanup}
use rdp_on_demand_proxy_serv.Verification.Links.Tokens.{IsSound}
use rdp_on_demand_proxy_serv.Verification.Links.Approval.{LinkOpen, verify_ok_iff}

-- The links that the list shows, before they are printed.
abbrev pub shown : Service → ℕ → ℕ → List VerificationToken
shown s now limit =
    take (max 1 limit)
      (sort_desc (λ vt. vt.created_at) (keep (is_pending now) (values (cleanup s now).tokens)))

shown_open :
    (s : Service) (now limit : ℕ)
    → IsSound s
    → All (λ vt. LinkOpen s now vt.token) (shown s now limit)
shown_open s now limit sound = All-take _ (max 1 limit) _ (
    All-sort_desc _ _ _ (
      All-imp _ _ (λ vt h. stands vt h) _
        (All-keep _ (is_pending now) _ (All-values _ (cleanup s now).tokens there))))
  where
    there :
        (k : String) (vt : VerificationToken)
        → get (cleanup s now).tokens k ≡ some vt
        → get s.tokens vt.token ≡ some vt
    there k vt e =
        let kept : get s.tokens k ≡ some vt = ground (arith, get-tokens-cleanup s now k) in
        subst (λ (j : String). get s.tokens j ≡ some vt) (sym (sound.link k vt kept).0) kept

    stands :
        (vt : VerificationToken)
        → (get s.tokens vt.token ≡ some vt) × (is_pending now vt ≡ true)
        → LinkOpen s now vt.token
    stands vt h = (vt, h.0, ground (arith, h.1), ground (arith, h.1))

-- In a service whose entries stand under their own tokens, the list has at most `max(1, limit)` links, newest first, and each of them with a token would be
-- accepted if it were followed at once.
pub pending_links_lem :
    (s : Service) (now limit : ℕ)
    → IsSound s
    → let links = (list_pending_verification_links s now limit).1 in
      (links ≡ map (pending_link s) (shown s now limit))
      × (length links ≤ max 1 limit)
      × IsDescending (λ vt. vt.created_at) (shown s now limit)
      × All
          (λ link. (link.token == "") ≡ false → (handle_verify s now link.token).status ≡ ok)
          links
unfolding list_pending_verification_links
pending_links_lem s now limit sound = (
  refl,
  omega (
    arith,
    length-map (pending_link s) (shown s now limit),
    length-take (max 1 limit) (
        sort_desc (λ (vt : VerificationToken). vt.created_at)
          (keep (is_pending now) (values (cleanup s now).tokens))),
  ),
  IsDescending-take _ (max 1 limit) _ (sort_desc-IsDescending _ _),
  All-map (pending_link s) _ (shown s now limit) (
      All-imp _ _ (λ vt h given. (verify_ok_iff s now vt.token).1 (given, h)) _
        (shown_open s now limit sound)),
)
