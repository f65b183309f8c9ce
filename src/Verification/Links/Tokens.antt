-- ===== src/Verification/Links/Tokens.antt =====
-- rdp_proxy/verification.py: the tables when links and management tokens are made and spent.
use rdp_on_demand_proxy_serv.Base.{
  ℕ, ◌≡◌, refl, String, true, false, none, some, arith, eq_iff, Option, Bool-cases, inl, inr, ◌==◌,
  ◌||◌, ltb,
}
use rdp_on_demand_proxy_serv.Base.Dict.{get, put, get-put}
use rdp_on_demand_proxy_serv.Verification.{
  Meta, VerificationToken, ActionToken, ControlAuthToken, Service, cleanup, fresh_token, fresh_auth,
  check_auth, action_token, create_token, create_control_auth_token, is_control_auth_valid,
  create_action_links,
}
use rdp_on_demand_proxy_serv.Verification.Links.Cleanup.{
  get-tokens-cleanup, get-action_tokens-cleanup, get-control_auth_tokens-cleanup, events-cleanup,
}

-- Each entry stands under its own token; a link is approved exactly if it is used, and its event is
-- set exactly then.
pub record IsSound (s : Service) : Type 0 where
  pub link :
      (k : String) (vt : VerificationToken)
      → get s.tokens k ≡ some vt
      → (vt.token ≡ k) × (vt.approved ≡ vt.used) × (get s.events k ≡ some vt.used)
  pub action : (k : String) (at : ActionToken) → get s.action_tokens k ≡ some at → at.token ≡ k
  pub auth :
      (k : String) (cat : ControlAuthToken) → get s.control_auth_tokens k ≡ some cat → cat.token ≡ k

pub cleanup-IsSound : (s : Service) (now : ℕ) → IsSound s → IsSound (cleanup s now)
cleanup-IsSound s now h = record {
  link = λ k vt e. rw events-cleanup (ground (arith, get-tokens-cleanup s now k, h.link k vt));
  action = λ k at e. ground (arith, get-action_tokens-cleanup s now k, h.action k at);
  auth = λ k cat e. ground (arith, get-control_auth_tokens-cleanup s now k, h.auth k cat);
}

pub create_token-IsSound :
    (s : Service) (now : ℕ) (token : String) (m : Meta)
    → IsSound s
    → IsSound (create_token s now token m).0
unfolding create_token
create_token-IsSound s now token m h =
    let c = cleanup-IsSound s now h in
    record {
      link = λ k vt e. ground (
        arith,
        eq_iff token k,
        get-put (cleanup s now).tokens token k (fresh_token s now token m),
        get-put (cleanup s now).events token k false,
        c.link k vt,
      );
      action = c.action;
      auth = c.auth;
    }

pub create_auth-IsSound :
    (s : Service) (now : ℕ) (token : String)
    → IsSound s
    → IsSound (create_control_auth_token s now token).0
unfolding create_control_auth_token
create_auth-IsSound s now token h =
    let c = cleanup-IsSound s now h in
    record {
      link = c.link;
      action = c.action;
      auth = λ k cat e. ground (
        arith,
        eq_iff token k,
        get-put (cleanup s now).control_auth_tokens token k (fresh_auth s now token),
        c.auth k cat,
      );
    }

spent_auth-IsSound :
    (c : Service) (token : String) (cat : ControlAuthToken)
    → IsSound c
    → get c.control_auth_tokens token ≡ some cat
    → IsSound (record c {
      control_auth_tokens = put c.control_auth_tokens token (record cat { used = true });
    })
spent_auth-IsSound c token cat h found = record {
  link = h.link;
  action = h.action;
  auth = λ k cat' e. ground (
    arith,
    eq_iff token k,
    get-put c.control_auth_tokens token k (record cat { used = true }),
    h.auth k cat',
    h.auth token cat,
  );
}

check_auth-IsSound :
    (c : Service) (now : ℕ) (token : String) (found : Option ControlAuthToken)
    → IsSound c
    → get c.control_auth_tokens token ≡ found
    → IsSound (check_auth c now token found).0
unfolding check_auth
check_auth-IsSound c now token none h e = h
check_auth-IsSound c now token (some cat) h e =
    elim (Bool-cases (cat.used || ltb cat.expires_at now)) [
      | inl spent ↦ rw spent h
      | inr live ↦ rw live (spent_auth-IsSound c token cat h e)
    ]

pub is_control_auth_valid-IsSound :
    (s : Service) (now : ℕ) (token : String)
    → IsSound s
    → IsSound (is_control_auth_valid s now token).0
unfolding is_control_auth_valid
is_control_auth_valid-IsSound s now token h = elim (Bool-cases (token == "")) [
  | inl empty ↦ rw empty h
  | inr given ↦ rw given (check_auth-IsSound _ now token _ (cleanup-IsSound s now h) refl)
]

pub create_links-IsSound :
    (s : Service) (now : ℕ) (keep_token shutdown_token target : String)
    → IsSound s
    → IsSound (create_action_links s now keep_token shutdown_token target).0
unfolding create_action_links
create_links-IsSound s now k1 k2 target h =
    let c = cleanup-IsSound s now h in
    record {
      link = c.link;
      action = λ k at e. ground (
        arith,
        eq_iff k1 k,
        eq_iff k2 k,
        get-put (cleanup s now).action_tokens k1 k (action_token s now k1 target "keep_running"),
        get-put (put (cleanup s now).action_tokens k1 (action_token s now k1 target "keep_running"))
            k2 k (action_token s now k2 target "shutdown_on_idle"),
        c.action k at,
      );
      auth = c.auth;
    }
