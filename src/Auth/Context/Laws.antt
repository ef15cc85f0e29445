-- ===== src/Auth/Context/Laws.antt =====
-- The identity that loom/auth/context.py settles on.
use loom_unified_agentic_cod.Base.{ℕ, ◌≡◌, refl, true, Option, arith}
use loom_unified_agentic_cod.Auth.Context.{
  AuthenticatedPrincipal, AuthState, set_principal, begin_request_auth_context,
  end_request_auth_context, get_effective_principal,
}

-- In a secure runtime the client's headers change nothing: any two pairs of headers give the same
-- identity.
pub effective_ignores_headers :
    (service : AuthenticatedPrincipal) (s : AuthState) (u o u' o' : Option ℕ)
    → get_effective_principal true service s u o ≡ get_effective_principal true service s u' o'
unfolding get_effective_principal
effective_ignores_headers service s u o u' o' = ground arith

-- In a secure runtime a principal that is set while a request runs is the effective one, and ending
-- the request removes it: the next request starts from the service identity.
pub effective_per_request :
    (service p : AuthenticatedPrincipal) (s : AuthState) (u o : Option ℕ)
    → (get_effective_principal true service (set_principal p (begin_request_auth_context s)) u o
        ≡ p)
      × (get_effective_principal true service
            (begin_request_auth_context
              (end_request_auth_context (set_principal p (begin_request_auth_context s))))
            u
            o
          ≡ service)
unfolding get_effective_principal set_principal begin_request_auth_context end_request_auth_context
effective_per_request service p s u o = (refl, refl)
