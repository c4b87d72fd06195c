-- ===== src/Resolver/Errors.antt =====
-- The codes and the contexts of resolver errors.
use protocol_proxy.Prelude.{◌<◌, ◌≤◌, ◌≡◌, refl, arith}
use protocol_proxy.Resolver.{
  ResolverError, not_found, unavailable, timeout, forbidden, internal, code, context, with_context,
  Metadata,
}

-- Attaching a context is seen by `context`, the last one wins, and the kind of error, which its
-- code tells, stays.
pub with_context_laws :
    (e : ResolverError) (c d : Metadata)
    → (context (with_context e c) ≡ c)
      × (with_context (with_context e c) d ≡ with_context e d)
      × (code (with_context e c) ≡ code e)
      × (with_context e (context e) ≡ e)
unfolding code context with_context
with_context_laws (not_found m x) c d = (refl, refl, refl, refl)
with_context_laws (unavailable m x) c d = (refl, refl, refl, refl)
with_context_laws (timeout m x) c d = (refl, refl, refl, refl)
with_context_laws (forbidden m x) c d = (refl, refl, refl, refl)
with_context_laws (internal m x) c d = (refl, refl, refl, refl)

-- Every code is a client or server error of HTTP.
pub code_range : (e : ResolverError) → (400 ≤ code e) × (code e < 600)
unfolding code
code_range (not_found m x) = omega arith
code_range (unavailable m x) = omega arith
code_range (timeout m x) = omega arith
code_range (forbidden m x) = omega arith
code_range (internal m x) = omega arith
