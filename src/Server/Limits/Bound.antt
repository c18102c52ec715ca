-- ===== src/Server/Limits/Bound.antt =====
-- The bound that the limiter keeps.
use vel.Common.{
  Bool, List, Text, [], ap, if◌then◌else◌, keep, length, refl, subst, sym, ℕ, ◌&&◌, ◌==◌, ◌∷◌, ◌≡◌,
  ◌≤◌,
}
use vel.Limiter.Window.{Rises, in_window, let_through, max_per_window}
use vel.Server.Limits.{RateLimiter, allow, new_rate_limiter}

-- The times at which the calls, each with its address and its time, let one address through.
unfoldable pub requests_passed : Text → RateLimiter → List (Text × ℕ) → List ℕ
requests_passed ip rl [] = []
requests_passed ip rl ((client, now) ∷ es) =
    let rest = requests_passed ip (allow rl client now).1 es in
    if (client == ip) && (allow rl client now).0 then now ∷ rest else rest

requests_passed-let_through :
    (ip : Text) (rl : RateLimiter) (es : List (Text × ℕ))
    → requests_passed ip rl es ≡ let_through rl.max rl.window ip rl.requests es
unfolding requests_passed let_through allow
requests_passed-let_through ip rl [] = refl
requests_passed-let_through ip rl ((client, now) ∷ es) =
    let (allowed, rl') = allow rl client now in
    ap (λ l. if (client == ip) && allowed then now ∷ l else l)
      (requests_passed-let_through ip rl' es)

-- Whatever requests come from whatever addresses at times that never fall, a new limiter lets at
-- most `max` of any one address through in any window.
pub allow_bound :
    (max window : ℕ) (skip_ok : Bool) (ip : Text) (start : ℕ) (es : List (Text × ℕ)) (end : ℕ)
    → Rises start es
    → length (
        keep
          (in_window max window end)
          (requests_passed ip (new_rate_limiter max window skip_ok) es))
      ≤ max
unfolding new_rate_limiter
allow_bound max window skip_ok ip start es end h =
    subst (λ l. length (keep (in_window max window end) l) ≤ max)
      (sym (requests_passed-let_through ip (new_rate_limiter max window skip_ok) es))
      (max_per_window max window ip start es end h)
