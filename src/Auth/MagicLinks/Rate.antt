-- ===== src/Auth/MagicLinks/Rate.antt =====
-- The rate limit in front of the creation of links.
use vel.Common.{
  List, Text, [], ap, if◌then◌else◌, keep, length, refl, subst, sym, ℕ, ◌&&◌, ◌==◌, ◌∷◌, ◌≡◌, ◌≤◌,
}
use vel.Auth.Types.{hour}
use vel.Limiter.{RateTrack, allow_in_window}
use vel.Limiter.Window.{Rises, in_window, let_through, max_per_window}
use vel.Auth.MagicLinks.{allow_creation}

-- The times at which the calls of `allowCreation`, each with its user and its time, let one user
-- through.
unfoldable pub links_made : Text → RateTrack → List (Text × ℕ) → List ℕ
links_made u r [] = []
links_made u r ((user, now) ∷ es) =
    let rest = links_made u (allow_creation r user now).1 es in
    if (user == u) && (allow_creation r user now).0 then now ∷ rest else rest

links_made-let_through :
    (u : Text) (r : RateTrack) (es : List (Text × ℕ))
    → links_made u r es ≡ let_through 5 hour u r es
unfolding links_made let_through allow_creation
links_made-let_through u r [] = refl
links_made-let_through u r ((user, now) ∷ es) =
    let (allowed, r') = allow_in_window 5 hour r user now in
    ap (λ l. if (user == u) && allowed then now ∷ l else l) (links_made-let_through u r' es)

-- Whatever calls are made for whatever users at times that never fall, starting with no record, at
-- most five calls for any one user are let through in any hour.
five_per_hour :
    (u : Text) (start : ℕ) (es : List (Text × ℕ)) (end : ℕ)
    → Rises start es
    → length (keep (in_window 5 hour end) (links_made u (λ _. []) es)) ≤ 5
five_per_hour u start es end h =
    subst (λ l. length (keep (in_window 5 hour end) l) ≤ 5)
      (sym (links_made-let_through u (λ _. []) es)) (max_per_window 5 hour u start es end h)
