-- ===== src/Auth/Tokens/Tests.antt =====
-- Runs of the token calls.
use vel.Common.{List, [], arith, lit, none, refl, some, ◌++◌, ◌==◌, ◌↔◌, ◌∷◌, ◌≡◌, ◌≢◌}
use vel.Std.Hex.{digit, encode}
use vel.Auth.Tokens.{
  ScopedToken, add_scoped_token, bullets, check_scoped_token, generate_random_token,
  mask_scoped_token,
}
use vel.Auth.Tokens.Names.{new_token}
use vel.Auth.Tokens.Access.{Holds, Reaches, check_scoped_token_iff}

abbrev share : ScopedToken
share = record { name = lit "share"; token = lit "aa"; scopes = lit "/swap/api" ∷ [] }

abbrev one_token : List ScopedToken
one_token = share ∷ []

-- Two random bytes stand for the 32 of the program.
abbrev with_push : List ScopedToken
with_push = share ∷ new_token (lit "push") (lit "/push" ∷ []) (10 ∷ 11 ∷ []) ∷ []

push_added :
    add_scoped_token one_token (lit "push") (lit "/push" ∷ []) (10 ∷ 11 ∷ [])
    ≡ some (lit "0a0b", with_push)
unfolding add_scoped_token generate_random_token encode digit ◌==◌
push_added = refl

name_taken : add_scoped_token one_token (lit "share") [] (10 ∷ []) ≡ none
unfolding add_scoped_token ◌==◌
name_taken = refl

masked_token : mask_scoped_token (lit "0123456789") ≡ lit "0123" ++ (bullets ++ lit "6789")
unfolding mask_scoped_token
masked_token = refl

check_scoped_token_iff_example :
    (check_scoped_token one_token (lit "aa") (lit "/swap/api/x") ≡ lit "share") ↔ (
      (lit "aa" ≢ [])
      × ((t : ScopedToken) × Holds (lit "aa") t one_token
          × Reaches t (lit "/swap/api/x")
          × (lit "share" ≡ t.name)))
check_scoped_token_iff_example =
    check_scoped_token_iff one_token (lit "aa") (lit "/swap/api/x") (lit "share")
      (λ e. ground arith)
