-- ===== src/Server/Paths/Tests.antt =====
-- Runs of the path tests.
use vel.Common.{In, [], arith, false, has_prefix, inl, lit, refl, true, ◌↔◌, ◌∷◌, ◌≡◌, ◌≢◌, ◌⊎◌}
use vel.Server.Paths.{App, is_public_path, is_reserved, public_prefixes, public_routes}
use vel.Server.Paths.Public.{
  BeginsIn, IsOpened, Opens, asset_folders, open_pages, is_public_path_iff, short_route_exposes_api,
}

abbrev blog : App
blog = record {
  name = lit "blog";
  public = false;
  routes =
      record { prefix = lit "/blog/"; public = true }
      ∷ record { prefix = lit "/admin/"; public = false }
      ∷ record { prefix = lit "/api/blog"; public = true }
      ∷ [];
}

abbrev about : App
about = record {
  name = lit "about";
  public = true;
  routes = record { prefix = lit "/a"; public = false } ∷ [];
}

collected : public_prefixes (blog ∷ about ∷ []) ≡ lit "/blog/" ∷ lit "/a" ∷ []
unfolding public_prefixes public_routes is_reserved has_prefix
collected = refl

short_route : Opens (about ∷ []) (lit "/a")
short_route =
    (about, record { prefix = lit "/a"; public = false }, inl refl, inl refl, refl, inl refl)

is_public_path_iff_example :
    (is_public_path (public_prefixes (blog ∷ [])) (lit "/blog/x") ≡ true) ↔ (
      In (lit "/blog/x") open_pages
      ⊎ BeginsIn asset_folders (lit "/blog/x")
      ⊎ IsOpened (blog ∷ []) (lit "/blog/x"))
is_public_path_iff_example = is_public_path_iff (blog ∷ []) (lit "/blog/x")

left : lit "pi/" ≢ []
left e = ground arith

short_route_exposes_api_example :
    is_public_path (public_prefixes (about ∷ [])) (lit "/api/secrets") ≡ true
short_route_exposes_api_example =
    short_route_exposes_api (about ∷ []) (lit "/a") (lit "pi/") (lit "secrets") short_route refl
      left
