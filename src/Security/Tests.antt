-- ===== src/Security/Tests.antt =====
-- Runs of the path check.
use vel.Common.{[], contains, false, has_prefix, if◌then◌else◌, lit, refl, ◌==◌, ◌≡◌}
use vel.Std.Values.{join, split}
use vel.Security.{
  absolute, accepted, clean, clean_parts, dot_dot, empty_path, push, push_all, rejected,
  safe_rel_path,
}
use vel.Security.Safe.{AllNames, safe_rel_path_below}

taken : safe_rel_path (lit "a//./b/") ≡ accepted (lit "a/b")
unfolding safe_rel_path clean clean_parts push_all push split join contains has_prefix ◌==◌
taken = refl

refused :
    (safe_rel_path (lit "/etc") ≡ rejected absolute)
    × (safe_rel_path (lit "a/../b") ≡ rejected dot_dot)
    × (safe_rel_path [] ≡ rejected empty_path)
unfolding safe_rel_path clean clean_parts push_all push split join contains has_prefix ◌==◌
refused = (refl, refl, refl)

safe_rel_path_below_example :
    AllNames (clean_parts (lit "a//./b/"))
    × (has_prefix (lit "a//./b/") (lit "/") ≡ false)
    × (let joined = join (lit "/") (clean_parts (lit "a//./b/")) in
        lit "a/b" ≡ (if joined == [] then lit "." else joined))
safe_rel_path_below_example = safe_rel_path_below (lit "a//./b/") (lit "a/b") taken
