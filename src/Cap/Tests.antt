-- ===== src/Cap/Tests.antt =====
-- Runs of the capability check.
use vel.Common.{
  [], arith, false, has_prefix, inl, inr, lit, refl, some, true, ◌==◌, ◌↔◌, ◌∷◌, ◌≡◌, ◌⊎◌,
}
use vel.Cap.{Config, State, check, decide, lookup_flag, not_declared, parent_listed, pass}
use vel.Cap.Decision.{HasParent, IsBlocked, decide_strict_iff}

-- An app that may use `net`, and that sets `os` to false.
abbrev app : Config
app = record {
  mode = lit "strict";
  blacklist = (lit "net.Listen", true) ∷ [];
  app_caps = (lit "net", true) ∷ (lit "os", false) ∷ [];
  site_block = [];
  site_allow = [];
}

abbrev fresh : State
fresh = record { config = some app; usage_log = [] }

subpackage_passes : (check fresh (lit "net/http") (lit "Get")).0 ≡ pass
unfolding check decide lookup_flag parent_listed has_prefix ◌==◌
subpackage_passes = refl

undeclared_fails : (check fresh (lit "io") (lit "Copy")).0 ≡ not_declared (lit "io.Copy")
unfolding check decide lookup_flag parent_listed has_prefix ◌==◌
undeclared_fails = refl

os_free : ¬ IsBlocked app (lit "os") (lit "Exit")
os_free (inl e) = unfold lookup_flag ◌==◌ in absurd (ground arith)
os_free (inr e) = unfold lookup_flag ◌==◌ in absurd (ground arith)

decide_strict_iff_example : ((decide app (lit "net/http") (lit "Get")).1 ≡ pass) ↔ (
    (¬ IsBlocked app (lit "net/http") (lit "Get"))
    × (HasParent app.app_caps (lit "net/http") ⊎ HasParent app.site_allow (lit "net/http")))
decide_strict_iff_example = decide_strict_iff app (lit "net/http") (lit "Get") (λ e. ground arith)
