-- ===== src/Auth/Request.antt =====
-- net/http: the parts of a request that the program reads, with the identity that
-- internal/server/authmiddleware.go keeps in its context. A header that is not there is empty.
use vel.Common.{Option, Text, some}
use vel.Auth.Types.{Identity}

pub record Request : Type 0 where
  pub method : Text
  pub path : Text
  pub raw_query : Text
  pub header : Text → Text
  pub cookie : Text → Option Text
  pub identity : Option Identity

unfoldable pub get_identity : Request → Option Identity
get_identity r = r.identity

unfoldable pub set_identity : Request → Identity → Request
set_identity r id = record r { identity = some id }
