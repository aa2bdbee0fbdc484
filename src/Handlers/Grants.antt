-- ===== src/Handlers/Grants.antt =====
-- internal/handlers/middleware_session_grants.go: what a session of an agent may ask for. Upper and
-- lower case are arguments; a request comes with its method and the path of its URL.
pub mod Routes
pub mod Each
mod Tests
use pinchtab.Prelude.{
  String, Bool, true, false, ◌&&◌, ◌||◌, Option, none, some, List, [], ◌∷◌, length, ◌==◌, str_eq,
  if◌then◌else◌,
}
use pinchtab.Prelude.Map
use pinchtab.Prelude.Map.{Map}
use pinchtab.Prelude.Text.{trim_space}
use pinchtab.Handlers.Grants.Routes.{session_revoke_path, session_admin_route, session_grant_allows}

-- the loop over the map, in whatever order
unfoldable pub any_grant : String → String → Map Bool → Bool
any_grant method path [] = false
any_grant method path ((grant, b) ∷ grants) =
    if session_grant_allows grant method path then true else any_grant method path grants

abbrev pub has_star : Option Bool → Bool
has_star none = false
has_star (some b) = b

-- the decision on the grants of a session
unfoldable pub grants_allow : String → String → Map Bool → Bool
unfolding any_grant
grants_allow method path grants =
    if length grants == 0 || has_star (Map.lookup "*" grants)
    then true
    else any_grant method path grants

-- a grant with its spaces cut off and in lower case
abbrev pub normalize : (String → String) → String → String
normalize to_lower grant = to_lower (trim_space grant)

-- normalizedSessionGrants
unfoldable pub normalized_session_grants : (String → String) → List String → Map Bool → Map Bool
normalized_session_grants to_lower [] out = out
normalized_session_grants to_lower (grant ∷ grants) out =
    normalized_session_grants to_lower grants (
      if str_eq (normalize to_lower grant) ""
      then out
      else Map.insert (normalize to_lower grant) true out)

unfoldable pub session_allows : (String → String) → String → String → Option (List String) → Bool
unfolding normalized_session_grants grants_allow
session_allows to_lower method path none = false
session_allows to_lower method path (some grants) =
    grants_allow method path (normalized_session_grants to_lower grants [])

-- sessionRequestAllowed; the session is given by its grants
unfoldable pub session_request_allowed :
    (String → String) → (String → String) → String → String → Option (List String) → Bool
unfolding trim_space session_revoke_path session_admin_route session_allows
session_request_allowed to_upper to_lower raw_method raw_path sess =
    let method = to_upper (trim_space raw_method) in
    let path = trim_space raw_path in
    if str_eq method "POST" && session_revoke_path path
    then true
    else if session_admin_route method path
    then false
    else session_allows to_lower method path sess
