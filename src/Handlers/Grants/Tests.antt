-- ===== src/Handlers/Grants/Tests.antt =====
-- The grants at small concrete inputs.
use pinchtab.Prelude.{◌≡◌, refl, String, true, false, ◌&&◌, ◌||◌, not, none, some, [], ◌∷◌, str_eq}
use pinchtab.Prelude.Map
use pinchtab.Prelude.Text.{trim_space, trim_right, in_ranges, is_blank}
use pinchtab.Handlers.Grants.{
  session_request_allowed, session_allows, grants_allow, normalized_session_grants, any_grant,
}
use pinchtab.Handlers.Grants.Routes.{
  session_revoke_path, session_admin_route, admin_method_route, session_grant_allows,
  session_cookies_grant_allows, tab_route_has_suffix,
}
use pinchtab.Handlers.Grants.Each.{all_blank, any_star, any_allows, session_request_allowed-each}

abbrev same : String → String
same s = s

cookies_only :
    session_request_allowed same same "GET" "/tabs/1/cookies" (some ("cookies" ∷ [])) ≡ true
unfolding session_request_allowed trim_space trim_right in_ranges is_blank session_revoke_path
    session_admin_route admin_method_route session_allows grants_allow normalized_session_grants
    any_grant session_grant_allows session_cookies_grant_allows tab_route_has_suffix Map.lookup
    Map.insert
cookies_only = refl

not_granted : session_request_allowed same same "POST" "/evaluate" (some ("cookies" ∷ [])) ≡ false
unfolding session_request_allowed trim_space trim_right in_ranges is_blank session_revoke_path
    session_admin_route admin_method_route session_allows grants_allow normalized_session_grants
    any_grant session_grant_allows session_cookies_grant_allows tab_route_has_suffix Map.lookup
    Map.insert
not_granted = refl

-- a session whose only grant is blank has all routes that are not for administrators
blank_grant : session_request_allowed same same "POST" "/evaluate" (some (" " ∷ [])) ≡ true
unfolding session_request_allowed trim_space trim_right in_ranges is_blank session_revoke_path
    session_admin_route admin_method_route session_allows grants_allow normalized_session_grants
    Map.lookup
blank_grant = refl

admin_refused : session_request_allowed same same "GET" "/instances/a" (some ("*" ∷ [])) ≡ false
unfolding session_request_allowed trim_space trim_right in_ranges is_blank session_revoke_path
    session_admin_route admin_method_route
admin_refused = refl

session_request_allowed-each_example :
    let granted =
      all_blank same ("tasks" ∷ "cookies" ∷ [])
      || any_star same ("tasks" ∷ "cookies" ∷ [])
      || any_allows same "GET" "/cookies" ("tasks" ∷ "cookies" ∷ []) in
    let revokes = str_eq "GET" "POST" && session_revoke_path "/cookies" in
    (session_request_allowed same same "GET" "/cookies" (some ("tasks" ∷ "cookies" ∷ []))
      ≡ revokes || (not (session_admin_route "GET" "/cookies") && granted))
    × (session_request_allowed same same "GET" "/cookies" none ≡ revokes)
unfolding trim_space trim_right in_ranges is_blank
session_request_allowed-each_example =
    session_request_allowed-each same same "GET" "/cookies" ("tasks" ∷ "cookies" ∷ [])
