-- ===== src/Handlers/Grants/Routes.antt =====
-- internal/handlers/middleware_session_grants.go: the routes behind each grant, and those that no
-- session has.
use Prim.Native.Char.{code}
use Prim.Native.String.{String}
use pinchtab.Prelude.{
  Bool, true, false, ◌&&◌, ◌||◌, not, List, [], ◌∷◌, ◌==◌, str_eq, if◌then◌else◌,
}
use pinchtab.Prelude.Text.{has_prefix, has_suffix, trim_prefix, trim_suffix}

-- `strings.Contains`
abbrev contains : String → String → Bool
contains p String.[] = has_prefix p String.[]
contains p (String.◌∷◌ c s) = has_prefix p (String.◌∷◌ c s) || contains p s

-- one of the cases of a switch
abbrev one_of : String → List String → Bool
one_of path [] = false
one_of path (p ∷ paths) = str_eq path p || one_of path paths

-- tabRouteHasSuffix
unfoldable pub tab_route_has_suffix : String → String → Bool
tab_route_has_suffix path suffix = has_prefix "/tabs/" path && has_suffix suffix path

unfoldable pub tab_route_one_of : String → List String → Bool
unfolding tab_route_has_suffix
tab_route_one_of path [] = false
tab_route_one_of path (suffix ∷ suffixes) =
    tab_route_has_suffix path suffix || tab_route_one_of path suffixes

-- `strings.Trim(s, "/") == ""`
abbrev only_slashes : String → Bool
only_slashes String.[] = true
only_slashes (String.◌∷◌ c s) = code c == 47 && only_slashes s

-- sessionRevokePath
unfoldable pub session_revoke_path : String → Bool
session_revoke_path path =
    has_prefix "/sessions/" path
    && has_suffix "/revoke" path
    && not (only_slashes (trim_suffix "/revoke" (trim_prefix "/sessions/" path)))

-- sessionAdminRoute, up to its cases by the path alone
unfoldable pub admin_method_route : String → String → Bool
admin_method_route method path =
    (str_eq method "GET" && str_eq path "/api/config")
    || (str_eq method "PUT" && str_eq path "/api/config")
    || (str_eq method "POST" && str_eq path "/shutdown")
    || (str_eq method "POST" && one_of path ("/browser/restart" ∷ "/ensure-chrome" ∷ []))
    || (str_eq method "POST" && str_eq path "/fingerprint/rotate")
    || (str_eq method "GET" && str_eq path "/api/events")
    || (str_eq method "GET" && str_eq path "/api/metrics")
    || (str_eq method "GET" && str_eq path "/api/agents")
    || (str_eq method "GET" && has_prefix "/api/agents/" path && not (has_suffix "/events" path))

-- sessionAdminRoute
unfoldable pub session_admin_route : String → String → Bool
unfolding admin_method_route
session_admin_route method path =
    if admin_method_route method path
    then true
    else if str_eq path "/sessions" || has_prefix "/sessions/" path
    then not (str_eq path "/sessions/me")
    else (str_eq path "/instances" || has_prefix "/instances/" path)
      || (str_eq path "/profiles" || has_prefix "/profiles/" path)
      || (str_eq method "GET" && str_eq path "/cache/status")
      || (str_eq method "POST" && str_eq path "/cache/clear")

-- a switch on the method: what GET, POST and DELETE have
abbrev by_method : String → Bool → Bool → Bool → Bool
by_method method get post delete =
    if str_eq method "GET"
    then get
    else if str_eq method "POST"
    then post
    else str_eq method "DELETE" && delete

-- sessionBrowseGrantAllows
unfoldable pub session_browse_grant_allows : String → String → Bool
unfolding tab_route_one_of
session_browse_grant_allows method path =
    by_method method
      (one_of path (
          "/tabs" ∷ "/navigate" ∷ "/action" ∷ "/snapshot" ∷ "/screenshot" ∷ "/text"
          ∷ "/openapi.json" ∷ "/help" ∷ "/health" ∷ "/sessions/me" ∷ [])
        || tab_route_one_of path ("/snapshot" ∷ "/screenshot" ∷ "/text" ∷ "/metrics" ∷ []))
      (one_of path (
          "/tab" ∷ "/navigate" ∷ "/back" ∷ "/forward" ∷ "/reload" ∷ "/action" ∷ "/actions"
          ∷ "/macro" ∷ "/find" ∷ "/wait" ∷ "/dialog" ∷ "/lock" ∷ "/unlock" ∷ [])
        || tab_route_one_of path (
            "/navigate" ∷ "/back" ∷ "/forward" ∷ "/reload" ∷ "/action" ∷ "/actions" ∷ "/find"
            ∷ "/wait" ∷ "/dialog" ∷ "/lock" ∷ "/unlock" ∷ []))
      false

-- sessionNetworkGrantAllows
unfoldable pub session_network_grant_allows : String → String → Bool
unfolding tab_route_one_of
session_network_grant_allows method path =
    by_method method
      (one_of path
          ("/network" ∷ "/network/stream" ∷ "/network/export" ∷ "/network/export/stream" ∷ [])
        || has_prefix "/network/" path
        || tab_route_one_of path
            ("/network" ∷ "/network/stream" ∷ "/network/export" ∷ "/network/export/stream" ∷ [])
        || (has_prefix "/tabs/" path && contains "/network/" path))
      (str_eq path "/network/clear") false

-- sessionMediaGrantAllows
unfoldable pub session_media_grant_allows : String → String → Bool
unfolding tab_route_one_of
session_media_grant_allows method path =
    by_method method
      (one_of path
          ("/pdf" ∷ "/download" ∷ "/screencast" ∷ "/screencast/tabs" ∷ "/record/status" ∷ [])
        || tab_route_one_of path ("/pdf" ∷ "/download" ∷ []))
      (one_of path ("/pdf" ∷ "/upload" ∷ "/record/start" ∷ "/record/stop" ∷ [])
        || tab_route_one_of path ("/pdf" ∷ "/upload" ∷ []))
      false

-- sessionCookiesGrantAllows
unfoldable pub session_cookies_grant_allows : String → String → Bool
unfolding tab_route_has_suffix
session_cookies_grant_allows method path =
    let cookies = str_eq path "/cookies" || tab_route_has_suffix path "/cookies" in
    by_method method cookies cookies false

-- sessionClipboardGrantAllows
unfoldable pub session_clipboard_grant_allows : String → String → Bool
session_clipboard_grant_allows method path =
    by_method method (one_of path ("/clipboard/read" ∷ "/clipboard/paste" ∷ []))
      (one_of path ("/clipboard/write" ∷ "/clipboard/copy" ∷ [])) false

-- sessionEvaluateGrantAllows
unfoldable pub session_evaluate_grant_allows : String → String → Bool
unfolding tab_route_has_suffix
session_evaluate_grant_allows method path =
    str_eq method "POST" && (str_eq path "/evaluate" || tab_route_has_suffix path "/evaluate")

-- sessionStorageGrantAllows
unfoldable pub session_storage_grant_allows : String → String → Bool
session_storage_grant_allows method path =
    by_method method (one_of path ("/storage" ∷ "/state" ∷ "/state/list" ∷ "/state/show" ∷ []))
      (one_of path ("/storage" ∷ "/state/save" ∷ "/state/load" ∷ "/state/clean" ∷ []))
      (one_of path ("/storage" ∷ "/state" ∷ []))

-- sessionConsoleGrantAllows
unfoldable pub session_console_grant_allows : String → String → Bool
session_console_grant_allows method path =
    by_method method (one_of path ("/console" ∷ "/errors" ∷ []))
      (one_of path ("/console/clear" ∷ "/errors/clear" ∷ [])) false

-- sessionSolveGrantAllows
unfoldable pub session_solve_grant_allows : String → String → Bool
unfolding tab_route_has_suffix
session_solve_grant_allows method path =
    by_method method (one_of path ("/solvers" ∷ "/config/autosolver" ∷ []))
      (str_eq path "/solve"
        || has_prefix "/solve/" path
        || tab_route_has_suffix path "/solve"
        || (has_prefix "/tabs/" path && contains "/solve/" path))
      false

-- sessionTasksGrantAllows
unfoldable pub session_tasks_grant_allows : String → String → Bool
session_tasks_grant_allows method path =
    by_method method (one_of path ("/tasks" ∷ "/scheduler/stats" ∷ []) || has_prefix "/tasks/" path)
      (one_of path ("/tasks" ∷ "/tasks/batch" ∷ [])
        || (has_prefix "/tasks/" path && has_suffix "/cancel" path))
      false

-- sessionActivityGrantAllows
unfoldable pub session_activity_grant_allows : String → String → Bool
session_activity_grant_allows method path =
    let events = has_prefix "/api/agents/" path && has_suffix "/events" path in
    by_method method (str_eq path "/api/activity" || events) events false

-- sessionGrantAllows
unfoldable pub session_grant_allows : String → String → String → Bool
unfolding session_browse_grant_allows session_network_grant_allows session_media_grant_allows
    session_cookies_grant_allows session_clipboard_grant_allows session_evaluate_grant_allows
    session_storage_grant_allows session_console_grant_allows session_solve_grant_allows
    session_tasks_grant_allows session_activity_grant_allows
session_grant_allows grant method path =
    if str_eq grant "browse"
    then session_browse_grant_allows method path
    else if str_eq grant "network"
    then session_network_grant_allows method path
    else if str_eq grant "media"
    then session_media_grant_allows method path
    else if str_eq grant "cookies"
    then session_cookies_grant_allows method path
    else if str_eq grant "clipboard"
    then session_clipboard_grant_allows method path
    else if str_eq grant "evaluate"
    then session_evaluate_grant_allows method path
    else if str_eq grant "storage"
    then session_storage_grant_allows method path
    else if str_eq grant "console"
    then session_console_grant_allows method path
    else if str_eq grant "solve"
    then session_solve_grant_allows method path
    else if str_eq grant "tasks"
    then session_tasks_grant_allows method path
    else if str_eq grant "activity"
    then session_activity_grant_allows method path
    else false
