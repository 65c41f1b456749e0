-- ===== src/Actions/Requests.antt =====
-- What a sequence of effects does to the world, and the server's routes that the requests take:
-- webapp/src/actions.js and `initializeAPI` of server/plugin.go.
use text.Mathlib.Text.{starts_with}
use mathlib.Core.List.{append-nil, append_assoc}
use okrbest_plugin_todo.Common.{
  String, Bool, true, false, ◌&&◌, ◌||◌, Option, some, List, [], ◌∷◌, ◌++◌, ◌≡◌, refl, sym, map,
  any, concat, str_eq, if◌then◌else◌, arith, ◌∙◌,
}
use okrbest_plugin_todo.Store.{Action, PluginState, reducer, dispatch_all}
use okrbest_plugin_todo.Selectors.{get_plugin_server_route}
use okrbest_plugin_todo.Actions.{
  Call, add, fetch_all_issue_lists, Request, Effect, dispatch, call, path, method, body, World,
  request, perform, perform_all,
}

-- The routes that the server registers: method and path.
abbrev pub server_routes : List (String × String)
server_routes =
    ("POST", "/add")
    ∷ ("GET", "/lists")
    ∷ ("POST", "/remove")
    ∷ ("POST", "/complete")
    ∷ ("POST", "/accept")
    ∷ ("POST", "/bump")
    ∷ ("POST", "/telemetry")
    ∷ ("GET", "/config")
    ∷ ("PUT", "/edit")
    ∷ ("POST", "/change_assignment")
    ∷ []

-- `fetch` sends these methods in upper case.
abbrev pub normalized : String → String
normalized m =
    if str_eq m "post"
    then "POST"
    else if str_eq m "put"
    then "PUT"
    else if str_eq m "get"
    then "GET"
    else m

-- A path takes a route if it is the route's, up to a query.
abbrev pub takes : Call → String × String → Bool
takes c (m, p) =
    str_eq (normalized (method c)) m
    && (str_eq (path c) p || starts_with (path c) (concat (p ∷ "?" ∷ [])))

-- Every call of the server goes to a path and a method that the server registers.
pub call_routed : (c : Call) → any (takes c) server_routes ≡ true
unfolding path method
call_routed (fetch_all_issue_lists true) = refl
call_routed (fetch_all_issue_lists false) = refl
call_routed (add _ _ _ _ _) = refl
call_routed _ = refl

abbrev pub actions_of : List Effect → List Action
actions_of [] = []
actions_of (dispatch a ∷ es) = a ∷ actions_of es
actions_of (call c ∷ es) = actions_of es

abbrev pub calls_of : List Effect → List Call
calls_of [] = []
calls_of (dispatch a ∷ es) = calls_of es
calls_of (call c ∷ es) = c ∷ calls_of es

-- the request of a call, below a route
abbrev pub sent : String → Call → Request
sent route c = record { url = concat (route ∷ path c ∷ []); method = method c; body = body c }

module _ (pathname : String → Option String) where
  -- Effects never change the route.
  abbrev pub RouteIs : World → String → Type 0
  RouteIs w route = get_plugin_server_route pathname w.state ≡ some route

  pub perform-RouteIs :
      (w : World) (e : Effect) {route : String}
      → RouteIs w route
      → RouteIs (perform pathname w e) route
  unfolding perform get_plugin_server_route
  perform-RouteIs w (dispatch a) h = h
  perform-RouteIs w (call c) h = h

  call-requests :
      (w : World) (c : Call) {route : String}
      → RouteIs w route
      → (perform pathname w (call c)).requests ≡ w.requests ++ sent route c ∷ []
  unfolding perform request
  call-requests w c h = ground arith

  -- The requests that effects send, in the order of their calls, after those already sent.
  perform_all-requests :
      (w : World) (es : List Effect) (route : String)
      → RouteIs w route
      → (perform_all pathname w es).requests ≡ w.requests ++ map (sent route) (calls_of es)
  unfolding perform
  perform_all-requests w [] route h = sym (append-nil _)
  perform_all-requests w (dispatch a ∷ es) route h =
      perform_all-requests (perform pathname w (dispatch a)) es route
        (perform-RouteIs w (dispatch a) h)
  perform_all-requests w (call c ∷ es) route h =
      perform_all-requests (perform pathname w (call c)) es route (perform-RouteIs w (call c) h)
      ∙ rw (call-requests w c h) (append_assoc w.requests _ _)

  pub perform_all-plugin :
      (w : World) (es : List Effect) (s : PluginState)
      → w.state.plugin ≡ some s
      → (perform_all pathname w es).state.plugin ≡ some (dispatch_all s (actions_of es))
  unfolding perform
  perform_all-plugin w [] s h = h
  perform_all-plugin w (dispatch a ∷ es) s h =
      perform_all-plugin (perform pathname w (dispatch a)) es (reducer s a) (ground arith)
  perform_all-plugin w (call c ∷ es) s h = perform_all-plugin (perform pathname w (call c)) es s h

  -- Where the plugin's route can be made, performing effects one by one from a world with the
  -- plugin's state `s` sends the requests of the calls among them, in order and below that route,
  -- after those already sent, and leaves the plugin's state that the reducer makes of the actions
  -- among them.
  pub perform_all_lem :
      (w : World) (es : List Effect) (route : String) (s : PluginState)
      → RouteIs w route
      → w.state.plugin ≡ some s
      → ((perform_all pathname w es).requests ≡ w.requests ++ map (sent route) (calls_of es))
        × ((perform_all pathname w es).state.plugin ≡ some (dispatch_all s (actions_of es)))
  perform_all_lem w es route s h p =
      (perform_all-requests w es route h, perform_all-plugin w es s p)

  pub perform_all-RouteIs :
      (w : World) (es : List Effect) (route : String)
      → RouteIs w route
      → RouteIs (perform_all pathname w es) route
  perform_all-RouteIs w [] route h = h
  perform_all-RouteIs w (e ∷ es) route h =
      perform_all-RouteIs (perform pathname w e) es route (perform-RouteIs w e h)
