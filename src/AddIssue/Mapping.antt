-- ===== src/AddIssue/Mapping.antt =====
-- The props of the add card where they can be made: `mapStateToProps` of
-- webapp/src/components/add_issue/index.js, and what effects change of it.
use okrbest_plugin_todo.Common.{
  String, Option, some, List, [], ◌∷◌, ◌≡◌, arith, truthy, concat, if◌then◌else◌,
}
use okrbest_plugin_todo.Store.{PluginState, dispatch_all}
use okrbest_plugin_todo.Selectors.{
  GlobalState, get_current_team_route, get_plugin_server_route, get_message, get_post_id,
  get_assignee, is_add_card_visible,
}
use okrbest_plugin_todo.Actions.{Effect, dispatch, call, World, perform, perform_all}
use okrbest_plugin_todo.Actions.Requests.{actions_of, perform_all_lem}
use okrbest_plugin_todo.AddIssue.{Props, map_state_to_props}

module _ (pathname : String → Option String) where
  -- A world in which the plugin's state is `s`, and the routes of the team and of the server are
  -- `team` and `server`.
  pub record Ready (w : World) (s : PluginState) (team server : String) : Type 0 where
    pub plugin : w.state.plugin ≡ some s
    pub team_route : get_current_team_route pathname w.state ≡ some team
    pub server_route : get_plugin_server_route pathname w.state ≡ some server

  perform_all-team :
      (w : World) (es : List Effect) (team : String)
      → get_current_team_route pathname w.state ≡ some team
      → get_current_team_route pathname (perform_all pathname w es).state ≡ some team
  unfolding perform get_current_team_route
  perform_all-team w [] team h = h
  perform_all-team w (dispatch a ∷ es) team h =
      perform_all-team (perform pathname w (dispatch a)) es team h
  perform_all-team w (call c ∷ es) team h = perform_all-team (perform pathname w (call c)) es team h

  perform_all-server :
      (w : World) (es : List Effect) (server : String)
      → get_plugin_server_route pathname w.state ≡ some server
      → get_plugin_server_route pathname (perform_all pathname w es).state ≡ some server
  unfolding perform get_plugin_server_route
  perform_all-server w [] server h = h
  perform_all-server w (dispatch a ∷ es) server h =
      perform_all-server (perform pathname w (dispatch a)) es server h
  perform_all-server w (call c ∷ es) server h =
      perform_all-server (perform pathname w (call c)) es server h

  -- Effects keep the routes.
  pub perform_all-Ready :
      (w : World) (es : List Effect) (s : PluginState) (team server : String)
      → Ready w s team server
      → Ready (perform_all pathname w es) (dispatch_all s (actions_of es)) team server
  perform_all-Ready w es s team server r = record {
    plugin = (perform_all_lem pathname w es server s r.server_route r.plugin).1;
    team_route = perform_all-team w es team r.team_route;
    server_route = perform_all-server w es server r.server_route;
  }

  -- The props that the store makes of `s`.
  abbrev pub props_of : GlobalState → PluginState → String → Props
  props_of state s team = record {
    visible = s.add_card_visible;
    message = get_message state;
    post_permalink = if truthy s.post_id then concat (team ∷ "pl/" ∷ s.post_id ∷ []) else "";
    post_id = s.post_id;
    assignee = s.current_assignee;
  }

  pub map_state_to_props_lem :
      (w : World) (s : PluginState) (team server : String)
      → Ready w s team server
      → map_state_to_props pathname w.state ≡ some (props_of w.state s team)
  unfolding map_state_to_props get_post_id is_add_card_visible get_assignee
  map_state_to_props_lem w s team server r = ground arith
