-- ===== src/Sidebar/Opening.antt =====
-- Which list the right-hand side turns to: `componentDidUpdate` and `openList` of
-- webapp/src/components/sidebar_right/sidebar_right.jsx with the buttons of
-- webapp/src/components/sidebar_buttons/sidebar_buttons.jsx.
use okrbest_plugin_todo.Common.{String, Option, none, some, List, ◌≡◌, ◌≢◌, eq_iff, arith}
use okrbest_plugin_todo.Model.{ShowRhs}
use okrbest_plugin_todo.Store.{PluginState, reducer}
use okrbest_plugin_todo.Actions.{Effect, World, perform_all, update_rhs_state}
use okrbest_plugin_todo.Actions.Requests.{perform_all-plugin}
use okrbest_plugin_todo.SidebarButtons.{Button, click, opens}
use okrbest_plugin_todo.Sidebar.{Props, State, open_list, map_state_to_props, component_did_update}

-- The mounted right-hand side, with the props of its last rendering.
pub record Rhs : Type 0 where
  pub world : World
  pub props : Props
  pub state : State

-- Effects from elsewhere, and the update after the rendering that follows them.
unfoldable pub updated : (String → Option String) → Rhs → List Effect → Option Rhs
unfolding component_did_update map_state_to_props
updated pathname r effects =
    let world = perform_all pathname r.world effects in
    elim (map_state_to_props world.state) [
      | none ↦ none
      | some props ↦ some (record {
        world = world;
        props = props;
        state = component_did_update r.props.rhs_state props r.state;
      })
    ]

-- `openList` chooses a list, whatever was chosen before.
open_list_lem : (l : String) (state : State) → (open_list l state).list ≡ l
unfolding open_list
open_list_lem l state = ground (arith, eq_iff state.list l)

abbrev props_of : PluginState → Props
props_of s = record {
  my_issues = s.all_issues.my;
  in_issues = s.all_issues.inbox;
  out_issues = s.all_issues.out;
  todo_toast = s.todo_toast;
  rhs_state = s.rhs_state;
}

map_state_to_props_lem :
    (w : World) (s : PluginState)
    → w.state.plugin ≡ some s
    → map_state_to_props w.state ≡ some (props_of s)
unfolding map_state_to_props
map_state_to_props_lem w s h = rw (h, map_state_to_props)

updated_lem :
    (pathname : String → Option String) (r : Rhs) (es : List Effect) (s : PluginState)
    → (perform_all pathname r.world es).state.plugin ≡ some s
    → updated pathname r es
      ≡ some (record {
        world = perform_all pathname r.world es;
        props = props_of s;
        state = component_did_update r.props.rhs_state (props_of s) r.state;
      })
unfolding updated
updated_lem pathname r es s h =
    rw (map_state_to_props_lem (perform_all pathname r.world es) s h, updated)

plugin-click :
    (pathname : String → Option String) (w : World) (s : PluginState) (b : Button)
    (show : Option ShowRhs)
    → w.state.plugin ≡ some s
    → (perform_all pathname w (click b show).effects).state.plugin
      ≡ some (record s { rhs_state = opens b })
unfolding click update_rhs_state reducer
plugin-click pathname w s b show h = perform_all-plugin pathname w (click b show).effects s h

-- A click on one of the three buttons turns a mounted right-hand side to the button's list if the
-- state's `rhsState` was another one. If it was that list already, the right-hand side stays as it
-- is, even if the user has turned it to another list in the meantime.
pub click_opens :
    (pathname : String → Option String) (r : Rhs) (s : PluginState) (b : Button)
    (show : Option ShowRhs)
    → r.world.state.plugin ≡ some s
    → r.props.rhs_state ≡ s.rhs_state
    → (r' : Rhs) × (updated pathname r (click b show).effects ≡ some r')
      × (s.rhs_state ≢ opens b → r'.state.list ≡ opens b)
      × (s.rhs_state ≡ opens b → r'.state ≡ r.state)
unfolding component_did_update
click_opens pathname r s b show h p =
    let w : World = perform_all pathname r.world (click b show).effects in
    let s' : PluginState = record s { rhs_state = opens b } in
    (
      record {
        world = w;
        props = props_of s';
        state = component_did_update r.props.rhs_state (props_of s') r.state;
      },
      updated_lem pathname r (click b show).effects s' (plugin-click pathname r.world s b show h),
      λ ne. ground (arith, eq_iff r.props.rhs_state (opens b), open_list_lem (opens b) r.state),
      λ e. ground (arith, eq_iff r.props.rhs_state (opens b)),
    )
