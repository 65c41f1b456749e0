-- ===== src/Store.antt =====
-- webapp/src/reducer.js: the actions with their payloads, a reducer for each slice of the plugin's
-- state, and the combined reducer. The proofs are in the modules below.
pub mod Slices
pub mod Card
use okrbest_plugin_todo.Common.{
  String, Bool, true, false, Option, none, some, List, [], foldl, or_else,
}
use okrbest_plugin_todo.Model.{AllIssues, User, Toast, ShowRhs}
use okrbest_plugin_todo.ActionTypes.{ActionType}

-- The objects that are dispatched. `host` is an action whose `type` is none of the plugin's, such
-- as the initial action and those of the web app around the plugin.
pub data Action : Type 0 where
  open_add_card : String → Action
  close_add_card : Action
  open_assignee_modal close_assignee_modal : Action
  open_todo_toast : Toast → Action
  close_todo_toast : Action
  get_assignee : User → Action
  remove_assignee : Action
  set_editing_todo : String → Action
  remove_editing_todo : Action
  get_all_issues : Option AllIssues → Action
  received_show_rhs_action : ShowRhs → Action
  update_rhs_state : String → Action
  set_rhs_visible : Bool → Action
  set_hide_team_sidebar_buttons : Bool → Action
  host : String → Action

pub record PluginState : Type 0 where
  pub current_assignee : Option User
  pub add_card_visible : Bool
  pub assignee_modal_visible : Bool
  pub todo_toast : Option Toast
  pub editing_todo : Option String
  pub post_id : String
  pub all_issues : AllIssues
  pub rhs_state : String
  pub rhs_plugin_action : Option ShowRhs
  pub is_rhs_visible : Bool
  pub is_team_sidebar_hidden : Bool

add_card_visible : Bool → Action → Bool
add_card_visible state (open_add_card _) = true
add_card_visible state close_add_card = false
add_card_visible state _ = state

assignee_modal_visible : Bool → Action → Bool
assignee_modal_visible state open_assignee_modal = true
assignee_modal_visible state close_assignee_modal = false
assignee_modal_visible state _ = state

todo_toast : Option Toast → Action → Option Toast
todo_toast state (open_todo_toast message) = some message
todo_toast state close_todo_toast = none
todo_toast state _ = state

editing_todo : Option String → Action → Option String
editing_todo state (set_editing_todo issue_id) = some issue_id
editing_todo state remove_editing_todo = none
editing_todo state _ = state

current_assignee : Option User → Action → Option User
current_assignee state (get_assignee assignee) = some assignee
current_assignee state remove_assignee = none
current_assignee state _ = state

post_id : String → Action → String
post_id state (open_add_card id) = id
post_id state close_add_card = ""
post_id state _ = state

-- `action.data ?? state`
all_issues : AllIssues → Action → AllIssues
all_issues state (get_all_issues payload) = or_else payload state
all_issues state _ = state

rhs_plugin_action : Option ShowRhs → Action → Option ShowRhs
rhs_plugin_action state (received_show_rhs_action show) = some show
rhs_plugin_action state _ = state

rhs_state : String → Action → String
rhs_state state (update_rhs_state s) = s
rhs_state state _ = state

is_rhs_visible : Bool → Action → Bool
is_rhs_visible state (set_rhs_visible payload) = payload
is_rhs_visible state _ = state

is_team_sidebar_hidden : Bool → Action → Bool
is_team_sidebar_hidden state (set_hide_team_sidebar_buttons payload) = payload
is_team_sidebar_hidden state _ = state

-- the default values of the reducers' first parameters
abbrev pub initial : PluginState
initial = record {
  current_assignee = none;
  add_card_visible = false;
  assignee_modal_visible = false;
  todo_toast = none;
  editing_todo = none;
  post_id = "";
  all_issues = record { my = some []; inbox = some []; out = some [] };
  rhs_state = "";
  rhs_plugin_action = none;
  is_rhs_visible = false;
  is_team_sidebar_hidden = false;
}

-- `combineReducers`: every reducer gets its own slice and every action.
unfoldable pub reducer : PluginState → Action → PluginState
unfolding add_card_visible assignee_modal_visible todo_toast editing_todo current_assignee post_id
    all_issues rhs_plugin_action rhs_state is_rhs_visible is_team_sidebar_hidden
reducer s a = record {
  current_assignee = current_assignee s.current_assignee a;
  add_card_visible = add_card_visible s.add_card_visible a;
  assignee_modal_visible = assignee_modal_visible s.assignee_modal_visible a;
  todo_toast = todo_toast s.todo_toast a;
  editing_todo = editing_todo s.editing_todo a;
  post_id = post_id s.post_id a;
  all_issues = all_issues s.all_issues a;
  rhs_state = rhs_state s.rhs_state a;
  rhs_plugin_action = rhs_plugin_action s.rhs_plugin_action a;
  is_rhs_visible = is_rhs_visible s.is_rhs_visible a;
  is_team_sidebar_hidden = is_team_sidebar_hidden s.is_team_sidebar_hidden a;
}

-- The state after a sequence of dispatches.
abbrev pub dispatch_all : PluginState → List Action → PluginState
dispatch_all = foldl reducer
