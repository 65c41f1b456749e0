-- ===== src/Sidebar.antt =====
-- webapp/src/components/sidebar_right and webapp/src/components/todo_issues: the right-hand side
-- with its lists. An event handler gives the new state and the effects.
pub mod Lists
pub mod Opening
use okrbest_plugin_todo.Common.{
  String, ℕ, Bool, true, false, not, ◌&&◌, ◌||◌, Option, none, some, List, [], ◌∷◌, str_eq, truthy,
  is_nil, length, or_else, concat, if◌then◌else◌,
}
use okrbest_plugin_todo.Model.{Issue, Toast}
use okrbest_plugin_todo.Constants.{key_a}
use okrbest_plugin_todo.Selectors.{
  GlobalState, get_my_issues, get_in_issues, get_out_issues, get_todo_toast, get_plugin_state,
}
use okrbest_plugin_todo.Utils.{KeyEvent, is_key_pressed}
use okrbest_plugin_todo.Actions.{
  Value, object, Effect, call, telemetry, fetch_all_issue_lists, open_add_card, close_add_card,
  set_rhs_visible, World, perform_all,
}

abbrev pub my_list_name : String
my_list_name = "my"

abbrev pub out_list_name : String
out_list_name = "out"

abbrev pub in_list_name : String
in_list_name = "in"

-- the lists may be undefined, in which case reading their length throws
pub record Props : Type 0 where
  pub my_issues : Option (List Issue)
  pub in_issues : Option (List Issue)
  pub out_issues : Option (List Issue)
  pub todo_toast : Option Toast
  pub rhs_state : String

pub record State : Type 0 where
  pub list : String
  pub show_inbox : Bool
  pub show_my : Bool

-- `mapStateToProps`: `none` if the plugin's state is missing, whose properties are then read
unfoldable pub map_state_to_props : GlobalState → Option Props
unfolding get_plugin_state
map_state_to_props state = elim (get_plugin_state state) [
  | none ↦ none
  | some s ↦ some (record {
    my_issues = s.all_issues.my;
    in_issues = s.all_issues.inbox;
    out_issues = s.all_issues.out;
    todo_toast = s.todo_toast;
    rhs_state = s.rhs_state;
  })
]

-- `constructor`
unfoldable pub new : Props → State
new props = record {
  list = if truthy props.rhs_state then props.rhs_state else my_list_name;
  show_inbox = true;
  show_my = true;
}

unfoldable pub open_list : String → State → State
open_list list_name state =
    if not (str_eq state.list list_name) then record state { list = list_name } else state

abbrev action_property : Bool → Value
action_property shown = object (("action", if shown then "collapse" else "expand") ∷ [])

unfoldable pub toggle_inbox : State → State × List Effect
toggle_inbox state = (
  record state { show_inbox = not state.show_inbox },
  call (telemetry "toggle_inbox" (action_property state.show_inbox)) ∷ [],
)

unfoldable pub toggle_my : State → State × List Effect
toggle_my state = (
  record state { show_my = not state.show_my },
  call (telemetry "toggle_my" (action_property state.show_my)) ∷ [],
)

unfoldable pub component_did_mount : List Effect
component_did_mount = call (fetch_all_issue_lists false) ∷ set_rhs_visible true ∷ []

unfoldable pub component_will_unmount : List Effect
component_will_unmount = set_rhs_visible false ∷ []

unfoldable pub handle_keypress : (String → String) → KeyEvent → List Effect
handle_keypress to_upper e =
    if e.alt_key && is_key_pressed to_upper e key_a then open_add_card "" ∷ [] else []

unfoldable pub component_did_update : String → Props → State → State
unfolding open_list
component_did_update prev_rhs_state props state =
    if not (str_eq prev_rhs_state props.rhs_state) then open_list props.rhs_state state else state

unfoldable pub add_todo_item : List Effect
add_todo_item = open_add_card "" ∷ []

unfoldable pub close_add_box : List Effect
close_add_box = close_add_card ∷ []

-- the button that adds an issue, on the user's own list
unfoldable pub click_add : State → List Effect
unfolding add_todo_item
click_add state = call (telemetry "rhs_add" (object (("list", state.list) ∷ []))) ∷ add_todo_item

-- What `ToDoIssues` shows: the items of the issues, keyed by their ids, or a text that all is done,
-- but not while an issue is added.
pub data Issues : Type 0 where
  items : String → List Issue → Issues
  all_completed nothing : Issues

unfoldable pub todo_issues : Bool → String → List Issue → Issues
todo_issues add_visible list [] = if add_visible then nothing else all_completed
todo_issues add_visible list (issue ∷ issues) = items list (issue ∷ issues)

-- What is shown: a heading, the button, the inbox with its size (and its issues if it is expanded),
-- a line with the size of the user's own list, the issues, and the toast.
pub record Section : Type 0 where
  pub size : ℕ
  pub expanded : Bool
  pub issues : Option Issues

pub record View : Type 0 where
  pub heading : String
  pub add_button : Option String
  pub inbox : Option Section
  pub separator : Option (ℕ × Bool)
  pub todos : Option Issues
  pub toast : Option Toast

-- `render` once the lists of the chosen state are known
unfoldable pub render_lists :
    Bool → Props → State → String → String → List Issue → List Issue → View
unfolding todo_issues
render_lists add_visible props state heading add_button todos inbox_list = record {
  heading = heading;
  add_button = if str_eq state.list my_list_name then some add_button else none;
  inbox =
      if not (is_nil inbox_list)
      then some (record {
        size = length inbox_list;
        expanded = state.show_inbox;
        issues =
            if state.show_inbox
            then some (todo_issues add_visible in_list_name inbox_list)
            else none;
      })
      else none;
  separator =
      if not (is_nil inbox_list) && not (is_nil todos)
      then some (length todos, state.show_my)
      else none;
  todos =
      if is_nil inbox_list || (state.show_my && not (is_nil todos))
      then some (todo_issues add_visible state.list todos)
      else none;
  toast = props.todo_toast;
}

-- The `switch` of `render`. `none` where the length of an undefined list is read.
unfoldable pub render : Bool → Props → State → Option View
unfolding render_lists
render add_visible props state =
    if str_eq state.list my_list_name
    then elim props.in_issues [
      | none ↦ none
      | some inbox_list ↦ elim props.my_issues [
        | none ↦ none
        | some todos ↦
            some (render_lists add_visible props state "My Todos" "Add Todo" todos inbox_list)
      ]
    ]
    else if str_eq state.list out_list_name
    then elim props.out_issues [
      | none ↦ none
      | some todos ↦
          some (
            render_lists add_visible props state "Sent Todos" "Request a Todo from someone" todos
              [])
    ]
    else some (render_lists add_visible props state "My Todos" "" [] [])
