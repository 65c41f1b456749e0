-- ===== src/Actions.antt =====
-- webapp/src/actions.js: the action creators, and the world that they act on. A creator that only
-- dispatches gives an `Effect`; one that calls the server gives an `Effect` too, whose request is
-- made from the state at the time of the call. What the server answers arrives later.
pub mod Replies
pub mod Requests
use okrbest_plugin_todo.Common.{
  String, ℕ, Bool, true, false, Option, none, some, List, [], ◌∷◌, ◌++◌, foldl, concat, or_else,
  nat_eq, keep, if◌then◌else◌,
}
use okrbest_plugin_todo.Model.{AllIssues, User, Toast, ShowRhs}
use okrbest_plugin_todo.Store
use okrbest_plugin_todo.Store.{Action, PluginState, initial, reducer}
use okrbest_plugin_todo.Selectors.{GlobalState, get_plugin_server_route}

-- A value in a request's body. `JSON.stringify` leaves a property out that is undefined.
pub data Value : Type 0 where
  undefined null : Value
  text : String → Value
  object : List (String × String) → Value

-- The calls of the server, with the arguments of their creators.
pub data Call : Type 0 where
  telemetry : String → Value → Call
  add : String → Value → Value → Value → Value → Call
  edit_issue : String → String → Value → Call
  change_assignee : String → String → Call
  fetch_all_issue_lists : Bool → Call
  remove complete accept bump : String → Call
  update_config : Call

pub record Request : Type 0 where
  pub url : String
  pub method : String
  pub body : Option (List (String × Value))

pub data Effect : Type 0 where
  dispatch : Action → Effect
  call : Call → Effect

unfoldable pub open_add_card : String → Effect
open_add_card post_id = dispatch (Store.open_add_card post_id)

unfoldable pub close_add_card : Effect
close_add_card = dispatch Store.close_add_card

unfoldable pub open_todo_toast : Toast → Effect
open_todo_toast message = dispatch (Store.open_todo_toast message)

unfoldable pub close_todo_toast : Effect
close_todo_toast = dispatch Store.close_todo_toast

unfoldable pub get_assignee : User → Effect
get_assignee assignee = dispatch (Store.get_assignee assignee)

unfoldable pub remove_assignee : Effect
remove_assignee = dispatch Store.remove_assignee

unfoldable pub set_editing_todo : String → Effect
set_editing_todo issue_id = dispatch (Store.set_editing_todo issue_id)

unfoldable pub remove_editing_todo : Effect
remove_editing_todo = dispatch Store.remove_editing_todo

unfoldable pub open_assignee_modal : Effect
open_assignee_modal = dispatch Store.open_assignee_modal

unfoldable pub close_assignee_modal : Effect
close_assignee_modal = dispatch Store.close_assignee_modal

unfoldable pub set_show_rhs_action : ShowRhs → Effect
set_show_rhs_action show = dispatch (Store.received_show_rhs_action show)

unfoldable pub set_rhs_visible : Bool → Effect
set_rhs_visible payload = dispatch (Store.set_rhs_visible payload)

unfoldable pub update_rhs_state : String → Effect
update_rhs_state rhs_state = dispatch (Store.update_rhs_state rhs_state)

unfoldable pub set_hide_team_sidebar : Bool → Effect
set_hide_team_sidebar payload = dispatch (Store.set_hide_team_sidebar_buttons payload)

-- what a call sends, below the plugin's route: path, method and body
abbrev bool_text : Bool → String
bool_text true = "true"
bool_text false = "false"

unfoldable pub path : Call → String
path (telemetry _ _) = "/telemetry"
path (add _ _ _ _ _) = "/add"
path (edit_issue _ _ _) = "/edit"
path (change_assignee _ _) = "/change_assignment"
path (fetch_all_issue_lists reminder) = concat ("/lists?reminder=" ∷ bool_text reminder ∷ [])
path (remove _) = "/remove"
path (complete _) = "/complete"
path (accept _) = "/accept"
path (bump _) = "/bump"
path update_config = "/config"

unfoldable pub method : Call → String
method (edit_issue _ _ _) = "put"
method (fetch_all_issue_lists _) = "get"
method update_config = "get"
method _ = "post"

unfoldable pub body : Call → Option (List (String × Value))
body (telemetry event properties) = some (("event", text event) ∷ ("properties", properties) ∷ [])
body (add message post_permalink description send_to post_id) = some (
    ("send_to", send_to)
    ∷ ("message", text message)
    ∷ ("postPermalink", post_permalink)
    ∷ ("description", description)
    ∷ ("post_id", post_id)
    ∷ [])
body (edit_issue post_id message description) =
    some (("id", text post_id) ∷ ("message", text message) ∷ ("description", description) ∷ [])
body (change_assignee id assignee) = some (("id", text id) ∷ ("send_to", text assignee) ∷ [])
body (fetch_all_issue_lists _) = none
body (remove id) = some (("id", text id) ∷ [])
body (complete id) = some (("id", text id) ∷ [])
body (accept id) = some (("id", text id) ∷ [])
body (bump id) = some (("id", text id) ∷ [])
body update_config = none

-- The web app's state and the requests sent so far, the latest last.
pub record World : Type 0 where
  pub state : GlobalState
  pub requests : List Request

-- A dispatch reaches the plugin's reducer, which makes its state from the defaults at first.
unfoldable pub dispatched : GlobalState → Action → GlobalState
dispatched state a = record state { plugin = some (reducer (or_else state.plugin initial) a) }

module _ (pathname : String → Option String) where
  -- `none` where the route cannot be made: the creator's promise is rejected and nothing is sent.
  unfoldable pub request : GlobalState → Call → Option Request
  unfolding path method body
  request state c = elim (get_plugin_server_route pathname state) [
    | none ↦ none
    | some route ↦
        some (record { url = concat (route ∷ path c ∷ []); method = method c; body = body c })
  ]

  unfoldable pub perform : World → Effect → World
  unfolding dispatched
  perform w (dispatch a) = record w { state = dispatched w.state a }
  perform w (call c) = record w {
    requests = elim (request w.state c) [ none ↦ w.requests | some r ↦ w.requests ++ r ∷ [] ];
  }

  abbrev pub perform_all : World → List Effect → World
  perform_all = foldl perform

-- What comes back: `failed` if `fetch` or `json()` throws, else the parsed body, which may be null.
-- The response's status is not looked at.
pub data Reply (A : Type 0) : Type 0 where
  failed : Reply A
  json : A → Reply A

-- the second half of `fetchAllIssueLists`
unfoldable pub receive_all_issue_lists : Reply (Option AllIssues) → List Effect
receive_all_issue_lists failed = []
receive_all_issue_lists (json payload) = dispatch (Store.get_all_issues payload) ∷ []

-- the second half of `updateConfig`
unfoldable pub receive_config : Reply Bool → List Effect
unfolding set_hide_team_sidebar
receive_config failed = []
receive_config (json hide_team_sidebar) = set_hide_team_sidebar hide_team_sidebar ∷ []

-- `autocompleteUsers` after the host's answer; with no users in it the property access throws
unfoldable pub autocomplete_users : Option (List User) → Option (List User)
autocomplete_users none = none
autocomplete_users (some users) = some (keep (λ (user : User). nat_eq user.delete_at 0) users)
