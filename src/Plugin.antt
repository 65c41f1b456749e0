-- ===== src/Plugin.antt =====
-- webapp/src/index.js: what the plugin registers with the web app, and its callbacks as effects.
-- The web app's `showRHSPlugin` and `toggleRHSPlugin` are its own actions; a callback that
-- dispatches one says which.
pub mod Activity
pub mod PostMenu
use okrbest_plugin_todo.Common.{
  String, ℕ, ◌+◌, Bool, true, false, Option, none, some, List, [], ◌∷◌, ◌++◌, ltb, concat,
  if◌then◌else◌,
}
use okrbest_plugin_todo.Model.{plugin_id, ShowRhs, show_rhs_plugin}
use okrbest_plugin_todo.Actions.{
  Effect, call, open_add_card, set_show_rhs_action, set_hide_team_sidebar, fetch_all_issue_lists,
  update_config,
}

-- What a callback hands to the store.
pub data Dispatch : Type 0 where
  own : Effect → Dispatch
  host_show_rhs host_toggle_rhs : Dispatch

-- `initialize`, in its order
unfoldable pub initialize : List Dispatch
initialize =
    own (set_show_rhs_action show_rhs_plugin)
    ∷ own (call (fetch_all_issue_lists true))
    ∷ own (call update_config)
    ∷ []

-- The entry `Add Todo` of a post's menu. The result of `telemetry(…)` is a function that is not
-- dispatched, so nothing comes of it.
unfoldable pub post_action : String → List Dispatch
post_action post_id = own (open_add_card post_id) ∷ host_show_rhs ∷ []

-- the button in the channel's header, whose `telemetry(…)` is not dispatched either, and the one in
-- the app bar
unfoldable pub channel_header_action : List Dispatch
channel_header_action = host_toggle_rhs ∷ []

unfoldable pub app_bar_action : List Dispatch
app_bar_action = host_toggle_rhs ∷ []

-- the event `refresh` of the web socket, and a reconnection
unfoldable pub refresh : List Dispatch
refresh = own (call (fetch_all_issue_lists false)) ∷ []

-- the event `config_update` of the web socket
unfoldable pub config_update : Bool → List Dispatch
config_update hide_team_sidebar = own (set_hide_team_sidebar hide_team_sidebar) ∷ []

abbrev pub refresh_event : String
refresh_event = concat ("custom_" ∷ plugin_id ∷ "_refresh" ∷ [])

abbrev pub config_update_event : String
config_update_event = concat ("custom_" ∷ plugin_id ∷ "_config_update" ∷ [])

-- `Number.MAX_SAFE_INTEGER`, and one hour in milliseconds
abbrev pub max_safe_integer : ℕ
max_safe_integer = 9007199254740991

abbrev pub activity_timeout : ℕ
activity_timeout = 3600000

-- `activityFunc` at a time `now`, with `lastActivityTime`: the test is `now - last > timeout`
-- between integers.
unfoldable pub activity : ℕ → ℕ → List Dispatch × ℕ
activity last now = (
  if ltb (last + activity_timeout) now then own (call (fetch_all_issue_lists true)) ∷ [] else [],
  now,
)
