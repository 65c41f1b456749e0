-- ===== src/SidebarButtons.antt =====
-- webapp/src/components/sidebar_buttons, webapp/src/components/team_sidebar and
-- webapp/src/components/channel_header_button: the buttons that open the right-hand side.
use okrbest_plugin_todo.Common.{
  String, ℕ, Bool, false, not, ◌||◌, Option, none, some, List, [], ◌∷◌, ltb, length, or_else,
  concat, if◌then◌else◌,
}
use okrbest_plugin_todo.Model.{Issue, ShowRhs}
use okrbest_plugin_todo.Constants.{in_list_name, out_list_name}
use okrbest_plugin_todo.Selectors.{GlobalState, is_team_sidebar_visible, is_rhs_visible}
use okrbest_plugin_todo.Actions.{undefined, Effect, call, telemetry, update_rhs_state}

-- What a click does: effects, and then the stored callback that shows the right-hand side. Without a
-- stored callback the call of null throws.
pub record Opened : Type 0 where
  pub effects : List Effect
  pub shows : Option ShowRhs

-- `openRHS`
unfoldable pub open_rhs : String → Option ShowRhs → Opened
open_rhs rhs_state show_rhs_plugin = record {
  effects = update_rhs_state rhs_state ∷ [];
  shows = show_rhs_plugin;
}

pub data Button : Type 0 where
  my_todos incoming_todos outgoing_todos : Button

-- the event of the telemetry, and the list that is opened
abbrev pub event_name : Button → String
event_name my_todos = "click_lhs_my"
event_name incoming_todos = "click_lhs_in"
event_name outgoing_todos = "click_lhs_out"

abbrev pub opens : Button → String
opens my_todos = in_list_name
opens incoming_todos = in_list_name
opens outgoing_todos = out_list_name

unfoldable pub click : Button → Option ShowRhs → Opened
unfolding open_rhs
click b show_rhs_plugin =
    let opened = open_rhs (opens b) show_rhs_plugin in
    record opened { effects = call (telemetry (event_name b) undefined) ∷ opened.effects }

-- The number that a button shows; `none` if its list is undefined, whose length throws.
unfoldable pub count :
    Button → Option (List Issue) → Option (List Issue) → Option (List Issue) → Option ℕ
count my_todos my_issues in_issues out_issues = elim my_issues [
  | none ↦ none
  | some l ↦ some (length l)
]
count incoming_todos my_issues in_issues out_issues = elim in_issues [
  | none ↦ none
  | some l ↦ some (length l)
]
count outgoing_todos my_issues in_issues out_issues = elim out_issues [
  | none ↦ none
  | some l ↦ some (length l)
]

-- `mapStateToProps` and `render` of the team sidebar: whether it shows the buttons
unfoldable pub team_sidebar_shown : GlobalState → Bool
team_sidebar_shown state =
    let show = ltb 1 (length (or_else state.my_members [])) in
    not (not show || not (is_team_sidebar_visible state))

-- `ChannelHeaderButton`
unfoldable pub channel_header_class : GlobalState → String
channel_header_class state =
    if or_else (is_rhs_visible state) false
    then concat ("icon fa fa-list" ∷ " todo-plugin-icon--active" ∷ [])
    else "icon fa fa-list"
