-- ===== src/ActionTypes.antt =====
-- webapp/src/action_types.js
use okrbest_plugin_todo.Common.{
  String, Option, none, some, List, [], ◌∷◌, ◌≡◌, refl, sym, ap, ◌∙◌, concat, str_eq, if◌then◌else◌,
}
use mathlib.Core.Option.{some-injective}
use okrbest_plugin_todo.Model.{plugin_id}

pub data ActionType : Type 0 where
  open_root_modal close_root_modal open_add_card close_add_card : ActionType
  open_assignee_modal close_assignee_modal open_todo_toast close_todo_toast : ActionType
  get_assignee set_editing_todo remove_editing_todo remove_assignee get_all_issues : ActionType
  received_show_rhs_action update_rhs_state set_rhs_visible : ActionType
  set_hide_team_sidebar_buttons : ActionType

-- what follows the plugin's id in the text of a constant
suffix : ActionType → String
suffix open_root_modal = "_open_root_modal"
suffix close_root_modal = "_close_root_modal"
suffix open_add_card = "_open_add_card"
suffix close_add_card = "_close_add_card"
suffix open_assignee_modal = "_open_assignee_modal"
suffix close_assignee_modal = "_close_assignee_modal"
suffix open_todo_toast = "_open_todo_toast"
suffix close_todo_toast = "_close_todo_toast"
suffix get_assignee = "_get_assignee"
suffix set_editing_todo = "_set_editing_todo"
suffix remove_editing_todo = "_remove_editing_todo"
suffix remove_assignee = "_remove_assignee"
suffix get_all_issues = "_get_all_issues"
suffix received_show_rhs_action = "_show_rhs"
suffix update_rhs_state = "_update_rhs_state"
suffix set_rhs_visible = "_set_rhs_visible"
suffix set_hide_team_sidebar_buttons = "_set_hide_team_sidebar"

-- The text in an action's `type`, by which the reducers tell actions apart.
unfoldable pub type_name : ActionType → String
unfolding suffix
type_name t = concat (plugin_id ∷ suffix t ∷ [])

abbrev all_types : List ActionType
all_types =
    open_root_modal ∷ close_root_modal ∷ open_add_card ∷ close_add_card ∷ open_assignee_modal
    ∷ close_assignee_modal ∷ open_todo_toast ∷ close_todo_toast ∷ get_assignee ∷ set_editing_todo
    ∷ remove_editing_todo ∷ remove_assignee ∷ get_all_issues ∷ received_show_rhs_action
    ∷ update_rhs_state ∷ set_rhs_visible ∷ set_hide_team_sidebar_buttons ∷ []

first_named : String → List ActionType → Option ActionType
first_named s [] = none
first_named s (t ∷ ts) = if str_eq (type_name t) s then some t else first_named s ts

-- A text names at most one type: searching the table for a type's text gives back the type.
first_named-type_name : (t : ActionType) → first_named (type_name t) all_types ≡ some t
unfolding first_named type_name
first_named-type_name open_root_modal = refl
first_named-type_name _ = refl

-- Two action types with the same text are the same, so no reducer takes one action for another.
pub type_name-injective : (t u : ActionType) → type_name t ≡ type_name u → t ≡ u
type_name-injective t u e =
    some-injective t u (
      sym (first_named-type_name t) ∙ ap (λ s. first_named s all_types) e ∙ first_named-type_name u)
