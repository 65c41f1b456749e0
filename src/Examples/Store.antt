-- ===== src/Examples/Store.antt =====
-- The store and its action types.
use okrbest_plugin_todo.Common.{true, false, none, some, List, [], ◌∷◌, ◌≡◌, refl}
use okrbest_plugin_todo.Store.{
  Action, open_add_card, close_add_card, open_assignee_modal, update_rhs_state, get_all_issues,
  initial, reducer, dispatch_all,
}
use okrbest_plugin_todo.Store.Slices.{IsLatest, dispatch_all-IsLatest}
use okrbest_plugin_todo.ActionTypes.{ActionType, type_name}
use okrbest_plugin_todo.Selectors.{is_add_card_visible}
use okrbest_plugin_todo.Examples.Sample.{state_of}

abbrev session : List Action
session = open_add_card "p1" ∷ update_rhs_state "out" ∷ close_add_card ∷ open_assignee_modal ∷ []

session_state :
    dispatch_all initial session
    ≡ record initial { rhs_state = "out"; assignee_modal_visible = true }
unfolding reducer
session_state = refl

null_answer_keeps : dispatch_all initial (get_all_issues none ∷ []) ≡ initial
unfolding reducer
null_answer_keeps = refl

dispatch_all-IsLatest_example : IsLatest initial session (dispatch_all initial session)
dispatch_all-IsLatest_example = dispatch_all-IsLatest initial session

type_name_test : type_name ActionType.open_add_card ≡ "com.mattermost.plugin-todo_open_add_card"
unfolding type_name
type_name_test = refl

card_hidden : is_add_card_visible (state_of (dispatch_all initial session)) ≡ some false
unfolding is_add_card_visible reducer
card_hidden = refl
