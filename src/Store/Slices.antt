-- ===== src/Store/Slices.antt =====
-- What each slice of the state holds after a sequence of dispatches: webapp/src/reducer.js.
use okrbest_plugin_todo.Common.{
  String, Bool, true, false, Option, none, some, List, [], ◌∷◌, ◌≡◌, refl, or_else, arith,
}
use okrbest_plugin_todo.Model.{AllIssues, User, Toast, ShowRhs}
use okrbest_plugin_todo.Store.{
  PluginState, Action, open_add_card, close_add_card, open_assignee_modal, close_assignee_modal,
  open_todo_toast, close_todo_toast, get_assignee, remove_assignee, set_editing_todo,
  remove_editing_todo, get_all_issues, received_show_rhs_action, update_rhs_state, set_rhs_visible,
  set_hide_team_sidebar_buttons, reducer, dispatch_all,
}

-- The last value that a sequence of actions writes, if any of them writes.
abbrev pub last_write {ℓ} : {V : Type ℓ} → (Action → Option V) → List Action → Option V
last_write w [] = none
last_write w (a ∷ acts) = elim (last_write w acts) [ none ↦ w a | some v ↦ some v ]

module _ {ℓ} {V : Type ℓ} (slice : PluginState → V) (w : Action → Option V) where
  -- A slice that each action overwrites or keeps holds what was written to it last.
  slice_latest :
      ((s : PluginState) (a : Action) → slice (reducer s a) ≡ or_else (w a) (slice s))
      → (s : PluginState) (acts : List Action)
      → slice (dispatch_all s acts) ≡ or_else (last_write w acts) (slice s)
  slice_latest h s [] = refl
  slice_latest h s (a ∷ acts) = ground (arith, slice_latest h (reducer s a) acts, h s a)

-- What an action writes to each slice, if anything.
abbrev pub writes_current_assignee : Action → Option (Option User)
writes_current_assignee (get_assignee u) = some (some u)
writes_current_assignee remove_assignee = some none
writes_current_assignee _ = none

abbrev pub writes_add_card_visible : Action → Option Bool
writes_add_card_visible (open_add_card _) = some true
writes_add_card_visible close_add_card = some false
writes_add_card_visible _ = none

abbrev pub writes_assignee_modal_visible : Action → Option Bool
writes_assignee_modal_visible open_assignee_modal = some true
writes_assignee_modal_visible close_assignee_modal = some false
writes_assignee_modal_visible _ = none

abbrev pub writes_todo_toast : Action → Option (Option Toast)
writes_todo_toast (open_todo_toast t) = some (some t)
writes_todo_toast close_todo_toast = some none
writes_todo_toast _ = none

abbrev pub writes_editing_todo : Action → Option (Option String)
writes_editing_todo (set_editing_todo i) = some (some i)
writes_editing_todo remove_editing_todo = some none
writes_editing_todo _ = none

abbrev pub writes_post_id : Action → Option String
writes_post_id (open_add_card i) = some i
writes_post_id close_add_card = some ""
writes_post_id _ = none

abbrev pub writes_all_issues : Action → Option AllIssues
writes_all_issues (get_all_issues d) = d
writes_all_issues _ = none

abbrev pub writes_rhs_state : Action → Option String
writes_rhs_state (update_rhs_state s) = some s
writes_rhs_state _ = none

abbrev pub writes_rhs_plugin_action : Action → Option (Option ShowRhs)
writes_rhs_plugin_action (received_show_rhs_action r) = some (some r)
writes_rhs_plugin_action _ = none

abbrev pub writes_is_rhs_visible : Action → Option Bool
writes_is_rhs_visible (set_rhs_visible b) = some b
writes_is_rhs_visible _ = none

abbrev pub writes_is_team_sidebar_hidden : Action → Option Bool
writes_is_team_sidebar_hidden (set_hide_team_sidebar_buttons b) = some b
writes_is_team_sidebar_hidden _ = none

-- Every slice of `t` is what `acts` wrote to it last, or what it was in `s`.
pub record IsLatest (s : PluginState) (acts : List Action) (t : PluginState) : Type 0 where
  pub current_assignee :
      t.current_assignee ≡ or_else (last_write writes_current_assignee acts) s.current_assignee
  pub add_card_visible :
      t.add_card_visible ≡ or_else (last_write writes_add_card_visible acts) s.add_card_visible
  pub assignee_modal_visible :
      t.assignee_modal_visible
      ≡ or_else (last_write writes_assignee_modal_visible acts) s.assignee_modal_visible
  pub todo_toast : t.todo_toast ≡ or_else (last_write writes_todo_toast acts) s.todo_toast
  pub editing_todo : t.editing_todo ≡ or_else (last_write writes_editing_todo acts) s.editing_todo
  pub post_id : t.post_id ≡ or_else (last_write writes_post_id acts) s.post_id
  pub all_issues : t.all_issues ≡ or_else (last_write writes_all_issues acts) s.all_issues
  pub rhs_state : t.rhs_state ≡ or_else (last_write writes_rhs_state acts) s.rhs_state
  pub rhs_plugin_action :
      t.rhs_plugin_action ≡ or_else (last_write writes_rhs_plugin_action acts) s.rhs_plugin_action
  pub is_rhs_visible :
      t.is_rhs_visible ≡ or_else (last_write writes_is_rhs_visible acts) s.is_rhs_visible
  pub is_team_sidebar_hidden :
      t.is_team_sidebar_hidden
      ≡ or_else (last_write writes_is_team_sidebar_hidden acts) s.is_team_sidebar_hidden

reducer_current_assignee :
    (s : PluginState) (a : Action)
    → (reducer s a).current_assignee ≡ or_else (writes_current_assignee a) s.current_assignee
unfolding reducer
reducer_current_assignee s (get_assignee u) = refl
reducer_current_assignee s _ = refl

reducer_add_card_visible :
    (s : PluginState) (a : Action)
    → (reducer s a).add_card_visible ≡ or_else (writes_add_card_visible a) s.add_card_visible
unfolding reducer
reducer_add_card_visible s (open_add_card _) = refl
reducer_add_card_visible s _ = refl

reducer_assignee_modal_visible :
    (s : PluginState) (a : Action)
    → (reducer s a).assignee_modal_visible
      ≡ or_else (writes_assignee_modal_visible a) s.assignee_modal_visible
unfolding reducer
reducer_assignee_modal_visible s open_assignee_modal = refl
reducer_assignee_modal_visible s _ = refl

reducer_todo_toast :
    (s : PluginState) (a : Action)
    → (reducer s a).todo_toast ≡ or_else (writes_todo_toast a) s.todo_toast
unfolding reducer
reducer_todo_toast s (open_todo_toast t) = refl
reducer_todo_toast s _ = refl

reducer_editing_todo :
    (s : PluginState) (a : Action)
    → (reducer s a).editing_todo ≡ or_else (writes_editing_todo a) s.editing_todo
unfolding reducer
reducer_editing_todo s (set_editing_todo i) = refl
reducer_editing_todo s _ = refl

reducer_post_id :
    (s : PluginState) (a : Action) → (reducer s a).post_id ≡ or_else (writes_post_id a) s.post_id
unfolding reducer
reducer_post_id s (open_add_card i) = refl
reducer_post_id s _ = refl

reducer_all_issues :
    (s : PluginState) (a : Action)
    → (reducer s a).all_issues ≡ or_else (writes_all_issues a) s.all_issues
unfolding reducer
reducer_all_issues s (get_all_issues d) = refl
reducer_all_issues s _ = refl

reducer_rhs_state :
    (s : PluginState) (a : Action)
    → (reducer s a).rhs_state ≡ or_else (writes_rhs_state a) s.rhs_state
unfolding reducer
reducer_rhs_state s (update_rhs_state r) = refl
reducer_rhs_state s _ = refl

reducer_rhs_plugin_action :
    (s : PluginState) (a : Action)
    → (reducer s a).rhs_plugin_action ≡ or_else (writes_rhs_plugin_action a) s.rhs_plugin_action
unfolding reducer
reducer_rhs_plugin_action s (received_show_rhs_action r) = refl
reducer_rhs_plugin_action s _ = refl

reducer_is_rhs_visible :
    (s : PluginState) (a : Action)
    → (reducer s a).is_rhs_visible ≡ or_else (writes_is_rhs_visible a) s.is_rhs_visible
unfolding reducer
reducer_is_rhs_visible s (set_rhs_visible b) = refl
reducer_is_rhs_visible s _ = refl

reducer_is_team_sidebar_hidden :
    (s : PluginState) (a : Action)
    → (reducer s a).is_team_sidebar_hidden
      ≡ or_else (writes_is_team_sidebar_hidden a) s.is_team_sidebar_hidden
unfolding reducer
reducer_is_team_sidebar_hidden s (set_hide_team_sidebar_buttons b) = refl
reducer_is_team_sidebar_hidden s _ = refl

-- After any dispatches from any state, each of the eleven slices holds the value written to it by
-- the last action that writes to it, and its old value if none does.
pub dispatch_all-IsLatest :
    (s : PluginState) (acts : List Action) → IsLatest s acts (dispatch_all s acts)
dispatch_all-IsLatest s acts = record {
  current_assignee =
      slice_latest (λ t. t.current_assignee) writes_current_assignee reducer_current_assignee s
        acts;
  add_card_visible =
      slice_latest (λ t. t.add_card_visible) writes_add_card_visible reducer_add_card_visible s
        acts;
  assignee_modal_visible =
      slice_latest (λ t. t.assignee_modal_visible) writes_assignee_modal_visible
        reducer_assignee_modal_visible s acts;
  todo_toast = slice_latest (λ t. t.todo_toast) writes_todo_toast reducer_todo_toast s acts;
  editing_todo = slice_latest (λ t. t.editing_todo) writes_editing_todo reducer_editing_todo s acts;
  post_id = slice_latest (λ t. t.post_id) writes_post_id reducer_post_id s acts;
  all_issues = slice_latest (λ t. t.all_issues) writes_all_issues reducer_all_issues s acts;
  rhs_state = slice_latest (λ t. t.rhs_state) writes_rhs_state reducer_rhs_state s acts;
  rhs_plugin_action =
      slice_latest (λ t. t.rhs_plugin_action) writes_rhs_plugin_action reducer_rhs_plugin_action s
        acts;
  is_rhs_visible =
      slice_latest (λ t. t.is_rhs_visible) writes_is_rhs_visible reducer_is_rhs_visible s acts;
  is_team_sidebar_hidden =
      slice_latest (λ t. t.is_team_sidebar_hidden) writes_is_team_sidebar_hidden
        reducer_is_team_sidebar_hidden s acts;
}
