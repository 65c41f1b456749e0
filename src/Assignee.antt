-- ===== src/Assignee.antt =====
-- webapp/src/components/assignee_modal, with the hook of webapp/src/hooks/useEscapeKey.ts: the
-- dialog that assigns an issue to a user, either one that is being edited or the one on the add
-- card. The form is mounted while the dialog is visible, and forgets its selection when it closes.
pub mod Assigning
pub mod Editing
use okrbest_plugin_todo.Common.{
  String, Bool, true, false, not, ◌&&◌, Option, none, some, List, [], ◌∷◌, truthy?, is_some,
  or_else, str_eq, if◌then◌else◌,
}
use okrbest_plugin_todo.Model.{User}
use okrbest_plugin_todo.Selectors.{GlobalState, is_assignee_modal_visible, get_editing_todo}
use okrbest_plugin_todo.Actions.{
  Effect, call, change_assignee, World, perform_all, remove_editing_todo, get_assignee,
  remove_assignee, close_assignee_modal, open_assignee_modal, set_editing_todo,
}

-- `mapStateToProps`
pub record Props : Type 0 where
  pub visible : Bool
  pub editing_todo : Option String

unfoldable pub map_state_to_props : GlobalState → Props
map_state_to_props state = record {
  visible = or_else (is_assignee_modal_visible state) false;
  editing_todo = get_editing_todo state;
}

-- `submit`, with the callback `close` of the props
unfoldable pub submit : Option String → Option User → List Effect
submit editing_todo none = remove_assignee ∷ close_assignee_modal ∷ []
submit none (some assignee) = get_assignee assignee ∷ close_assignee_modal ∷ []
submit (some id) (some assignee) =
    if truthy? (some id)
    then call (change_assignee id assignee.username)
      ∷ remove_editing_todo
      ∷ close_assignee_modal
      ∷ []
    else get_assignee assignee ∷ close_assignee_modal ∷ []

unfoldable pub close_modal : List Effect
close_modal = remove_editing_todo ∷ close_assignee_modal ∷ []

-- `useEscapeKey(close)`
unfoldable pub handle_keypress : String → List Effect
handle_keypress key = if str_eq key "Escape" then close_assignee_modal ∷ [] else []

-- the button `Assign` is disabled while nobody is selected
unfoldable pub assign_disabled : Option User → Bool
assign_disabled assignee = not (is_some assignee)

pub data Event : Type 0 where
  select : Option User → Event
  click_assign click_cancel click_close_icon : Event
  key_up : String → Event

-- The selection afterwards, and the effects.
unfoldable pub handle : Event → Option String → Option User → Option User × List Effect
unfolding submit close_modal handle_keypress assign_disabled
handle (select selected) editing_todo assignee = (selected, [])
handle click_assign editing_todo assignee =
    (assignee, if assign_disabled assignee then [] else submit editing_todo assignee)
handle click_cancel editing_todo assignee = (assignee, close_modal)
handle click_close_icon editing_todo assignee = (assignee, close_modal)
handle (key_up key) editing_todo assignee = (assignee, handle_keypress key)

-- The dialog in the world: `none` while it is not visible, else the form's selection.
pub record Modal : Type 0 where
  pub world : World
  pub form : Option (Option User)

-- `AssigneeModal` renders the form or nothing: a form that is mounted anew has no selection.
unfoldable pub render : Props → Option (Option User) → Option (Option User)
render props form =
    if not props.visible
    then none
    else elim form [ none ↦ some none | some selection ↦ some selection ]

module _ (pathname : String → Option String) where
  -- The effects of an event or of something elsewhere, and the rendering after them.
  unfoldable pub settle : World → Option (Option User) → List Effect → Modal
  unfolding render map_state_to_props
  settle w form effects =
      let world = perform_all pathname w effects in
      record { world = world; form = render (map_state_to_props world.state) form }

  -- An event on the form; there is none while the dialog is not visible.
  unfoldable pub step : Modal → Event → Modal
  unfolding handle settle
  step m e = elim m.form [
    | none ↦ m
    | some assignee ↦
        let handled = handle e (map_state_to_props m.world.state).editing_todo assignee in
        settle m.world (some handled.0) handled.1
  ]

  -- Effects from elsewhere, such as the two ways to open the dialog.
  unfoldable pub elsewhere : Modal → List Effect → Modal
  unfolding settle
  elsewhere m effects = settle m.world m.form effects

-- `Assign to…` on an item, `editAssignee` of webapp/src/components/todo_item/todo_item.jsx
unfoldable pub edit_assignee : String → List Effect
edit_assignee id = open_assignee_modal ∷ set_editing_todo id ∷ []

-- `Assign to…` on the add card
unfoldable pub assign_card : List Effect
assign_card = open_assignee_modal ∷ []
