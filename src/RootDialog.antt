-- ===== src/RootDialog.antt =====
-- webapp/src/components/root: an older dialog that adds an issue. It closes by `closeRootModal`,
-- which webapp/src/actions.js does not export: `bindActionCreators` leaves it out, and calling it
-- throws.
pub mod Filling
use mathlib.Core.Option
use okrbest_plugin_todo.Common.{
  String, Bool, true, false, not, ◌&&◌, ◌||◌, Option, none, some, List, [], ◌∷◌, truthy, truthy?,
  is_some, or_else, concat, if◌then◌else◌,
}
use okrbest_plugin_todo.Store.{PluginState}
use okrbest_plugin_todo.Selectors.{
  GlobalState, is_root_modal_visible, get_message, get_post_id, get_current_team_route,
}
use okrbest_plugin_todo.Model.{User}
use okrbest_plugin_todo.Actions.{Value, undefined, null, text, object, Call, add}

pub record Props : Type 0 where
  pub visible : Bool
  pub message : String
  pub post_id : Option String

-- `message` and `sendTo` may be null; `sendTo` is undefined once a selection is cleared.
pub record State : Type 0 where
  pub message : Option String
  pub send_to : Value
  pub attach_to_thread : Bool
  pub preview_markdown : Bool

-- the message with the post's permalink; `none` if the route cannot be made
unfoldable pub message_of : (String → Option String) → GlobalState → Option String
message_of pathname state =
    if truthy? (get_post_id state)
    then Option.map
        (λ route. concat (
          get_message state
          ∷ "\n[Permalink]("
          ∷ route
          ∷ "pl/"
          ∷ or_else (get_post_id state) ""
          ∷ ")"
          ∷ []))
        (get_current_team_route pathname state)
    else some (get_message state)

-- `mapStateToProps`
unfoldable pub map_state_to_props :
    (PluginState → Bool) → (String → Option String) → GlobalState → Option Props
unfolding message_of
map_state_to_props root_modal_visible pathname state =
    Option.map
      (λ message. record {
        visible = is_root_modal_visible root_modal_visible state;
        message = message;
        post_id = get_post_id state;
      })
      (message_of pathname state)

abbrev pub new : State
new = record { message = none; send_to = null; attach_to_thread = false; preview_markdown = false }

-- `sendTo != null`, which is false of undefined too
abbrev pub is_set : Value → Bool
is_set undefined = false
is_set null = false
is_set (text _) = true
is_set (object _) = true

-- `getDerivedStateFromProps`, applied to the state
unfoldable pub derived : Props → State → State
derived props state =
    if props.visible && not (is_some state.message)
    then record state { message = some props.message }
    else if not props.visible && (is_some state.message || is_set state.send_to)
    then new
    else state

unfoldable pub handle_attach_change : Bool → State → State
handle_attach_change value state = record state { attach_to_thread = value }

abbrev value_of : Option String → Value
value_of none = undefined
value_of (some s) = text s

-- The call that `submit` makes before it closes: `add` takes the second and the third argument for
-- the permalink and the description.
unfoldable pub submit : String → Props → State → Call
submit message props state =
    if state.attach_to_thread
    then add message state.send_to (value_of props.post_id) undefined undefined
    else add message state.send_to undefined undefined undefined

-- The button is disabled while there is no message.
unfoldable pub click_add : Props → State → Option Call
unfolding submit
click_add props state = elim state.message [
  | none ↦ none
  | some message ↦ if truthy message then some (submit message props state) else none
]

pub data Event : Type 0 where
  write preview : Event
  type_message : String → Event
  select : Option User → Event
  attach : Bool → Event

-- The handlers, each with the update that follows it.
unfoldable pub step : Props → State → Event → State
unfolding derived handle_attach_change
step props state write = derived props (record state { preview_markdown = false })
step props state preview = derived props (record state { preview_markdown = true })
step props state (type_message value) = derived props (record state { message = some value })
step props state (select none) = derived props (record state { send_to = undefined })
step props state (select (some user)) =
    derived props (record state { send_to = text user.username })
step props state (attach value) = derived props (handle_attach_change value state)

pub data Content : Type 0 where
  markdown textarea : Option String → Content

-- What is shown while the dialog is visible.
pub record View : Type 0 where
  pub write_class : String
  pub preview_class : String
  pub content : Content
  pub attach_box : Option Bool
  pub add_disabled : Bool

unfoldable pub render : Props → State → Option View
render props state =
    if not props.visible
    then none
    else some (record {
      write_class = if state.preview_markdown then "btn" else "btn btn-primary";
      preview_class = if state.preview_markdown then "btn btn-primary" else "btn";
      content = if state.preview_markdown then markdown state.message else textarea state.message;
      attach_box = if truthy? props.post_id then some state.attach_to_thread else none;
      add_disabled = not (truthy? state.message);
    })
