-- ===== src/AddIssue.antt =====
-- webapp/src/components/add_issue: the card on which an issue is written. An event handler gives
-- the state that `setState` asks for and the effects of the bound action creators; React applies
-- both before it renders again, and `getDerivedStateFromProps` runs before each rendering.
pub mod Derived
pub mod Mapping
pub mod Submitting
pub mod Typing
use package.text.Mathlib.Text.{find?}
use mathlib.Core.Option
use okrbest_plugin_todo.Common.{
  String, ℕ, Bool, true, false, not, ◌&&◌, ◌||◌, Option, none, some, List, [], ◌∷◌, truthy, truthy?,
  str_eq, is_some, or_else, concat, if◌then◌else◌,
}
use okrbest_plugin_todo.Model.{User}
use okrbest_plugin_todo.Selectors.{
  GlobalState, get_post_id, get_message, get_assignee, get_current_team_route, is_add_card_visible,
}
use okrbest_plugin_todo.Actions
use okrbest_plugin_todo.Actions.{
  Value, undefined, null, text, Call, add, Effect, call, World, perform_all, remove_assignee,
  close_add_card, open_assignee_modal,
}

-- What comes from the store, and `closeAddBox` and the rest as effects.
pub record Props : Type 0 where
  pub visible : Bool
  pub message : String
  pub post_permalink : String
  pub post_id : String
  pub assignee : Option User

-- `sendTo` is null at first and undefined once a selection is cleared.
pub record State : Type 0 where
  pub message : String
  pub post_permalink : String
  pub description : String
  pub send_to : Value
  pub attach_to_thread : Bool
  pub preview_markdown : Bool
  pub assignee_modal : Bool
  pub is_typing : Bool

abbrev pub truthy_value : Value → Bool
truthy_value undefined = false
truthy_value null = false
truthy_value (text s) = truthy s
truthy_value (Actions.object _) = true

-- the post's permalink, if the card has a post; `none` if the route cannot be made
permalink : (String → Option String) → GlobalState → String → Option String
permalink pathname state post_id =
    if truthy post_id
    then Option.map (λ route. concat (route ∷ "pl/" ∷ post_id ∷ []))
        (get_current_team_route pathname state)
    else some ""

-- `mapStateToProps`
unfoldable pub map_state_to_props : (String → Option String) → GlobalState → Option Props
unfolding permalink
map_state_to_props pathname state =
    let id = or_else (get_post_id state) "" in
    Option.map
      (λ post_permalink. record {
        visible = or_else (is_add_card_visible state) false;
        message = get_message state;
        post_permalink = post_permalink;
        post_id = id;
        assignee = get_assignee state;
      })
      (permalink pathname state id)

-- `constructor`
unfoldable pub new : Props → State
new props = record {
  message = props.message;
  post_permalink = props.post_permalink;
  description = "";
  send_to = null;
  attach_to_thread = false;
  preview_markdown = false;
  assignee_modal = false;
  is_typing = false;
}

-- `getDerivedStateFromProps`, with what it returns put into the state
unfoldable pub derived : Props → State → State
derived props state =
    if state.is_typing
    then state
    else if props.visible
        && (not (str_eq props.message state.message)
            || not (str_eq props.post_permalink state.post_permalink))
    then record state { message = props.message; post_permalink = props.post_permalink }
    else if not props.visible && (truthy state.message || truthy_value state.send_to)
    then record state {
      message = "";
      post_permalink = "";
      send_to = null;
      attach_to_thread = false;
      preview_markdown = false;
    }
    else state

unfoldable pub handle_attach_change : Bool → State → State
handle_attach_change true state =
    if state.attach_to_thread then state else record state { attach_to_thread = true }
handle_attach_change false state =
    if state.attach_to_thread then record state { attach_to_thread = false } else state

unfoldable pub close : List Effect
close = remove_assignee ∷ close_add_card ∷ []

-- the call that `submit` makes; an argument that is left out is undefined
unfoldable pub submitted : Props → State → Call
submitted props state =
    if state.attach_to_thread
    then elim props.assignee [
      | some a ↦
          add state.message (text state.post_permalink) (text state.description) (text a.username)
            (text props.post_id)
      | none ↦
          add state.message (text state.post_permalink) (text state.description) state.send_to
            (text props.post_id)
    ]
    else elim props.assignee [
      | some a ↦
          add state.message (text state.post_permalink) (text state.description) (text a.username)
            undefined
      | none ↦
          add state.message (text state.post_permalink) (text state.description) undefined undefined
    ]

unfoldable pub submit : Props → State → State × List Effect
unfolding submitted
submit props state = (
  record state { message = ""; description = ""; post_permalink = ""; is_typing = false },
  call (submitted props state) ∷ remove_assignee ∷ close_add_card ∷ [],
)

unfoldable pub toggle_assignee_modal : Bool → State → State
toggle_assignee_modal value state = record state { assignee_modal = value }

-- `onKeyDown`: the two tests are made one after the other
unfoldable pub on_key_down : String → Bool → Props → State → State × List Effect
unfolding submit close
on_key_down key shift_key props state =
    if str_eq key "Enter" && not shift_key
    then submit props state
    else if str_eq key "Escape"
    then (state, close)
    else (state, [])

unfoldable pub handle_message_change : String → State → State
handle_message_change value state = record state { message = value; is_typing = true }

unfoldable pub handle_description_change : String → State → State
handle_description_change value state = record state { description = value; is_typing = true }

-- `selected?.username`
unfoldable pub on_selected : Option User → State → State
on_selected none state = record state { send_to = undefined }
on_selected (some selected) state = record state { send_to = text selected.username }

-- The message as it is shown: with the permalink behind it, unless it is in it already.
unfoldable pub formatted_message : State → String
formatted_message state =
    if is_some (find? state.message (concat ("[Permalink](" ∷ state.post_permalink ∷ ")" ∷ [])))
    then state.message
    else if truthy state.post_permalink
    then concat (state.message ∷ "\n[Permalink](" ∷ state.post_permalink ∷ ")" ∷ [])
    else state.message

-- What `render` shows: the preview or the two fields, the checkbox if there is a post, the
-- assignee or the chip that opens the modal, and the button `Save`, which may be disabled.
pub data Content : Type 0 where
  preview : String → Content
  fields : String → String → Content

pub record View : Type 0 where
  pub content : Content
  pub attach_checkbox : Option Bool
  pub assignee_shown : Option User
  pub selector_shown : Bool
  pub save_disabled : Bool

unfoldable pub render : Props → State → Option View
unfolding formatted_message
render props state =
    if not props.visible
    then none
    else some (record {
      content =
          if state.preview_markdown
          then preview (formatted_message state)
          else fields (formatted_message state) state.description;
      attach_checkbox = if truthy props.post_id then some state.attach_to_thread else none;
      assignee_shown = props.assignee;
      selector_shown = state.assignee_modal;
      save_disabled = not (truthy state.message);
    })

-- The events of the card, and those outside it that change its props.
pub data Event : Type 0 where
  attach_change : Bool → Event
  message_change description_change : String → Event
  selected : Option User → Event
  key_down : String → Bool → Event
  click_save click_cancel click_assignee close_selector : Event
  elsewhere : List Effect → Event

unfoldable pub handle : Event → Props → State → State × List Effect
unfolding handle_attach_change handle_message_change handle_description_change on_selected
    on_key_down submit close toggle_assignee_modal
handle (attach_change value) props state = (handle_attach_change value state, [])
handle (message_change value) props state = (handle_message_change value state, [])
handle (description_change value) props state = (handle_description_change value state, [])
handle (selected user) props state = (on_selected user state, [])
handle (key_down key shift_key) props state = on_key_down key shift_key props state
handle click_save props state = if truthy state.message then submit props state else (state, [])
handle click_cancel props state = (state, close)
handle click_assignee props state = (state, open_assignee_modal ∷ [])
handle close_selector props state = (toggle_assignee_modal false state, [])
handle (elsewhere effects) props state = (state, effects)

-- The mounted card with the world around it.
pub record Card : Type 0 where
  pub world : World
  pub state : State

-- The effects of an event, and the rendering after them.
unfoldable pub settle : (String → Option String) → World → State × List Effect → Option Card
unfolding derived
settle pathname w (state, effects) =
    let world = perform_all pathname w effects in
    Option.map (λ props. record { world = world; state = derived props state })
      (map_state_to_props pathname world.state)

-- One event, from the props that the card has; `none` if props cannot be made.
unfoldable pub step : (String → Option String) → Card → Event → Option Card
unfolding handle settle
step pathname c e = elim (map_state_to_props pathname c.world.state) [
  | none ↦ none
  | some props ↦ settle pathname c.world (handle e props c.state)
]
